-- ===== src/CLib/Block.antt =====
-- What the block functions of src/lib.c do to every byte of memory.
use mvmm.Base.{
  ℕ, zero, suc, ◌+◌, ◌-◌, ◌%◌, ◌≤◌, ◌≡◌, ◌&&◌, arith, Bool, ltb, leb, if◌then◌else◌, inl, inr,
  Bool-cases,
}
use mvmm.Memory.{Mem, write_byte}
use mvmm.CLib.{move_up, move_down, memmove, memset}

-- The address is one of the `n` bytes from `a` on.
abbrev pub in_block : ℕ → ℕ → ℕ → Bool
in_block a n b = leb a b && ltb b (a + n)

move_up_lem :
    (n : ℕ) (m : Mem) (d s b : ℕ)
    → d ≤ s
    → move_up m d s n b ≡ (if in_block d n b then m (s + (b - d)) else m b)
unfolding move_up write_byte
move_up_lem zero m d s b le = ground arith
move_up_lem (suc n) m d s b le =
    ground (arith, move_up_lem n (write_byte m d (m s)) (d + 1) (s + 1) b (omega arith))

move_down_lem :
    (n : ℕ) (m : Mem) (d s b : ℕ)
    → s ≤ d
    → move_down m d s n b ≡ (if in_block d n b then m (s + (b - d)) else m b)
unfolding move_down write_byte
move_down_lem zero m d s b le = ground arith
move_down_lem (suc n) m d s b le =
    ground (arith, move_down_lem n (write_byte m (d + n) (m (s + n))) d s b le)

-- `memmove` copies the `n` bytes as they were before the call, however the blocks overlap, and
-- changes no other byte.
pub memmove_lem :
    (m : Mem) (d s n b : ℕ) → memmove m d s n b ≡ (if in_block d n b then m (s + (b - d)) else m b)
unfolding memmove
memmove_lem m d s n b = elim (Bool-cases (ltb d s)) [
  | inl lt ↦ rw lt (move_up_lem n m d s b (ground arith))
  | inr ge ↦ rw ge (move_down_lem n m d s b (ground arith))
]

-- `memset` writes the low byte of `c` to each of the `n` bytes, and changes no other byte.
pub memset_lem :
    (n : ℕ) (m : Mem) (d c b : ℕ) → memset m d c n b ≡ (if in_block d n b then c % 256 else m b)
unfolding memset write_byte
memset_lem zero m d c b = ground arith
memset_lem (suc n) m d c b = ground (arith, memset_lem n (write_byte m d (c % 256)) (d + 1) c b)
