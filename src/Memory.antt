-- ===== src/Memory.antt =====
-- Physical memory as bytes at addresses, and the little-endian accesses of the compiled code.
pub mod Laws
use mvmm.Base.{ℕ, zero, suc, ◌+◌, ◌*◌, ◌/◌, ◌%◌, ◌==◌, if◌then◌else◌}

-- The byte at each physical address.
abbrev pub Mem : Type 0
Mem = ℕ → ℕ

-- `*(u8 *)a = v`
unfoldable pub write_byte : Mem → ℕ → ℕ → Mem
write_byte m a v b = if b == a then v else m b

-- Read `n` bytes from `a` on, the lowest first.
unfoldable pub load : ℕ → Mem → ℕ → ℕ
load zero m a = 0
load (suc n) m a = m a + 256 * load n m (a + 1)

-- Write the low `n` bytes of `v` from `a` on.
unfoldable pub store : ℕ → Mem → ℕ → ℕ → Mem
store zero m a v = m
store (suc n) m a v = store n (write_byte m a (v % 256)) (a + 1) (v / 256)

-- `*(u64 *)a` and `*(u64 *)a = v`
abbrev pub load64 : Mem → ℕ → ℕ
load64 m a = load 8 m a

abbrev pub store64 : Mem → ℕ → ℕ → Mem
store64 m a v = store 8 m a v
