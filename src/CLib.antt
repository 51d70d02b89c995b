-- ===== src/CLib.antt =====
-- src/lib.c over physical memory: here `memmove`, `memcpy` and `memset`.
pub mod Block
pub mod Strings
use mvmm.Base.{ℕ, zero, suc, ◌+◌, ◌%◌, ltb, if◌then◌else◌}
use mvmm.Memory.{Mem, write_byte}

-- `while(n-- > 0) *d++ = *s++;`
move_up : Mem → ℕ → ℕ → ℕ → Mem
move_up m d s zero = m
move_up m d s (suc n) = move_up (write_byte m d (m s)) (d + 1) (s + 1) n

-- `d += n; s += n; while(n-- > 0) *--d = *--s;`
move_down : Mem → ℕ → ℕ → ℕ → Mem
move_down m d s zero = m
move_down m d s (suc n) = move_down (write_byte m (d + n) (m (s + n))) d s n

unfoldable pub memmove : Mem → ℕ → ℕ → ℕ → Mem
unfolding move_up move_down
memmove m dst src n = if ltb dst src then move_up m dst src n else move_down m dst src n

unfoldable pub memcpy : Mem → ℕ → ℕ → ℕ → Mem
memcpy m dst src n = memmove m dst src n

-- The `int` argument is cut to a `char` by the assignment.
unfoldable pub memset : Mem → ℕ → ℕ → ℕ → Mem
memset m dst c zero = m
memset m dst c (suc n) = memset (write_byte m dst (c % 256)) (dst + 1) c n
