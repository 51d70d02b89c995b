-- ===== src/CLib/Strings.antt =====
-- The string functions of src/lib.c over physical memory. `char` has no sign on AArch64. A string that
-- has no end within the fuel is a fault.
pub mod Laws
use mvmm.Base.{
  ℕ, zero, suc, ◌+◌, ◌-◌, ◌==◌, ltb, ◌&&◌, ◌||◌, not, if◌then◌else◌, Outcome, ok, fault, ◌>>=◌,
}
use mvmm.Base.Int.{ℤ, pos, sub_ℕ}
use mvmm.Memory.{Mem, write_byte}

strlen_from : ℕ → Mem → ℕ → ℕ → Outcome ℕ
strlen_from zero m s i = fault
strlen_from (suc fuel) m s i =
    let rest = strlen_from fuel m (s + 1) (i + 1) in if m s == 0 then ok i else rest

unfoldable pub strlen : ℕ → Mem → ℕ → Outcome ℕ
unfolding strlen_from
strlen fuel m s = strlen_from fuel m s 0

unfoldable pub strcmp : ℕ → Mem → ℕ → ℕ → Outcome ℤ
strcmp zero m s1 s2 = fault
strcmp (suc fuel) m s1 s2 =
    let rest = strcmp fuel m (s1 + 1) (s2 + 1) in
    if not (m s1 == 0) && (m s1 == m s2) then rest else ok (sub_ℕ (m s1) (m s2))

unfoldable pub strncmp : ℕ → Mem → ℕ → ℕ → ℕ → Outcome ℤ
strncmp zero m s1 s2 len = fault
strncmp (suc fuel) m s1 s2 len =
    let rest = strncmp fuel m (s1 + 1) (s2 + 1) (len - 1) in
    if not (m s1 == 0) && (m s1 == m s2) && ltb 0 len
    then rest
    else if len == 0
    then ok (pos 0)
    else ok (sub_ℕ (m s1) (m s2))

-- The memory after `while((*dst++ = *src++) != 0);`
unfoldable pub strcpy : ℕ → Mem → ℕ → ℕ → Outcome Mem
strcpy zero m dst src = fault
strcpy (suc fuel) m dst src =
    let copied = write_byte m dst (m src) in
    let rest = strcpy fuel copied (dst + 1) (src + 1) in if m src == 0 then ok copied else rest
