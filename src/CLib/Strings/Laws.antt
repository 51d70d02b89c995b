-- ===== src/CLib/Strings/Laws.antt =====
-- The string functions against the list of characters that a pointer stands for.
use mvmm.Base.{
  ℕ, zero, suc, ◌+◌, ◌<◌, ◌≤◌, ◌≡◌, ◌≢◌, ◌⊎◌, ◌==◌, if◌then◌else◌, Bool-cases, inl, inr, List, [],
  ◌∷◌, length, take, ok, arith, refl, ap, ◌∙◌,
}
use mathlib.Core.Logic.{◌↔◌}
use mvmm.Base.Int.{ℤ, pos, sub_ℕ}
use mvmm.Memory.{Mem, write_byte}
use mvmm.CLib.Strings.{strlen_from, strlen, strcmp, strncmp, strcpy}

-- From `s` on stand the characters of the list and the final null.
abbrev pub IsString : Mem → ℕ → List ℕ → Type 0
IsString m s [] = m s ≡ 0
IsString m s (c ∷ cs) = (m s ≡ c) × (c ≢ 0) × IsString m (s + 1) cs

strlen_from-length :
    (fuel : ℕ) (m : Mem) (s i : ℕ) (cs : List ℕ)
    → IsString m s cs
    → length cs < fuel
    → strlen_from fuel m s i ≡ ok (i + length cs)
unfolding strlen_from
strlen_from-length zero m s i cs h lt = absurd (omega arith)
strlen_from-length (suc fuel) m s i [] h lt = ground arith
strlen_from-length (suc fuel) m s i (c ∷ cs) (e, ne, rest) lt =
    ground (arith, strlen_from-length fuel m (s + 1) (i + 1) cs rest (omega arith))

-- `strlen` of a string, with more rounds than it has characters, is their number.
pub strlen-length :
    (fuel : ℕ) (m : Mem) (s : ℕ) (cs : List ℕ)
    → IsString m s cs
    → length cs < fuel
    → strlen fuel m s ≡ ok (length cs)
unfolding strlen
strlen-length fuel m s cs h lt = strlen_from-length fuel m s 0 cs h lt ∙ ap ok (omega arith)

-- Two lists by their first difference, a list that ends before the other as if by a null.
unfoldable pub first_difference : List ℕ → List ℕ → ℤ
first_difference [] [] = pos 0
first_difference [] (d ∷ ds) = sub_ℕ 0 d
first_difference (c ∷ cs) [] = sub_ℕ c 0
first_difference (c ∷ cs) (d ∷ ds) = if c == d then first_difference cs ds else sub_ℕ c d

-- `strncmp` of two strings, with more rounds than the first has characters, is the first difference of
-- their first `len` characters.
pub strncmp-first_difference :
    (fuel : ℕ) (m : Mem) (s1 s2 len : ℕ) (cs ds : List ℕ)
    → IsString m s1 cs
    → IsString m s2 ds
    → length cs < fuel
    → strncmp fuel m s1 s2 len ≡ ok (first_difference (take len cs) (take len ds))
unfolding strncmp first_difference
strncmp-first_difference zero m s1 s2 len cs ds h k lt = absurd (omega arith)
strncmp-first_difference (suc fuel) m s1 s2 zero cs ds h k lt = ground arith
strncmp-first_difference (suc fuel) m s1 s2 (suc len) [] [] h k lt = ground arith
strncmp-first_difference (suc fuel) m s1 s2 (suc len) [] (d ∷ ds) h k lt = ground arith
strncmp-first_difference (suc fuel) m s1 s2 (suc len) (c ∷ cs) [] h k lt = ground arith
strncmp-first_difference (suc fuel) m s1 s2 (suc len) (c ∷ cs) (d ∷ ds) (e, ne, h) (e', ne', k) lt =
    ground (arith, strncmp-first_difference fuel m (s1 + 1) (s2 + 1) len cs ds h k (omega arith))

pub strcmp-first_difference :
    (fuel : ℕ) (m : Mem) (s1 s2 : ℕ) (cs ds : List ℕ)
    → IsString m s1 cs
    → IsString m s2 ds
    → length cs < fuel
    → strcmp fuel m s1 s2 ≡ ok (first_difference cs ds)
unfolding strcmp first_difference
strcmp-first_difference zero m s1 s2 cs ds h k lt = absurd (omega arith)
strcmp-first_difference (suc fuel) m s1 s2 [] [] h k lt = ground arith
strcmp-first_difference (suc fuel) m s1 s2 [] (d ∷ ds) h k lt = ground arith
strcmp-first_difference (suc fuel) m s1 s2 (c ∷ cs) [] h k lt = ground arith
strcmp-first_difference (suc fuel) m s1 s2 (c ∷ cs) (d ∷ ds) (e, ne, h) (e', ne', k) lt =
    ground (arith, strcmp-first_difference fuel m (s1 + 1) (s2 + 1) cs ds h k (omega arith))

-- Two strings differ by 0 only if they are the same.
first_difference-zero :
    (m : Mem) (s1 s2 : ℕ) (cs ds : List ℕ)
    → IsString m s1 cs
    → IsString m s2 ds
    → first_difference cs ds ≡ pos 0
    → cs ≡ ds
unfolding first_difference
first_difference-zero m s1 s2 [] [] h k e = refl
first_difference-zero m s1 s2 [] (d ∷ ds) h k e = ground arith
first_difference-zero m s1 s2 (c ∷ cs) [] h k e = ground arith
first_difference-zero m s1 s2 (c ∷ cs) (d ∷ ds) (_, ne, h) (_, ne', k) e =
    elim (Bool-cases (c == d)) [
      | inl same ↦
          let rest : first_difference cs ds ≡ pos 0 = ground (arith, same, e) in
          let tails = first_difference-zero m (s1 + 1) (s2 + 1) cs ds h k rest in
          ground (arith, same, tails)
      | inr differ ↦ ground (arith, differ, e)
    ]

first_difference_self : (cs : List ℕ) → first_difference cs cs ≡ pos 0
unfolding first_difference
first_difference_self [] = refl
first_difference_self (c ∷ cs) = ground (arith, first_difference_self cs)

-- Bytes outside the string's own range may change.
IsString-frame :
    (m m' : Mem) (s : ℕ) (cs : List ℕ)
    → ((b : ℕ) → s ≤ b → b ≤ s + length cs → m' b ≡ m b)
    → IsString m s cs
    → IsString m' s cs
IsString-frame m m' s [] same h = same s (omega arith) (omega arith) ∙ h
IsString-frame m m' s (c ∷ cs) same (e, ne, h) = (
  same s (omega arith) (omega arith) ∙ e,
  ne,
  IsString-frame m m' (s + 1) cs (λ b lo hi. same b (omega arith) (omega arith)) h,
)

-- If the copy does not start inside the source, `strcpy` leaves the string at the destination, and
-- changes no byte outside its characters and its null.
strcpy-IsString :
    (fuel : ℕ) (m : Mem) (dst src : ℕ) (cs : List ℕ)
    → IsString m src cs
    → length cs < fuel
    → (dst ≤ src) ⊎ (src + length cs < dst)
    → (m' : Mem) × (strcpy fuel m dst src ≡ ok m')
      × IsString m' dst cs
      × ((b : ℕ) → (b < dst) ⊎ (dst + length cs < b) → m' b ≡ m b)
unfolding strcpy write_byte
strcpy-IsString zero m dst src cs h lt apart = absurd (omega arith)
strcpy-IsString (suc fuel) m dst src [] h lt apart =
    (write_byte m dst (m src), ground arith, ground arith, λ b out. ground arith)
strcpy-IsString (suc fuel) m dst src (c ∷ cs) (e, ne, h) lt apart =
    let copied : Mem = write_byte m dst (m src) in
    let (m', ran, there, kept) =
      strcpy-IsString fuel copied (dst + 1) (src + 1) cs
        (IsString-frame m copied (src + 1) cs (λ b lo hi. ground arith) h) (omega arith)
        (omega arith) in
    (
      m',
      ground (arith, ran, e, ne),
      (kept dst (inl (omega arith)) ∙ ground arith, ne, there),
      λ b out. kept b (omega arith) ∙ ground arith,
    )

-- `strcmp` of two strings, with more rounds than the first has characters, returns, and it returns 0
-- exactly if the strings are the same.
strcmp-zero :
    (fuel : ℕ) (m : Mem) (s1 s2 : ℕ) (cs ds : List ℕ)
    → IsString m s1 cs
    → IsString m s2 ds
    → length cs < fuel
    → (z : ℤ) × (strcmp fuel m s1 s2 ≡ ok z) × ((z ≡ pos 0) ↔ (cs ≡ ds))
strcmp-zero fuel m s1 s2 cs ds h k lt = (
  first_difference cs ds,
  strcmp-first_difference fuel m s1 s2 cs ds h k lt,
  (first_difference-zero m s1 s2 cs ds h k, λ e. rw (← e) (first_difference_self cs)),
)
