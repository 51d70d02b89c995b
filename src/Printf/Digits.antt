-- ===== src/Printf/Digits.antt =====
-- The digits that `printiu64` puts into its buffer, and the number that they stand for.
use mvmm.Base.{
  ℕ, zero, suc, ◌+◌, ◌-◌, ◌*◌, ◌/◌, ◌%◌, ◌^◌, ◌<◌, ◌≤◌, ◌≡◌, ◌≢◌, ◌⊎◌, ◌==◌, ltb, if◌then◌else◌,
  Bool-cases, inl, inr, List, [], ◌∷◌, ◌++◌, length, length-append, All, arith, refl, sym, ap, ap₂,
  ◌∙◌, eq_of_==,
}
use mathlib.Core.List.{append_assoc}
use native.Mathlib.Nat.{
  div-lt_iff_lt-mul, div-add-mod', mod-lt, mod-eq_of_lt, div-eq_of_lt, pow-suc, pow-zero,
}
use mvmm.Printf.{digit_char, put_digits}

-- The value of a digit character.
abbrev pub char_value : ℕ → ℕ
char_value c = if ltb c b'a' then c - b'0' else c - b'a' + 10

-- Reading digits to the base `base`, with the number read so far.
unfoldable pub read_digits : ℕ → ℕ → List ℕ → ℕ
read_digits base n [] = n
read_digits base n (c ∷ cs) = read_digits base (n * base + char_value c) cs

pub digit_char-value : (d : ℕ) → d < 16 → char_value (digit_char d) ≡ d
unfolding digit_char
digit_char-value d lt = ground arith

pub read_digits-snoc :
    (base n c : ℕ) (cs : List ℕ)
    → read_digits base n (cs ++ c ∷ []) ≡ read_digits base n cs * base + char_value c
unfolding read_digits
read_digits-snoc base n c [] = refl
read_digits-snoc base n c (d ∷ cs) = read_digits-snoc base (n * base + char_value d) c cs

-- The first character is no zero.
abbrev pub NoLeadingZero : List ℕ → Type 0
NoLeadingZero [] = ⊥
NoLeadingZero (c ∷ cs) = c ≢ b'0'

NoLeadingZero-append : (cs ds : List ℕ) → NoLeadingZero cs → NoLeadingZero (cs ++ ds)
NoLeadingZero-append [] ds h = absurd h
NoLeadingZero-append (c ∷ cs) ds h = h

-- The text of a number: it reads back, has no more than `most` digits, and no leading zero but for 0.
pub record IsNumeral (base n most : ℕ) (cs : List ℕ) : Type 0 where
  pub reads : read_digits base 0 cs ≡ n
  pub short : length cs ≤ most
  pub plain : (cs ≡ b'0' ∷ []) ⊎ NoLeadingZero cs
  pub clean : All (λ c. c ≢ 0) cs

All-append :
    (cs ds : List ℕ) → All (λ c. c ≢ 0) cs → All (λ c. c ≢ 0) ds → All (λ c. c ≢ 0) (cs ++ ds)
All-append [] ds h k = k
All-append (c ∷ cs) ds h k = (h.0, All-append cs ds h.1 k)

digit_char-ne : (d : ℕ) → digit_char d ≢ 0
unfolding digit_char
digit_char-ne d = ground arith

digit_char-zero : (d : ℕ) → d ≢ 0 → d < 16 → digit_char d ≢ b'0'
unfolding digit_char
digit_char-zero d ne lt = ground arith

-- One digit.
one_digit : (base d : ℕ) → d < base → base ≤ 16 → IsNumeral base d 1 (digit_char d ∷ [])
unfolding read_digits digit_char
one_digit base d lt le = record {
  reads = ground (arith, digit_char-value d (omega arith));
  short = omega arith;
  plain = elim (Bool-cases (d == 0)) [
    | inl zr ↦ inl (ap (λ (x : ℕ). digit_char x ∷ []) (eq_of_== d 0 zr))
    | inr nz ↦ inr (digit_char-zero d (ground arith) (omega arith))
  ];
  clean = (digit_char-ne d, tt);
}

-- A digit more.
snoc-IsNumeral :
    (base u k : ℕ) (cs : List ℕ)
    → 2 ≤ base
    → base ≤ 16
    → u / base ≢ 0
    → IsNumeral base (u / base) (suc k) cs
    → IsNumeral base u (suc (suc k)) (cs ++ digit_char (u % base) ∷ [])
unfolding read_digits
snoc-IsNumeral base u k cs two le more h =
    let small = mod-lt u {m = base} (omega arith) in
    let value = digit_char-value (u % base) (omega arith) in
    let len = length-append cs (digit_char (u % base) ∷ []) in
    let short = h.short in
    record {
      reads =
          read_digits-snoc base 0 (digit_char (u % base)) cs
          ∙ ap₂ (λ (x : ℕ) (y : ℕ). x * base + y) h.reads value
          ∙ div-add-mod' u base;
      short = omega arith;
      plain = elim h.plain [
        | inl zr ↦ absurd (more (sym h.reads ∙ ap (read_digits base 0) zr ∙ omega arith))
        | inr nz ↦ inr (NoLeadingZero-append cs (digit_char (u % base) ∷ []) nz)
      ];
      clean = All-append cs (digit_char (u % base) ∷ []) h.clean (digit_char-ne (u % base), tt);
    }

-- With a base from 2 to 16, a number below `base ^ (k + 1)` and more than `k` rounds, the loop puts a
-- numeral of it in front of what the buffer holds.
pub put_digits-IsNumeral :
    (k fuel u base : ℕ) (cur : List ℕ)
    → 2 ≤ base
    → base ≤ 16
    → u < base ^ suc k
    → k < fuel
    → (cs : List ℕ) × (put_digits fuel u base cur ≡ cs ++ cur) × IsNumeral base u (suc k) cs
unfolding put_digits
put_digits-IsNumeral k zero u base cur two le lt room = absurd (omega arith)
put_digits-IsNumeral zero (suc fuel) u base cur two le lt room =
    let below : u < base =
      let one : base ^ 1 ≡ base =
        pow-suc base 0 ∙ ap (λ (x : ℕ). x * base) (pow-zero base) ∙ omega arith in
      omega arith in
    let last : u / base ≡ 0 = div-eq_of_lt below in
    let whole : u % base ≡ u = mod-eq_of_lt below in
    (digit_char u ∷ [], rw (last, whole), one_digit base u below le)
put_digits-IsNumeral (suc k) (suc fuel) u base cur two le lt room =
    elim (Bool-cases (u / base == 0)) [
      | inl last ↦
          let none_left : u / base ≡ 0 = eq_of_== (u / base) 0 last in
          let split = div-add-mod' u base in
          let small = mod-lt u {m = base} (omega arith) in
          let whole : u % base ≡ u = omega (arith, ap (λ (q : ℕ). q * base) none_left) in
          let h = one_digit base u (omega arith) le in
          (
            digit_char u ∷ [],
            rw (last, whole),
            record { reads = h.reads; short = omega arith; plain = h.plain; clean = h.clean },
          )
      | inr more ↦
          let (cs, ran, h) =
            put_digits-IsNumeral k fuel (u / base) base (digit_char (u % base) ∷ cur) two le
              ((div-lt_iff_lt-mul (omega arith)).1 (omega (arith, pow-suc base (suc k))))
              (omega arith) in
          (
            cs ++ digit_char (u % base) ∷ [],
            rw (more, ran) (sym (append_assoc cs (digit_char (u % base) ∷ []) cur)),
            snoc-IsNumeral base u k cs two le (ground arith) h,
          )
    ]
