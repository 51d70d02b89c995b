-- ===== src/Printf/Number.antt =====
-- `printiu64`: the text of a number within its buffer.
use mvmm.Base.{
  ℕ, ◌+◌, ◌-◌, ◌^◌, ◌<◌, ◌≤◌, ◌≡◌, ◌⊎◌, if◌then◌else◌, Bool, inl, inr, Bool-cases, true, false,
  refl, subst, List, [], ◌∷◌, length, arith, ap, ◌∙◌,
}
use mathlib.Core.List.{append-nil}
use mvmm.Printf.{is_neg, magnitude, number_text, put_digits}
use mvmm.Printf.Digits.{IsNumeral, put_digits-IsNumeral}

-- The sign, the prefix and a numeral.
abbrev pub with_prefix : Bool → Bool → List ℕ → List ℕ
with_prefix neg with_0x cs =
    let prefixed = if with_0x then b'0' ∷ b'x' ∷ cs else cs in
    if neg then b'-' ∷ prefixed else prefixed

magnitude-lt : (num : ℕ) (sign : Bool) → num < 2 ^ 64 → magnitude num sign < 2 ^ 64
unfolding magnitude is_neg
magnitude-lt num sign lt = ground arith

magnitude-natural : (num : ℕ) (sign : Bool) → is_neg num sign ≡ false → magnitude num sign ≡ num
unfolding magnitude
magnitude-natural num sign h = rw h refl

magnitude-negative :
    (num : ℕ) (sign : Bool) → is_neg num sign ≡ true → magnitude num sign ≡ 2 ^ 63 + 2 ^ 63 - num
unfolding magnitude
magnitude-negative num sign h = rw h refl

is_neg-false : (num : ℕ) (sign : Bool) → is_neg num sign ≡ false → (sign ≡ false) ⊎ (num < 2 ^ 63)
unfolding is_neg
is_neg-false num sign h = elim (Bool-cases sign) [ inl s ↦ inr (ground arith) | inr s ↦ inl s ]

is_neg-true : (num : ℕ) (sign : Bool) → is_neg num sign ≡ true → (sign ≡ true) × (2 ^ 63 ≤ num)
unfolding is_neg
is_neg-true num sign h = (ground arith, ground arith)

length-with_prefix :
    (neg with_0x : Bool) (cs : List ℕ) → length (with_prefix neg with_0x cs) ≤ 3 + length cs
length-with_prefix neg with_0x cs = ground arith

-- Twenty digits are enough.
fits : (base n : ℕ) → n < 2 ^ 64 → (base ≡ 10) ⊎ (base ≡ 16) → n < base ^ 20
fits base n lt (inl ten) = rw ten (omega arith)
fits base n lt (inr sixteen) = rw sixteen (omega arith)

number_text-with_prefix :
    (num base : ℕ) (sign with_0x : Bool)
    → num < 2 ^ 64
    → (base ≡ 10) ⊎ (base ≡ 16)
    → (cs : List ℕ) × (number_text num base sign with_0x ≡ with_prefix (is_neg num sign) with_0x cs)
      × IsNumeral base (magnitude num sign) 20 cs
unfolding number_text
number_text-with_prefix num base sign with_0x lt choice =
    let n : ℕ = magnitude num sign in
    let small : n < 2 ^ 64 = magnitude-lt num sign lt in
    let (cs, ran, h) =
      put_digits-IsNumeral 19 64 n base [] (omega arith) (omega arith) (fits base n small choice)
        (omega arith) in
    let whole : put_digits 64 n base [] ≡ cs = ran ∙ append-nil cs in
    (cs, ap (with_prefix (is_neg num sign) with_0x) whole, h)

-- The text of a word of which `half` is the smallest one that is negative where it is signed, in two's
-- complement: a minus sign for a negative one, `0x` where it is asked for, and the numeral of its
-- magnitude without leading zeros, of at most 20 digits.
pub data IsText (half base num : ℕ) (sign with_0x : Bool) (text : List ℕ) : Type 0 where
  natural :
      (cs : List ℕ)
      → (sign ≡ false) ⊎ (num < half)
      → IsNumeral base num 20 cs
      → text ≡ with_prefix false with_0x cs
      → IsText half base num sign with_0x text
  negative :
      (cs : List ℕ)
      → sign ≡ true
      → half ≤ num
      → IsNumeral base (half + half - num) 20 cs
      → text ≡ with_prefix true with_0x cs
      → IsText half base num sign with_0x text

IsText-length :
    {half base num : ℕ} {sign with_0x : Bool} {text : List ℕ}
    → IsText half base num sign with_0x text
    → length text ≤ 23
IsText-length {with_0x = with_0x} (natural cs _ h e) =
    let short = h.short in rw (ap length e) (omega (arith, length-with_prefix false with_0x cs))
IsText-length {with_0x = with_0x} (negative cs _ _ h e) =
    let short = h.short in rw (ap length e) (omega (arith, length-with_prefix true with_0x cs))

number_text-natural :
    (num base : ℕ) (sign with_0x : Bool)
    → num < 2 ^ 64
    → (base ≡ 10) ⊎ (base ≡ 16)
    → is_neg num sign ≡ false
    → IsText (2 ^ 63) base num sign with_0x (number_text num base sign with_0x)
number_text-natural num base sign with_0x lt choice not_neg =
    let (cs, e, h) = number_text-with_prefix num base sign with_0x lt choice in
    let whole : magnitude num sign ≡ num = magnitude-natural num sign not_neg in
    natural cs (is_neg-false num sign not_neg) (subst (λ (n : ℕ). IsNumeral base n 20 cs) whole h)
      (e ∙ ap (λ (b : Bool). with_prefix b with_0x cs) not_neg)

number_text-negative :
    (num base : ℕ) (sign with_0x : Bool)
    → num < 2 ^ 64
    → (base ≡ 10) ⊎ (base ≡ 16)
    → is_neg num sign ≡ true
    → IsText (2 ^ 63) base num sign with_0x (number_text num base sign with_0x)
number_text-negative num base sign with_0x lt choice neg =
    let (cs, e, h) = number_text-with_prefix num base sign with_0x lt choice in
    let part : magnitude num sign ≡ 2 ^ 63 + 2 ^ 63 - num = magnitude-negative num sign neg in
    let (s, le) = is_neg-true num sign neg in
    negative cs s le (subst (λ (n : ℕ). IsNumeral base n 20 cs) part h)
      (e ∙ ap (λ (b : Bool). with_prefix b with_0x cs) neg)

pub number_text-IsText :
    (num base : ℕ) (sign with_0x : Bool)
    → num < 2 ^ 64
    → (base ≡ 10) ⊎ (base ≡ 16)
    → IsText (2 ^ 63) base num sign with_0x (number_text num base sign with_0x)
      × (length (number_text num base sign with_0x) ≤ 23)
number_text-IsText num base sign with_0x lt choice =
    let is : IsText (2 ^ 63) base num sign with_0x (number_text num base sign with_0x) =
      elim (Bool-cases (is_neg num sign)) [
        | inl neg ↦ number_text-negative num base sign with_0x lt choice neg
        | inr not_neg ↦ number_text-natural num base sign with_0x lt choice not_neg
      ] in
    (is, IsText-length is)
