-- ===== src/Printf/Convert.antt =====
-- One conversion of `vprintf`: what it is given, and what it prints.
use mvmm.Base.{
  ℕ, zero, suc, ◌+◌, ◌-◌, ◌%◌, ◌^◌, ◌<◌, ◌≤◌, ◌≡◌, ◌⊎◌, if◌then◌else◌, Bool, true, false, List, [],
  ◌∷◌, ◌++◌, length, replicate, Option, none, some, ok, arith, refl, ap, sym, inl, inr, subst,
}
use mathlib.Core.List.{append-nil}
use mvmm.Base.Int.{ℤ, pos, neg_ℕ}
use mvmm.Printf.{
  Arg, word, text, mac, convert, takes_argument, pad, printiu64, number_text, from_i32,
  printmacaddr,
}
use mvmm.Printf.Digits.{IsNumeral}
use mvmm.Printf.Number.{IsText, natural, negative, number_text-IsText}

-- What a conversion is given: `%d`, `%u`, `%x` and `%p` a word, `%c` a character, `%s` a string or null and
-- `%m` the bytes of an address.
pub data Conv : Type 0 where
  signed unsigned hex pointer character : ℕ → Conv
  string : Option (List ℕ) → Conv
  address : (a b c d e f : ℕ) → Conv

abbrev pub letter_of : Conv → ℕ
letter_of (signed w) = b'd'
letter_of (unsigned w) = b'u'
letter_of (hex w) = b'x'
letter_of (pointer w) = b'p'
letter_of (character w) = b'c'
letter_of (string s) = b's'
letter_of (address a b c d e f) = b'm'

abbrev pub argument : Conv → Arg
argument (signed w) = word w
argument (unsigned w) = word w
argument (hex w) = word w
argument (pointer w) = word w
argument (character w) = word w
argument (string s) = text s
argument (address a b c d e f) = mac (a ∷ b ∷ c ∷ d ∷ e ∷ f ∷ [])

-- A text filled up to the width with blanks, on the right where it is adjusted to the left.
abbrev pub filled : Bool → ℕ → List ℕ → List ℕ
filled left n core =
    let blanks = replicate (n - length core) b' ' in if left then core ++ blanks else blanks ++ core

-- The text of a word, filled up.
abbrev pub Number : Bool → ℕ → ℕ → ℕ → ℕ → Bool → Bool → List ℕ → Type 0
Number left n half base num sign with_0x out =
    (core : List ℕ) × (out ≡ filled left n core) × IsText half base num sign with_0x core

abbrev pub Byte : ℕ → List ℕ → Type 0
Byte b out = Number false 2 (2 ^ 63) 16 b false false out

-- Texts with a colon between them.
abbrev pub colons : List (List ℕ) → List ℕ
colons [] = []
colons (p ∷ []) = p
colons (p ∷ (q ∷ ps)) = p ++ (b':' ∷ colons (q ∷ ps))

-- What a conversion prints: `%d` the signed number of the low 32 bits, `%u` the number of these bits, `%x` and
-- `%p` the hexadecimal number of 64 bits; `%c` the low byte; `%s` and `%m` take no width.
abbrev pub Prints : Bool → ℕ → Conv → List ℕ → Type 0
Prints left n (signed w) out = Number left n (2 ^ 31) 10 (w % 2 ^ 32) true false out
Prints left n (unsigned w) out = Number left n (2 ^ 63) 10 (w % 2 ^ 32) false false out
Prints left n (hex w) out = Number left n (2 ^ 63) 16 (w % 2 ^ 64) false false out
Prints left n (pointer w) out = Number left n (2 ^ 63) 16 (w % 2 ^ 64) false true out
Prints left n (character w) out = out ≡ (w % 256) ∷ []
Prints left n (string none) out = out ≡ b'(' ∷ b'n' ∷ b'u' ∷ b'l' ∷ b'l' ∷ b')' ∷ []
Prints left n (string (some s)) out = out ≡ s
Prints left n (address a b c d e f) out =
    (p q r s t u : List ℕ) × (out ≡ colons (p ∷ q ∷ r ∷ s ∷ t ∷ u ∷ []))
    × Byte a p
    × Byte b q
    × Byte c r
    × Byte d s
    × Byte e t
    × Byte f u

-- A byte is a byte.
abbrev pub IsConv : Conv → Type 0
IsConv (address a b c d e f) = (a < 256) × (b < 256) × (c < 256) × (d < 256) × (e < 256) × (f < 256)
IsConv _ = Unit

-- The width as the code has it.
abbrev pub width : Bool → ℕ → ℤ
width left n = if left then neg_ℕ n else pos n

pad-filled : (left : Bool) (n : ℕ) (core : List ℕ) → pad (width left n) core ≡ filled left n core
unfolding pad
pad-filled false n core = refl
pad-filled true zero core =
    let e : 0 - length core ≡ 0 = omega arith in rw e (sym (append-nil core))
pad-filled true (suc n) core = refl

pub printiu64-Number :
    (left : Bool) (n num base : ℕ) (sign with_0x : Bool)
    → num < 2 ^ 64
    → (base ≡ 10) ⊎ (base ≡ 16)
    → Number left n (2 ^ 63) base num sign with_0x (printiu64 num base sign (width left n) with_0x)
unfolding printiu64
printiu64-Number left n num base sign with_0x lt choice = (
  number_text num base sign with_0x,
  pad-filled left n (number_text num base sign with_0x),
  (number_text-IsText num base sign with_0x lt choice).0,
)

from_i32-lt : (w : ℕ) → from_i32 w < 2 ^ 64
unfolding from_i32
from_i32-lt w = ground arith

from_i32-natural : (w : ℕ) → from_i32 w < 2 ^ 63 → (w % 2 ^ 32 < 2 ^ 31) × (from_i32 w ≡ w % 2 ^ 32)
unfolding from_i32
from_i32-natural w lt = (ground arith, ground arith)

from_i32-negative :
    (w : ℕ)
    → 2 ^ 63 ≤ from_i32 w
    → (2 ^ 31 ≤ w % 2 ^ 32) × (2 ^ 63 + 2 ^ 63 - from_i32 w ≡ 2 ^ 31 + 2 ^ 31 - w % 2 ^ 32)
unfolding from_i32
from_i32-negative w le = (ground arith, ground arith)

-- The text of the word of 64 bits is the one of the word of 32 bits.
narrow :
    (w : ℕ) (core : List ℕ)
    → IsText (2 ^ 63) 10 (from_i32 w) true false core
    → IsText (2 ^ 31) 10 (w % 2 ^ 32) true false core
narrow w core (natural cs (inl no_sign) h e) = cc
narrow w core (natural cs (inr lt) h e) =
    let (small, same) = from_i32-natural w lt in
    natural cs (inr small) (subst (λ (n : ℕ). IsNumeral 10 n 20 cs) same h) e
narrow w core (negative cs s le h e) =
    let (big, same) = from_i32-negative w le in
    negative cs s big (subst (λ (n : ℕ). IsNumeral 10 n 20 cs) same h) e

-- The conversion of an argument, whatever follows it.
pub convert-Prints :
    (left : Bool) (n : ℕ) (conv : Conv) (args : List Arg)
    → IsConv conv
    → (out : List ℕ) × (convert (letter_of conv) (width left n) (argument conv ∷ args)
        ≡ ok (out, args))
      × Prints left n conv out
unfolding convert printmacaddr
convert-Prints left n (signed w) args is =
    let (core, e, t) =
      printiu64-Number left n (from_i32 w) 10 true false (from_i32-lt w) (inl refl) in
    (printiu64 (from_i32 w) 10 true (width left n) false, refl, (core, e, narrow w core t))
convert-Prints left n (unsigned w) args is = (
  printiu64 (w % 2 ^ 32) 10 false (width left n) false,
  refl,
  printiu64-Number left n (w % 2 ^ 32) 10 false false (omega arith) (inl refl),
)
convert-Prints left n (hex w) args is = (
  printiu64 (w % 2 ^ 64) 16 false (width left n) false,
  refl,
  printiu64-Number left n (w % 2 ^ 64) 16 false false (omega arith) (inr refl),
)
convert-Prints left n (pointer w) args is = (
  printiu64 (w % 2 ^ 64) 16 false (width left n) true,
  refl,
  printiu64-Number left n (w % 2 ^ 64) 16 false true (omega arith) (inr refl),
)
convert-Prints left n (character w) args is = ((w % 256) ∷ [], refl, refl)
convert-Prints left n (string none) args is =
    (b'(' ∷ b'n' ∷ b'u' ∷ b'l' ∷ b'l' ∷ b')' ∷ [], refl, refl)
convert-Prints left n (string (some s)) args is = (s, refl, refl)
convert-Prints left n (address a b c d e f) args (la, lb, lc, ld, le, lf) =
    let two = λ (x : ℕ). printiu64 x 16 false (pos 2) false in
    let byte = λ (x : ℕ) (lt : x < 256).
      printiu64-Number false 2 x 16 false false (omega arith) (inr refl) in
    (
      printmacaddr 6 0 (a ∷ b ∷ c ∷ d ∷ e ∷ f ∷ []),
      refl,
      (
        two a,
        two b,
        two c,
        two d,
        two e,
        two f,
        ap (λ (u : List ℕ). colons (two a ∷ two b ∷ two c ∷ two d ∷ two e ∷ u ∷ []))
            (append-nil (two f)),
        byte a la,
        byte b lb,
        byte c lc,
        byte d ld,
        byte e le,
        byte f lf,
      ),
    )

pub letter_of-takes : (conv : Conv) → takes_argument (letter_of conv) ≡ true
unfolding takes_argument
letter_of-takes (signed w) = refl
letter_of-takes (unsigned w) = refl
letter_of-takes (hex w) = refl
letter_of-takes (pointer w) = refl
letter_of-takes (character w) = refl
letter_of-takes (string s) = refl
letter_of-takes (address a b c d e f) = refl
