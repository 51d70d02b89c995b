-- ===== src/Printf/Format.antt =====
-- `vprintf` on a format as its author sees it: characters, `%%`, and conversions with a width.
use mvmm.Base.{ℕ, ◌+◌, ◌^◌, ◌<◌, ◌≡◌, ◌≢◌, if◌then◌else◌, Bool, true, List, [], ◌∷◌, ◌++◌, All}
use mvmm.Printf.{Arg, is_digit}
use mvmm.Printf.Digits.{read_digits}
use mvmm.Printf.Convert.{Conv, letter_of, argument, IsConv, Prints}

-- A character, `%%`, or a conversion: adjusted to the left or not, the digits of the width, and what it is
-- given.
pub data Item : Type 0 where
  char : ℕ → Item
  percent : Item
  conversion : Bool → List ℕ → Conv → Item

abbrev pub sign_text : Bool → List ℕ → List ℕ
sign_text left ds = if left then b'-' ∷ ds else ds

-- The format and the arguments.
abbrev pub render : List Item → List ℕ
render [] = []
render (char c ∷ items) = c ∷ render items
render (percent ∷ items) = b'%' ∷ b'%' ∷ render items
render (conversion left ds conv ∷ items) =
    b'%' ∷ (sign_text left ds ++ (letter_of conv ∷ render items))

abbrev pub arguments : List Item → List Arg
arguments [] = []
arguments (conversion left ds conv ∷ items) = argument conv ∷ arguments items
arguments (_ ∷ items) = arguments items

-- The output is the pieces in their order.
abbrev pub Output : List Item → List ℕ → Type 0
Output [] out = out ≡ []
Output (char c ∷ items) out = (rest : List ℕ) × (out ≡ c ∷ rest) × Output items rest
Output (percent ∷ items) out = (rest : List ℕ) × (out ≡ b'%' ∷ rest) × Output items rest
Output (conversion left ds conv ∷ items) out =
    (piece rest : List ℕ) × (out ≡ piece ++ rest)
    × Prints left (read_digits 10 0 ds) conv piece
    × Output items rest

-- A character is no `%`; a width is digits, of a number that stays in an `int` while it is read.
abbrev pub IsItem : Item → Type 0
IsItem (char c) = c ≢ b'%'
IsItem percent = Unit
IsItem (conversion left ds conv) =
    All (λ d. is_digit d ≡ true) ds × (read_digits 10 0 ds + b'0' < 2 ^ 31) × IsConv conv
