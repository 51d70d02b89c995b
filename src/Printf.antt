-- ===== src/Printf.antt =====
-- src/printf.c: the conversions of `printf`. The output is the list of the characters that go to
-- `uart_putc`.
pub mod Digits
pub mod Number
pub mod Convert
pub mod Format
use mvmm.Base.{
  ℕ, zero, suc, ◌+◌, ◌-◌, ◌*◌, ◌/◌, ◌%◌, ◌^◌, ◌==◌, leb, ltb, ◌&&◌, if◌then◌else◌, Bool, true,
  false, List, [], ◌∷◌, ◌++◌, length, replicate, Option, none, some, Outcome, ok, fault, ◌>>=◌,
  get_or,
}
use mvmm.Base.Int.{ℤ, pos, negsuc, neg_ℕ}

-- `"0123456789abcdef"[d]`
unfoldable pub digit_char : ℕ → ℕ
digit_char d = if ltb d 10 then b'0' + d else b'a' + (d - 10)

-- `do *--cur = ...; while(unum /= base);` with the characters that are in the buffer; a round divides
-- a word of 64 bits, so 64 rounds are enough.
unfoldable pub put_digits : ℕ → ℕ → ℕ → List ℕ → List ℕ
put_digits zero unum base cur = cur
put_digits (suc fuel) unum base cur =
    let cur' = digit_char (unum % base) ∷ cur in
    let rest = put_digits fuel (unum / base) base cur' in if unum / base == 0 then cur' else rest

-- `-(num + 1)) + 1` for a negative `num`, the `u64` pattern of the argument.
unfoldable pub is_neg : ℕ → Bool → Bool
is_neg num sign = sign && leb (2 ^ 63) num

unfoldable pub magnitude : ℕ → Bool → ℕ
magnitude num sign = if is_neg num sign then 2 ^ 64 - num else num

-- The characters from `cur` to the end of the buffer.
unfoldable pub number_text : ℕ → ℕ → Bool → Bool → List ℕ
number_text num base sign with_0x =
    let digits = put_digits 64 (magnitude num sign) base [] in
    let prefixed = if with_0x then b'0' ∷ b'x' ∷ digits else digits in
    if is_neg num sign then b'-' ∷ prefixed else prefixed

-- Padding to the width `digit`: before the text where it is positive, after it where it is negative.
unfoldable pub pad : ℤ → List ℕ → List ℕ
pad (pos n) text = replicate (n - length text) b' ' ++ text
pad (negsuc n) text = text ++ replicate (suc n - length text) b' '

unfoldable pub printiu64 : ℕ → ℕ → Bool → ℤ → Bool → List ℕ
printiu64 num base sign digit with_0x = pad digit (number_text num base sign with_0x)

unfoldable pub is_digit : ℕ → Bool
is_digit c = leb b'0' c && leb c b'9'

-- `while(isdigit(*fmt)) n = n * 10 + *fmt++ - '0';` A sum that is more than an `int` holds is a fault.
unfoldable pub fetch_number : List ℕ → ℕ → Outcome (ℕ × List ℕ)
fetch_number [] n = ok (n, [])
fetch_number (c ∷ fmt) n =
    let sum : ℕ = n * 10 + c in
    let rest = fetch_number fmt (sum - b'0') in
    let more = if ltb sum (2 ^ 31) then rest else fault in
    if is_digit c then more else ok (n, c ∷ fmt)

-- A width with its sign and the rest of the format.
unfoldable pub fetch_digit : List ℕ → Outcome (ℤ × List ℕ)
fetch_digit [] = ok (pos 0, [])
fetch_digit (c ∷ fmt) =
    let negative = (do (n, rest) ← fetch_number fmt 0; ok (neg_ℕ n, rest)) in
    let positive = (do (n, rest) ← fetch_number (c ∷ fmt) 0; ok (pos n, rest)) in
    if c == b'-' then negative else positive

unfoldable pub printmacaddr : ℕ → ℕ → List ℕ → List ℕ
printmacaddr zero i mac = []
printmacaddr (suc left) i mac =
    printiu64 (get_or mac i 0) 16 false (pos 2) false
    ++ ((if i == 5 then [] else b':' ∷ []) ++ printmacaddr left (suc i) mac)

-- An argument: a word, a string or null, or the bytes of an address.
pub data Arg : Type 0 where
  word : ℕ → Arg
  text : Option (List ℕ) → Arg
  mac : List ℕ → Arg

-- The conversion from `i32` to `i64`, as patterns, and from `u32`.
unfoldable pub from_i32 : ℕ → ℕ
from_i32 w = let v = w % 2 ^ 32 in if leb (2 ^ 31) v then v + (2 ^ 64 - 2 ^ 32) else v

-- One conversion with the argument that it takes; an argument of another kind or none is a fault.
unfoldable pub convert : ℕ → ℤ → List Arg → Outcome (List ℕ × List Arg)
convert c digit (word w ∷ args) =
    if c == b'd'
    then ok (printiu64 (from_i32 w) 10 true digit false, args)
    else if c == b'u'
    then ok (printiu64 (w % 2 ^ 32) 10 false digit false, args)
    else if c == b'x'
    then ok (printiu64 (w % 2 ^ 64) 16 false digit false, args)
    else if c == b'p'
    then ok (printiu64 (w % 2 ^ 64) 16 false digit true, args)
    else if c == b'c'
    then ok ((w % 256) ∷ [], args)
    else fault
convert c digit (text none ∷ args) =
    if c == b's' then ok (b'(' ∷ b'n' ∷ b'u' ∷ b'l' ∷ b'l' ∷ b')' ∷ [], args) else fault
convert c digit (text (some s) ∷ args) = if c == b's' then ok (s, args) else fault
convert c digit (mac bytes ∷ args) = if c == b'm' then ok (printmacaddr 6 0 bytes, args) else fault
convert c digit [] = fault

-- The conversions that take an argument.
unfoldable pub takes_argument : ℕ → Bool
takes_argument c =
    if c == b'd'
    then true
    else if c == b'u'
    then true
    else if c == b'x'
    then true
    else if c == b'p'
    then true
    else if c == b'c'
    then true
    else if c == b's'
    then true
    else c == b'm'

-- The loop over the format, which ends with its null. A `%` at the end makes the loop go past the
-- null, a fault. Every round takes a character, so the length of the format is fuel enough.
unfoldable pub vprintf_from : ℕ → List ℕ → List Arg → Outcome (List ℕ)
vprintf_from fuel [] args = ok []
vprintf_from zero (c ∷ fmt) args = fault
vprintf_from (suc fuel) (c ∷ fmt) args =
    let plain = (do out ← vprintf_from fuel fmt args; ok (c ∷ out)) in
    let conversion : Outcome (List ℕ) = (do
      (digit, fmt') ← fetch_digit fmt
      elim fmt' [
        | [] ↦ fault
        | d ∷ rest ↦
            let argument = (do
              (piece, args') ← convert d digit args
              out ← vprintf_from fuel rest args'
              ok (piece ++ out)) in
            let literal = (do
              out ← vprintf_from fuel rest args
              ok (if d == b'%' then b'%' ∷ out else b'%' ∷ d ∷ out)) in
            if takes_argument d then argument else literal
      ]) in
    if c == b'%' then conversion else plain

unfoldable pub vprintf : List ℕ → List Arg → Outcome (List ℕ)
vprintf fmt args = vprintf_from (length fmt) fmt args
