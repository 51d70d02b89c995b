-- ===== src/Base/Byte.antt =====
-- Shifts to the left, and the bytes of a word.
use Prim.Native.Nat.{ℕ, zero, suc, ◌+◌, ◌-◌, ◌*◌, ◌/◌, ◌%◌, ◌^◌, ◌≤◌, ◌<◌, bit_and, bit_or}
use mathlib.Core.Path.{◌≡◌, sym, ap, ◌∙◌}
use mathlib.Core.Logic.{inl, inr}
use native.Mathlib.Omega.{arith}
use native.Mathlib.Nat.{pow-suc}
use mvmm.Base.Tests.{ltb, ◌==◌, if◌then◌else◌, Bool-cases}
use mvmm.Base.Bits.{
  bit, bit-bit_and, bit-bit_or, bit_of_lt, lt_of_bits, bit_ext, bit-complement, div_pow_suc, bit-lt,
  bit-zero, bit_or-lt,
}

shl_suc : (s f : ℕ) → f * 2 ^ suc s ≡ 2 * (f * 2 ^ s)
shl_suc s f = omega (arith, ap (λ (t : ℕ). f * t) (pow-suc 2 s))

shl_half : (s f : ℕ) → f * 2 ^ suc s / 2 ≡ f * 2 ^ s
shl_half s f = omega (arith, shl_suc s f)

-- The bits of `f << s`.
pub bit-shl_below : (s f m : ℕ) → m < s → bit (f * 2 ^ s) m ≡ 0
unfolding bit
bit-shl_below zero f m lt = absurd (omega arith)
bit-shl_below (suc s) f zero lt = omega (arith, shl_suc s f)
bit-shl_below (suc s) f (suc m) lt = rw (shl_half s f) (bit-shl_below s f m (omega arith))

pub bit-shl : (s f n : ℕ) → bit (f * 2 ^ s) (s + n) ≡ bit f n
unfolding bit
bit-shl zero f n =
    let e : f * 1 ≡ f = omega arith in
    let e' : 0 + n ≡ n = omega arith in ap (λ (t : ℕ). bit t (0 + n)) e ∙ ap (bit f) e'
bit-shl (suc s) f n =
    let e : suc s + n ≡ suc (s + n) = omega arith in
    ap (bit (f * 2 ^ suc s)) e ∙ ap (λ (t : ℕ). bit t (s + n)) (shl_half s f) ∙ bit-shl s f n

-- The bits of `x >> s`.
pub bit-shr : (s x n : ℕ) → bit (x / 2 ^ s) n ≡ bit x (s + n)
unfolding bit
bit-shr zero x n =
    let e : x / 1 ≡ x = omega arith in
    let e' : n ≡ 0 + n = omega arith in ap (λ (t : ℕ). bit t n) e ∙ ap (bit x) e'
bit-shr (suc s) x n =
    let e : suc (s + n) ≡ suc s + n = omega arith in
    ap (λ (t : ℕ). bit t n) (div_pow_suc x s) ∙ bit-shr s (x / 2) n ∙ ap (bit x) e

-- `(val >> (i * 8)) & 0xff`
abbrev pub byte : ℕ → ℕ → ℕ
byte val i = bit_and (val / 2 ^ (i * 8)) 0xff

ones : (n : ℕ) → n < 8 → bit 0xff n ≡ 1
ones n lt = omega (arith, bit-complement 8 0 n (omega arith) lt, bit-zero n)

pub bit-byte : (val k n : ℕ) → n < 8 → bit (byte val k) n ≡ bit val (k * 8 + n)
bit-byte val k n lt = omega (
  arith,
  bit-bit_and (val / 2 ^ (k * 8)) 0xff n,
  ones n lt,
  bit-shr (k * 8) val n,
  bit-lt (val / 2 ^ (k * 8)) n,
)

pub bit-byte_above : (val k n : ℕ) → 8 ≤ n → bit (byte val k) n ≡ 0
bit-byte_above val k n le =
    omega (arith, bit-bit_and (val / 2 ^ (k * 8)) 0xff n, bit_of_lt 8 0xff n (omega arith) le)

pub byte-lt : (val k : ℕ) → byte val k < 2 ^ 8
byte-lt val k = lt_of_bits 8 (byte val k) (λ n le. bit-byte_above val k n le)

-- A byte is known by its eight bits.
pub byte_ext :
    (val k b : ℕ) → b < 2 ^ 8 → ((n : ℕ) → n < 8 → bit val (k * 8 + n) ≡ bit b n) → byte val k ≡ b
byte_ext val k b narrow same = bit_ext (byte val k) b (λ n. elim (Bool-cases (ltb n 8)) [
  | inl low ↦ bit-byte val k n (ground arith) ∙ same n (ground arith)
  | inr high ↦ bit-byte_above val k n (ground arith) ∙ sym (bit_of_lt 8 b n narrow (ground arith))
])

-- A word of 32 bits is known by its four bytes.
pub word_ext : (v w : ℕ) → v < 2 ^ 32 → w < 2 ^ 32 → ((k : ℕ) → k < 4 → byte v k ≡ byte w k) → v ≡ w
word_ext v w fits fits' same = bit_ext v w (λ n. elim (Bool-cases (ltb n 32)) [
  | inl low ↦
      let at : n / 8 * 8 + n % 8 ≡ n = omega arith in
      let small : n % 8 < 8 = omega arith in
      ap (bit v) (sym at)
      ∙ sym (bit-byte v (n / 8) (n % 8) small)
      ∙ ap (λ b. bit b (n % 8)) (same (n / 8) (ground arith))
      ∙ bit-byte w (n / 8) (n % 8) small
      ∙ ap (bit w) at
  | inr high ↦ bit_of_lt 32 v n fits (ground arith) ∙ sym (bit_of_lt 32 w n fits' (ground arith))
])

-- The bits of a byte `c` that stands at byte `t` of a word.
shl_bits :
    (c t k n : ℕ)
    → c < 2 ^ 8
    → n < 8
    → bit (c * 2 ^ (t * 8)) (k * 8 + n) ≡ (if k == t then bit c n else 0)
shl_bits c t k n narrow lt = elim (Bool-cases (k == t)) [
  | inl same ↦ let at : k ≡ t = ground arith in rw (same, at) (bit-shl (t * 8) c n)
  | inr differ ↦ elim (Bool-cases (ltb k t)) [
    | inl below ↦ rw differ (bit-shl_below (t * 8) c (k * 8 + n) (ground arith))
    | inr above ↦
        let past : t * 8 + 8 ≤ k * 8 + n = ground arith in
        let at : k * 8 + n ≡ t * 8 + (k * 8 + n - t * 8) = omega arith in
        rw (differ, at)
          (bit-shl (t * 8) c (k * 8 + n - t * 8)
            ∙ bit_of_lt 8 c (k * 8 + n - t * 8) narrow (omega arith))
  ]
]

-- A byte that stands within 32 bits.
pub shl-lt : (c t : ℕ) → c < 2 ^ 8 → t < 4 → c * 2 ^ (t * 8) < 2 ^ 32
shl-lt c t narrow lt = lt_of_bits 32 (c * 2 ^ (t * 8)) (λ n le.
    let at : n ≡ t * 8 + (n - t * 8) = omega arith in
    rw at (bit-shl (t * 8) c (n - t * 8) ∙ bit_of_lt 8 c (n - t * 8) narrow (omega arith)))

-- `x & ~((u32)0xff << (t * 8))` clears byte `t`.
pub byte_clear :
    (x t k : ℕ)
    → t < 4
    → k < 4
    → byte (bit_and x (2 ^ 32 - 1 - 0xff * 2 ^ (t * 8))) k ≡ (if k == t then 0 else byte x k)
byte_clear x t k lt lt' =
    byte_ext (bit_and x (2 ^ 32 - 1 - 0xff * 2 ^ (t * 8))) k (if k == t then 0 else byte x k)
      (ground (arith, byte-lt x k))
      (λ n low. ground (
        arith,
        bit-bit_and x (2 ^ 32 - 1 - 0xff * 2 ^ (t * 8)) (k * 8 + n),
        bit-complement 32 (0xff * 2 ^ (t * 8)) (k * 8 + n) (shl-lt 0xff t (omega arith) lt)
            (omega arith),
        shl_bits 0xff t k n (omega arith) low,
        ones n low,
        bit-byte x k n low,
        bit-zero n,
        bit-lt x (k * 8 + n),
      ))

-- `x | (c << (t * 8))` adds the bits of `c` to byte `t`.
pub byte_put :
    (x c t k : ℕ)
    → c < 2 ^ 8
    → byte (bit_or x (c * 2 ^ (t * 8))) k ≡ (if k == t then bit_or (byte x k) c else byte x k)
byte_put x c t k narrow =
    byte_ext (bit_or x (c * 2 ^ (t * 8))) k (if k == t then bit_or (byte x k) c else byte x k)
      (ground (arith, byte-lt x k, bit_or-lt 8 (byte x k) c (byte-lt x k) narrow))
      (λ n low. ground (
        arith,
        bit-bit_or x (c * 2 ^ (t * 8)) (k * 8 + n),
        shl_bits c t k n narrow low,
        bit-byte x k n low,
        bit-bit_or (byte x k) c n,
      ))
