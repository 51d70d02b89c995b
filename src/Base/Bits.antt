-- ===== src/Base/Bits.antt =====
-- Bits of words: `&`, `|`, `<<` and `>>` at variables. The native operations stand for a recursion
-- on binary digits with fuel; the fuel is dropped here, and each law is an induction on the position.
use Prim.Native.Nat.{ℕ, zero, suc, ◌+◌, ◌-◌, ◌*◌, ◌/◌, ◌%◌, ◌^◌, ◌≤◌, ◌<◌, min, max}
use Prim.Native.Nat.{bit_and, bit_or, digits, bit_and-bitwise, bit_or-bitwise}
use mathlib.Core.Path.{◌≡◌, refl, ap, ap₂, ◌∙◌, sym}
use mathlib.Core.Logic.{◌≢◌, inl, inr}
use native.Mathlib.Nat.{pow-suc, one-le-pow, div-div-eq-div-mul, div-add-mod'}
use native.Mathlib.Omega.{arith}
use mvmm.Base.Tests.{◌==◌, Bool-cases}

-- Fuel beyond the number itself changes no digit.
module _ (rest : ℕ → ℕ) (op : ℕ → ℕ → ℕ) where
  digits_spare : (a b k l : ℕ) → a ≤ k → k ≤ l → digits rest op l a b ≡ digits rest op k a b
  digits_spare zero b zero zero low le = refl
  digits_spare zero b zero (suc l) low le = refl
  digits_spare zero b (suc k) zero low le = absurd (omega arith)
  digits_spare zero b (suc k) (suc l) low le = refl
  digits_spare (suc a) b zero l low le = absurd (omega arith)
  digits_spare (suc a) b (suc k) zero low le = absurd (omega arith)
  digits_spare (suc a) b (suc k) (suc l) low le =
      ap (λ (t : ℕ). t * 2 + op (suc a % 2) (b % 2))
        (digits_spare (suc a / 2) (b / 2) k l (omega arith) (omega arith))

-- The lowest digit of `|` and of `&`, and what is left above it.
pub bit_or_step : (x y : ℕ) → bit_or x y ≡ max (x % 2) (y % 2) + 2 * bit_or (x / 2) (y / 2)
bit_or_step zero y = simp bit_or-bitwise (omega arith)
bit_or_step (suc x) y =
    let half : ℕ = suc x / 2 in
    let spare = digits_spare (λ z. z) max half (y / 2) half x (omega arith) (omega arith) in
    simp bit_or-bitwise (omega (arith, spare))

pub bit_and_step : (x y : ℕ) → bit_and x y ≡ min (x % 2) (y % 2) + 2 * bit_and (x / 2) (y / 2)
bit_and_step zero y = simp bit_and-bitwise (omega arith)
bit_and_step (suc x) y =
    let half : ℕ = suc x / 2 in
    let spare = digits_spare (λ z. 0) min half (y / 2) half x (omega arith) (omega arith) in
    simp bit_and-bitwise (omega (arith, spare))

-- Bit `n` of a word, 0 or 1.
unfoldable pub bit : ℕ → ℕ → ℕ
bit x zero = x % 2
bit x (suc n) = bit (x / 2) n

pub bit-lt : (x n : ℕ) → bit x n < 2
unfolding bit
bit-lt x zero = omega arith
bit-lt x (suc n) = bit-lt (x / 2) n

pub bit-bit_or : (a b n : ℕ) → bit (bit_or a b) n ≡ max (bit a n) (bit b n)
unfolding bit
bit-bit_or a b zero = omega (arith, bit_or_step a b)
bit-bit_or a b (suc n) =
    ap (λ (t : ℕ). bit t n) (omega (arith, bit_or_step a b)) ∙ bit-bit_or (a / 2) (b / 2) n

pub bit-bit_and : (a b n : ℕ) → bit (bit_and a b) n ≡ min (bit a n) (bit b n)
unfolding bit
bit-bit_and a b zero = omega (arith, bit_and_step a b)
bit-bit_and a b (suc n) =
    ap (λ (t : ℕ). bit t n) (omega (arith, bit_and_step a b)) ∙ bit-bit_and (a / 2) (b / 2) n

pub bit-zero : (n : ℕ) → bit 0 n ≡ 0
unfolding bit
bit-zero zero = refl
bit-zero (suc n) = bit-zero n

pub div_pow_suc : (x n : ℕ) → x / 2 ^ suc n ≡ x / 2 / 2 ^ n
div_pow_suc x n =
    ap (λ (t : ℕ). x / t) (omega (arith, pow-suc 2 n)) ∙ sym (div-div-eq-div-mul x 2 (2 ^ n))

-- `(x >> n) & 1`, as a remainder.
pub bit-div : (x n : ℕ) → bit x n ≡ x / 2 ^ n % 2
unfolding bit
bit-div x zero = omega arith
bit-div x (suc n) = bit-div (x / 2) n ∙ ap (λ (t : ℕ). t % 2) (sym (div_pow_suc x n))

pub bit-pow_self : (n : ℕ) → bit (2 ^ n) n ≡ 1
unfolding bit
bit-pow_self zero = refl
bit-pow_self (suc n) = ap (λ (t : ℕ). bit t n) (omega (arith, pow-suc 2 n)) ∙ bit-pow_self n

pub bit-pow_ne : (k n : ℕ) → k ≢ n → bit (2 ^ k) n ≡ 0
unfolding bit
bit-pow_ne zero zero ne = absurd (ne refl)
bit-pow_ne zero (suc n) ne = bit-zero n
bit-pow_ne (suc k) zero ne = omega (arith, pow-suc 2 k)
bit-pow_ne (suc k) (suc n) ne =
    ap (λ (t : ℕ). bit t n) (omega (arith, pow-suc 2 k)) ∙ bit-pow_ne k n (λ e. ne (ap suc e))

bit_and-zero_below : (n a : ℕ) → a ≤ n → bit_and a 0 ≡ 0
bit_and-zero_below n zero h = refl
bit_and-zero_below zero (suc a) h = absurd (omega arith)
bit_and-zero_below (suc n) (suc a) h =
    omega (arith, bit_and_step (suc a) 0, bit_and-zero_below n (suc a / 2) (omega arith))

pub bit_and-zero : (a : ℕ) → bit_and a 0 ≡ 0
bit_and-zero a = bit_and-zero_below a a (omega arith)

bit_or-zero_below : (n a : ℕ) → a ≤ n → bit_or a 0 ≡ a
bit_or-zero_below n zero h = refl
bit_or-zero_below zero (suc a) h = absurd (omega arith)
bit_or-zero_below (suc n) (suc a) h =
    omega (arith, bit_or_step (suc a) 0, bit_or-zero_below n (suc a / 2) (omega arith))

pub bit_or-zero : (a : ℕ) → bit_or a 0 ≡ a
bit_or-zero a = bit_or-zero_below a a (omega arith)

-- `x & BIT(n)` is `BIT(n)` or 0, by bit `n`.
pub bit_and-pow : (x n : ℕ) → bit_and x (2 ^ n) ≡ bit x n * 2 ^ n
unfolding bit
bit_and-pow x zero = omega (arith, bit_and_step x 1, bit_and-zero (x / 2))
bit_and-pow x (suc n) = omega (
  arith,
  bit_and_step x (2 ^ suc n),
  ap (λ (t : ℕ). bit_and (x / 2) t)
      (let e : 2 ^ suc n / 2 ≡ 2 ^ n = omega (arith, pow-suc 2 n) in e),
  bit_and-pow (x / 2) n,
  pow-suc 2 n,
  ap (λ (t : ℕ). bit (x / 2) n * t) (pow-suc 2 n),
)

pub bit_and-one : (x : ℕ) → bit_and x 1 ≡ x % 2
bit_and-one x = omega (arith, bit_and_step x 1, bit_and-zero (x / 2))

-- `BIT(n)` is not 0, so the test `x & BIT(n)` reads the bit.
pub bit_and-pow_test : (x n : ℕ) → (bit_and x (2 ^ n) == 0) ≡ (bit x n == 0)
bit_and-pow_test x n = elim (Bool-cases (bit x n == 0)) [
  | inl z ↦ ground (arith, bit_and-pow x n)
  | inr o ↦
      let one : bit x n ≡ 1 = ground (arith, bit-lt x n) in
      ground (arith, one, bit_and-pow x n, one-le-pow n 2, ap (λ (t : ℕ). t * 2 ^ n) one)
]

-- Words are equal if all their bits are.
bit_ext_below : (k a b : ℕ) → a ≤ k → b ≤ k → ((n : ℕ) → bit a n ≡ bit b n) → a ≡ b
unfolding bit
bit_ext_below zero a b ha hb h = omega arith
bit_ext_below (suc k) a b ha hb h =
    omega (arith, h 0, bit_ext_below k (a / 2) (b / 2) (omega arith) (omega arith) (λ n. h (suc n)))

pub bit_ext : (a b : ℕ) → ((n : ℕ) → bit a n ≡ bit b n) → a ≡ b
bit_ext a b h = bit_ext_below (a + b) a b (omega arith) (omega arith) h

pub bit_of_lt : (k a n : ℕ) → a < 2 ^ k → k ≤ n → bit a n ≡ 0
unfolding bit
bit_of_lt zero a n h le = ap (λ (t : ℕ). bit t n) (let e : a ≡ 0 = omega arith in e) ∙ bit-zero n
bit_of_lt (suc k) a zero h le = absurd (omega arith)
bit_of_lt (suc k) a (suc n) h le = bit_of_lt k (a / 2) n (omega (arith, pow-suc 2 k)) (omega arith)

-- A word whose bits from `k` on are all 0 fits `k` bits.
pub lt_of_bits : (k a : ℕ) → ((n : ℕ) → k ≤ n → bit a n ≡ 0) → a < 2 ^ k
unfolding bit
lt_of_bits zero a h =
    let e : a ≡ 0 = bit_ext a 0 (λ n. h n (omega arith) ∙ sym (bit-zero n)) in omega arith
lt_of_bits (suc k) a h =
    omega (arith, pow-suc 2 k, lt_of_bits k (a / 2) (λ n le. h (suc n) (omega arith)))

pub bit_or-lt : (k a b : ℕ) → a < 2 ^ k → b < 2 ^ k → bit_or a b < 2 ^ k
bit_or-lt k a b ha hb =
    lt_of_bits k (bit_or a b)
      (λ n le. omega (arith, bit-bit_or a b n, bit_of_lt k a n ha le, bit_of_lt k b n hb le))

-- `(q << k) | r` is a sum when `r` fits `k` bits.
pub bit_or-shift : (k q r : ℕ) → r < 2 ^ k → bit_or (q * 2 ^ k) r ≡ q * 2 ^ k + r
bit_or-shift zero q r fits =
    let e : r ≡ 0 = omega arith in rw e (omega (arith, bit_or-zero (q * 1)))
bit_or-shift (suc k) q r fits =
    let double : q * 2 ^ suc k ≡ 2 * (q * 2 ^ k) =
      omega (arith, ap (λ (t : ℕ). q * t) (pow-suc 2 k)) in
    let half : q * 2 ^ suc k / 2 ≡ q * 2 ^ k = omega arith in
    omega (
      arith,
      bit_or_step (q * 2 ^ suc k) r,
      ap (λ (t : ℕ). bit_or t (r / 2)) half,
      double,
      pow-suc 2 k,
      bit_or-shift k q (r / 2) (omega (arith, pow-suc 2 k)),
    )

-- Splitting a word at its lowest digit.
pub mod_pow_suc : (x k : ℕ) → x % 2 ^ suc k ≡ x / 2 % 2 ^ k * 2 + x % 2
mod_pow_suc x k =
    let P : ℕ = 2 ^ k in
    let q : ℕ = x / 2 / 2 ^ k in
    let same : 2 ^ suc k ≡ 2 * 2 ^ k = omega (arith, pow-suc 2 k) in
    let quot : x / 2 ^ suc k ≡ q = div_pow_suc x k in
    omega (
      arith,
      div-add-mod' x (2 ^ suc k),
      div-add-mod' (x / 2) (2 ^ k),
      ap₂ (λ (s t : ℕ). s * t) quot same,
    )

-- `x & (2^k - 1)` is a remainder.
pub bit_and-mask : (k x : ℕ) → bit_and x (2 ^ k - 1) ≡ x % 2 ^ k
bit_and-mask zero x = omega (arith, bit_and-zero x)
bit_and-mask (suc k) x =
    let half : (2 ^ suc k - 1) / 2 ≡ 2 ^ k - 1 = omega (arith, pow-suc 2 k, one-le-pow k 2) in
    omega (
      arith,
      pow-suc 2 k,
      one-le-pow k 2,
      bit_and_step x (2 ^ suc k - 1),
      ap (λ (t : ℕ). bit_and (x / 2) t) half,
      bit_and-mask k (x / 2),
      mod_pow_suc x k,
    )

-- A mask above position `k` masks the shifted word.
pub bit_and-shift : (k x c : ℕ) → bit_and x (c * 2 ^ k) ≡ bit_and (x / 2 ^ k) c * 2 ^ k
bit_and-shift zero x c =
    ap₂ bit_and (let e : x ≡ x / 1 = omega arith in e) (let e : c * 1 ≡ c = omega arith in e)
    ∙ omega arith
bit_and-shift (suc k) x c =
    let double : c * 2 ^ suc k ≡ 2 * (c * 2 ^ k) =
      omega (arith, ap (λ (t : ℕ). c * t) (pow-suc 2 k)) in
    let half : c * 2 ^ suc k / 2 ≡ c * 2 ^ k = omega arith in
    omega (
      arith,
      bit_and_step x (c * 2 ^ suc k),
      ap (λ (t : ℕ). bit_and (x / 2) t) half,
      double,
      bit_and-shift k (x / 2) c,
      ap (λ (t : ℕ). bit_and t c * 2 ^ k) (div_pow_suc x k),
      pow-suc 2 k,
      ap (λ (t : ℕ). bit_and (x / 2 ^ suc k) c * t) (pow-suc 2 k),
    )

pub bit_and-bit_or : (a b c : ℕ) → bit_and (bit_or a b) c ≡ bit_or (bit_and a c) (bit_and b c)
bit_and-bit_or a b c = bit_ext (bit_and (bit_or a b) c) (bit_or (bit_and a c) (bit_and b c)) (λ n.
    omega (
      arith,
      bit-bit_and (bit_or a b) c n,
      bit-bit_or a b n,
      bit-bit_or (bit_and a c) (bit_and b c) n,
      bit-bit_and a c n,
      bit-bit_and b c n,
    ))

-- The bits of `~x` for a word of `w` bits.
pub bit-complement : (w x n : ℕ) → x < 2 ^ w → n < w → bit (2 ^ w - 1 - x) n ≡ 1 - bit x n
unfolding bit
bit-complement zero x n hx hn = absurd (omega arith)
bit-complement (suc w) x zero hx hn = omega (arith, pow-suc 2 w)
bit-complement (suc w) x (suc n) hx hn =
    ap (λ (t : ℕ). bit t n)
      (let half : (2 ^ suc w - 1 - x) / 2 ≡ 2 ^ w - 1 - x / 2 = omega (arith, pow-suc 2 w) in half)
    ∙ bit-complement w (x / 2) n (omega (arith, pow-suc 2 w)) (omega arith)
