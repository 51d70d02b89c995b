-- ===== src/Memory/Laws.antt =====
-- Reading back what was written, and what a write leaves alone.
use mvmm.Base.{
  ℕ, zero, suc, ◌+◌, ◌/◌, ◌%◌, ◌^◌, ◌≤◌, ◌<◌, ◌≡◌, ◌≢◌, ◌⊎◌, inl, refl, ◌∙◌, arith, ==-true,
  ==-false,
}
use native.Mathlib.Nat.{pow-suc}
use mvmm.Memory.{Mem, write_byte, load, store}

pub write_byte_self : (m : Mem) (a v : ℕ) → write_byte m a v a ≡ v
unfolding write_byte
write_byte_self m a v = rw (==-true {a = a} {b = a} refl)

pub write_byte_ne : (m : Mem) (a v b : ℕ) → b ≢ a → write_byte m a v b ≡ m b
unfolding write_byte
write_byte_ne m a v b ne = rw (==-false ne)

-- A store changes no byte outside its range.
pub store_outside : (n : ℕ) (m : Mem) (a v b : ℕ) → (b < a) ⊎ (a + n ≤ b) → store n m a v b ≡ m b
unfolding store
store_outside zero m a v b h = refl
store_outside (suc n) m a v b h =
    store_outside n (write_byte m a (v % 256)) (a + 1) (v / 256) b (omega arith)
    ∙ write_byte_ne m a (v % 256) b (omega arith)

-- A load depends on its own bytes only.
pub load_ext :
    (n : ℕ) (m m' : Mem) (a : ℕ)
    → ((b : ℕ) → a ≤ b → b < a + n → m' b ≡ m b)
    → load n m' a ≡ load n m a
unfolding load
load_ext zero m m' a h = refl
load_ext (suc n) m m' a h = omega (
  arith,
  h a (omega arith) (omega arith),
  load_ext n m m' (a + 1) (λ b lo hi. h b (omega arith) (omega arith)),
)

-- A load apart from a store reads what was there.
pub load-store_apart :
    (k n : ℕ) (m : Mem) (a v b : ℕ)
    → (b + k ≤ a) ⊎ (a + n ≤ b)
    → load k (store n m a v) b ≡ load k m b
load-store_apart k n m a v b apart =
    load_ext k m (store n m a v) b (λ c lo hi. store_outside n m a v c (omega arith))

pub load-store_self : (n : ℕ) (m : Mem) (a v : ℕ) → v < 256 ^ n → load n (store n m a v) a ≡ v
unfolding load store
load-store_self zero m a v h = omega arith
load-store_self (suc n) m a v h = omega (
  arith,
  store_outside n (write_byte m a (v % 256)) (a + 1) (v / 256) a (inl (omega arith)),
  write_byte_self m a (v % 256),
  load-store_self n (write_byte m a (v % 256)) (a + 1) (v / 256) (omega (arith, pow-suc 256 n)),
)

pub load-zero : (n : ℕ) (m : Mem) (a : ℕ) → ((b : ℕ) → a ≤ b → b < a + n → m b ≡ 0) → load n m a ≡ 0
unfolding load
load-zero zero m a h = refl
load-zero (suc n) m a h = omega (
  arith,
  h a (omega arith) (omega arith),
  load-zero n m (a + 1) (λ b lo hi. h b (omega arith) (omega arith)),
)
