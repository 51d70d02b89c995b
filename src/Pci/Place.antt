-- ===== src/Pci/Place.antt =====
-- The sizes that `pci_func_enable` reads and the addresses that it writes.
use mvmm.Base.{
  ℕ, ◌+◌, ◌-◌, ◌*◌, ◌/◌, ◌%◌, ◌^◌, ◌≤◌, ◌<◌, ◌≡◌, ◌≢◌, bit_and, bit_or, true, false, List, [], ◌∷◌,
  arith, ap, ◌∙◌,
}
use mvmm.Base.Bits.{bit_and-mask, bit_and-shift}
use mvmm.Pci.{ConfigSpace, Bases, Enabling, is_mem, is_mem64, bar_size}

-- The registers of a function in their order: one without use, a window in memory with its size and type
-- bits, with a 32-bit or a 64-bit address (which takes two registers), or a range of ports.
pub data Slot : Type 0 where
  empty port : Slot
  narrow wide : ℕ → ℕ → Slot

abbrev pub registers : Slot → ℕ
registers (wide s f) = 2
registers _ = 1

abbrev pub total : List Slot → ℕ
total [] = 0
total (x ∷ xs) = registers x + total xs

module _ {C : Type 0} (hw : ConfigSpace C) (held : ℕ → ℕ → ℕ) where
  -- A register reads as `held` says of what was written to it, and not otherwise changed.
  pub record IsFunction : Type 0 where
    pub self : (c : C) (i v : ℕ) → hw.bar (hw.set_bar i v c) i ≡ held i v
    pub other : (c : C) (i j v : ℕ) → j ≢ i → hw.bar (hw.set_bar i v c) j ≡ hw.bar c j
    pub command : (c : C) (v j : ℕ) → hw.bar (hw.set_command v c) j ≡ hw.bar c j

  -- A window of `s` bytes with the type bits `f` reads as ones above its size when all ones are written.
  pub record IsWindow (i s f : ℕ) : Type 0 where
    pub mask : held i 0xffffffff ≡ 2 ^ 32 - s + f
    pub aligned : s % 16 ≡ 0
    pub some_bytes : 0 < s
    pub small : s < 2 ^ 32
    pub flags : f < 16
    pub mem : is_mem f ≡ true

  -- The registers from `i` on are those of the slots, and no window has an address yet.
  abbrev pub Unplaced : List Slot → ℕ → C → Type 0
  Unplaced [] i c = Unit
  Unplaced (empty ∷ xs) i c = (held i 0xffffffff ≡ 0) × Unplaced xs (i + 1) c
  Unplaced (port ∷ xs) i c =
      (held i 0xffffffff ≢ 0) × (is_mem (hw.bar c i) ≡ false) × Unplaced xs (i + 1) c
  Unplaced (narrow s f ∷ xs) i c =
      (hw.bar c i ≡ f) × IsWindow i s f × (is_mem64 f ≡ false) × Unplaced xs (i + 1) c
  Unplaced (wide s f ∷ xs) i c =
      (hw.bar c i ≡ f) × IsWindow i s f × (is_mem64 f ≡ true) × Unplaced xs (i + 2) c

  -- Each window is noted with its size and the next free address of its kind, which is what was last
  -- written to its registers; the bases move on by the sizes.
  abbrev pub Placed : List Slot → ℕ → Bases → Enabling C → Type 0
  Placed [] i b e = e.bases ≡ b
  Placed (empty ∷ xs) i b e = Placed xs (i + 1) b e
  Placed (port ∷ xs) i b e = Placed xs (i + 1) b e
  Placed (narrow s f ∷ xs) i b e =
      (e.dev.reg_addr i ≡ b.base32)
      × (e.dev.reg_size i ≡ s)
      × (hw.bar e.config i ≡ held i (bit_or b.base32 f % 2 ^ 32))
      × Placed xs (i + 1) (record b { base32 = (b.base32 + s) % 2 ^ 64 }) e
  Placed (wide s f ∷ xs) i b e =
      (e.dev.reg_addr i ≡ b.base64)
      × (e.dev.reg_size i ≡ s)
      × (hw.bar e.config i ≡ held i (bit_or b.base64 f % 2 ^ 32))
      × (hw.bar e.config (i + 1) ≡ held (i + 1) (bit_or b.base64 f / 2 ^ 32 % 2 ^ 32))
      × Placed xs (i + 2) (record b { base64 = (b.base64 + s) % 2 ^ 64 }) e

  -- The registers below `i` are as before.
  pub record SameBelow (i : ℕ) (e e' : Enabling C) : Type 0 where
    pub addr : (k : ℕ) → k < i → e'.dev.reg_addr k ≡ e.dev.reg_addr k
    pub size : (k : ℕ) → k < i → e'.dev.reg_size k ≡ e.dev.reg_size k
    pub bars : (k : ℕ) → k < i → hw.bar e'.config k ≡ hw.bar e.config k

  pub SameBelow-trans :
      (i j : ℕ) (e e1 e2 : Enabling C)
      → i ≤ j
      → SameBelow i e e1
      → SameBelow j e1 e2
      → SameBelow i e e2
  SameBelow-trans i j e e1 e2 le a b = record {
    addr = λ k lt. b.addr k (omega arith) ∙ a.addr k lt;
    size = λ k lt. b.size k (omega arith) ∙ a.size k lt;
    bars = λ k lt. b.bars k (omega arith) ∙ a.bars k lt;
  }

  -- The registers from `i` on are as before.
  abbrev pub SameFrom : ℕ → C → C → Type 0
  SameFrom i c c' = (k : ℕ) → i ≤ k → hw.bar c' k ≡ hw.bar c k

  pub Unplaced-kept :
      (xs : List Slot) (i : ℕ) (c c' : C) → SameFrom i c c' → Unplaced xs i c → Unplaced xs i c'
  Unplaced-kept [] i c c' same u = u
  Unplaced-kept (empty ∷ xs) i c c' same (a, u) =
      (a, Unplaced-kept xs (i + 1) c c' (λ k le. same k (omega arith)) u)
  Unplaced-kept (port ∷ xs) i c c' same (a, b, u) = (
    a,
    rw (same i (omega arith)) b,
    Unplaced-kept xs (i + 1) c c' (λ k le. same k (omega arith)) u,
  )
  Unplaced-kept (narrow s f ∷ xs) i c c' same (a, w, n, u) = (
    same i (omega arith) ∙ a,
    w,
    n,
    Unplaced-kept xs (i + 1) c c' (λ k le. same k (omega arith)) u,
  )
  Unplaced-kept (wide s f ∷ xs) i c c' same (a, w, n, u) = (
    same i (omega arith) ∙ a,
    w,
    n,
    Unplaced-kept xs (i + 2) c c' (λ k le. same k (omega arith)) u,
  )

bar_mask : (e : ℕ) → bit_and e 0xfffffff0 ≡ e / 16 % 2 ^ 28 * 16
bar_mask e = bit_and-shift 4 e (2 ^ 28 - 1) ∙ ap (λ (t : ℕ). t * 16) (bit_and-mask 28 (e / 16))

-- The size is read from what the register keeps of all ones.
pub bar_size_lem :
    (s f : ℕ) → s % 16 ≡ 0 → 0 < s → s < 2 ^ 32 → f < 16 → bar_size (2 ^ 32 - s + f) ≡ s
unfolding bar_size
bar_size_lem s f al pos small low = omega (arith, bar_mask (2 ^ 32 - s + f))

pub no_address : (f : ℕ) → f < 16 → bit_and f 0xfffffff0 ≡ 0
no_address f low = omega (arith, bar_mask f)

pub type_bits : (f : ℕ) → f < 16 → bit_and f 0xf ≡ f
type_bits f low = omega (arith, bit_and-mask 4 f)
