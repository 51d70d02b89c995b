-- ===== src/Hello/Bank.antt =====
-- The structs of a bank of emulated interrupts, and accesses that change one of them.
use mvmm.Base.{
  ℕ, ◌+◌, ◌-◌, ◌*◌, ◌/◌, ◌%◌, ◌^◌, ◌<◌, ◌≡◌, bit_or, false, ◌==◌, if◌then◌else◌, some, arith, refl,
  inl, inr, Bool-cases, ◌∙◌, sym, ap,
}
use mvmm.Base.Byte.{byte, byte_put}
use mvmm.Spinlock.{spinlock_init}
use mvmm.Vgic.{VgicIrq, Vm, vgic_get_irq}
use mvmm.Vgic.Bytes.{span}
use mvmm.Vgic.Access.{BytesWritten}

-- The fields of a struct have their widths.
abbrev pub Narrow : VgicIrq → Type 0
Narrow irq = (irq.priority < 2 ^ 8) × (irq.target < 2 ^ 8) × (irq.enabled < 2 ^ 1)

-- The lock is free, and the structs of the bank of `intid` are there, as `irqs` says.
abbrev pub Bank : ℕ → ℕ → (ℕ → VgicIrq) → Vm → Type 0
Bank vcpu intid irqs vm =
    (vm.lock ≡ spinlock_init)
    × ((j : ℕ)
        → j / 32 ≡ intid / 32
        → (vm.cell (vgic_get_irq vcpu j) ≡ some (irqs j)) × Narrow (irqs j))

-- `vm'` differs from `vm` in one struct at most and in the bus, and its lock is free.
abbrev pub OneChanged : ℕ → ℕ → VgicIrq → Vm → Vm → Type 0
OneChanged vcpu intid irq vm vm' =
    (vm'.lock ≡ spinlock_init)
    × (vm'.nvcpu ≡ vm.nvcpu)
    × (vm'.enabled ≡ vm.enabled)
    × ((j : ℕ)
        → vm'.cell (vgic_get_irq vcpu j)
          ≡ (if j == intid then some irq else vm.cell (vgic_get_irq vcpu j)))

abbrev pub replaced : ℕ → VgicIrq → (ℕ → VgicIrq) → ℕ → VgicIrq
replaced intid irq irqs j = if j == intid then irq else irqs j

module _ (vcpu intid : ℕ) (irqs : ℕ → VgicIrq) (irq : VgicIrq) (vm vm' : Vm) where
  pub OneChanged-Bank :
      Bank vcpu intid irqs vm
      → Narrow irq
      → OneChanged vcpu intid irq vm vm'
      → Bank vcpu intid (replaced intid irq irqs) vm'
  OneChanged-Bank (free, there) narrow (free', same_number, same_state, cells) = (
    free',
    λ j same. elim (Bool-cases (j == intid)) [
      | inl at ↦ rw at (cells j ∙ rw at refl, narrow)
      | inr differ ↦ rw differ (cells j ∙ rw differ (there j same).0, (there j same).1)
    ],
  )

  -- A write of four bytes that gives `intid` the struct `irq` and every other its own.
  pub bytes-OneChanged :
      (val : ℕ) (f : ℕ → VgicIrq → VgicIrq)
      → Bank vcpu intid irqs vm
      → BytesWritten vcpu (intid / 4) val (λ k. irqs (4 * (intid / 4) + k)) f vm vm'
      → ((k : ℕ)
          → k < 4
          → f (byte val k) (irqs (4 * (intid / 4) + k))
            ≡ (if k == intid % 4 then irq else irqs (4 * (intid / 4) + k)))
      → OneChanged vcpu intid irq vm vm'
  bytes-OneChanged val f (free, there) ((lock, number, state), wrote, others) agree = (
    lock ∙ free,
    number,
    state,
    λ j. elim (Bool-cases (span (4 * (intid / 4)) 4 0 j)) [
      | inl within ↦
          let k : ℕ = j - 4 * (intid / 4) in
          let at : j ≡ 4 * (intid / 4) + k = ground arith in
          let low : k < 4 = ground arith in
          let same : j / 32 ≡ intid / 32 = ground arith in
          let is_it : (j == intid) ≡ (k == intid % 4) = ground arith in
          let here : vm.cell (vgic_get_irq vcpu j) ≡ some (irqs j) = (there j same).0 in
          let now = ap (λ x. vm'.cell (vgic_get_irq vcpu x)) at ∙ wrote k low in
          elim (Bool-cases (k == intid % 4)) [
            | inl hit ↦ rw (is_it, hit) (now ∙ ap some (agree k low ∙ rw hit refl))
            | inr miss ↦
                rw (is_it, miss)
                  (now
                    ∙ ap some (agree k low ∙ rw miss refl)
                    ∙ ap (λ x. some (irqs x)) (sym at)
                    ∙ sym here)
          ]
      | inr outside ↦
          let other : (j == intid) ≡ false = ground arith in others j outside ∙ rw other refl
    ],
  )

-- The bit of processor 0 at byte `t`, which is clear.
pub byte_set :
    (x v t k : ℕ)
    → byte x k ≡ (if k == t then 0 else byte v k)
    → byte (bit_or x (1 * 2 ^ (t * 8))) k ≡ (if k == t then 1 else byte v k)
byte_set x v t k e = byte_put x 1 t k (omega arith) ∙ elim (Bool-cases (k == t)) [
  | inl hit ↦ let clear : byte x k ≡ 0 = e ∙ rw hit refl in rw (hit, clear) refl
  | inr miss ↦ rw miss (e ∙ rw miss refl)
]

-- A write that sets the field `g`, by `f`, of `intid` to `c` and of the others to what it is.
pub field_agree :
    (intid c val : ℕ) (irqs : ℕ → VgicIrq) (f : ℕ → VgicIrq → VgicIrq) (g : VgicIrq → ℕ)
    → ((irq : VgicIrq) → f (g irq) irq ≡ irq)
    → (k : ℕ) → k < 4
    → byte val k ≡ (if k == intid % 4 then c else g (irqs (4 * (intid / 4) + k)))
    → f (byte val k) (irqs (4 * (intid / 4) + k))
      ≡ (if k == intid % 4 then f c (irqs intid) else irqs (4 * (intid / 4) + k))
field_agree intid c val irqs f g same k lt e = elim (Bool-cases (k == intid % 4)) [
  | inl hit ↦
      let at : 4 * (intid / 4) + k ≡ intid = ground arith in
      rw hit
        (ap (λ b. f b (irqs (4 * (intid / 4) + k))) (e ∙ rw hit refl) ∙ ap (λ x. f c (irqs x)) at)
  | inr miss ↦ rw miss (
      ap (λ b. f b (irqs (4 * (intid / 4) + k))) (e ∙ rw miss refl)
      ∙ same (irqs (4 * (intid / 4) + k)))
]
