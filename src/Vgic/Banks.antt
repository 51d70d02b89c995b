-- ===== src/Vgic/Banks.antt =====
-- The loops over a bank of interrupts.
use mvmm.Base.{
  ℕ, zero, suc, ◌+◌, ◌-◌, ◌/◌, ◌^◌, ◌<◌, ◌≤◌, ◌≡◌, ◌≢◌, Bool, true, false, ◌==◌, ltb, leb, ◌&&◌,
  bit_and, if◌then◌else◌, none, some, ok, arith, refl, inl, inr, Bool-cases, Option-cases, Outcome,
  ◌∙◌, ap, ◌>>=◌, >>=-eq-ok,
}
use mvmm.Base.Bits.{bit, bit-div, bit_and-one, bit-lt}
use mvmm.Vgic.{VgicIrq, Vm, vgic_get_irq, for_bits}
use mvmm.Vgic.Cells.{Kept, Kept-trans, IsCellWrite, map_irq}

-- `(val >> i) & 1` reads bit `i`.
bit_test : (val i : ℕ) → (bit_and (val / 2 ^ i) 1 == 0) ≡ (bit val i == 0)
bit_test val i = rw (bit_and-one (val / 2 ^ i), bit-div val i)

-- Interrupt `j` is one of those from `intid + i` on, `left` of them, and its bit of `val` is set.
abbrev pub hit : ℕ → ℕ → ℕ → ℕ → ℕ → Bool
hit val intid left i j = leb (intid + i) j && ltb j (intid + i + left) && (bit val (j - intid) == 1)

hit_step :
    (val intid left i j : ℕ)
    → hit val intid (suc left) i j
      ≡ (if j == intid + i then bit val i == 1 else hit val intid left (suc i) j)
hit_step val intid left i j = elim (Bool-cases (j == intid + i)) [
  | inl same ↦ let at : j - intid ≡ i = ground arith in ground (arith, ap (bit val) at)
  | inr differ ↦ ground arith
]

-- The interrupt of the round at hand is not one of the rounds that are left.
hit-past : (val intid left i : ℕ) → hit val intid left (suc i) (intid + i) ≡ false
hit-past val intid left i = ground arith

hit-none : (val intid i j : ℕ) → hit val intid zero i j ≡ false
hit-none val intid i j = ground arith

hit-off :
    (val intid left i j : ℕ)
    → (bit val i == 0) ≡ true
    → hit val intid left (suc i) j ≡ hit val intid (suc left) i j
hit-off val intid left i j off = elim (Bool-cases (j == intid + i)) [
  | inl same ↦
      let at : j ≡ intid + i = ground arith in
      rw (hit_step val intid left i j, at) (ground (arith, hit-past val intid left i))
  | inr differ ↦ ground (arith, hit_step val intid left i j)
]

hit-here :
    (val intid left i j : ℕ)
    → (bit val i == 0) ≡ false
    → (j == intid + i) ≡ true
    → hit val intid (suc left) i j ≡ true
hit-here val intid left i j on same = ground (arith, hit_step val intid left i j, bit-lt val i)

hit-elsewhere :
    (val intid left i j : ℕ)
    → (j == intid + i) ≡ false
    → hit val intid (suc left) i j ≡ hit val intid left (suc i) j
hit-elsewhere val intid left i j differ = ground (arith, hit_step val intid left i j)

module _ {one : ℕ → Vm → Outcome Vm} {vcpu : ℕ} {f : VgicIrq → VgicIrq} (w : IsCellWrite one vcpu f)
    (val intid : ℕ) where
  -- A loop over cells that are there writes those whose bit is set, and no other.
  pub for_bits_lem :
      (left i : ℕ) (vm : Vm)
      → ((k : ℕ) → i ≤ k → k < i + left → vm.cell (vgic_get_irq vcpu (intid + k)) ≢ none)
      → (vm' : Vm) × (for_bits one val intid left i vm ≡ ok vm')
        × ((j : ℕ)
            → vm'.cell (vgic_get_irq vcpu j) ≡ (
                if hit val intid left i j
                then map_irq f (vm.cell (vgic_get_irq vcpu j))
                else vm.cell (vgic_get_irq vcpu j)))
  unfolding for_bits
  for_bits_lem zero i vm there = (vm, refl, λ j. rw (hit-none val intid i j))
  for_bits_lem (suc left) i vm there = elim (Bool-cases (bit val i == 0)) [
    | inl off ↦
        let (vm', ran, cells) =
          for_bits_lem left (suc i) vm (λ k lo hi. there k (omega arith) (omega arith)) in
        (vm', rw (bit_test val i, off) ran, λ j. rw (← hit-off val intid left i j off) (cells j))
    | inr on ↦ elim (Option-cases (vm.cell (vgic_get_irq vcpu (intid + i)))) [
      | inl gone ↦ absurd (there i (omega arith) (omega arith) gone)
      | inr (irq, e) ↦
          let (vm1, ran1, cells1) = w.there (intid + i) vm irq e in
          let (vm', ran, cells) = for_bits_lem left (suc i) vm1 (λ k lo hi.
            let other : (intid + k == intid + i) ≡ false = ground arith in
            rw (cells1 (intid + k), other) (there k (omega arith) (omega arith))) in
          (
            vm',
            rw (bit_test val i, on, ran1) ran,
            λ j. elim (Bool-cases (j == intid + i)) [
              | inl same ↦
                  let at : j ≡ intid + i = ground arith in
                  let past : hit val intid left (suc i) j ≡ false =
                    rw at (hit-past val intid left i) in
                  let was : vm.cell (vgic_get_irq vcpu j) ≡ some irq = rw at e in
                  cells j ∙ rw (past, cells1 j, same, hit-here val intid left i j on same, was)
              | inr differ ↦
                  rw (hit-elsewhere val intid left i j differ) (cells j ∙ rw (cells1 j, differ))
            ],
          )
    ]
  ]

  pub for_bits-Kept :
      (left i : ℕ) (vm vm' : Vm) → for_bits one val intid left i vm ≡ ok vm' → Kept vm vm'
  unfolding for_bits
  for_bits-Kept zero i vm vm' e = (cc, cc, cc)
  for_bits-Kept (suc left) i vm vm' e = elim (Bool-cases (bit_and (val / 2 ^ i) 1 == 0)) [
    | inl off ↦
        let rest : for_bits one val intid left (suc i) vm ≡ ok vm' = rw off at e in
        for_bits-Kept left (suc i) vm vm' rest
    | inr on ↦
        let taken : (do vm1 ← one (intid + i) vm; for_bits one val intid left (suc i) vm1)
            ≡ ok vm' =
          rw on at e in
        let (vm1, ran1, rest) = >>=-eq-ok (one (intid + i) vm) _ taken in
        Kept-trans vm vm1 vm' (w.kept (intid + i) vm vm1 ran1)
          (for_bits-Kept left (suc i) vm1 vm' rest)
  ]
