-- ===== src/Vgic/Bytes.antt =====
-- The loops over the four interrupts of a register of bytes.
use mvmm.Base.{
  ℕ, zero, suc, ◌+◌, ◌<◌, ◌≤◌, ◌≡◌, Bool, false, true, ◌==◌, ltb, leb, ◌&&◌, some, ok, arith, refl,
  inl, inr, Bool-cases, Outcome, ◌∙◌, >>=-eq-ok,
}
use mvmm.Base.Byte.{byte}
use mvmm.Vgic.{VgicIrq, Vm, vgic_get_irq, for_bytes}
use mvmm.Vgic.Cells.{Kept, Kept-trans, IsCellWrite}

-- Interrupt `j` is one of those from `base + i` on, `left` of them.
abbrev pub span : ℕ → ℕ → ℕ → ℕ → Bool
span base left i j = leb (base + i) j && ltb j (base + i + left)

module _ {one : ℕ → ℕ → Vm → Outcome Vm} {vcpu : ℕ} {f : ℕ → VgicIrq → VgicIrq}
    (w : (b : ℕ) → IsCellWrite (one b) vcpu (f b)) (val base : ℕ) (irqs : ℕ → VgicIrq) where
  -- A loop over cells that are there writes each its byte, and no other cell.
  pub for_bytes_lem :
      (left i : ℕ) (vm : Vm)
      → ((k : ℕ) → i ≤ k → k < i + left → vm.cell (vgic_get_irq vcpu (base + k)) ≡ some (irqs k))
      → (vm' : Vm) × (for_bytes one val base left i vm ≡ ok vm')
        × ((k : ℕ)
            → i ≤ k
            → k < i + left
            → vm'.cell (vgic_get_irq vcpu (base + k)) ≡ some (f (byte val k) (irqs k)))
        × ((j : ℕ)
            → span base left i j ≡ false
            → vm'.cell (vgic_get_irq vcpu j) ≡ vm.cell (vgic_get_irq vcpu j))
  unfolding for_bytes
  for_bytes_lem zero i vm there = (vm, refl, λ k le lt. absurd (omega arith), λ j off. refl)
  for_bytes_lem (suc left) i vm there =
      let (vm1, ran1, cells1) =
        (w (byte val i)).there (base + i) vm (irqs i) (there i (omega arith) (omega arith)) in
      let (vm', ran, wrote, others) = for_bytes_lem left (suc i) vm1 (λ k le lt.
        let other : (base + k == base + i) ≡ false = ground arith in
        cells1 (base + k) ∙ rw other (there k (omega arith) (omega arith))) in
      (
        vm',
        rw ran1 ran,
        λ k le lt. elim (Bool-cases (k == i)) [
          | inl at ↦
              let at' : k ≡ i = ground arith in
              let past : span base left (suc i) (base + i) ≡ false = ground arith in
              let self : (base + i == base + i) ≡ true = ground arith in
              rw at' (others (base + i) past ∙ cells1 (base + i) ∙ rw self refl)
          | inr differ ↦ wrote k (ground arith) (omega arith)
        ],
        λ j off.
            let off' : span base left (suc i) j ≡ false = ground arith in
            let other : (j == base + i) ≡ false = ground arith in
            others j off' ∙ cells1 j ∙ rw other refl,
      )

  pub for_bytes-Kept :
      (left i : ℕ) (vm vm' : Vm) → for_bytes one val base left i vm ≡ ok vm' → Kept vm vm'
  unfolding for_bytes
  for_bytes-Kept zero i vm vm' e = (cc, cc, cc)
  for_bytes-Kept (suc left) i vm vm' e =
      let (vm1, ran1, rest) = >>=-eq-ok (one (byte val i) (base + i) vm) _ e in
      Kept-trans vm vm1 vm' ((w (byte val i)).kept (base + i) vm vm1 ran1)
        (for_bytes-Kept left (suc i) vm1 vm' rest)
