-- ===== src/Trap/Interrupt.antt =====
-- src/trap.c, and the end of interrupts in src/gic.c: an interrupt that is taken while a guest runs.
use mvmm.Base.{
  ℕ, ◌%◌, ◌<◌, ◌≤◌, ◌≡◌, ◌≢◌, bit_and, ◌==◌, if◌then◌else◌, true, false, Bool-cases, inl, inr, List,
  ◌∷◌, Outcome, ok, panic, ◌>>=◌, arith, refl, ap, ◌∙◌, ltb-true,
}
use mvmm.Base.Bits.{bit, bit_and-mask}
use mvmm.Gic.{lr_is_inactive, gic_make_lr}
use mvmm.Vgic.Lr.{LrState, vgic_irq_enter, vgic_inject_virq}
use mvmm.Vgic.Lr.Laws.{inject-cases, vgic_irq_enter_lem}
use mvmm.Vgic.Lr.Ownership.{IsOwned}
use mvmm.VirtioMmio.{Vtdev, virtio_dev_intr}

-- The writes to ICC_EOIR0_EL1 and ICC_EOIR1_EL1, by the group, and to ICC_DIR_EL1, the newest first.
pub record Acks : Type 0 where
  pub eoir : List (ℕ × ℕ)
  pub dir : List ℕ

unfoldable pub gic_eoi : ℕ → ℕ → Acks → Outcome Acks
gic_eoi iar grp a =
    if grp == 0
    then ok (record a { eoir = (0, iar) ∷ a.eoir })
    else if grp == 1
    then ok (record a { eoir = (1, iar) ∷ a.eoir })
    else panic

unfoldable pub gic_deactive_irq : ℕ → Acks → Acks
gic_deactive_irq irq a = record a { dir = irq ∷ a.dir }

unfoldable pub gic_host_eoi : ℕ → ℕ → Acks → Outcome Acks
gic_host_eoi iar grp a = do a' ← gic_eoi iar grp a; ok (gic_deactive_irq iar a')

unfoldable pub gic_guest_eoi : ℕ → ℕ → Acks → Outcome Acks
gic_guest_eoi iar grp a = gic_eoi iar grp a

-- The list registers of the virtual processor, the interface of the physical one, and the virtio device.
pub record Irqs : Type 0 where
  pub lrs : LrState
  pub acks : Acks
  pub device : Vtdev

-- The arguments of `virtio_dev_intr`.
module _ (me vttbr virtqueue chain_fuel fuel : ℕ) (registers : ℕ → ℕ → ℕ) where
  -- `iar` is what ICC_IAR1_EL1 reads. `vgic_inject_virq` never returns -1.
  unfoldable pub vm_irq_handler : ℕ → ℕ → Irqs → Outcome Irqs
  vm_irq_handler lr_max iar s = do
    l1 ← vgic_irq_enter lr_max s.lrs
    let pirq : ℕ = bit_and iar 0x3ff
    d1 ←
        if pirq == 48
        then virtio_dev_intr me vttbr virtqueue chain_fuel fuel registers s.device
        else ok s.device
    a1 ← gic_guest_eoi pirq 1 s.acks
    l2 ← vgic_inject_virq lr_max pirq pirq 1 l1
    ok (record { lrs = l2; acks = a1; device = d1 })

-- What the handler leaves of an interrupt `irq`.
pub record Delivered (irq n : ℕ) (s s' : Irqs) : Type 0 where
  pub idle : lr_is_inactive (s.lrs.hw.lr n) ≡ true
  pub pending : s'.lrs.hw.lr n ≡ gic_make_lr irq irq 1
  pub kept : (k : ℕ) → k ≢ n → s'.lrs.hw.lr k ≡ s.lrs.hw.lr k
  pub dropped : s'.acks.eoir ≡ (1, irq) ∷ s.acks.eoir
  pub active : s'.acks.dir ≡ s.acks.dir

module _ (me vttbr virtqueue chain_fuel fuel : ℕ) (registers : ℕ → ℕ → ℕ) where
  -- With at most 16 list registers, every live one marked in use, and one of them inactive, an interrupt
  -- other than the device's is delivered: it becomes pending in a list register whose interrupt the guest
  -- had finished, every other list register is kept, and on the physical interface its priority is dropped
  -- once and it is not deactivated.
  pub vm_irq_handler-Delivered :
      (lr_max iar k : ℕ) (s : Irqs)
      → lr_max ≤ 16
      → IsOwned lr_max s.lrs
      → k < lr_max
      → lr_is_inactive (s.lrs.hw.lr k) ≡ true
      → iar % 1024 ≢ 48
      → (n : ℕ) × (s' : Irqs) × (vm_irq_handler me vttbr virtqueue chain_fuel fuel registers lr_max
            iar s
          ≡ ok s')
        × (n < lr_max)
        × Delivered (iar % 1024) n s s'
  unfolding vm_irq_handler gic_guest_eoi gic_eoi
  vm_irq_handler-Delivered lr_max iar k s le own lt idle ne =
      let irq : ℕ = iar % 1024 in
      let (l1, ran1, same, fits1, bits) = vgic_irq_enter_lem lr_max s.lrs le own.fits in
      let number : bit_and iar 0x3ff ≡ irq = bit_and-mask 10 iar in
      let other : (irq == 48) ≡ false = ground arith in
      elim (inject-cases lr_max irq irq 1 l1 le fits1) [
        | inl (n, l2, ran2, i) ↦
            let range = i.taken.in_range in
            let was_free = i.taken.was_free in
            (
              n,
              record {
                lrs = l2;
                acks = record s.acks { eoir = (1, irq) ∷ s.acks.eoir };
                device = s.device;
              },
              rw (ran1, number, other, ran2) refl,
              range,
              record {
                idle = elim (Bool-cases (lr_is_inactive (s.lrs.hw.lr n))) [
                  | inl done ↦ done
                  | inr busy ↦
                      let marked = own.owned n range busy in
                      let still : bit l1.used_lr n ≡ bit s.lrs.used_lr n =
                        bits n ∙ rw (ltb-true range, busy) refl in
                      absurd (omega arith)
                ];
                pending = i.written;
                kept = λ j differ. i.kept j differ ∙ ap (λ h. h.lr j) same;
                dropped = refl;
                active = refl;
              },
            )
        | inr (ran2, full) ↦
            let released : bit l1.used_lr k ≡ 0 = bits k ∙ rw (ltb-true lt, idle) refl in
            absurd (omega (arith, full k lt))
      ]
