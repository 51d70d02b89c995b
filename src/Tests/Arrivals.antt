-- ===== src/Tests/Arrivals.antt =====
-- Interrupt 33 arrives while the guest has one interrupt in list register 0.
use mvmm.Base.{
  ℕ, ◌%◌, ◌<◌, ◌≡◌, ◌==◌, if◌then◌else◌, [], ok, arith, refl, eq_of_==, Bool-cases, inl, inr, sym,
  ap, ◌∙◌, true, false,
}
use mvmm.Base.Bits.{bit}
use mvmm.Gic.{gic_make_lr, lr_is_inactive}
use mvmm.Vgic.Lr.{LrState}
use mvmm.Vgic.Lr.Ownership.{IsOwned}
use mvmm.Tests.Devices.{idle_device}
use mvmm.Trap.Interrupt.{Irqs, vm_irq_handler, Delivered, vm_irq_handler-Delivered}

abbrev one_live : LrState
one_live = record {
  used_lr = 1;
  hw = record { lr = λ n. if n == 0 then gic_make_lr 27 27 1 else 0; vmcr = 0; sre_el1 = 0 };
}

one_live-owned : (k : ℕ) → lr_is_inactive (one_live.hw.lr k) ≡ false → bit one_live.used_lr k ≡ 1
unfolding bit lr_is_inactive
one_live-owned k busy = elim (Bool-cases (k == 0)) [
  | inl e ↦ rw (eq_of_== k 0 e) refl
  | inr other ↦
      let empty : one_live.hw.lr k ≡ 0 = rw other refl in
      let idle : lr_is_inactive (one_live.hw.lr k) ≡ true = ap lr_is_inactive empty in
      cc (sym idle ∙ busy)
]

one_live-IsOwned : IsOwned 4 one_live
one_live-IsOwned = record { fits = omega arith; owned = λ k lt busy. one_live-owned k busy }

abbrev arriving : Irqs
arriving = record { lrs = one_live; acks = record { eoir = []; dir = [] }; device = idle_device }

vm_irq_handler-Delivered_example :
    (n : ℕ) × (s' : Irqs) × (vm_irq_handler 0 0x1000 0x20000 8 8 (λ a size. 0) 4 33 arriving
      ≡ ok s')
    × (n < 4)
    × Delivered (33 % 1024) n arriving s'
unfolding lr_is_inactive
vm_irq_handler-Delivered_example =
    vm_irq_handler-Delivered 0 0x1000 0x20000 8 8 (λ a size. 0) 4 33 1 arriving (omega arith)
      one_live-IsOwned (omega arith) refl (λ e. omega arith)
