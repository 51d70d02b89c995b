-- ===== src/Hello/Setup.antt =====
-- The guest's set-up of an interrupt on the controller that the hypervisor emulates.
use mvmm.Base.{ℕ, ◌<◌, ◌≡◌, ◌==◌, ok, arith, refl, inl, inr, Bool-cases, ◌∙◌, subst}
use mvmm.Spinlock.{spinlock_init}
use mvmm.Gic.{Device}
use mvmm.Vgic.{VgicIrq, Vm}
use mvmm.Hello.Gic.{gicv3_addrs, gic_setup_spi}
use mvmm.Hello.Emulated.{emulated}
use mvmm.Hello.Bank.{Bank, OneChanged, OneChanged-Bank, replaced}
use mvmm.Hello.Steps.{
  set_prio-OneChanged, set_target-OneChanged, clear_pending-kept, enable_int-OneChanged,
}

pub OneChanged-trans :
    (vcpu intid : ℕ) (a b : VgicIrq) (vm vm1 vm2 : Vm)
    → OneChanged vcpu intid a vm vm1
    → OneChanged vcpu intid b vm1 vm2
    → OneChanged vcpu intid b vm vm2
OneChanged-trans vcpu intid a b vm vm1 vm2 (f, n, e, c) (f', n', e', c') = (
  f',
  n' ∙ n,
  e' ∙ e,
  λ j. elim (Bool-cases (j == intid)) [
    | inl hit ↦ c' j ∙ rw hit refl
    | inr miss ↦ c' j ∙ rw miss (c j ∙ rw miss refl)
  ],
)

pub replaced_self :
    (intid : ℕ) (irq : VgicIrq) (irqs : ℕ → VgicIrq) → replaced intid irq irqs intid ≡ irq
replaced_self intid irq irqs = ground arith

module _ (dev : Device) (me vcpu intid : ℕ) (known : intid < 1020) where
  -- Two changes of the same struct, of which the second goes by what the first left.
  pub again :
      (irqs : ℕ → VgicIrq) (a : VgicIrq) (f : VgicIrq → VgicIrq) (vm vm1 vm2 : Vm)
      → OneChanged vcpu intid a vm vm1
      → OneChanged vcpu intid (f (replaced intid a irqs intid)) vm1 vm2
      → OneChanged vcpu intid (f a) vm vm2
  again irqs a f vm vm1 vm2 first second =
      OneChanged-trans vcpu intid a (f a) vm vm1 vm2 first
        (subst (λ x. OneChanged vcpu intid (f x) vm1 vm2) (replaced_self intid a irqs) second)

  -- For an interrupt below 1020, with the lock free and the structs of its bank of 32 there with fields of
  -- their widths, the guest's `gic_setup_spi` on the emulated distributor succeeds: it leaves the
  -- interrupt enabled, with priority 0, whatever priority was asked for, and routed to processor 0,
  -- the lock free, and every other interrupt of the virtual processor, the number of virtual
  -- processors and the distributor's enable bit as they were.
  pub gic_setup_spi-OneChanged :
      (prio : ℕ) (irqs : ℕ → VgicIrq) (vm : Vm)
      → Bank vcpu intid irqs vm
      → (vm' : Vm) × (gic_setup_spi (emulated dev me vcpu) gicv3_addrs intid prio vm ≡ ok vm')
        × OneChanged vcpu intid
            (record (irqs intid) { priority = 0; target = 1; enabled = 1 })
            vm
            vm'
  unfolding gic_setup_spi
  gic_setup_spi-OneChanged prio irqs vm bank =
      let narrow = (bank.1 intid refl).1 in
      let a : VgicIrq = record (irqs intid) { priority = 0 } in
      let b : VgicIrq = record a { target = 1 } in
      let (vm1, ran1, one1) = set_prio-OneChanged dev me vcpu intid known irqs vm bank prio in
      let irqs1 : ℕ → VgicIrq = replaced intid a irqs in
      let bank1 =
        OneChanged-Bank vcpu intid irqs a vm vm1 bank (omega arith, narrow.1, narrow.2) one1 in
      let (vm2, ran2, one2') = set_target-OneChanged dev me vcpu intid known irqs1 vm1 bank1 in
      let one2 : OneChanged vcpu intid b vm vm2 =
        again irqs a (λ x. record x { target = 1 }) vm vm1 vm2 one1 one2' in
      let irqs2 : ℕ → VgicIrq = replaced intid b irqs in
      let bank2 =
        OneChanged-Bank vcpu intid irqs b vm vm2 bank (omega arith, omega arith, narrow.2) one2 in
      let vm3 : Vm = record vm2 { lock = spinlock_init } in
      let ran3 = clear_pending-kept dev me vcpu intid known irqs2 vm2 bank2 in
      let (vm4, ran4, one4) =
        enable_int-OneChanged dev me vcpu intid known irqs2 vm3 (refl, bank2.1) in
      (
        vm4,
        rw (ran1, ran2, ran3, ran4) refl,
        again irqs b (λ x. record x { enabled = 1 }) vm vm3 vm4 (refl, one2.1, one2.2, one2.3) one4,
      )
