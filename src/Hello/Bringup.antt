-- ===== src/Hello/Bringup.antt =====
-- The start of the guest's interrupt controller, as its program does it, on the emulated registers.
use mvmm.Base.{
  ℕ, zero, suc, ◌+◌, ◌-◌, ◌*◌, ◌^◌, ◌<◌, ◌≤◌, ◌≡◌, ◌==◌, bit_and, bit_or, true, false,
  if◌then◌else◌, Bool-cases, inl, inr, some, ok, arith, refl, ◌∙◌,
}
use mvmm.Base.Bits.{bit_and-mask}
use mvmm.Spinlock.{spinlock_init}
use mvmm.Gic.{Device}
use mvmm.Vgic.{VgicIrq, Vm, vgic_get_irq}
use mvmm.Vgic.Access.{ctlr-write, typer-read, igroupr-write}
use mvmm.Vgic.Redist.{ctlr0-write, waker-read, waker-write, igroupr0-write, igrpmodr0-write}
use mvmm.Hello.Gic.{
  CpuIf, gicv3_addrs, rdist_addr, rd32, wd32, rr32, wr32, igroups, gic_dist_init, gic_setup_spi,
  wait_woken, gic_redist_init, gic_enable, gicv3_init_percpu,
}
use mvmm.Hello.Emulated.{
  emulated, emulated_load-gicd, emulated_store-gicd, emulated_load-gicr, emulated_store-gicr,
}
use mvmm.Hello.Bank.{Narrow}
use mvmm.Hello.Setup.{gic_setup_spi-OneChanged}
use mvmm.Hello.Ppi.{gic_setup_ppi-OneChanged}

module _ (dev : Device) (me vcpu : ℕ) where
  igroups-kept :
      (left i : ℕ) (vm : Vm)
      → i + left ≤ 32
      → igroups (emulated dev me vcpu) gicv3_addrs left i vm ≡ ok vm
  unfolding igroups wd32 gicv3_addrs
  igroups-kept zero i vm lt = refl
  igroups-kept (suc left) i vm lt =
      let at : ◌≡◌ {A = ℕ} (0x80 + i * 4) (0x80 + 4 * i) = omega arith in
      rw
        (
          at,
          emulated_store-gicd dev me vcpu (0x80 + 4 * i) (omega arith) (2 ^ 32 - 1) vm vm
              (igroupr-write dev me vcpu vm i (2 ^ 32 - 1) (omega arith)),
        )
        (igroups-kept left (i + 1) vm (omega arith))

  dist_init-done :
      (vm : Vm)
      → vm.lock ≡ spinlock_init
      → vm.nspis < 1024
      → (typer : ℕ) × (gic_dist_init (emulated dev me vcpu) gicv3_addrs vm
          ≡ ok (typer, record vm { enabled = false; lock = spinlock_init }))
  unfolding gic_dist_init rd32 wd32 gicv3_addrs
  dist_init-done vm free few =
      let off : Vm = record vm { enabled = false } in
      let (typer, read, small) = typer-read dev me vcpu off free few in
      let off' : Vm = record off { lock = spinlock_init } in
      let lines : bit_and typer 0x1f < 32 = omega (arith, bit_and-mask 5 typer) in
      (
        typer,
        rw
            (
              emulated_store-gicd dev me vcpu 0x0 (omega arith) 0 vm off
                  (ctlr-write dev me vcpu vm 0),
              emulated_load-gicd dev me vcpu 0x4 (omega arith) typer off off' small read,
              igroups-kept (bit_and typer 0x1f) 0 off' (omega arith),
            )
            refl,
      )

module _ (dev : Device) (me : ℕ) (vm : Vm) (some_one : 0 < vm.nvcpu) where
  redist_init-done :
      (fuel : ℕ) (c : CpuIf)
      → gic_redist_init (emulated dev me 0) gicv3_addrs (suc fuel) 0 c vm
        ≡ ok (record c { sre = bit_or c.sre 1 }, vm)
  unfolding gic_redist_init wait_woken rdist_addr rr32 wr32 gicv3_addrs
  redist_init-done fuel c =
      let awake =
        emulated_load-gicr dev me 0 0x14 (omega arith) 0 vm (omega arith)
          (waker-read dev me vm some_one) in
      rw
        (
          emulated_store-gicr dev me 0 0x0 (omega arith) 0 vm vm (ctlr0-write dev me vm some_one 0),
          emulated_store-gicr dev me 0 0x10080 (omega arith) (2 ^ 32 - 1) vm vm
              (igroupr0-write dev me vm some_one (2 ^ 32 - 1)),
          emulated_store-gicr dev me 0 0x10d00 (omega arith) 0 vm vm
              (igrpmodr0-write dev me vm some_one 0),
          awake,
          emulated_store-gicr dev me 0 0x14 (omega arith) 0 vm vm
              (waker-write dev me vm some_one 0),
        )
        (rw awake refl)

-- What the start leaves of the structs: interrupts 33 and 27 are enabled.
abbrev pub brought_up : (ℕ → VgicIrq) → ℕ → VgicIrq
brought_up irqs j =
    if j == 27
    then record (irqs 27) { priority = 0; enabled = 1 }
    else if j == 33
    then record (irqs 33) { priority = 0; target = 1; enabled = 1 }
    else irqs j

-- On a machine with a virtual processor and fewer than 1024 shared interrupts, with the lock free and the
-- structs of the first 64 interrupts there with fields of their widths, the start of the guest's
-- interrupt controller goes through on the emulated registers: the distributor's, the set-up of the
-- serial port's interrupt 33, and the processor's, with fuel for one read of GICR_WAKER. By then the
-- distributor is enabled, the interface takes interrupts of group 1 at every priority, the lock is
-- free, of the 64 interrupts exactly 33 and the timer's 27 have changed, which are enabled with
-- priority 0, 33 routed to processor 0, and all others of the virtual processor are as they were.
pub gicv3_start-done :
    (dev : Device) (me fuel : ℕ) (c : CpuIf) (irqs : ℕ → VgicIrq) (vm : Vm)
    → 0 < vm.nvcpu
    → vm.nspis < 1024
    → vm.lock ≡ spinlock_init
    → ((j : ℕ) → j < 64 → (vm.cell (vgic_get_irq 0 j) ≡ some (irqs j)) × Narrow (irqs j))
    → (typer : ℕ) × (vm1 vm2 vm3 : Vm) × (gic_dist_init (emulated dev me 0) gicv3_addrs vm
        ≡ ok (typer, vm1))
      × (gic_setup_spi (emulated dev me 0) gicv3_addrs 33 0 vm1 ≡ ok vm2)
      × (gicv3_init_percpu (emulated dev me 0) gicv3_addrs (suc fuel) c vm2
          ≡ ok (record { igrpen1 = 1; pmr = 0xff; sre = bit_or c.sre 1 }, vm3))
      × (vm3.enabled ≡ true)
      × (vm3.lock ≡ spinlock_init)
      × ((j : ℕ) → j < 64 → vm3.cell (vgic_get_irq 0 j) ≡ some (brought_up irqs j))
      × ((j : ℕ) → 64 ≤ j → vm3.cell (vgic_get_irq 0 j) ≡ vm.cell (vgic_get_irq 0 j))
unfolding gicv3_init_percpu gic_enable wd32 gicv3_addrs
gicv3_start-done dev me fuel c irqs vm some_one few free there =
    let (typer, ran1) = dist_init-done dev me 0 vm free few in
    let vm1 : Vm = record vm { enabled = false; lock = spinlock_init } in
    let (vm2, ran2, one2) =
      gic_setup_spi-OneChanged dev me 0 33 (omega arith) 0 irqs vm1
        (refl, λ j same. there j (omega arith)) in
    let some_one2 : 0 < vm2.nvcpu = let same = one2.1 in omega arith in
    let (vm4, ran3, one3) = gic_setup_ppi-OneChanged dev me 27 0 irqs vm2 (omega arith) some_one2 (
      one2.0,
      λ j same.
          let other : (j == 33) ≡ false = ground arith in
          let (here, narrow) = there j (omega arith) in (one2.3 j ∙ rw other here, narrow),
    ) in
    let vm3 : Vm = record vm4 { enabled = true } in
    let started : CpuIf = record { igrpen1 = 0; pmr = 0xff; sre = c.sre } in
    (
      typer,
      vm1,
      vm2,
      vm3,
      ran1,
      ran2,
      rw
          (
            redist_init-done dev me vm2 some_one2 fuel started,
            ran3,
            emulated_store-gicd dev me 0 0x0 (omega arith) 3 vm4 vm3 (ctlr-write dev me 0 vm4 3),
          )
          refl,
      refl,
      one3.0,
      λ j lt. elim (Bool-cases (j == 27)) [
        | inl timer ↦ rw timer (one3.3 j ∙ rw timer refl)
        | inr other ↦ elim (Bool-cases (j == 33)) [
          | inl serial ↦ rw (other, serial) (one3.3 j ∙ rw other (one2.3 j ∙ rw serial refl))
          | inr rest ↦ rw (other, rest) (one3.3 j ∙ rw other (one2.3 j ∙ rw rest (there j lt).0))
        ]
      ],
      λ j le.
          let other : (j == 27) ≡ false = ground arith in
          let other' : (j == 33) ≡ false = ground arith in
          one3.3 j ∙ rw other (one2.3 j ∙ rw other' refl),
    )
