-- ===== src/Hello/Ppi.antt =====
-- The guest's set-up of an interrupt of its own processor, through the emulated redistributor.
use mvmm.Base.{ℕ, ◌+◌, ◌-◌, ◌*◌, ◌/◌, ◌%◌, ◌^◌, ◌<◌, ◌≡◌, bit_and, bit_or, ok, arith, refl, ◌∙◌, ap}
use mvmm.Base.Byte.{byte_clear}
use mvmm.Gic.{Device}
use mvmm.Vgic.{VgicIrq, Vm}
use mvmm.Vgic.Redist.{
  isenabler0-read, isenabler0-write, icpendr0-read, icpendr0-write, priority-read, priority-write,
}
use mvmm.Hello.Gic.{
  byte_mask, gicv3_addrs, rdist_addr, rr32, wr32, gicr_set_prio, gicr_clear_pending,
  gicr_enable_int, gic_setup_ppi,
}
use mvmm.Hello.Emulated.{emulated, emulated_load-gicr, emulated_store-gicr}
use mvmm.Hello.Bank.{Bank, OneChanged, bytes-OneChanged, field_agree, OneChanged-Bank, replaced}
use mvmm.Hello.Steps.{enable_cell}
use mvmm.Hello.Setup.{again}

module _ (dev : Device) (me intid : ℕ) (own_irq : intid < 32) (irqs : ℕ → VgicIrq) (vm : Vm)
    (bank : Bank 0 intid irqs vm) (some_one : 0 < vm.nvcpu) where
  set_prio-OneChanged :
      (prio : ℕ)
      → (vm' : Vm) × (gicr_set_prio (emulated dev me 0) gicv3_addrs 0 intid prio vm ≡ ok vm')
        × OneChanged 0 intid (record (irqs intid) { priority = 0 }) vm vm'
  unfolding gicr_set_prio rdist_addr rr32 wr32 gicv3_addrs byte_mask
  set_prio-OneChanged prio =
      let n : ℕ = intid / 4 in
      let at : ◌≡◌ {A = ℕ} (0x10400 + n * 4) (0x10400 + 4 * n) = omega arith in
      let own = λ (k : ℕ). irqs (4 * n + k) in
      let (v, read, small, bytes) =
        priority-read dev me vm some_one n (omega arith) own
          (λ k lt. let (here, narrow) = bank.1 (4 * n + k) (omega arith) in (here, narrow.0)) in
      let val : ℕ = bit_and v (2 ^ 32 - 1 - 0xff * 2 ^ (intid % 4 * 8)) in
      let (vm', written, w) =
        priority-write dev me vm some_one n (omega arith) val own
          (λ k lt. (bank.1 (4 * n + k) (omega arith)).0) in
      (
        vm',
        rw
            (
              at,
              emulated_load-gicr dev me 0 (0x10400 + 4 * n) (omega arith) v vm small read,
              emulated_store-gicr dev me 0 (0x10400 + 4 * n) (omega arith) val vm vm' written,
            )
            refl,
        bytes-OneChanged 0 intid irqs (record (irqs intid) { priority = 0 }) vm vm' val
            (λ b irq. record irq { priority = b }) bank w
            (λ k lt.
              field_agree intid 0 val irqs (λ b irq. record irq { priority = b })
                (λ irq. irq.priority) (λ irq. refl) k lt
                (byte_clear v (intid % 4) k (omega arith) lt ∙ rw (bytes k lt) refl)),
      )

  clear_pending-kept : gicr_clear_pending (emulated dev me 0) gicv3_addrs 0 intid vm ≡ ok vm
  unfolding gicr_clear_pending rdist_addr rr32 wr32 gicv3_addrs
  clear_pending-kept =
      rw
        (
          emulated_load-gicr dev me 0 0x10280 (omega arith) 0 vm (omega arith)
              (icpendr0-read dev me vm some_one),
          emulated_store-gicr dev me 0 0x10280 (omega arith) (bit_or 0 (2 ^ (intid % 32))) vm vm
              (icpendr0-write dev me vm some_one (bit_or 0 (2 ^ (intid % 32)))),
        )
        refl

  enable_int-OneChanged :
      (vm' : Vm) × (gicr_enable_int (emulated dev me 0) gicv3_addrs 0 intid vm ≡ ok vm')
      × OneChanged 0 intid (record (irqs intid) { enabled = 1 }) vm vm'
  unfolding gicr_enable_int rdist_addr rr32 wr32 gicv3_addrs
  enable_int-OneChanged =
      let first : intid / 32 ≡ 0 = omega arith in
      let (v, read, small, bits) =
        isenabler0-read dev me vm some_one (λ k. irqs (0 + k))
          (λ k lt. let (here, narrow) = bank.1 (0 + k) (omega arith) in (here, narrow.2)) in
      let val : ℕ = bit_or v (2 ^ (intid % 32)) in
      let (vm', written, kept, cells) =
        isenabler0-write dev me vm some_one val
          (λ k lt e. let here = (bank.1 (0 + k) (omega arith)).0 in cc) in
      (
        vm',
        rw
            (
              emulated_load-gicr dev me 0 0x10100 (omega arith) v vm small read,
              emulated_store-gicr dev me 0 0x10100 (omega arith) val vm vm' written,
            )
            refl,
        (
          kept.0 ∙ bank.0,
          kept.1,
          kept.2,
          λ j.
              cells j
              ∙ rw first at (
                  enable_cell dev me 0 intid (omega arith) irqs vm bank v j (λ k lt.
                    let same : 0 + k ≡ 32 * (intid / 32) + k = omega arith in
                    bits k lt ∙ ap (λ x. (irqs x).enabled) same)),
        ),
      )

-- For an interrupt below 32, on a machine with a virtual processor and with the lock free and the structs of
-- its first bank there with fields of their widths, the guest's `gic_setup_ppi` for processor 0 on the
-- emulated redistributor succeeds: it leaves the interrupt enabled, with priority 0, whatever
-- priority was asked for, and all else but the bus as it was.
pub gic_setup_ppi-OneChanged :
    (dev : Device) (me intid prio : ℕ) (irqs : ℕ → VgicIrq) (vm : Vm)
    → intid < 32
    → 0 < vm.nvcpu
    → Bank 0 intid irqs vm
    → (vm' : Vm) × (gic_setup_ppi (emulated dev me 0) gicv3_addrs 0 intid prio vm ≡ ok vm')
      × OneChanged 0 intid (record (irqs intid) { priority = 0; enabled = 1 }) vm vm'
unfolding gic_setup_ppi
gic_setup_ppi-OneChanged dev me intid prio irqs vm own some_one bank =
    let narrow = (bank.1 intid refl).1 in
    let a : VgicIrq = record (irqs intid) { priority = 0 } in
    let (vm1, ran1, one1) = set_prio-OneChanged dev me intid own irqs vm bank some_one prio in
    let irqs1 : ℕ → VgicIrq = replaced intid a irqs in
    let bank1 = OneChanged-Bank 0 intid irqs a vm vm1 bank (omega arith, narrow.1, narrow.2) one1 in
    let number = one1.1 in
    let left : 0 < vm1.nvcpu = omega (arith, number) in
    let (vm2, ran2, one2) = enable_int-OneChanged dev me intid own irqs1 vm1 bank1 left in
    (
      vm2,
      rw (ran1, clear_pending-kept dev me intid own irqs1 vm1 bank1 left, ran2) refl,
      again dev me 0 intid (omega arith) irqs a (λ x. record x { enabled = 1 }) vm vm1 vm2 one1
          one2,
    )
