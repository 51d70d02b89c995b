-- ===== src/Hello/Steps.antt =====
-- guest/hello/gicv3.c: the accesses that set an interrupt up, each on the emulated controller.
use mvmm.Base.{
  ℕ, ◌+◌, ◌-◌, ◌*◌, ◌/◌, ◌%◌, ◌^◌, ◌<◌, ◌≡◌, bit_and, bit_or, ◌==◌, ◌&&◌, if◌then◌else◌, some, ok,
  arith, refl, inl, inr, Bool-cases, ◌∙◌, ap,
}
use mvmm.Base.Bits.{bit, bit-lt, bit-bit_or, bit-pow_self, bit-pow_ne}
use mvmm.Base.Byte.{byte_clear, shl-lt}
use mvmm.Spinlock.{spinlock_init}
use mvmm.Gic.{Device}
use mvmm.Vgic.{VgicIrq, Vm, vgic_get_irq}
use mvmm.Vgic.Cells.{map_irq}
use mvmm.Vgic.Enable.{isenabler-write}
use mvmm.Vgic.Access.{
  isenabler-read, icpendr-read, icpendr-write, ipriorityr-read, itargetsr-read, ipriorityr-write,
  itargetsr-write,
}
use mvmm.Hello.Gic.{
  byte_mask, gicv3_addrs, rd32, wd32, gic_set_prio, gic_set_target, gic_clear_pending,
  gic_enable_int,
}
use mvmm.Hello.Emulated.{emulated, emulated_load-gicd, emulated_store-gicd}
use mvmm.Hello.Bank.{Bank, OneChanged, bytes-OneChanged, field_agree, byte_set}

module _ (dev : Device) (me vcpu intid : ℕ) (known : intid < 1020) (irqs : ℕ → VgicIrq) (vm : Vm)
    (bank : Bank vcpu intid irqs vm) where
  -- The set-up of the priority clears that of the interrupt.
  pub set_prio-OneChanged :
      (prio : ℕ)
      → (vm' : Vm) × (gic_set_prio (emulated dev me vcpu) gicv3_addrs intid prio vm ≡ ok vm')
        × OneChanged vcpu intid (record (irqs intid) { priority = 0 }) vm vm'
  unfolding gic_set_prio rd32 wd32 gicv3_addrs byte_mask
  set_prio-OneChanged prio =
      let n : ℕ = intid / 4 in
      let at : ◌≡◌ {A = ℕ} (0x400 + n * 4) (0x400 + 4 * n) = omega arith in
      let own = λ (k : ℕ). irqs (4 * n + k) in
      let (v, read, small, bytes) =
        ipriorityr-read dev me vcpu n vm own bank.0 (omega arith)
          (λ k lt. let (here, narrow) = bank.1 (4 * n + k) (omega arith) in (here, narrow.0)) in
      let free : Vm = record vm { lock = spinlock_init } in
      let val : ℕ = bit_and v (2 ^ 32 - 1 - 0xff * 2 ^ (intid % 4 * 8)) in
      let (vm', written, w) =
        ipriorityr-write dev me vcpu n val free own (omega arith)
          (λ k lt. (bank.1 (4 * n + k) (omega arith)).0) in
      (
        vm',
        rw
            (
              at,
              emulated_load-gicd dev me vcpu (0x400 + 4 * n) (omega arith) v vm free small read,
              emulated_store-gicd dev me vcpu (0x400 + 4 * n) (omega arith) val free vm' written,
            )
            refl,
        bytes-OneChanged vcpu intid irqs (record (irqs intid) { priority = 0 }) free vm' val
            (λ b irq. record irq { priority = b }) (refl, bank.1) w
            (λ k lt.
              field_agree intid 0 val irqs (λ b irq. record irq { priority = b })
                (λ irq. irq.priority) (λ irq. refl) k lt
                (byte_clear v (intid % 4) k (omega arith) lt ∙ rw (bytes k lt) refl)),
      )

  -- The set-up of the target routes it to processor 0.
  pub set_target-OneChanged :
      (vm' : Vm) × (gic_set_target (emulated dev me vcpu) gicv3_addrs intid 0 vm ≡ ok vm')
      × OneChanged vcpu intid (record (irqs intid) { target = 1 }) vm vm'
  unfolding gic_set_target rd32 wd32 gicv3_addrs byte_mask
  set_target-OneChanged =
      let n : ℕ = intid / 4 in
      let t : ℕ = intid % 4 in
      let at : ◌≡◌ {A = ℕ} (0x800 + n * 4) (0x800 + 4 * n) = omega arith in
      let own = λ (k : ℕ). irqs (4 * n + k) in
      let (v, read, small, bytes) =
        itargetsr-read dev me vcpu n vm own bank.0 (omega arith)
          (λ k lt. let (here, narrow) = bank.1 (4 * n + k) (omega arith) in (here, narrow.1)) in
      let free : Vm = record vm { lock = spinlock_init } in
      let cleared : ℕ = bit_and v (2 ^ 32 - 1 - 0xff * 2 ^ (t * 8)) in
      let val : ℕ = bit_or cleared (1 * 2 ^ (t * 8)) in
      let whole : 1 * 2 ^ (t * 8) % 2 ^ 32 ≡ 1 * 2 ^ (t * 8) =
        omega (arith, shl-lt 1 t (omega arith) (omega arith)) in
      let (vm', written, w) =
        itargetsr-write dev me vcpu n val free own (omega arith)
          (λ k lt. (bank.1 (4 * n + k) (omega arith)).0) in
      (
        vm',
        rw
            (
              at,
              emulated_load-gicd dev me vcpu (0x800 + 4 * n) (omega arith) v vm free small read,
              whole,
              emulated_store-gicd dev me vcpu (0x800 + 4 * n) (omega arith) val free vm' written,
            )
            refl,
        bytes-OneChanged vcpu intid irqs (record (irqs intid) { target = 1 }) free vm' val
            (λ b irq. record irq { target = b }) (refl, bank.1) w
            (λ k lt.
              field_agree intid 1 val irqs (λ b irq. record irq { target = b }) (λ irq. irq.target)
                (λ irq. refl) k lt
                (byte_set cleared v t k (byte_clear v t k (omega arith) lt)
                  ∙ rw (bytes k lt) refl)),
      )

  -- The bits that were read are those of interrupts enabled before.
  pub enable_cell :
      (v j : ℕ)
      → ((k : ℕ) → k < 32 → bit v k ≡ (irqs (32 * (intid / 32) + k)).enabled)
      → (if j / 32 == intid / 32 && (bit (bit_or v (2 ^ (intid % 32))) (j % 32) == 1)
          then map_irq (λ irq. record irq { enabled = 1 }) (vm.cell (vgic_get_irq vcpu j))
          else vm.cell (vgic_get_irq vcpu j))
        ≡ (if j == intid
            then some (record (irqs intid) { enabled = 1 })
            else vm.cell (vgic_get_irq vcpu j))
  enable_cell v j bits = elim (Bool-cases (j == intid)) [
    | inl hit ↦
        let at : j ≡ intid = ground arith in
        let set : bit (bit_or v (2 ^ (intid % 32))) (intid % 32) ≡ 1 = omega (
          arith,
          bit-bit_or v (2 ^ (intid % 32)) (intid % 32),
          bit-pow_self (intid % 32),
          bit-lt v (intid % 32),
        ) in
        let here = (bank.1 intid refl).0 in rw (hit, at, set, here) (ground arith)
    | inr miss ↦ elim (Bool-cases (j / 32 == intid / 32)) [
      | inl same ↦
          let own : (irqs (32 * (intid / 32) + j % 32)).enabled ≡ (irqs j).enabled =
            ap (λ x. (irqs x).enabled)
              (let at : 32 * (intid / 32) + j % 32 ≡ j = ground arith in at) in
          let read : bit (bit_or v (2 ^ (intid % 32))) (j % 32) ≡ (irqs j).enabled = omega (
            arith,
            bit-bit_or v (2 ^ (intid % 32)) (j % 32),
            bit-pow_ne (intid % 32) (j % 32) (λ e. ground arith),
            bits (j % 32) (omega arith),
            own,
          ) in
          let here = (bank.1 j (ground arith)).0 in
          elim (Bool-cases ((irqs j).enabled == 1)) [
            | inl on ↦
                let one : 1 ≡ (irqs j).enabled = ground arith in
                rw (miss, same, read, on, here)
                  (ap (λ e. some (record (irqs j) { enabled = e })) one)
            | inr off ↦ rw (miss, same, read, off) refl
          ]
      | inr apart ↦ rw (miss, apart) refl
    ]
  ]

  -- Pending interrupts are not emulated, so nothing is cleared.
  pub clear_pending-kept :
      gic_clear_pending (emulated dev me vcpu) gicv3_addrs intid vm
      ≡ ok (record vm { lock = spinlock_init })
  unfolding gic_clear_pending rd32 wd32 gicv3_addrs
  clear_pending-kept =
      let n : ℕ = intid / 32 in
      let at : ◌≡◌ {A = ℕ} (0x280 + n * 4) (0x280 + 4 * n) = omega arith in
      let free : Vm = record vm { lock = spinlock_init } in
      let val : ℕ = bit_or 0 (2 ^ (intid % 32)) in
      rw
        (
          at,
          emulated_load-gicd dev me vcpu (0x280 + 4 * n) (omega arith) 0 vm free (omega arith)
              (icpendr-read dev me vcpu n vm (omega arith) bank.0),
          emulated_store-gicd dev me vcpu (0x280 + 4 * n) (omega arith) val free free
              (icpendr-write dev me vcpu n free (omega arith) val),
        )
        refl

  pub enable_int-OneChanged :
      (vm' : Vm) × (gic_enable_int (emulated dev me vcpu) gicv3_addrs intid vm ≡ ok vm')
      × OneChanged vcpu intid (record (irqs intid) { enabled = 1 }) vm vm'
  unfolding gic_enable_int rd32 wd32 gicv3_addrs
  enable_int-OneChanged =
      let n : ℕ = intid / 32 in
      let at : ◌≡◌ {A = ℕ} (0x100 + n * 4) (0x100 + 4 * n) = omega arith in
      let own = λ (k : ℕ). irqs (32 * n + k) in
      let (v, read, small, bits) =
        isenabler-read dev me vcpu n vm own bank.0 (omega arith)
          (λ k lt. let (here, narrow) = bank.1 (32 * n + k) (omega arith) in (here, narrow.2)) in
      let free : Vm = record vm { lock = spinlock_init } in
      let val : ℕ = bit_or v (2 ^ (intid % 32)) in
      let (vm', written, kept, cells) =
        isenabler-write dev me vcpu n val free (omega arith)
          (λ k lt e. let here = (bank.1 (32 * n + k) (omega arith)).0 in cc) in
      (
        vm',
        rw
            (
              at,
              emulated_load-gicd dev me vcpu (0x100 + 4 * n) (omega arith) v vm free small read,
              emulated_store-gicd dev me vcpu (0x100 + 4 * n) (omega arith) val free vm' written,
            )
            refl,
        (kept.0, kept.1, kept.2, λ j. cells j ∙ enable_cell v j bits),
      )
