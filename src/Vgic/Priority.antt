-- ===== src/Vgic/Priority.antt =====
-- The priorities of interrupts, GICD_IPRIORITYR, as a guest writes and reads them.
use mvmm.Base.{ℕ, ◌+◌, ◌*◌, ◌^◌, ◌<◌, ◌≡◌, some, ok, ap, ◌∙◌}
use mvmm.Base.Byte.{byte, byte-lt, word_ext}
use mvmm.Spinlock.{spinlock_init}
use mvmm.Gic.{Device}
use mvmm.Vgic.{VgicIrq, Vm, vgic_get_irq}
use mvmm.Vgic.Access.{ipriorityr-read, ipriorityr-write}
use mvmm.Vgic.Gicd.{vgicd_mmio_read, vgicd_mmio_write}

-- With the lock free and the four interrupts of GICD_IPRIORITYR<n> there, a write of a 32-bit value to the
-- register succeeds, a read of it afterwards gives the value back, and the lock is free again.
pub ipriorityr-read_write :
    (dev : Device) (me vcpu n val : ℕ) (vm : Vm) (irqs : ℕ → VgicIrq)
    → n < 255
    → val < 2 ^ 32
    → vm.lock ≡ spinlock_init
    → ((k : ℕ) → k < 4 → vm.cell (vgic_get_irq vcpu (4 * n + k)) ≡ some (irqs k))
    → (vm' : Vm) × (vgicd_mmio_write dev me vcpu (0x400 + 4 * n) val vm ≡ ok (some vm'))
      × (vgicd_mmio_read dev me vcpu (0x400 + 4 * n) vm'
          ≡ ok (some val, record vm' { lock = spinlock_init }))
ipriorityr-read_write dev me vcpu n val vm irqs lt fits free there =
    let (vm', written, (kept, cells, others)) =
      ipriorityr-write dev me vcpu n val vm irqs lt there in
    let now = λ (k : ℕ). record (irqs k) { priority = byte val k } in
    let (v, read, small, bytes) =
      ipriorityr-read dev me vcpu n vm' now (kept.0 ∙ free) lt
        (λ k low. (cells k low, byte-lt val k)) in
    let same : v ≡ val = word_ext v val small fits bytes in
    (vm', written, read ∙ ap (λ x. ok (some x, record vm' { lock = spinlock_init })) same)
