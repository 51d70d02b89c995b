-- ===== src/Vgic/Redist.antt =====
-- Reads and writes of whole registers of the first redistributor.
use mvmm.Base.{
  ℕ, ◌+◌, ◌-◌, ◌*◌, ◌/◌, ◌%◌, ◌^◌, ◌<◌, ◌≡◌, ◌≢◌, ◌==◌, ◌&&◌, ltb, true, false, if◌then◌else◌, some,
  none, ok, arith, refl,
}
use mvmm.Base.Bits.{bit}
use mvmm.Base.Byte.{byte}
use mvmm.Gic.{Device}
use mvmm.Vgic.{VgicIrq, Vm, vgic_get_irq}
use mvmm.Vgic.Cells.{Kept, map_irq, enable_one-IsCellWrite, priority_one-IsCellWrite}
use mvmm.Vgic.Collect.{Readable}
use mvmm.Vgic.Banks.{for_bits_lem, for_bits-Kept}
use mvmm.Vgic.Bytes.{for_bytes_lem, for_bytes-Kept}
use mvmm.Vgic.Access.{collect-bank, collect-bytes, BytesWritten}
use mvmm.Vgic.Enable.{bank-hit}
use mvmm.Vgic.Decode.{ipriorityr, gicr_decode}
use mvmm.Vgic.Gicr.{vgicr_mmio_read, vgicr_mmio_write}

decode-priority : (n : ℕ) → n < 8 → gicr_decode (0x10400 + 4 * n) ≡ ipriorityr
unfolding gicr_decode
decode-priority n lt = ground arith

module _ (dev : Device) (me : ℕ) (vm : Vm) (some_one : 0 < vm.nvcpu) where
  no_more : ltb vm.nvcpu 0 ≡ false
  no_more = ground arith

  there_is : ltb 0 vm.nvcpu ≡ true
  there_is = ground arith

  pub isenabler0-read :
      (irqs : ℕ → VgicIrq)
      → ((k : ℕ) → k < 32 → Readable (λ irq. irq.enabled) 1 0 0 vm irqs k)
      → (v : ℕ) × (vgicr_mmio_read dev 0x10100 false vm ≡ ok (some v))
        × (v < 2 ^ 32)
        × ((k : ℕ) → k < 32 → bit v k ≡ (irqs k).enabled)
  unfolding vgicr_mmio_read gicr_decode
  isenabler0-read irqs there =
      let (v, ran, small, bits) = collect-bank (λ irq. irq.enabled) 0 0 vm irqs there in
      (v, rw (no_more, there_is, ran) refl, small, bits)

  pub isenabler0-write :
      (val : ℕ)
      → ((k : ℕ) → k < 32 → vm.cell (vgic_get_irq 0 (0 + k)) ≢ none)
      → (vm' : Vm) × (vgicr_mmio_write dev me 0x10100 val vm ≡ ok (some vm'))
        × Kept vm vm'
        × ((j : ℕ)
            → vm'.cell (vgic_get_irq 0 j) ≡ (
                if j / 32 == 0 && (bit val (j % 32) == 1)
                then map_irq (λ irq. record irq { enabled = 1 }) (vm.cell (vgic_get_irq 0 j))
                else vm.cell (vgic_get_irq 0 j)))
  unfolding vgicr_mmio_write gicr_decode
  isenabler0-write val there =
      let (vm', ran, cells) =
        for_bits_lem (enable_one-IsCellWrite dev me 0) val 0 32 0 vm (λ k lo hi. there k hi) in
      (
        vm',
        rw (no_more, there_is, ran) refl,
        for_bits-Kept (enable_one-IsCellWrite dev me 0) val 0 32 0 vm vm' ran,
        λ j. rw (← bank-hit val 0 j) (cells j),
      )

  -- Pending interrupts read as 0, and a write changes nothing.
  pub icpendr0-read : vgicr_mmio_read dev 0x10280 false vm ≡ ok (some 0)
  unfolding vgicr_mmio_read gicr_decode
  icpendr0-read = rw (no_more, there_is) refl

  pub icpendr0-write : (val : ℕ) → vgicr_mmio_write dev me 0x10280 val vm ≡ ok (some vm)
  unfolding vgicr_mmio_write gicr_decode
  icpendr0-write val = rw (no_more, there_is) refl

  -- The registers of the start are written without effect, and the redistributor is awake at once.
  pub ctlr0-write : (val : ℕ) → vgicr_mmio_write dev me 0x0 val vm ≡ ok (some vm)
  unfolding vgicr_mmio_write gicr_decode
  ctlr0-write val = rw (no_more, there_is) refl

  pub waker-write : (val : ℕ) → vgicr_mmio_write dev me 0x14 val vm ≡ ok (some vm)
  unfolding vgicr_mmio_write gicr_decode
  waker-write val = rw (no_more, there_is) refl

  pub igroupr0-write : (val : ℕ) → vgicr_mmio_write dev me 0x10080 val vm ≡ ok (some vm)
  unfolding vgicr_mmio_write gicr_decode
  igroupr0-write val = rw (no_more, there_is) refl

  pub igrpmodr0-write : (val : ℕ) → vgicr_mmio_write dev me 0x10d00 val vm ≡ ok (some vm)
  unfolding vgicr_mmio_write gicr_decode
  igrpmodr0-write val = rw (no_more, there_is) refl

  pub waker-read : vgicr_mmio_read dev 0x14 false vm ≡ ok (some 0)
  unfolding vgicr_mmio_read gicr_decode
  waker-read = rw (no_more, there_is) refl

  module _ (n : ℕ) (lt : n < 8) where
    at_first : (0x10400 + 4 * n) / 0x20000 ≡ 0
    at_first = omega arith

    within : (0x10400 + 4 * n) % 0x20000 ≡ 0x10400 + 4 * n
    within = omega arith

    at : (0x10400 + 4 * n - 0x10400) / 4 * 4 ≡ 4 * n
    at = omega arith

    pub priority-read :
        (irqs : ℕ → VgicIrq)
        → ((k : ℕ) → k < 4 → Readable (λ irq. irq.priority) 8 0 (4 * n) vm irqs k)
        → (v : ℕ) × (vgicr_mmio_read dev (0x10400 + 4 * n) false vm ≡ ok (some v))
          × (v < 2 ^ 32)
          × ((k : ℕ) → k < 4 → byte v k ≡ (irqs k).priority)
    unfolding vgicr_mmio_read
    priority-read irqs there =
        let (v, ran, small, bytes) = collect-bytes (λ irq. irq.priority) 0 (4 * n) vm irqs there in
        (
          v,
          rw (at_first, within, no_more, there_is, decode-priority n lt, at, ran) refl,
          small,
          bytes,
        )

    pub priority-write :
        (val : ℕ) (irqs : ℕ → VgicIrq)
        → ((k : ℕ) → k < 4 → vm.cell (vgic_get_irq 0 (4 * n + k)) ≡ some (irqs k))
        → (vm' : Vm) × (vgicr_mmio_write dev me (0x10400 + 4 * n) val vm ≡ ok (some vm'))
          × BytesWritten 0 n val irqs (λ b irq. record irq { priority = b }) vm vm'
    unfolding vgicr_mmio_write
    priority-write val irqs there =
        let w = priority_one-IsCellWrite 0 in
        let (vm', ran, wrote, others) =
          for_bytes_lem w val (4 * n) irqs 4 0 vm (λ k le lt. there k lt) in
        (
          vm',
          rw (at_first, within, no_more, there_is, decode-priority n lt, at, ran) refl,
          (
            for_bytes-Kept w val (4 * n) irqs 4 0 vm vm' ran,
            λ k below. wrote k (omega arith) below,
            others,
          ),
        )
