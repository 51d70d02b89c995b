-- ===== src/Vgic/Access.antt =====
-- Reads and writes of whole distributor registers, by the structs of their interrupts.
use mvmm.Base.{
  bit_and, bit_or, not, ◌==◌, ℕ, ◌+◌, ◌-◌, ◌*◌, ◌/◌, ◌^◌, ◌<◌, ◌≡◌, false, some, ok, arith, refl,
  ◌∙◌, sym, ap,
}
use mvmm.Base.Bits.{bit, bit_or-lt}
use mvmm.Base.Byte.{byte, byte_ext}
use mvmm.Spinlock.{spinlock_init, held_by, lock_taken, lock_given}
use mvmm.Gic.{Device}
use mvmm.Vgic.{VgicIrq, Vm, vgic_get_irq, collect}
use mvmm.Vgic.Cells.{Kept, target_one-IsCellWrite, priority_one-IsCellWrite}
use mvmm.Vgic.Collect.{Readable, collect-fields}
use mvmm.Vgic.Bytes.{span, for_bytes_lem, for_bytes-Kept}
use mvmm.Vgic.Decode.{igroupr, ipriorityr, itargetsr, icpendr, gicd_decode}
use mvmm.Vgic.Enable.{decode-isenabler}
use mvmm.Vgic.Gicd.{typer_value, vgicd_mmio_read, vgicd_mmio_write}

decode-ipriorityr : (n : ℕ) → n < 255 → gicd_decode (0x400 + 4 * n) ≡ ipriorityr
unfolding gicd_decode
decode-ipriorityr n lt = ground arith

decode-itargetsr : (n : ℕ) → n < 255 → gicd_decode (0x800 + 4 * n) ≡ itargetsr
unfolding gicd_decode
decode-itargetsr n lt = ground arith

decode-igroupr : (n : ℕ) → n < 32 → gicd_decode (0x80 + 4 * n) ≡ igroupr
unfolding gicd_decode
decode-igroupr n lt = ground arith

decode-icpendr : (n : ℕ) → n < 32 → gicd_decode (0x280 + 4 * n) ≡ icpendr
unfolding gicd_decode
decode-icpendr n lt = ground arith

module _ (field : VgicIrq → ℕ) (vcpu base : ℕ) (vm : Vm) (irqs : ℕ → VgicIrq) where
  pub collect-bank :
      ((k : ℕ) → k < 32 → Readable field 1 vcpu base vm irqs k)
      → (v : ℕ) × (collect field 1 vcpu base 32 0 0 vm ≡ ok v)
        × (v < 2 ^ 32)
        × ((k : ℕ) → k < 32 → bit v k ≡ field (irqs k))
  unfolding bit
  collect-bank there =
      let (v, ran, lt, same, fields) =
        collect-fields field 1 vcpu base vm irqs 32 0 0 (λ k le lt. there k lt) (omega arith) in
      (
        v,
        ran,
        lt,
        λ k below.
            let at : k * 1 + 0 ≡ k = omega arith in
            let one : bit (field (irqs k)) 0 ≡ field (irqs k) = omega (arith, (there k below).1) in
            sym (ap (bit v) at) ∙ fields k 0 (omega arith) below (omega arith) ∙ one,
      )

  pub collect-bytes :
      ((k : ℕ) → k < 4 → Readable field 8 vcpu base vm irqs k)
      → (v : ℕ) × (collect field 8 vcpu base 4 0 0 vm ≡ ok v)
        × (v < 2 ^ 32)
        × ((k : ℕ) → k < 4 → byte v k ≡ field (irqs k))
  collect-bytes there =
      let (v, ran, lt, same, fields) =
        collect-fields field 8 vcpu base vm irqs 4 0 0 (λ k le lt. there k lt) (omega arith) in
      (
        v,
        ran,
        lt,
        λ k below.
            byte_ext v k (field (irqs k)) (there k below).1
              (λ n low. fields k n (omega arith) below low),
      )

module _ (dev : Device) (me vcpu n : ℕ) (vm : Vm) (irqs : ℕ → VgicIrq)
    (free : vm.lock ≡ spinlock_init) where
  pub isenabler-read :
      n < 32
      → ((k : ℕ) → k < 32 → Readable (λ irq. irq.enabled) 1 vcpu (32 * n) vm irqs k)
      → (v : ℕ) × (vgicd_mmio_read dev me vcpu (0x100 + 4 * n) vm
          ≡ ok (some v, record vm { lock = spinlock_init }))
        × (v < 2 ^ 32)
        × ((k : ℕ) → k < 32 → bit v k ≡ (irqs k).enabled)
  unfolding vgicd_mmio_read
  isenabler-read lt there =
      let at : (0x100 + 4 * n - 0x100) / 4 * 32 ≡ 32 * n = omega arith in
      let (v, ran, small, bits) =
        collect-bank (λ irq. irq.enabled) vcpu (32 * n) (record vm { lock = held_by me }) irqs
          there in
      (v, rw (free, lock_taken me, decode-isenabler n lt, at, ran, lock_given me) refl, small, bits)

  pub ipriorityr-read :
      n < 255
      → ((k : ℕ) → k < 4 → Readable (λ irq. irq.priority) 8 vcpu (4 * n) vm irqs k)
      → (v : ℕ) × (vgicd_mmio_read dev me vcpu (0x400 + 4 * n) vm
          ≡ ok (some v, record vm { lock = spinlock_init }))
        × (v < 2 ^ 32)
        × ((k : ℕ) → k < 4 → byte v k ≡ (irqs k).priority)
  unfolding vgicd_mmio_read
  ipriorityr-read lt there =
      let at : 0x400 + 4 * n - 0x400 ≡ 4 * n = omega arith in
      let (v, ran, small, bytes) =
        collect-bytes (λ irq. irq.priority) vcpu (4 * n) (record vm { lock = held_by me }) irqs
          there in
      (
        v,
        rw (free, lock_taken me, decode-ipriorityr n lt, at, ran, lock_given me) refl,
        small,
        bytes,
      )

  pub itargetsr-read :
      n < 255
      → ((k : ℕ) → k < 4 → Readable (λ irq. irq.target) 8 vcpu (4 * n) vm irqs k)
      → (v : ℕ) × (vgicd_mmio_read dev me vcpu (0x800 + 4 * n) vm
          ≡ ok (some v, record vm { lock = spinlock_init }))
        × (v < 2 ^ 32)
        × ((k : ℕ) → k < 4 → byte v k ≡ (irqs k).target)
  unfolding vgicd_mmio_read
  itargetsr-read lt there =
      let at : 0x800 + 4 * n - 0x800 ≡ 4 * n = omega arith in
      let (v, ran, small, bytes) =
        collect-bytes (λ irq. irq.target) vcpu (4 * n) (record vm { lock = held_by me }) irqs
          there in
      (
        v,
        rw (free, lock_taken me, decode-itargetsr n lt, at, ran, lock_given me) refl,
        small,
        bytes,
      )

-- The registers of pending interrupts read as 0, and a write of one changes nothing.
module _ (dev : Device) (me vcpu n : ℕ) (vm : Vm) (lt : n < 32) where
  pub icpendr-read :
      vm.lock ≡ spinlock_init
      → vgicd_mmio_read dev me vcpu (0x280 + 4 * n) vm
        ≡ ok (some 0, record vm { lock = spinlock_init })
  unfolding vgicd_mmio_read
  icpendr-read free = rw (free, lock_taken me, decode-icpendr n lt, lock_given me) refl

  pub icpendr-write : (val : ℕ) → vgicd_mmio_write dev me vcpu (0x280 + 4 * n) val vm ≡ ok (some vm)
  unfolding vgicd_mmio_write
  icpendr-write val = rw (decode-icpendr n lt) refl

-- The registers of the whole distributor.
module _ (dev : Device) (me vcpu : ℕ) (vm : Vm) where
  pub ctlr-write :
      (val : ℕ)
      → vgicd_mmio_write dev me vcpu 0x0 val vm
        ≡ ok (some (record vm { enabled = not (bit_and val (2 ^ 1) == 0) }))
  unfolding vgicd_mmio_write gicd_decode
  ctlr-write val = refl

  pub typer-read :
      vm.lock ≡ spinlock_init
      → vm.nspis < 1024
      → (v : ℕ) × (vgicd_mmio_read dev me vcpu 0x4 vm
          ≡ ok (some v, record vm { lock = spinlock_init }))
        × (v < 2 ^ 32)
  unfolding vgicd_mmio_read gicd_decode typer_value
  typer-read free few =
      let lines : ℕ = (vm.nspis + 32) / 2 ^ 5 - 1 in
      let small : bit_or (bit_or lines (7 * 2 ^ 5)) (9 * 2 ^ 19) < 2 ^ 32 =
        bit_or-lt 32 (bit_or lines (7 * 2 ^ 5)) (9 * 2 ^ 19)
          (bit_or-lt 32 lines (7 * 2 ^ 5) (omega arith) (omega arith)) (omega arith) in
      (
        bit_or (bit_or lines (7 * 2 ^ 5)) (9 * 2 ^ 19),
        rw (free, lock_taken me, lock_given me) refl,
        small,
      )

  pub igroupr-write :
      (n val : ℕ) → n < 32 → vgicd_mmio_write dev me vcpu (0x80 + 4 * n) val vm ≡ ok (some vm)
  unfolding vgicd_mmio_write
  igroupr-write n val lt = rw (decode-igroupr n lt) refl

-- What a write of four bytes leaves, by what it does to each struct.
abbrev pub BytesWritten : ℕ → ℕ → ℕ → (ℕ → VgicIrq) → (ℕ → VgicIrq → VgicIrq) → Vm → Vm → Type 0
BytesWritten vcpu n val irqs f vm vm' =
    Kept vm vm'
    × ((k : ℕ) → k < 4 → vm'.cell (vgic_get_irq vcpu (4 * n + k)) ≡ some (f (byte val k) (irqs k)))
    × ((j : ℕ)
        → span (4 * n) 4 0 j ≡ false
        → vm'.cell (vgic_get_irq vcpu j) ≡ vm.cell (vgic_get_irq vcpu j))

module _ (dev : Device) (me vcpu n val : ℕ) (vm : Vm) (irqs : ℕ → VgicIrq) (lt : n < 255)
    (there : (k : ℕ) → k < 4 → vm.cell (vgic_get_irq vcpu (4 * n + k)) ≡ some (irqs k)) where
  pub ipriorityr-write :
      (vm' : Vm) × (vgicd_mmio_write dev me vcpu (0x400 + 4 * n) val vm ≡ ok (some vm'))
      × BytesWritten vcpu n val irqs (λ b irq. record irq { priority = b }) vm vm'
  unfolding vgicd_mmio_write
  ipriorityr-write =
      let at : (0x400 + 4 * n - 0x400) / 4 * 4 ≡ 4 * n = omega arith in
      let w = priority_one-IsCellWrite vcpu in
      let (vm', ran, wrote, others) =
        for_bytes_lem w val (4 * n) irqs 4 0 vm (λ k le lt. there k lt) in
      (
        vm',
        rw (decode-ipriorityr n lt, at, ran) refl,
        (
          for_bytes-Kept w val (4 * n) irqs 4 0 vm vm' ran,
          λ k below. wrote k (omega arith) below,
          others,
        ),
      )

  pub itargetsr-write :
      (vm' : Vm) × (vgicd_mmio_write dev me vcpu (0x800 + 4 * n) val vm ≡ ok (some vm'))
      × BytesWritten vcpu n val irqs (λ b irq. record irq { target = b }) vm vm'
  unfolding vgicd_mmio_write
  itargetsr-write =
      let at : (0x800 + 4 * n - 0x800) / 4 * 4 ≡ 4 * n = omega arith in
      let w = target_one-IsCellWrite dev vcpu in
      let (vm', ran, wrote, others) =
        for_bytes_lem w val (4 * n) irqs 4 0 vm (λ k le lt. there k lt) in
      (
        vm',
        rw (decode-itargetsr n lt, at, ran) refl,
        (
          for_bytes-Kept w val (4 * n) irqs 4 0 vm vm' ran,
          λ k below. wrote k (omega arith) below,
          others,
        ),
      )
