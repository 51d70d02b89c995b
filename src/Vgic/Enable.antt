-- ===== src/Vgic/Enable.antt =====
-- The enable registers of the distributor, GICD_ISENABLER and GICD_ICENABLER, as a guest writes them.
use mvmm.Base.{
  ℕ, ◌+◌, ◌-◌, ◌*◌, ◌/◌, ◌%◌, ◌<◌, ◌≡◌, ◌≢◌, false, ◌==◌, ◌&&◌, if◌then◌else◌, none, some, ok,
  arith, inl, inr, Bool-cases, ◌∙◌, ap,
}
use mvmm.Base.Bits.{bit}
use mvmm.Gic.{Device}
use mvmm.Vgic.{Vm, vgic_get_irq}
use mvmm.Vgic.Cells.{Kept, map_irq, enable_one-IsCellWrite, disable_one-IsCellWrite}
use mvmm.Vgic.Banks.{for_bits_lem, for_bits-Kept, hit}
use mvmm.Vgic.Decode.{isenabler, icenabler, gicd_decode}
use mvmm.Vgic.Gicd.{vgicd_mmio_write}

pub decode-isenabler : (n : ℕ) → n < 32 → gicd_decode (0x100 + 4 * n) ≡ isenabler
unfolding gicd_decode
decode-isenabler n lt = ground arith

decode-icenabler : (n : ℕ) → n < 32 → gicd_decode (0x180 + 4 * n) ≡ icenabler
unfolding gicd_decode
decode-icenabler n lt = ground arith

-- The structs of the interrupts from `intid` to `intid + 31` are there.
abbrev pub BankPresent : Vm → ℕ → ℕ → Type 0
BankPresent vm vcpu intid = (k : ℕ) → k < 32 → vm.cell (vgic_get_irq vcpu (intid + k)) ≢ none

-- The bits of a bank are those of its own 32 interrupts.
pub bank-hit : (val n j : ℕ) → hit val (32 * n) 32 0 j ≡ (j / 32 == n && (bit val (j % 32) == 1))
bank-hit val n j = elim (Bool-cases (j / 32 == n)) [
  | inl same ↦ let at : j - 32 * n ≡ j % 32 = ground arith in ground (arith, ap (bit val) at)
  | inr differ ↦ ground arith
]

module _ (dev : Device) where
  -- A write of `val` to GICD_ISENABLER<n> whose 32 interrupts exist succeeds; it enables exactly the
  -- interrupts of that bank whose bit of `val` is set and leaves every other interrupt of the
  -- processor, the lock and the rest of the state as it was.
  pub isenabler-write :
      (me vcpu n val : ℕ) (vm : Vm)
      → n < 32
      → BankPresent vm vcpu (32 * n)
      → (vm' : Vm) × (vgicd_mmio_write dev me vcpu (0x100 + 4 * n) val vm ≡ ok (some vm'))
        × Kept vm vm'
        × ((j : ℕ)
            → vm'.cell (vgic_get_irq vcpu j) ≡ (
                if j / 32 == n && (bit val (j % 32) == 1)
                then map_irq (λ irq. record irq { enabled = 1 }) (vm.cell (vgic_get_irq vcpu j))
                else vm.cell (vgic_get_irq vcpu j)))
  unfolding vgicd_mmio_write
  isenabler-write me vcpu n val vm lt there =
      let at : (0x100 + 4 * n - 0x100) / 4 * 32 ≡ 32 * n = omega arith in
      let (vm', ran, cells) =
        for_bits_lem (enable_one-IsCellWrite dev me vcpu) val (32 * n) 32 0 vm
          (λ k lo hi. there k hi) in
      (
        vm',
        rw (decode-isenabler n lt, at, ran),
        for_bits-Kept (enable_one-IsCellWrite dev me vcpu) val (32 * n) 32 0 vm vm' ran,
        λ j. rw (← bank-hit val n j) (cells j),
      )

  -- A write to GICD_ICENABLER<n> that succeeds enables and disables none of the interrupts below
  -- 1024: the source takes the bank from the base of GICD_ISENABLER, 32 registers lower. It succeeds
  -- where structs for the interrupts from 1024 + 32 n on exist.
  icenabler-write :
      (me vcpu n val : ℕ) (vm : Vm)
      → n < 32
      → BankPresent vm vcpu (1024 + 32 * n)
      → (vm' : Vm) × (vgicd_mmio_write dev me vcpu (0x180 + 4 * n) val vm ≡ ok (some vm'))
        × ((j : ℕ) → j < 1024 → vm'.cell (vgic_get_irq vcpu j) ≡ vm.cell (vgic_get_irq vcpu j))
  unfolding vgicd_mmio_write
  icenabler-write me vcpu n val vm lt there =
      let at : (0x180 + 4 * n - 0x100) / 4 * 32 ≡ 1024 + 32 * n = omega arith in
      let (vm', ran, cells) =
        for_bits_lem (disable_one-IsCellWrite dev vcpu) val (1024 + 32 * n) 32 0 vm
          (λ k lo hi. there k hi) in
      (
        vm',
        rw (decode-icenabler n lt, at, ran),
        λ j low.
            let off : hit val (1024 + 32 * n) 32 0 j ≡ false = ground arith in cells j ∙ rw off,
      )
