-- ===== src/Vgic/Gicr.antt =====
-- `vgicr_mmio_read` and `vgicr_mmio_write`: the redistributor registers. `none` is the result -1.
use mvmm.Base.{
  ℕ, ◌-◌, ◌*◌, ◌/◌, ◌%◌, Bool, ltb, if◌then◌else◌, Option, none, some, Outcome, ok, fault, ◌>>=◌,
}
use mvmm.Gic.{Device, gicr_r32}
use mvmm.Vgic.{Vm, enable_one, priority_one, for_bits, for_bytes, collect}
use mvmm.Vgic.Decode.{GicrReg, iidr, typer, pidr2, isenabler0, ipriorityr, unknown, gicr_decode}

module _ (dev : Device) where
  -- `__vgicr_mmio_read`; the Boolean says that the access is of 8 bytes. `read64` of GICR_TYPER is a
  -- read of the device at that address.
  read_reg : GicrReg → ℕ → ℕ → Bool → Vm → Outcome (Option ℕ)
  read_reg iidr vcpu offset wide vm = ok (some (gicr_r32 dev vcpu 0x4 vm.bus))
  read_reg typer vcpu offset wide vm = ok (some (if wide then gicr_r32 dev vcpu 0x8 vm.bus else 0))
  read_reg pidr2 vcpu offset wide vm = ok (some (gicr_r32 dev vcpu 0xffe8 vm.bus))
  read_reg isenabler0 vcpu offset wide vm = do
    v ← collect (λ irq. irq.enabled) 1 vcpu 0 32 0 0 vm
    ok (some v)
  read_reg ipriorityr vcpu offset wide vm = do
    v ← collect (λ irq. irq.priority) 8 vcpu ((offset - 0x10400) / 4 * 4) 4 0 0 vm
    ok (some v)
  read_reg unknown vcpu offset wide vm = ok none
  read_reg _ vcpu offset wide vm = ok (some 0)

  -- `vcpu->vm->vcpus[ridx]` is null or past the array from `nvcpu` on; the test of the source lets
  -- `ridx == nvcpu` through.
  unfoldable pub vgicr_mmio_read : ℕ → Bool → Vm → Outcome (Option ℕ)
  unfolding read_reg
  vgicr_mmio_read offset wide vm =
      let ridx = offset / 0x20000 in
      let roffset = offset % 0x20000 in
      let read = read_reg (gicr_decode roffset) ridx roffset wide vm in
      if ltb vm.nvcpu ridx then ok none else if ltb ridx vm.nvcpu then read else fault

  -- `__vgicr_mmio_write`
  write_reg : GicrReg → ℕ → ℕ → ℕ → ℕ → Vm → Outcome (Option Vm)
  write_reg isenabler0 me vcpu offset val vm = do
    vm' ← for_bits (enable_one dev me vcpu) val 0 32 0 vm
    ok (some vm')
  write_reg ipriorityr me vcpu offset val vm = do
    vm' ← for_bytes (priority_one vcpu) val ((offset - 0x10400) / 4 * 4) 4 0 vm
    ok (some vm')
  write_reg iidr me vcpu offset val vm = ok none
  write_reg unknown me vcpu offset val vm = ok none
  write_reg _ me vcpu offset val vm = ok (some vm)

  unfoldable pub vgicr_mmio_write : ℕ → ℕ → ℕ → Vm → Outcome (Option Vm)
  unfolding write_reg
  vgicr_mmio_write me offset val vm =
      let ridx = offset / 0x20000 in
      let roffset = offset % 0x20000 in
      let write = write_reg (gicr_decode roffset) me ridx roffset val vm in
      if ltb vm.nvcpu ridx then ok none else if ltb ridx vm.nvcpu then write else fault
