-- ===== src/Vgic/Gicd.antt =====
-- `vgicd_mmio_read` and `vgicd_mmio_write`: the distributor registers. `none` is the result -1.
use mvmm.Base.{
  ℕ, ◌+◌, ◌-◌, ◌*◌, ◌/◌, ◌^◌, bit_and, bit_or, ◌==◌, if◌then◌else◌, Option, none, some, Outcome, ok,
  ◌>>=◌, not,
}
use mvmm.Spinlock.{acquire, release}
use mvmm.Gic.{Device, gicd_r}
use mvmm.Vgic.{Vm, enable_one, disable_one, target_one, priority_one, for_bits, for_bytes, collect}
use mvmm.Vgic.Decode.{
  GicdReg, ctlr, typer, iidr, typer2, igroupr, isenabler, icenabler, ispendr, icpendr, isactiver,
  icactiver, ipriorityr, itargetsr, icfgr, irouter_reserved, irouter, pidr2, unknown, gicd_decode,
}

-- `GICD_CTLR_SS_ARE | GICD_CTLR_DS`, and `GICD_CTLR_SS_ENGRP1` when enabled.
unfoldable pub ctlr_value : Vm → ℕ
ctlr_value vm = let v = bit_or (2 ^ 4) (2 ^ 6) in if vm.enabled then bit_or v (2 ^ 1) else v

-- `((nspis + 32) >> 5) - 1`, `(8 - 1) << 5` and `(10 - 1) << 19`.
unfoldable pub typer_value : Vm → ℕ
typer_value vm = bit_or (bit_or ((vm.nspis + 32) / 2 ^ 5 - 1) (7 * 2 ^ 5)) (9 * 2 ^ 19)

module _ (dev : Device) where
  -- The value that the switch leaves in `*val`.
  read_reg : GicdReg → ℕ → ℕ → Vm → Outcome (Option ℕ)
  read_reg ctlr vcpu offset vm = ok (some (ctlr_value vm))
  read_reg typer vcpu offset vm = ok (some (typer_value vm))
  read_reg iidr vcpu offset vm = ok (some (gicd_r dev 0x8 vm.bus))
  read_reg typer2 vcpu offset vm = ok (some 0)
  read_reg igroupr vcpu offset vm = do
    v ← collect (λ irq. irq.igroup) 1 vcpu ((offset - 0x080) / 4 * 32) 32 0 0 vm
    ok (some v)
  read_reg isenabler vcpu offset vm = do
    v ← collect (λ irq. irq.enabled) 1 vcpu ((offset - 0x100) / 4 * 32) 32 0 0 vm
    ok (some v)
  read_reg ispendr vcpu offset vm = ok (some 0)
  read_reg icpendr vcpu offset vm = ok (some 0)
  read_reg isactiver vcpu offset vm = ok (some 0)
  read_reg icactiver vcpu offset vm = ok (some 0)
  read_reg ipriorityr vcpu offset vm = do
    v ← collect (λ irq. irq.priority) 8 vcpu (offset - 0x400) 4 0 0 vm
    ok (some v)
  read_reg itargetsr vcpu offset vm = do
    v ← collect (λ irq. irq.target) 8 vcpu (offset - 0x800) 4 0 0 vm
    ok (some v)
  read_reg icfgr vcpu offset vm = ok (some 0)
  read_reg irouter_reserved vcpu offset vm = ok (some 0)
  read_reg irouter vcpu offset vm = ok (some 0)
  read_reg pidr2 vcpu offset vm = ok (some (gicd_r dev 0xffe8 vm.bus))
  read_reg icenabler vcpu offset vm = ok none
  read_reg unknown vcpu offset vm = ok none

  -- The first argument is the physical processor.
  unfoldable pub vgicd_mmio_read : ℕ → ℕ → ℕ → Vm → Outcome (Option ℕ × Vm)
  unfolding read_reg
  vgicd_mmio_read me vcpu offset vm = do
    l ← acquire me vm.lock
    val ← read_reg (gicd_decode offset) vcpu offset (record vm { lock = l })
    l' ← release me l
    ok (val, record vm { lock = l' })

  -- The offset of GICD_ICENABLER is taken from the base of GICD_ISENABLER, as in the source.
  write_reg : GicdReg → ℕ → ℕ → ℕ → ℕ → Vm → Outcome (Option Vm)
  write_reg ctlr me vcpu offset val vm =
      ok (some (record vm { enabled = not (bit_and val (2 ^ 1) == 0) }))
  write_reg isenabler me vcpu offset val vm = do
    vm' ← for_bits (enable_one dev me vcpu) val ((offset - 0x100) / 4 * 32) 32 0 vm
    ok (some vm')
  write_reg icenabler me vcpu offset val vm = do
    vm' ← for_bits (disable_one dev vcpu) val ((offset - 0x100) / 4 * 32) 32 0 vm
    ok (some vm')
  write_reg ipriorityr me vcpu offset val vm = do
    vm' ← for_bytes (priority_one vcpu) val ((offset - 0x400) / 4 * 4) 4 0 vm
    ok (some vm')
  write_reg itargetsr me vcpu offset val vm = do
    vm' ← for_bytes (target_one dev vcpu) val ((offset - 0x800) / 4 * 4) 4 0 vm
    ok (some vm')
  write_reg typer2 me vcpu offset val vm = ok none
  write_reg unknown me vcpu offset val vm = ok none
  write_reg _ me vcpu offset val vm = ok (some vm)

  unfoldable pub vgicd_mmio_write : ℕ → ℕ → ℕ → ℕ → Vm → Outcome (Option Vm)
  unfolding write_reg
  vgicd_mmio_write me vcpu offset val vm = write_reg (gicd_decode offset) me vcpu offset val vm
