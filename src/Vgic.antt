-- ===== src/Vgic.antt =====
-- src/vgic.c and include/vgic.h: the interrupt controller that a guest sees. Here: its state, the
-- interrupts' cells, and what reaches the physical controller.
pub mod Lr
pub mod Decode
pub mod Gicd
pub mod Gicr
pub mod Cells
pub mod Banks
pub mod Enable
pub mod Priority
pub mod Collect
pub mod Access
pub mod Redist
pub mod Bytes
pub mod Cpu
use mvmm.Base.{
  ℕ, zero, suc, ◌+◌, ◌-◌, ◌*◌, ◌/◌, ◌^◌, bit_and, bit_or, Bool, true, false, ◌&&◌, ◌==◌, ltb,
  if◌then◌else◌, Option, none, some, Outcome, ok, fault, ◌>>=◌,
}
use mvmm.Spinlock.{Spinlock}
use mvmm.Gic.{Trace, Device, gic_irq_enable, gic_irq_disable, gic_irq_enable_redist, gic_set_target}

-- `struct vgic_irq`; the last two are bit fields of one bit.
pub record VgicIrq : Type 0 where
  pub priority : ℕ
  pub target : ℕ
  pub enabled : ℕ
  pub igroup : ℕ

-- A `struct vgic_irq *`: `&vcpu->vgic->sgis[i]`, `&vcpu->vgic->ppis[i]`, `&vm->vgic->spis[i]`, with
-- the number of the virtual processor.
pub data IrqRef : Type 0 where
  sgi : ℕ → ℕ → IrqRef
  ppi : ℕ → ℕ → IrqRef
  spi : ℕ → IrqRef

unfoldable pub same_ref : IrqRef → IrqRef → Bool
same_ref (sgi v i) (sgi w j) = (v == w) && (i == j)
same_ref (ppi v i) (ppi w j) = (v == w) && (i == j)
same_ref (spi i) (spi j) = i == j
same_ref _ _ = false

-- The part of `struct vm` and `struct vgic` that the registers act on. `cell` gives the interrupts'
-- structs, `none` outside the arrays; `bus` is what was written to the physical controller.
pub record Vm : Type 0 where
  pub nvcpu : ℕ
  pub enabled : Bool
  pub nspis : ℕ
  pub lock : Spinlock
  pub cell : IrqRef → Option VgicIrq
  pub bus : Trace

-- `vgic_get_irq`; the numbers come from register offsets and are never negative.
unfoldable pub vgic_get_irq : ℕ → ℕ → IrqRef
vgic_get_irq vcpu intid =
    if ltb intid 16
    then sgi vcpu intid
    else if ltb intid 32
    then ppi vcpu (intid - 16)
    else spi (intid - 32)

unfoldable pub read_irq : Vm → IrqRef → Outcome VgicIrq
read_irq vm r = elim (vm.cell r) [ none ↦ fault | some irq ↦ ok irq ]

abbrev pub put_irq : Vm → IrqRef → VgicIrq → Vm
put_irq vm r irq = record vm { cell = λ q. if same_ref q r then some irq else vm.cell q }

abbrev pub is_sgi_ppi : ℕ → Bool
is_sgi_ppi intid = ltb intid 32

module _ (dev : Device) where
  -- The first argument is the physical processor, `cpuid()`.
  unfoldable pub vgic_irq_enable : ℕ → ℕ → Vm → Vm
  vgic_irq_enable me vintid vm = record vm {
    bus =
        if is_sgi_ppi vintid
        then gic_irq_enable_redist dev me vintid vm.bus
        else gic_irq_enable dev vintid vm.bus;
  }

  -- Both branches of the source call `gic_irq_disable`.
  unfoldable pub vgic_irq_disable : ℕ → Vm → Vm
  vgic_irq_disable vintid vm = record vm {
    bus =
        if is_sgi_ppi vintid
        then gic_irq_disable dev vintid vm.bus
        else gic_irq_disable dev vintid vm.bus;
  }

  unfoldable pub vgic_set_target : ℕ → ℕ → Vm → Vm
  vgic_set_target vintid target vm =
      if is_sgi_ppi vintid then vm else record vm { bus = gic_set_target dev vintid target vm.bus }

  -- `irq->enabled = 1; vgic_irq_enable(vcpu, intid);`
  unfoldable pub enable_one : ℕ → ℕ → ℕ → Vm → Outcome Vm
  enable_one me vcpu intid vm = do
    irq ← read_irq vm (vgic_get_irq vcpu intid)
    ok (
        vgic_irq_enable me intid
          (put_irq vm (vgic_get_irq vcpu intid) (record irq { enabled = 1 })))

  -- `irq->enabled = 0; vgic_irq_disable(vcpu, intid);`
  unfoldable pub disable_one : ℕ → ℕ → Vm → Outcome Vm
  disable_one vcpu intid vm = do
    irq ← read_irq vm (vgic_get_irq vcpu intid)
    ok (vgic_irq_disable intid (put_irq vm (vgic_get_irq vcpu intid) (record irq { enabled = 0 })))

  -- `irq->target = b; vgic_set_target(vcpu, intid, irq->target);`
  unfoldable pub target_one : ℕ → ℕ → ℕ → Vm → Outcome Vm
  target_one vcpu b intid vm = do
    irq ← read_irq vm (vgic_get_irq vcpu intid)
    ok (vgic_set_target intid b (put_irq vm (vgic_get_irq vcpu intid) (record irq { target = b })))

-- `irq->priority = b;`
unfoldable pub priority_one : ℕ → ℕ → ℕ → Vm → Outcome Vm
priority_one vcpu b intid vm = do
  irq ← read_irq vm (vgic_get_irq vcpu intid)
  ok (put_irq vm (vgic_get_irq vcpu intid) (record irq { priority = b }))

-- `for(; i < n; i++) if((val >> i) & 0x1) one(intid + i);` with the rounds that are left.
unfoldable pub for_bits : (ℕ → Vm → Outcome Vm) → ℕ → ℕ → ℕ → ℕ → Vm → Outcome Vm
for_bits one val intid zero i vm = ok vm
for_bits one val intid (suc left) i vm = do
  vm' ← if bit_and (val / 2 ^ i) 0x1 == 0 then ok vm else one (intid + i) vm
  for_bits one val intid left (suc i) vm'

-- `for(; i < n; i++) one((val >> (i * 8)) & 0xff, intid + i);`
unfoldable pub for_bytes : (ℕ → ℕ → Vm → Outcome Vm) → ℕ → ℕ → ℕ → ℕ → Vm → Outcome Vm
for_bytes one val intid zero i vm = ok vm
for_bytes one val intid (suc left) i vm = do
  vm' ← one (bit_and (val / 2 ^ (i * 8)) 0xff) (intid + i) vm
  for_bytes one val intid left (suc i) vm'

-- `for(; i < n; i++) acc |= (u32)irq->field << (i * width);`
unfoldable pub collect : (VgicIrq → ℕ) → ℕ → ℕ → ℕ → ℕ → ℕ → ℕ → Vm → Outcome ℕ
collect field width vcpu intid zero i acc vm = ok acc
collect field width vcpu intid (suc left) i acc vm = do
  irq ← read_irq vm (vgic_get_irq vcpu (intid + i))
  collect field width vcpu intid left (suc i) (bit_or acc (field irq * 2 ^ (i * width))) vm
