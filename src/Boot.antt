-- ===== src/Boot.antt =====
-- src/init.c, src/pcpu.c and src/guest.c: the start of the hypervisor on each processor.
pub mod Start
use mvmm.Base.{
  ℕ, zero, suc, ◌+◌, ◌-◌, ◌*◌, ◌^◌, bit_or, leb, if◌then◌else◌, List, [], ◌∷◌, Option, none, some,
  get_elem?, Outcome, ok, fault, ◌>>=◌, ◌==◌, Bool, true, false,
}
use mvmm.Kalloc.{kalloc_init}
use mvmm.Gic.{Device, Interface}
use mvmm.Gic.Start.{GicCpu, gic_init, gic_init_cpu}
use mvmm.Mm.Regime.{Regime, s2mmu_init}
use mvmm.Uart.{Serial, uart_init}
use mvmm.Vcpu.{Hw, vcpu_init, enter_vcpu, update_at}
use mvmm.Vm.{Guest, VmConfig}
use mvmm.CreateVm.{World, VmStruct, Handlers, vgic_init, create_vm}

-- `struct pcpu`; the pointers are places in the table of virtual processors.
pub record Pcpu : Type 0 where
  pub cpuid : ℕ
  pub vcpu : Option ℕ
  pub ready : Option ℕ

-- The loop of `pcpu_init` from processor `i` on.
unfoldable pub pcpu_init : ℕ → List Pcpu → List Pcpu
pcpu_init i [] = []
pcpu_init i (p ∷ ps) = record p { cpuid = i } ∷ pcpu_init (i + 1) ps

-- `cur_pcpu()->vcpu = vcpu;` of `switch_vcpu`
unfoldable pub set_current : ℕ → ℕ → List Pcpu → List Pcpu
set_current me n ps = update_at me (λ p. record p { vcpu = some n }) ps

-- The conversion of an `int` to a `u64`.
abbrev pub int_to_u64 : ℕ → ℕ
int_to_u64 x = if leb (2 ^ 31) x then 2 ^ 64 - 2 ^ 32 + x else x

-- The value for `hcr_el2`: HCR_VM, HCR_SWIO, HCR_FMO, HCR_IMO, HCR_RW and HCR_TSC, each an `int`.
unfoldable pub hcr_setup : ℕ
hcr_setup =
    int_to_u64
      (bit_or (bit_or (bit_or (bit_or (bit_or (2 ^ 0) (2 ^ 1)) (2 ^ 3)) (2 ^ 4)) (2 ^ 31)) (2 ^ 19))

-- The state of the hypervisor, and the registers of the processor at hand. `gic.bus` is what was written to
-- the interrupt controller; `vectors` is `vbar_el2`.
pub record Hypervisor (S R U : Type 0) : Type 0 where
  pub world : World S R
  pub serial : U
  pub pcpus : List Pcpu
  pub gic : GicCpu
  pub regime : Regime
  pub vectors : ℕ
  pub hcr : ℕ
  pub hw : Hw
  pub lrs : ℕ → ℕ

-- A place in a list of them.
unfoldable pub elem : ℕ → List ℕ → Bool
elem n [] = false
elem n (m ∷ ms) = let rest = elem n ms in if m == n then true else rest

-- `vcpu->vm->vttbr` of the virtual processor at place `n`. The pointer `vcpu->vm` is the struct that has
-- `n` in its `vcpus`, as `create_vm` sets both; without one it is null.
unfoldable pub vm_vttbr : List VmStruct → ℕ → Outcome ℕ
vm_vttbr [] n = fault
vm_vttbr (vm ∷ vms) n = let rest = vm_vttbr vms n in if elem n vm.vcpus then ok vm.vttbr else rest

-- `enter_vcpu`, with the virtual interface as the start has set it.
unfoldable pub enter : {S R U : Type 0} → ℕ → Hypervisor S R U → Outcome (Hypervisor S R U)
enter me b = do
  let ich : Interface = record { lr = b.lrs; vmcr = b.gic.sys.vmcr; sre_el1 = b.gic.sys.sre_el1 }
  vttbr ← vm_vttbr b.world.vms me
  (vcpus, hw, ich') ← enter_vcpu b.gic.lr_max vttbr me b.world.vcpus b.hw ich
  ok (record b {
    world = record b.world { vcpus = vcpus };
    pcpus = set_current me me b.pcpus;
    hw = hw;
    lrs = ich'.lr;
    gic = record b.gic { sys = record b.gic.sys { vmcr = ich'.vmcr; sre_el1 = ich'.sre_el1 } };
  })

-- The images are those of src/guest.c, which the build puts in place.
abbrev pub vmcfg : Guest → Guest → Guest → VmConfig
vmcfg linux_img virt_dtb rootfs_img = record {
  guest_img = some linux_img;
  fdt_img = some virt_dtb;
  initrd_img = some rootfs_img;
  nvcpu = 8;
  nallocate = 256 * 1024 * 1024;
  entrypoint = 0x40200000;
}

-- `vectable` is the address of the vectors, `waker` and `vtr` are what the interrupt controller answers,
-- `fuel` is for the wait for it.
module _ {S R U : Type 0} (vectable : ℕ) (waker : ℕ → ℕ) (fuel vtr : ℕ) where
  -- `vmm_init_secondary` up to `enter_vcpu`.
  unfoldable pub start_secondary : ℕ → Hypervisor S R U → Outcome (Hypervisor S R U)
  start_secondary me b = do
    g ← gic_init_cpu waker fuel vtr me b.gic
    ok (record b { vectors = vectable; gic = g; regime = s2mmu_init b.regime; hcr = hcr_setup })

  unfoldable pub vmm_init_secondary : ℕ → Hypervisor S R U → Outcome (Hypervisor S R U)
  vmm_init_secondary me b = do b1 ← start_secondary me b; enter me b1

  module _ (port : Serial U) (dev : Device) (rounds vmm_end : ℕ) where
    -- `vmm_init_cpu0` up to `create_vm`: `rounds` bounds the loop over the pages from `vmm_end` on.
    -- `vtimer_init` is empty.
    unfoldable pub start_cpu0 : Hypervisor S R U → Outcome (Hypervisor S R U)
    start_cpu0 b = do
      let u : U = uart_init port b.serial
      pmem ← kalloc_init 0 rounds vmm_end b.world.pmem
      let pcpus = pcpu_init 0 b.pcpus
      let (vgics, vgic_cpus) = vgic_init (b.world.vgics, b.world.vgic_cpus)
      g ← gic_init_cpu waker fuel vtr 0 (record b.gic { bus = gic_init dev b.gic.bus })
      ok (record b {
        world = record b.world {
          pmem = pmem;
          vgics = vgics;
          vgic_cpus = vgic_cpus;
          vcpus = vcpu_init b.world.vcpus;
        };
        serial = u;
        pcpus = pcpus;
        gic = g;
        regime = s2mmu_init b.regime;
        vectors = vectable;
        hcr = hcr_setup;
      })

    -- `pfr0` is ID_PFR0_EL1. The new virtual processors take ICH_VMCR_EL2 as it is by then.
    unfoldable pub vmm_init_cpu0 :
        Handlers S R
        → Handlers S R
        → Handlers S R
        → ℕ
        → VmConfig
        → Hypervisor S R U
        → Outcome (Hypervisor S R U)
    vmm_init_cpu0 gicd gicr virtio pfr0 cfg b = do
      b1 ← start_cpu0 b
      w ← create_vm gicd gicr virtio dev b1.gic.bus 0 pfr0 b1.gic.sys.vmcr cfg b1.world
      enter 0 (record b1 { world = w })
