-- ===== src/Tests/Start.antt =====
-- The start of the first processor with two free pages and eight entries in each table, and of another one.
use mvmm.Base.{ℕ, ◌-◌, ◌*◌, ◌≡◌, [], none, some, ok, arith, refl, get_elem?, replicate, ◌∷◌}
use mvmm.Spinlock.{spinlock_init}
use mvmm.Kalloc.{phy_end, page_size}
use mvmm.Kalloc.Pool.{IsPool}
use mvmm.Kalloc.Boot.{stack_up}
use mvmm.Gic.{Device}
use mvmm.Vgic.Cpu.{VgicCpus}
use mvmm.Vcpu.{Vcpu, Vcpus, is_unused, running, vcpu_ready}
use mvmm.Vcpu.Table.{IsReady, Loaded}
use mvmm.CreateVm.{vm_vcpus}
use mvmm.CreateVm.Processors.{places}
use mvmm.Boot.{
  Hypervisor, Pcpu, start_cpu0, start_secondary, vmm_init_secondary, elem, vm_vttbr, set_current,
}
use mvmm.Boot.Start.{IsSetUp, start_cpu0-IsSetUp, vmm_init_secondary-enters}
use mvmm.Tests.Ports.{Chars, port, cold, sleepy}
use mvmm.Tests.Processors.{blank_vcpu, blank_vgic, some_hw, one_vcpu, one_vgic, one_vcpu-IsReady}

-- A controller whose registers read as 0.
abbrev silent : Device
silent = λ bus a. 0

-- The state before the start, with one virtual machine, of the virtual processor 0.
abbrev off : Vcpus → Hypervisor ℕ ℕ Chars
off vcpus = record {
  world = record {
    pmem = record { mem = λ a. 0; freelist = 0; lock = spinlock_init };
    vcpus = vcpus;
    vgic_cpus = record { table = replicate 8 blank_vgic; lock = spinlock_init };
    vms = record { used = 1; fdt = 0; vcpus = 0 ∷ []; nvcpu = 1; vttbr = 0x7000; vgic = 0 } ∷ [];
    vgics = [];
    mmio = record { infos = []; mi_lock = spinlock_init; pmap = none; vm_lock = spinlock_init };
    vtdev_lock = spinlock_init;
  };
  serial = ([], []);
  pcpus = replicate 8 (record { cpuid = 0; vcpu = none; ready = none });
  gic = cold;
  regime = record { vtcr = 0; mair = 0 };
  vectors = 0;
  hcr = 0;
  hw = some_hw 100;
  lrs = λ n. 0;
}

abbrev empty_table : Vcpus
empty_table = record { table = replicate 8 blank_vcpu; lock = spinlock_init }

start_cpu0-IsSetUp_example :
    (b1 : Hypervisor ℕ ℕ Chars) × (start_cpu0 0x800 sleepy 2 3 port silent 3
        (phy_end - 2 * page_size)
        (off empty_table)
      ≡ ok b1)
    × IsSetUp 0x800 3 b1
    × IsPool b1.world.pmem (stack_up 2 (phy_end - 2 * page_size) [])
    × ((i : ℕ) (p : Pcpu) → get_elem? b1.pcpus i ≡ some p → p.cpuid ≡ i)
    × ((pfr0 vmcr fdt entry : ℕ)
        → (s : Vcpus) × (g : VgicCpus) × (vm_vcpus 0 pfr0 vmcr fdt 8 entry
              (b1.world.vcpus, b1.world.vgic_cpus)
            ≡ ok (places 8 0, s, g))
          × IsReady 8 s g)
unfolding is_unused
start_cpu0-IsSetUp_example =
    start_cpu0-IsSetUp 0x800 sleepy 2 3 1 (omega arith) refl port silent 3 (phy_end - 2 * page_size)
      2 (off empty_table) (omega arith) (omega arith) (omega arith) (omega arith) refl
      (refl, (refl, (refl, (refl, (refl, (refl, (refl, (refl, refl))))))))
      (refl, (refl, (refl, (refl, (refl, (refl, (refl, (refl, refl)))))))) (omega arith)
      (omega arith)

first_on : vm_vttbr (off (vcpu_ready 0 one_vcpu)).world.vms 0 ≡ ok 0x7000
unfolding vm_vttbr elem
first_on = refl

vmm_init_secondary-enters_example :
    (b1 b' : Hypervisor ℕ ℕ Chars) × (v v' : Vcpu) × (start_secondary 0x800 sleepy 2 3 0
        (off (vcpu_ready 0 one_vcpu))
      ≡ ok b1)
    × IsSetUp 0x800 3 b1
    × (vmm_init_secondary 0x800 sleepy 2 3 0 (off (vcpu_ready 0 one_vcpu)) ≡ ok b')
    × (b'.hcr ≡ b1.hcr)
    × (get_elem? one_vcpu.table 0 ≡ some v)
    × (get_elem? b'.world.vcpus.table 0 ≡ some v')
    × (v'.state ≡ running)
    × Loaded 0x7000 0 v.sys b'.hw
    × (b'.pcpus ≡ set_current 0 0 (off (vcpu_ready 0 one_vcpu)).pcpus)
vmm_init_secondary-enters_example =
    vmm_init_secondary-enters 0x800 sleepy 2 3 1 (omega arith) refl 0 1 0x7000 one_vcpu one_vgic
      (off (vcpu_ready 0 one_vcpu)) one_vcpu-IsReady (omega arith) refl first_on
