-- ===== src/Boot/Start.antt =====
-- What the start of a processor establishes for what comes after it.
use mvmm.Base.{
  ℕ, zero, suc, ◌+◌, ◌*◌, ◌%◌, ◌^◌, ◌<◌, ◌≤◌, ◌≡◌, ◌≢◌, bit_and, List, [], ◌∷◌, length, some, map,
  get_elem?, ok, arith, refl, ◌∙◌,
}
use mvmm.Spinlock.{spinlock_init}
use mvmm.Kalloc.{page_size, phy_end}
use mvmm.Kalloc.Pool.{IsPool}
use mvmm.Kalloc.Boot.{stack_up, kalloc_init-IsPool}
use mvmm.Gic.{Device, Interface, gic_restore_state}
use mvmm.Gic.Start.{gic_init, IsStarted, gic_init_cpu-IsStarted}
use mvmm.Mm.Regime.{s2mmu_init, input_size}
use mvmm.Uart.{Serial, uart_init}
use mvmm.Vgic.Cpu.{VgicCpus}
use mvmm.Vcpu.{Vcpu, Vcpus, running, vcpu_init, vcpu_ready}
use mvmm.Vcpu.Table.{IsFilled, IsTaken, IsReady, Loaded, enter_vcpu-ready}
use mvmm.CreateVm.{VgicStruct, vgic_init, vm_vcpus}
use mvmm.CreateVm.Processors.{places, vm_vcpus-IsReady}
use mvmm.Boot.{
  Hypervisor, Pcpu, pcpu_init, hcr_setup, start_cpu0, start_secondary, vmm_init_secondary, enter,
  set_current, vm_vttbr,
}

-- The processor's interrupt controller is started, it takes guest addresses of 44 bits and the vectors at
-- `vectable`. Of `hcr_el2` bits 0, 1, 3, 4, 19 and 31 are those that the code names; the upper half is ones,
-- since the word is converted from a negative `int`.
pub record IsSetUp {S R U : Type 0} (vectable vtr : ℕ) (b : Hypervisor S R U) : Type 0 where
  pub controller : IsStarted vtr b.gic
  pub addresses : input_size b.regime ≡ 44
  pub vectors : b.vectors ≡ vectable
  pub virtualised : b.hcr ≡ 0xffffffff8008001b

-- Every entry of `pcpus` has its own number.
pcpu_init-numbers :
    (i n : ℕ) (ps : List Pcpu) (p : Pcpu) → get_elem? (pcpu_init i ps) n ≡ some p → p.cpuid ≡ i + n
unfolding pcpu_init
pcpu_init-numbers i n [] p e = cc
pcpu_init-numbers i zero (q ∷ ps) p e = ground arith
pcpu_init-numbers i (suc n) (q ∷ ps) p e = omega (arith, pcpu_init-numbers (i + 1) n ps p e)

module _ {S R U : Type 0} (vectable : ℕ) (waker : ℕ → ℕ) (fuel vtr k : ℕ) (enough : k < fuel)
    (awake : bit_and (waker (1 + k)) (2 ^ 2) ≡ 0) where
  -- From memory without free pages and tables with nothing in use and room for eight, with the `n` pages from
  -- `vmm_end` to PHYEND within the rounds of the loop, and a redistributor that wakes up within the
  -- fuel, processor 0 gets as far as `create_vm`: it is set up, the pool holds exactly those pages,
  -- every physical processor has its number, and `create_vm` will make its eight virtual processors.
  pub start_cpu0-IsSetUp :
      (port : Serial U) (dev : Device) (rounds vmm_end n : ℕ) (b : Hypervisor S R U)
      → n < rounds
      → vmm_end + n * page_size ≡ phy_end
      → vmm_end % page_size ≡ 0
      → vmm_end ≢ 0
      → b.world.pmem.freelist ≡ 0
      → IsFilled 0 0 b.world.vcpus.table
      → IsTaken 0 b.world.vgic_cpus.table
      → 8 ≤ length b.world.vcpus.table
      → 8 ≤ length b.world.vgic_cpus.table
      → (b1 : Hypervisor S R U) × (start_cpu0 vectable waker fuel vtr port dev rounds vmm_end b
          ≡ ok b1)
        × IsSetUp vectable vtr b1
        × IsPool b1.world.pmem (stack_up n vmm_end [])
        × ((i : ℕ) (p : Pcpu) → get_elem? b1.pcpus i ≡ some p → p.cpuid ≡ i)
        × ((pfr0 vmcr fdt entry : ℕ)
            → (s : Vcpus) × (g : VgicCpus) × (vm_vcpus 0 pfr0 vmcr fdt 8 entry
                  (b1.world.vcpus, b1.world.vgic_cpus)
                ≡ ok (places 8 0, s, g))
              × IsReady 8 s g)
  unfolding start_cpu0 vcpu_init vgic_init hcr_setup s2mmu_init
  start_cpu0-IsSetUp port dev rounds vmm_end n b lt end al ne empty unused free room room' =
      let (pmem, ran, pool, len) =
        kalloc_init-IsPool 0 n rounds vmm_end b.world.pmem lt end al ne empty in
      let (g, ran', started, bus) =
        gic_init_cpu-IsStarted waker fuel vtr 0 k (record b.gic { bus = gic_init dev b.gic.bus })
          enough awake in
      let s1 : Vcpus = record b.world.vcpus { lock = spinlock_init } in
      let g1 : VgicCpus = record b.world.vgic_cpus { lock = spinlock_init } in
      let at_rest : IsReady 0 s1 g1 = record {
        vcpus_unlocked = refl;
        vgics_unlocked = refl;
        filled = unused;
        taken = free;
      } in
      (
        record b {
          world = record b.world {
            pmem = pmem;
            vgics = map (λ (v : VgicStruct). record v { lock = spinlock_init }) b.world.vgics;
            vgic_cpus = g1;
            vcpus = s1;
          };
          serial = uart_init port b.serial;
          pcpus = pcpu_init 0 b.pcpus;
          gic = g;
          regime = s2mmu_init b.regime;
          vectors = vectable;
          hcr = hcr_setup;
        },
        rw (ran, ran') refl,
        record { controller = started; addresses = refl; vectors = refl; virtualised = refl },
        pool,
        λ i p e. pcpu_init-numbers 0 i b.pcpus p e ∙ omega arith,
        λ pfr0 vmcr fdt entry.
            vm_vcpus-IsReady 0 pfr0 vmcr fdt 8 entry s1 g1 at_rest (omega arith) room room',
      )

  -- A processor `me` whose virtual processor is one of the `m` in use, was made ready and belongs to a virtual
  -- machine with the tables `vttbr` starts, with a redistributor that wakes up within the fuel: it is set up
  -- as far as `enter_vcpu` goes, and enters its own virtual processor, which is running. The processor has
  -- that one's identity and EL1 registers, takes guest addresses by the tables `vttbr`, has no cached translation of
  -- that guest left, and names the virtual processor as its current one.
  pub vmm_init_secondary-enters :
      (me m vttbr : ℕ) (s : Vcpus) (g : VgicCpus) (b : Hypervisor S R U)
      → IsReady m s g
      → me < m
      → b.world.vcpus ≡ vcpu_ready me s
      → vm_vttbr b.world.vms me ≡ ok vttbr
      → (b1 b' : Hypervisor S R U) × (v v' : Vcpu) × (start_secondary vectable waker fuel vtr me b
          ≡ ok b1)
        × IsSetUp vectable vtr b1
        × (vmm_init_secondary vectable waker fuel vtr me b ≡ ok b')
        × (b'.hcr ≡ b1.hcr)
        × (get_elem? s.table me ≡ some v)
        × (get_elem? b'.world.vcpus.table me ≡ some v')
        × (v'.state ≡ running)
        × Loaded vttbr me v.sys b'.hw
        × (b'.pcpus ≡ set_current me me b.pcpus)
  unfolding vmm_init_secondary start_secondary enter hcr_setup s2mmu_init
  vmm_init_secondary-enters me m vttbr s g b r lt e on =
      let (c, ran, started, bus) = gic_init_cpu-IsStarted waker fuel vtr me k b.gic enough awake in
      let b1 : Hypervisor S R U = record b {
        vectors = vectable;
        gic = c;
        regime = s2mmu_init b.regime;
        hcr = hcr_setup;
      } in
      let ich : Interface = record { lr = b.lrs; vmcr = c.sys.vmcr; sre_el1 = c.sys.sre_el1 } in
      let (v, v', s', hw', at, entered, at', state', id) =
        enter_vcpu-ready c.lr_max vttbr m me s g b.hw ich r lt in
      let ich' : Interface = gic_restore_state c.lr_max v.gic ich in
      (
        b1,
        record b1 {
          world = record b.world { vcpus = s' };
          pcpus = set_current me me b.pcpus;
          hw = hw';
          lrs = ich'.lr;
          gic = record c { sys = record c.sys { vmcr = ich'.vmcr; sre_el1 = ich'.sre_el1 } };
        },
        v,
        v',
        rw ran refl,
        record { controller = started; addresses = refl; vectors = refl; virtualised = refl },
        rw (ran, on, e, entered) refl,
        refl,
        at,
        at',
        state',
        id,
        refl,
      )
