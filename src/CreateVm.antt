-- ===== src/CreateVm.antt =====
-- src/vm.c and src/vgic.c: `create_vm` as a whole, with the structs that it takes from their tables.
pub mod Processors
use mvmm.Base.{
  ℕ, zero, suc, ◌+◌, ◌-◌, ◌==◌, if◌then◌else◌, Bool, false, List, [], ◌∷◌, Option, none, some,
  Outcome, ok, panic, fault, ◌>>=◌, map,
}
use mvmm.Spinlock.{Spinlock, spinlock_init, acquire, release}
use mvmm.Kalloc.{Pmem, kalloc}
use mvmm.Gic.{Device, Trace, gic_max_spi}
use mvmm.Vgic.Cpu.{VgicCpus}
use mvmm.Vcpu.{Vcpus, new_vcpu, vcpu_ready}
use mvmm.Mmio.{Mmio}
use mvmm.Vm.{Guest, VmConfig, check_config, create_space, pagetrap}
use mvmm.VirtioMmio.{virtio_mmio_init}

-- `struct vgic` less its lock's use by the registers: `spis` is the address of the array.
pub record VgicStruct : Type 0 where
  pub used : ℕ
  pub lock : Spinlock
  pub spi_max : ℕ
  pub nspis : ℕ
  pub enabled : Bool
  pub spis : ℕ

-- `struct vm`; the pointers to virtual processors and to the vgic are places in their tables. `pmap` and
-- the lock stand with the regions.
pub record VmStruct : Type 0 where
  pub used : ℕ
  pub fdt : ℕ
  pub vcpus : List ℕ
  pub nvcpu : ℕ
  pub vttbr : ℕ
  pub vgic : ℕ

-- What `create_vm` changes.
pub record World (S R : Type 0) : Type 0 where
  pub pmem : Pmem
  pub vcpus : Vcpus
  pub vgic_cpus : VgicCpus
  pub vms : List VmStruct
  pub vgics : List VgicStruct
  pub mmio : Mmio S R
  pub vtdev_lock : Spinlock

-- `allocvm` from place `i` on.
unfoldable pub allocvm : ℕ → List VmStruct → Option ℕ × List VmStruct
allocvm i [] = (none, [])
allocvm i (vm ∷ vms) =
    let (n, vms') = allocvm (i + 1) vms in
    if vm.used == 0 then (some i, record vm { used = 1 } ∷ vms) else (n, vm ∷ vms')

-- `allocvgic` from place `i` on; each struct has a lock of its own.
unfoldable pub allocvgic : ℕ → ℕ → List VgicStruct → Outcome (Option ℕ × List VgicStruct)
allocvgic me i [] = ok (none, [])
allocvgic me i (v ∷ vs) = do
  l ← acquire me v.lock
  l' ← release me l
  let rest = (do (n, vs') ← allocvgic me (i + 1) vs; ok (n, record v { lock = l' } ∷ vs'))
  if v.used == 0 then ok (some i, record v { used = 1; lock = l' } ∷ vs) else rest

-- `vgic_init`
unfoldable pub vgic_init : List VgicStruct × VgicCpus → List VgicStruct × VgicCpus
vgic_init (vgics, cpus) = (
  map (λ (v : VgicStruct). record v { lock = spinlock_init }) vgics,
  record cpus { lock = spinlock_init },
)

unfoldable pub write_nth : {A : Type 0} → ℕ → (A → A) → List A → List A
write_nth n f [] = []
write_nth zero f (x ∷ xs) = f x ∷ xs
write_nth (suc n) f (x ∷ xs) = x ∷ write_nth n f xs

-- The null pointer of an empty table is written through.
abbrev pub deref : {A : Type 0} → Option A → Outcome A
deref none = fault
deref (some a) = ok a

-- A region's handlers for reads and writes.
abbrev pub Handlers : Type 0 → Type 0 → Type 0
Handlers S R = Option (ℕ → Option ℕ → S → R) × Option (ℕ → ℕ → S → R)

-- The loop of `create_vm` over the virtual processors from `i` on: their places. `pfr0` and `vmcr` are
-- registers of the processor that makes them.
unfoldable pub new_vcpus :
    ℕ → ℕ → ℕ → ℕ → ℕ → ℕ → Vcpus × VgicCpus → Outcome (List ℕ × Vcpus × VgicCpus)
new_vcpus me pfr0 vmcr fdt zero i (s, g) = ok ([], s, g)
new_vcpus me pfr0 vmcr fdt (suc left) i (s, g) = do
  (n, s1, g1) ← new_vcpu me pfr0 vmcr fdt i 0 (s, g)
  (ns, s2, g2) ← new_vcpus me pfr0 vmcr fdt left (i + 1) (s1, g1)
  ok (n ∷ ns, s2, g2)

-- Processor 0 starts at the entry point, and is there whatever their number.
unfoldable pub vm_vcpus :
    ℕ → ℕ → ℕ → ℕ → ℕ → ℕ → Vcpus × VgicCpus → Outcome (List ℕ × Vcpus × VgicCpus)
vm_vcpus me pfr0 vmcr fdt nvcpu entry (s, g) = do
  (n, s1, g1) ← new_vcpu me pfr0 vmcr fdt 0 entry (s, g)
  (ns, s2, g2) ← new_vcpus me pfr0 vmcr fdt (nvcpu - 1) 1 (s1, g1)
  ok (n ∷ ns, s2, g2)

module _ {S R : Type 0} (gicd gicr virtio : Handlers S R) (dev : Device) (bus : Trace)
    (me : ℕ) where
  -- The place of the vgic.
  unfoldable pub new_vgic : ℕ → World S R → Outcome (ℕ × World S R)
  new_vgic vttbr w = do
    (found, vgics) ← allocvgic me 0 w.vgics
    n ← deref found
    let spi_max : ℕ = gic_max_spi dev bus
    (spis, s1) ← kalloc me w.pmem
    let set = λ (v : VgicStruct). record v {
      spi_max = spi_max;
      nspis = spi_max - 31;
      enabled = false;
      spis = spis;
    }
    (s2, mmio2) ←
        if spis == 0 then panic else pagetrap me vttbr 0x08000000 0x10000 gicd.0 gicd.1 s1 w.mmio
    (s3, mmio3) ← pagetrap me vttbr 0x080a0000 0xf60000 gicr.0 gicr.1 s2 mmio2
    ok (n, record w { pmem = s3; mmio = mmio3; vgics = write_nth n set vgics })

  -- `pfr0` and `vmcr` as in `new_vcpus`.
  unfoldable pub create_vm : ℕ → ℕ → VmConfig → World S R → Outcome (World S R)
  create_vm pfr0 vmcr cfg w = do
    guest ← check_config cfg
    let (found, vms) = allocvm 0 w.vms
    n ← deref found
    let fdt : ℕ = 0x44400000
    (places, vcpus, vgic_cpus) ←
        vm_vcpus me pfr0 vmcr fdt cfg.nvcpu cfg.entrypoint (w.vcpus, w.vgic_cpus)
    (vttbr, s1) ← create_space me guest cfg w.pmem
    let w1 : World S R = record w {
      pmem = s1;
      vcpus = vcpus;
      vgic_cpus = vgic_cpus;
      mmio = record w.mmio { pmap = none };
    }
    (vgic, w2) ← new_vgic vttbr w1
    (s3, mmio3, vtdev_lock) ← virtio_mmio_init me vttbr virtio.0 virtio.1 w2.pmem w2.mmio
    first ← (elim places [ [] ↦ fault | p ∷ ps ↦ ok p ])
    let set = λ (vm : VmStruct). record vm {
      fdt = fdt;
      vcpus = places;
      nvcpu = cfg.nvcpu;
      vttbr = vttbr;
      vgic = vgic;
    }
    ok (record w2 {
      pmem = s3;
      vcpus = vcpu_ready first w2.vcpus;
      vms = write_nth n set vms;
      mmio = record mmio3 { vm_lock = spinlock_init };
      vtdev_lock = vtdev_lock;
    })
