-- ===== src/Vcpu.antt =====
-- src/vcpu.c and include/vcpu.h: the table of virtual processors, their states, and the EL1 registers
-- that are kept while a processor does not run.
pub mod Saved
pub mod Table
use mvmm.Base.{
  ◌-◌, ◌*◌, ◌/◌, ◌^◌, bit_and, ℕ, zero, suc, ◌+◌, ◌==◌, if◌then◌else◌, Bool, true, false, List, [],
  ◌∷◌, Option, none, some, get_elem?, Outcome, ok, panic, fault, ◌>>=◌,
}
use mvmm.Spinlock.{Spinlock, spinlock_init, acquire, release}
use mvmm.Gic.{GicState, Interface, update, gic_restore_state}
use mvmm.Vgic.Cpu.{VgicCpus, new_vgic_cpu}

-- `enum vcpu_state`
pub data VcpuState : Type 0 where
  unused created ready running : VcpuState

unfoldable pub is_unused : VcpuState → Bool
is_unused unused = true
is_unused _ = false

unfoldable pub is_ready : VcpuState → Bool
is_ready ready = true
is_ready _ = false

-- The anonymous `sys` of `struct vcpu`.
pub record Sys : Type 0 where
  pub spsr_el1 : ℕ
  pub elr_el1 : ℕ
  pub mpidr_el1 : ℕ
  pub midr_el1 : ℕ
  pub sp_el0 : ℕ
  pub sp_el1 : ℕ
  pub ttbr0_el1 : ℕ
  pub ttbr1_el1 : ℕ
  pub tcr_el1 : ℕ
  pub vbar_el1 : ℕ
  pub sctlr_el1 : ℕ
  pub cntv_ctl_el0 : ℕ
  pub cntv_tval_el0 : ℕ
  pub cntfrq_el0 : ℕ

-- The registers of the physical processor that the code reads and writes. At EL2 `mpidr_el1` and
-- `midr_el1` are the physical identity; `vmpidr_el2` and `vpidr_el2` are what the guest reads. `vttbr_el2` is the
-- root of the tables for guest addresses with the guest's number; `tlb` holds those values of it whose
-- translations may still be cached.
pub record Hw : Type 0 where
  pub sys : Sys
  pub vmpidr_el2 : ℕ
  pub vpidr_el2 : ℕ
  pub vttbr_el2 : ℕ
  pub tpidr_el2 : ℕ
  pub tlb : List ℕ

-- One `read_sysreg` after the other; `cntfrq_el0` is not read.
unfoldable pub save_sysreg : Hw → Sys → Sys
save_sysreg hw s0 =
    let s1 : Sys = record s0 { spsr_el1 = hw.sys.spsr_el1 } in
    let s2 : Sys = record s1 { elr_el1 = hw.sys.elr_el1 } in
    let s3 : Sys = record s2 { mpidr_el1 = hw.sys.mpidr_el1 } in
    let s4 : Sys = record s3 { midr_el1 = hw.sys.midr_el1 } in
    let s5 : Sys = record s4 { sp_el0 = hw.sys.sp_el0 } in
    let s6 : Sys = record s5 { sp_el1 = hw.sys.sp_el1 } in
    let s7 : Sys = record s6 { ttbr0_el1 = hw.sys.ttbr0_el1 } in
    let s8 : Sys = record s7 { ttbr1_el1 = hw.sys.ttbr1_el1 } in
    let s9 : Sys = record s8 { tcr_el1 = hw.sys.tcr_el1 } in
    let s10 : Sys = record s9 { vbar_el1 = hw.sys.vbar_el1 } in
    let s11 : Sys = record s10 { sctlr_el1 = hw.sys.sctlr_el1 } in
    let s12 : Sys = record s11 { cntv_ctl_el0 = hw.sys.cntv_ctl_el0 } in
    record s12 { cntv_tval_el0 = hw.sys.cntv_tval_el0 }

-- A write to a register of `sys`, one `write_sysreg` after the other.
unfoldable pub restore_sysreg : Sys → Hw → Hw
restore_sysreg s hw =
    let r0 : Sys = hw.sys in
    let r1 : Sys = record r0 { spsr_el1 = s.spsr_el1 } in
    let r2 : Sys = record r1 { elr_el1 = s.elr_el1 } in
    let h1 : Hw = record hw { vmpidr_el2 = s.mpidr_el1 } in
    let h2 : Hw = record h1 { vpidr_el2 = s.midr_el1 } in
    let r3 : Sys = record r2 { sp_el0 = s.sp_el0 } in
    let r4 : Sys = record r3 { sp_el1 = s.sp_el1 } in
    let r5 : Sys = record r4 { ttbr0_el1 = s.ttbr0_el1 } in
    let r6 : Sys = record r5 { ttbr1_el1 = s.ttbr1_el1 } in
    let r7 : Sys = record r6 { tcr_el1 = s.tcr_el1 } in
    let r8 : Sys = record r7 { vbar_el1 = s.vbar_el1 } in
    let r9 : Sys = record r8 { sctlr_el1 = s.sctlr_el1 } in
    let r10 : Sys = record r9 { cntv_ctl_el0 = s.cntv_ctl_el0 } in
    let r11 : Sys = record r10 { cntv_tval_el0 = s.cntv_tval_el0 } in
    record h2 { sys = record r11 { cntfrq_el0 = s.cntfrq_el0 } }

-- The part of `struct vcpu` that is followed here.
pub record Vcpu : Type 0 where
  pub state : VcpuState
  pub cpuid : ℕ
  pub x : ℕ → ℕ
  pub spsr : ℕ
  pub elr : ℕ
  pub sys : Sys
  pub pfr0 : ℕ
  pub gic : GicState
  pub vgic : Option ℕ

-- `vcpus`, of VCPU_MAX entries, and its lock.
pub record Vcpus : Type 0 where
  pub table : List Vcpu
  pub lock : Spinlock

-- The first unused entry from `i` on; `none` is the end of the loop.
unfoldable pub find_unused : ℕ → List Vcpu → Option ℕ
find_unused i [] = none
find_unused i (v ∷ vs) = if is_unused v.state then some i else find_unused (i + 1) vs

-- A write to entry `n` of an array.
unfoldable pub update_at {ℓ} : {A : Type ℓ} → ℕ → (A → A) → List A → List A
update_at n f [] = []
update_at zero f (v ∷ vs) = f v ∷ vs
update_at (suc n) f (v ∷ vs) = v ∷ update_at n f vs

-- `vcpu->state = CREATED;`
abbrev pub create : Vcpu → Vcpu
create v = record v { state = created }

-- The index of the entry is the pointer, `none` the null pointer.
unfoldable pub allocvcpu : ℕ → Vcpus → Outcome (Option ℕ × Vcpus)
allocvcpu me s = do
  l ← acquire me s.lock
  l' ← release me l
  ok (elim (find_unused 0 s.table) [
    | none ↦ (none, record s { lock = l' })
    | some n ↦ (some n, record { table = update_at n create s.table; lock = l' })
  ])

-- The assignments of `new_vcpu` and of `vcpu_features_init` and `gic_init_state`; `pfr0` and
-- `vmcr` are ID_PFR0_EL1 and ICH_VMCR_EL2 of the processor. `vgic` is set beside them.
unfoldable pub init_vcpu : ℕ → ℕ → ℕ → ℕ → ℕ → Vcpu → Vcpu
init_vcpu pfr0 vmcr fdt vcpuid entry v = record v {
  cpuid = vcpuid;
  spsr = 0x3c5;
  elr = entry;
  sys = record v.sys {
    mpidr_el1 = vcpuid;
    midr_el1 = 0x410fd081;
    sctlr_el1 = 0xc50838;
    cntfrq_el0 = 62500000;
  };
  x = if vcpuid == 0 then update (update v.x 0 fdt) 4 entry else v.x;
  pfr0 = bit_and pfr0 (2 ^ 64 - 1 - 0xf * 2 ^ 8);
  gic = record v.gic { vmcr = vmcr };
}

-- With `vcpu->vgic`.
unfoldable pub fill : ℕ → ℕ → ℕ → ℕ → ℕ → ℕ → Vcpu → Vcpu
fill pfr0 vmcr fdt vcpuid entry c v = record (init_vcpu pfr0 vmcr fdt vcpuid entry v) {
  vgic = some c;
}

-- `new_vgic_cpu` may fault, where no struct is left.
unfoldable pub new_vcpu : ℕ → ℕ → ℕ → ℕ → ℕ → ℕ → Vcpus × VgicCpus → Outcome (ℕ × Vcpus × VgicCpus)
new_vcpu me pfr0 vmcr fdt vcpuid entry (s, g) = do
  (found, s1) ← allocvcpu me s
  n ← elim found [ none ↦ panic | some n ↦ ok n ]
  (c, g1) ← new_vgic_cpu me vcpuid g
  ok (n, record s1 { table = update_at n (fill pfr0 vmcr fdt vcpuid entry c) s1.table }, g1)

-- `vcpu_ready`, of the entry `n`
unfoldable pub vcpu_ready : ℕ → Vcpus → Vcpus
vcpu_ready n s = record s { table = update_at n (λ v. record v { state = ready }) s.table }

-- The guest that a value of `vttbr_el2` names.
abbrev pub vmid : ℕ → ℕ
vmid vttbr = vttbr / 2 ^ 48

unfoldable pub drop_guest : ℕ → List ℕ → List ℕ
drop_guest guest [] = []
drop_guest guest (t ∷ ts) =
    let rest = drop_guest guest ts in if vmid t == guest then rest else t ∷ rest

-- `tlb_flush`: `tlbi vmalls12e1` drops the translations of the guest that `vttbr_el2` names.
unfoldable pub tlb_flush : Hw → Hw
tlb_flush hw = record hw { tlb = drop_guest (vmid hw.vttbr_el2) hw.tlb }

-- The writes of `switch_vcpu` to the processor: the entry `n`, as a pointer, the tables of its virtual
-- machine, and its EL1 registers.
unfoldable pub load_vcpu : ℕ → ℕ → Sys → Hw → Hw
load_vcpu vttbr n sys hw0 =
    let hw1 : Hw = record hw0 { tpidr_el2 = n } in
    let hw2 : Hw = record hw1 { vttbr_el2 = vttbr } in restore_sysreg sys (tlb_flush hw2)

-- `switch_vcpu` up to the entry into the guest: `hw` and `ich` are the registers of the processor `me`
-- and of its virtual interface, `vttbr` is `vcpu->vm->vttbr`. `cur_pcpu()->vcpu = vcpu;` is written beside
-- it. The dump of the registers at the end saves them in the struct.
unfoldable pub switch_vcpu :
    ℕ → ℕ → ℕ → ℕ → Vcpus → Hw → Interface → Outcome (Vcpus × Hw × Interface)
switch_vcpu lr_max vttbr me n s hw ich = elim (get_elem? s.table n) [
  | none ↦ fault
  | some v ↦
      let hw' = load_vcpu vttbr n v.sys hw in
      let run = λ (u : Vcpu). record u { state = running; sys = save_sysreg hw' u.sys } in
      if v.cpuid == me
      then ok
          (record s { table = update_at n run s.table }, hw', gic_restore_state lr_max v.gic ich)
      else panic
]

-- The entry is taken at the number of the physical processor.
unfoldable pub enter_vcpu : ℕ → ℕ → ℕ → Vcpus → Hw → Interface → Outcome (Vcpus × Hw × Interface)
enter_vcpu lr_max vttbr me s hw ich = elim (get_elem? s.table me) [
  | none ↦ fault
  | some v ↦ if is_ready v.state then switch_vcpu lr_max vttbr me me s hw ich else panic
]

-- `memset(vcpu, 0, sizeof(*vcpu))`: state 0 is UNUSED.
abbrev pub zero_vcpu : Vcpu
zero_vcpu = record {
  state = unused;
  cpuid = 0;
  x = λ i. 0;
  spsr = 0;
  elr = 0;
  sys = record {
    spsr_el1 = 0;
    elr_el1 = 0;
    mpidr_el1 = 0;
    midr_el1 = 0;
    sp_el0 = 0;
    sp_el1 = 0;
    ttbr0_el1 = 0;
    ttbr1_el1 = 0;
    tcr_el1 = 0;
    vbar_el1 = 0;
    sctlr_el1 = 0;
    cntv_ctl_el0 = 0;
    cntv_tval_el0 = 0;
    cntfrq_el0 = 0;
  };
  pfr0 = 0;
  gic = record { lr = λ i. 0; vmcr = 0; sre_el1 = 0 };
  vgic = none;
}

-- The struct for the interrupts of the processor stays in use.
unfoldable pub free_vcpu : ℕ → Vcpus → Vcpus
free_vcpu n s = record s { table = update_at n (λ v. zero_vcpu) s.table }

unfoldable pub vcpu_init : Vcpus → Vcpus
vcpu_init s = record s { lock = spinlock_init }
