-- ===== src/Tests/Processors.antt =====
-- Two entries for virtual processors, the first of them taken.
use mvmm.Base.{ℕ, ◌≡◌, ◌≢◌, ok, arith, refl, [], ◌∷◌, some, none, get_elem?, ◌+◌}
use mvmm.Spinlock.{spinlock_init}
use mvmm.Vgic.Cpu.{VgicCpu, VgicCpus}
use mvmm.Vcpu.{Vcpu, Vcpus, unused, created, ready, is_unused, Sys, Hw, restore_sysreg, save_sysreg}
use mvmm.Vcpu.Table.{IsReady}
use mvmm.Psci.{PsciCall, Firmware, VmVcpus, vpsci_emulate}
use mvmm.Psci.CpuOn.{vpsci_emulate-cpuon}
use mvmm.Vcpu.Saved.{restore_sysreg-save_sysreg}

-- Registers that count up from `n`.
abbrev pub some_sys : ℕ → Sys
some_sys n = record {
  spsr_el1 = n;
  elr_el1 = n + 1;
  mpidr_el1 = n + 2;
  midr_el1 = n + 3;
  sp_el0 = n + 4;
  sp_el1 = n + 5;
  ttbr0_el1 = n + 6;
  ttbr1_el1 = n + 7;
  tcr_el1 = n + 8;
  vbar_el1 = n + 9;
  sctlr_el1 = n + 10;
  cntv_ctl_el0 = n + 11;
  cntv_tval_el0 = n + 12;
  cntfrq_el0 = n + 13;
}

abbrev pub some_hw : ℕ → Hw
some_hw n = record {
  sys = some_sys n;
  vmpidr_el2 = 0;
  vpidr_el2 = 0;
  vttbr_el2 = 0x7000;
  tpidr_el2 = 0;
  tlb = 0x7000 ∷ [];
}

restore_sysreg-save_sysreg_example :
    let back = restore_sysreg (save_sysreg (some_hw 100) (some_sys 200)) (some_hw 300) in
    (back.sys ≡ record (some_sys 100) { cntfrq_el0 = 213; mpidr_el1 = 302; midr_el1 = 303 })
    × (back.vmpidr_el2 ≡ 102)
    × (back.vpidr_el2 ≡ 103)
restore_sysreg-save_sysreg_example =
    restore_sysreg-save_sysreg (some_hw 100) (some_hw 300) (some_sys 200)

abbrev pub blank_vcpu : Vcpu
blank_vcpu = record {
  state = unused;
  cpuid = 0;
  x = λ i. 0;
  spsr = 0;
  elr = 0;
  sys = some_sys 0;
  pfr0 = 0;
  gic = record { lr = λ i. 0; vmcr = 0; sre_el1 = 0 };
  vgic = none;
}

abbrev pub blank_vgic : VgicCpu
blank_vgic = record {
  used = 0;
  used_lr = 0;
  sgis = λ i. record { priority = 0; target = 0; enabled = 0; igroup = 0 };
  ppis = λ i. record { priority = 0; target = 0; enabled = 0; igroup = 0 };
}

abbrev pub one_vcpu : Vcpus
one_vcpu = record {
  table = record blank_vcpu { state = created } ∷ blank_vcpu ∷ [];
  lock = spinlock_init;
}

abbrev pub one_vgic : VgicCpus
one_vgic = record { table = record blank_vgic { used = 1 } ∷ blank_vgic ∷ []; lock = spinlock_init }

pub one_vcpu-IsReady : IsReady 1 one_vcpu one_vgic
unfolding is_unused
one_vcpu-IsReady = record {
  vcpus_unlocked = refl;
  vgics_unlocked = refl;
  filled = (refl, refl, (refl, refl));
  taken = (refl, (refl, refl));
}

abbrev pub one_vm : VmVcpus
one_vm = record { nvcpu = 1; vcpus = 0 ∷ [] }

abbrev on_call : PsciCall
on_call = record { funcid = 0xc4000003; x1 = 0; x2 = 0x40300000; x3 = 7 }

-- A firmware that answers with the number of the processor.
abbrev pub echo : Firmware
echo = λ func cpu entry context. cpu

vpsci_emulate-cpuon_example :
    (s' : Vcpus) × (vpsci_emulate echo 0x40000000 one_vm on_call one_vcpu ≡ ok (some 0, s'))
    × IsReady 1 s' one_vgic
    × ((v : Vcpu) × (get_elem? s'.table 0 ≡ some v) × (v.elr ≡ 0x40300000) × (v.state ≡ ready))
    × ((j : ℕ) → j ≢ 0 → get_elem? s'.table j ≡ get_elem? one_vcpu.table j)
vpsci_emulate-cpuon_example =
    vpsci_emulate-cpuon echo 0x40000000 1 one_vm on_call one_vcpu one_vgic one_vcpu-IsReady
      (omega arith) refl refl (omega arith)
