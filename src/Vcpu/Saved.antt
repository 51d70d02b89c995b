-- ===== src/Vcpu/Saved.antt =====
-- Saving and restoring the EL1 registers of a virtual processor.
use mvmm.Base.{◌≡◌, refl}
use mvmm.Vcpu.{Sys, Hw, save_sysreg, restore_sysreg}

-- What `save_sysreg` took from the processor, `restore_sysreg` puts back, whatever the processor holds by
-- then: every EL1 register but the two identities and `cntfrq_el0`, which comes from the struct. The
-- identities that the guest reads become the physical ones of the processor that was saved, since
-- `save_sysreg` reads `mpidr_el1` and `midr_el1` at EL2.
pub restore_sysreg-save_sysreg :
    (before after : Hw) (s : Sys)
    → let back = restore_sysreg (save_sysreg before s) after in
      (back.sys ≡ record before.sys {
        cntfrq_el0 = s.cntfrq_el0;
        mpidr_el1 = after.sys.mpidr_el1;
        midr_el1 = after.sys.midr_el1;
      })
      × (back.vmpidr_el2 ≡ before.sys.mpidr_el1)
      × (back.vpidr_el2 ≡ before.sys.midr_el1)
unfolding restore_sysreg save_sysreg
restore_sysreg-save_sysreg before after s = (refl, refl, refl)
