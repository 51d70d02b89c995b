-- ===== src/Sysreg.antt =====
-- src/vsysreg.c, and vgic_emulate_sgi1r of src/vgic.c: the system registers that a guest's access traps.
pub mod Fields
use mvmm.Base.{
  ℕ, ◌+◌, ◌-◌, ◌*◌, ◌/◌, ◌%◌, ◌^◌, bit_and, bit_or, ◌==◌, ltb, ◌||◌, not, if◌then◌else◌, Bool, true,
  false, List, [], ◌∷◌, Option, none, some, Outcome, ok, fault, ◌>>=◌,
}
use mvmm.Gic.{update}
use mvmm.Vcpu.{Vcpu}

-- `ISS_SYSREG`, the number of a register in the syndrome.
unfoldable pub iss_sysreg : ℕ → ℕ → ℕ → ℕ → ℕ → ℕ
iss_sysreg op0 op1 crn crm op2 =
    bit_or (bit_or (bit_or (bit_or (op0 * 2 ^ 20) (op2 * 2 ^ 17)) (op1 * 2 ^ 14)) (crn * 2 ^ 10))
      (crm * 2)

-- `ISS_ID_PFR0_EL1`
unfoldable pub iss_id_pfr0 : ℕ
iss_id_pfr0 = iss_sysreg 3 0 0 1 0

-- `ISS_ICC_SGI1R_EL1`
unfoldable pub iss_icc_sgi1r : ℕ
iss_icc_sgi1r = iss_sysreg 3 0 12 11 5

-- The registers whose read gives the value of the physical register, in the order of the `switch`.
unfoldable pub ro_registers : List ℕ
ro_registers =
    iss_sysreg 3 0 0 1 1  -- ID_PFR1_EL1
    ∷ (iss_sysreg 3 0 0 1 2  -- ID_DFR0_EL1
        ∷ (iss_sysreg 3 0 0 2 0  -- ID_ISAR0_EL1
            ∷ (iss_sysreg 3 0 0 2 1  -- ID_ISAR1_EL1
                ∷ (iss_sysreg 3 0 0 2 2  -- ID_ISAR2_EL1
                    ∷ (iss_sysreg 3 0 0 2 3  -- ID_ISAR3_EL1
                        ∷ (iss_sysreg 3 0 0 2 4  -- ID_ISAR4_EL1
                            ∷ (iss_sysreg 3 0 0 2 5  -- ID_ISAR5_EL1
                                ∷ (iss_sysreg 3 0 0 1 4  -- ID_MMFR0_EL1
                                    ∷ (iss_sysreg 3 0 0 1 5  -- ID_MMFR1_EL1
                                        ∷ (iss_sysreg 3 0 0 1 6  -- ID_MMFR2_EL1
                                            ∷ (iss_sysreg 3 0 0 1 7  -- ID_MMFR3_EL1
                                                ∷ (iss_sysreg 3 0 0 2 6  -- ID_MMFR4_EL1
                                                    ∷ (iss_sysreg 3 0 0 3 0  -- MVFR0_EL1
                                                        ∷ (iss_sysreg 3 0 0 3 1  -- MVFR1_EL1
                                                            ∷ (iss_sysreg 3 0 0 3 2  -- MVFR2_EL1
                                                            ∷ (iss_sysreg 3 0 0 4 0  -- ID_AA64PFR0_EL1
                                                            ∷ (iss_sysreg 3 0 0 4 1  -- ID_AA64PFR1_EL1
                                                            ∷ (iss_sysreg 3 0 0 5 0  -- ID_AA64DFR0_EL1
                                                            ∷ (iss_sysreg 3 0 0 5 1  -- ID_AA64DFR1_EL1
                                                            ∷ (iss_sysreg 3 0 0 6 0  -- ID_AA64ISAR0_EL1
                                                            ∷ (iss_sysreg 3 0 0 6 1  -- ID_AA64ISAR1_EL1
                                                            ∷ (iss_sysreg 3 0 0 7 0  -- ID_AA64MMFR0_EL1
                                                            ∷ (iss_sysreg 3 0 0 7 1  -- ID_AA64MMFR1_EL1
                                                            ∷ (iss_sysreg 3 0 0 4 4  -- ID_AA64ZFR0_EL1
                                                            ∷ (iss_sysreg 3 0 0 7 2  -- ID_AA64MMFR2_EL1
                                                            ∷ [])))))))))))))))))))))))))

unfoldable pub is_case : ℕ → List ℕ → Bool
is_case k [] = false
is_case k (c ∷ cs) = (k == c) || is_case k cs

-- `iss & ~1 & ~(0x1f << 5)`
unfoldable pub register_of : ℕ → ℕ
register_of iss = bit_and (bit_and iss (2 ^ 64 - 1 - 1)) (2 ^ 64 - 1 - 0x1f * 2 ^ 5)

-- `(iss >> 5) & 0x1f`
unfoldable pub rt_of : ℕ → ℕ
rt_of iss = bit_and (iss / 2 ^ 5) 0x1f

-- `vcpu->reg.x[rt] = val`; the array has 31 entries.
unfoldable pub write_x : ℕ → ℕ → Vcpu → Outcome Vcpu
write_x rt val v = if ltb rt 31 then ok (record v { x = update v.x rt val }) else fault

unfoldable pub read_x : ℕ → Vcpu → Outcome ℕ
read_x rt v = if ltb rt 31 then ok (v.x rt) else fault

-- A virtual processor and the values written to the physical ICC_SGI1R_EL1, the newest first.
pub record Sgi : Type 0 where
  pub vcpu : Vcpu
  pub sgi1r : List ℕ

-- The loop over the targets of `vgic_inject_sgi` only reads, and the register is written.
unfoldable pub vgic_inject_sgi : ℕ → Sgi → Sgi
vgic_inject_sgi sgir s = record s { sgi1r = sgir ∷ s.sgi1r }

-- `none` is the result -1.
unfoldable pub vgic_emulate_sgi1r : ℕ → Bool → Sgi → Outcome (Option Sgi)
vgic_emulate_sgi1r rt wr s =
    let forwarded = (do sgir ← read_x rt s.vcpu; ok (some (vgic_inject_sgi sgir s))) in
    if wr then forwarded else ok none

-- `read_sysreg` gives the values of the physical registers, by their numbers in the syndrome.
unfoldable pub vsysreg_emulate : (ℕ → ℕ) → ℕ → Sgi → Outcome (Option Sgi)
vsysreg_emulate read_sysreg iss s =
    let wr = bit_and iss 1 == 0 in
    let rt = rt_of iss in
    let key = register_of iss in
    let reply = λ (val : ℕ). (do v ← write_x rt val s.vcpu; ok (some (record s { vcpu = v }))) in
    if key == iss_id_pfr0
    then (if wr then ok none else reply s.vcpu.pfr0)
    else if is_case key ro_registers
    then (if wr then ok none else reply (read_sysreg key))
    else if key == iss_icc_sgi1r
    then vgic_emulate_sgi1r rt wr s
    else ok none
