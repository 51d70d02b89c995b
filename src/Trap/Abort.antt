-- ===== src/Trap/Abort.antt =====
-- A data abort of a guest: the fields of the syndrome, the address, and the region that answers.
use mvmm.Base.{
  ℕ, zero, suc, ◌*◌, ◌/◌, ◌%◌, ◌^◌, ◌<◌, ◌≤◌, ◌≡◌, bit_and, bit_or, ◌==◌, if◌then◌else◌, not, List,
  length, none, some, ok, panic, fault, spin, ◌>>=◌, arith, refl, ap, ap₂, ◌∙◌,
}
use mvmm.Base.Bits.{bit_and-mask, bit_and-one, bit_or-shift}
use mvmm.Mmio.{Info, Mmio}
use mvmm.Mmio.Dispatch.{Regions, dispatch, mmio_emulate-dispatch}
use mvmm.Vcpu.{Vcpu}
use mvmm.Psci.{Firmware, VmVcpus}
use mvmm.Trap.{
  Machine, Access, Request, Reply, Syndrome, faulting_ipa, accsize_of, current, skip_instruction,
  vm_dabort_handler, expect, vm_sync_handler,
}

-- The page number stands from bit 4 of `hpfar_el2` on, the offset in the page in `far_el2`.
faulting_ipa_lem :
    (hpfar far ipa : ℕ)
    → ipa < 2 ^ 52
    → hpfar % 2 ^ 44 ≡ ipa / 4096 * 16
    → far % 4096 ≡ ipa % 4096
    → faulting_ipa hpfar far ≡ ipa
unfolding faulting_ipa
faulting_ipa_lem hpfar far ipa lt e e' =
    ap₂ bit_or
      (ap (λ (t : ℕ). t * 2 ^ 8) (bit_and-mask 44 hpfar ∙ e)
        ∙ (let shift : ipa / 4096 * 16 * 2 ^ 8 ≡ ipa / 4096 * 2 ^ 12 = omega arith in shift))
      (bit_and-mask 12 far ∙ e')
    ∙ bit_or-shift 12 (ipa / 4096) (ipa % 4096) (omega arith)
    ∙ omega arith

accsize-pow : (sas : ℕ) → sas < 4 → accsize_of sas ≡ 2 ^ sas
unfolding accsize_of
accsize-pow zero lt = refl
accsize-pow (suc zero) lt = refl
accsize-pow (suc (suc zero)) lt = refl
accsize-pow (suc (suc (suc zero))) lt = refl
accsize-pow (suc (suc (suc (suc sas)))) lt = absurd (omega arith)

-- The access that a syndrome describes, and its register.
abbrev pub access_of : Syndrome → ℕ → Access
access_of y ipa = record {
  ipa = ipa;
  pc = y.elr;
  accsize = 2 ^ (y.esr / 2 ^ 22 % 4);
  wnr = not (y.esr / 2 ^ 6 % 2 == 0);
}

abbrev pub register_of : Syndrome → ℕ
register_of y = y.esr / 2 ^ 16 % 32

-- An abort of a guest at the address `ipa`, with a valid `far_el2`.
pub record IsAbort (y : Syndrome) (ipa : ℕ) : Type 0 where
  pub class : y.esr / 2 ^ 26 % 64 ≡ 0x24
  pub far_valid : y.esr / 2 ^ 10 % 2 ≡ 0
  pub room : ipa < 2 ^ 52
  pub page : y.hpfar % 2 ^ 44 ≡ ipa / 4096 * 16
  pub offset : y.far % 4096 ≡ ipa % 4096

module _ {D : Type 0} where
  -- The answer of the first region that covers the address.
  abbrev pub answer : List (Info (Request D) (Reply D)) → Syndrome → ℕ → Vcpu → Machine D → Reply D
  answer ms y ipa v g =
      let rn = register_of y in
      dispatch (ok none) ms (not (y.esr / 2 ^ 6 % 2 == 0)) ipa (if rn == 31 then none else some rn)
        (if rn == 31 then 0 else v.x rn) (access_of y ipa, g)

  vm_dabort_handler-answer :
      (fuel : ℕ) (mmio : Mmio (Request D) (Reply D)) (ms : List (Info (Request D) (Reply D)))
      (y : Syndrome) (ipa iss : ℕ) (v : Vcpu) (g : Machine D)
      → IsAbort y ipa
      → iss ≡ y.esr % 2 ^ 25
      → current g ≡ ok v
      → Regions mmio.infos mmio.pmap ms
      → length ms ≤ fuel
      → vm_dabort_handler fuel mmio iss y g ≡ answer ms y ipa v g
  unfolding vm_dabort_handler
  vm_dabort_handler-answer fuel mmio ms y ipa iss v g h e at regions le =
      let wnr : bit_and (iss / 2 ^ 6) 1 ≡ y.esr / 2 ^ 6 % 2 =
        bit_and-one (iss / 2 ^ 6) ∙ omega arith in
      let fnv : bit_and (iss / 2 ^ 10) 1 ≡ 0 =
        bit_and-one (iss / 2 ^ 10) ∙ omega (arith, h.far_valid) in
      let sas : bit_and (iss / 2 ^ 22) 3 ≡ y.esr / 2 ^ 22 % 4 =
        bit_and-mask 2 (iss / 2 ^ 22) ∙ omega arith in
      let rn : bit_and (iss / 2 ^ 16) 0x1f ≡ register_of y =
        bit_and-mask 5 (iss / 2 ^ 16) ∙ omega arith in
      let ipa_eq = faulting_ipa_lem y.hpfar y.far ipa h.room h.page h.offset in
      let run =
        mmio_emulate-dispatch fuel (ok none) mmio ms v.x (register_of y)
          (not (y.esr / 2 ^ 6 % 2 == 0)) ipa (access_of y ipa, g) regions le in
      rw (at, ipa_eq, wnr, fnv, sas, rn, accsize-pow (y.esr / 2 ^ 22 % 4) (omega arith), run) refl

  resumed :
      (r : Reply D)
      → (expect r >>= (λ g'. ok (skip_instruction g')))
        ≡ (r >>= (λ reply. elim reply [ none ↦ panic | some g' ↦ ok (skip_instruction g') ]))
  unfolding expect
  resumed panic = refl
  resumed fault = refl
  resumed spin = refl
  resumed (ok none) = refl
  resumed (ok (some g')) = refl

  -- An abort of a guest with a valid `far_el2` reaches the region that covers the address, with the
  -- direction, the size, the register and the value of the access that the syndrome describes; if the
  -- handler succeeds, the guest goes on at the next instruction, and if it or the search for a region
  -- fails, the hypervisor panics.
  pub vm_sync_handler-dabort :
      (psci_call : Firmware) (start : ℕ) (vm : VmVcpus) (undefined : ℕ) (read_sysreg : ℕ → ℕ)
      (fuel : ℕ) (mmio : Mmio (Request D) (Reply D)) (ms : List (Info (Request D) (Reply D)))
      (y : Syndrome) (ipa : ℕ) (v : Vcpu) (g : Machine D)
      → IsAbort y ipa
      → current g ≡ ok v
      → Regions mmio.infos mmio.pmap ms
      → length ms ≤ fuel
      → vm_sync_handler psci_call start vm undefined read_sysreg fuel mmio y g ≡ (
          answer ms y ipa v g
          >>= (λ r. elim r [ none ↦ panic | some g' ↦ ok (skip_instruction g') ]))
  unfolding vm_sync_handler expect
  vm_sync_handler-dabort psci_call start vm undefined read_sysreg fuel mmio ms y ipa v g h at
        regions le =
      let ec : bit_and (y.esr / 2 ^ 26) 0x3f ≡ 0x24 = bit_and-mask 6 (y.esr / 2 ^ 26) ∙ h.class in
      let run =
        vm_dabort_handler-answer fuel mmio ms y ipa (bit_and y.esr 0x1ffffff) v g h
          (bit_and-mask 25 y.esr) at regions le in
      rw (ec, run) (resumed (answer ms y ipa v g))
