-- ===== src/Trap.antt =====
-- src/trap.c: an exception of a guest, from its syndrome to the emulation and the next instruction.
pub mod Abort
pub mod Interrupt
pub mod Host
pub mod Register
use mvmm.Base.{
  ℕ, ◌+◌, ◌-◌, ◌*◌, ◌/◌, ◌%◌, ◌^◌, bit_and, bit_or, ◌==◌, if◌then◌else◌, Bool, not, List, Option,
  none, some, Outcome, ok, panic, fault, ◌>>=◌, get_elem?,
}
use mvmm.Gic.{update}
use mvmm.Mmio.{Mmio, mmio_emulate}
use mvmm.Vcpu.{Vcpu, Vcpus, update_at}
use mvmm.Psci.{PsciCall, Firmware, VmVcpus, vpsci_emulate}
use mvmm.Sysreg.{Sgi, vsysreg_emulate}

-- The machine as the handlers see it: the virtual processors, the number of the current one, the values
-- written to ICC_SGI1R_EL1, and the rest, which only the handlers of the regions use.
pub record Machine (D : Type 0) : Type 0 where
  pub vcpus : Vcpus
  pub cur : ℕ
  pub sgi1r : List ℕ
  pub devices : D

-- `struct mmio_access`
pub record Access : Type 0 where
  pub ipa : ℕ
  pub pc : ℕ
  pub accsize : ℕ
  pub wnr : Bool

-- What a handler of a region acts on, and its result, `none` for -1.
abbrev pub Request : Type 0 → Type 0
Request D = Access × Machine D

abbrev pub Reply : Type 0 → Type 0
Reply D = Outcome (Option (Machine D))

-- The registers that describe the exception: `esr_el2`, `elr_el2`, `far_el2` and `hpfar_el2`.
pub record Syndrome : Type 0 where
  pub esr : ℕ
  pub elr : ℕ
  pub far : ℕ
  pub hpfar : ℕ

-- `(hpfar & HPFAR_FIPA_MASK) << 8 | (vaddr & (PAGESIZE-1))`
unfoldable pub faulting_ipa : ℕ → ℕ → ℕ
faulting_ipa hpfar vaddr = bit_or (bit_and hpfar 0xfffffffffff * 2 ^ 8) (bit_and vaddr (4096 - 1))

-- `1 << sas`, by the `switch`
unfoldable pub accsize_of : ℕ → ℕ
accsize_of sas = if sas == 0 then 1 else if sas == 1 then 2 else if sas == 2 then 4 else 8

module _ {D : Type 0} where
  unfoldable pub current : Machine D → Outcome Vcpu
  current g = elim (get_elem? g.vcpus.table g.cur) [ none ↦ fault | some v ↦ ok v ]

  unfoldable pub put_current : (Vcpu → Vcpu) → Machine D → Machine D
  put_current f g = record g { vcpus = record g.vcpus { table = update_at g.cur f g.vcpus.table } }

  -- `vcpu->reg.elr += 4`
  unfoldable pub skip_instruction : Machine D → Machine D
  skip_instruction g = put_current (λ v. record v { elr = (v.elr + 4) % 2 ^ 64 }) g

  -- `mmio` holds the regions of the guest; `fuel` bounds the walk over them.
  unfoldable pub vm_dabort_handler :
      ℕ → Mmio (Request D) (Reply D) → ℕ → Syndrome → Machine D → Reply D
  vm_dabort_handler fuel mmio iss y g = do
    v ← current g
    let ipa = faulting_ipa y.hpfar y.far
    let wnr = not (bit_and (iss / 2 ^ 6) 1 == 0)
    let access : Access = record {
      ipa = ipa;
      pc = y.elr;
      accsize = accsize_of (bit_and (iss / 2 ^ 22) 3);
      wnr = wnr;
    }
    let emulated = (do
      reply ← mmio_emulate fuel (ok none) mmio v.x (bit_and (iss / 2 ^ 16) 0x1f) wnr ipa (access, g)
      reply)
    if bit_and (iss / 2 ^ 10) 1 == 0 then emulated else panic

  -- Where a handler returns -1 the caller panics.
  unfoldable pub expect : Reply D → Outcome (Machine D)
  expect r = do reply ← r; elim reply [ none ↦ panic | some g ↦ ok g ]

  unfoldable pub emulate_sysreg : (ℕ → ℕ) → ℕ → Machine D → Reply D
  emulate_sysreg read_sysreg iss g = do
    v ← current g
    reply ← vsysreg_emulate read_sysreg iss (record { vcpu = v; sgi1r = g.sgi1r })
    ok (elim reply [
      | none ↦ none
      | some s ↦ some (put_current (λ u. s.vcpu) (record g { sgi1r = s.sgi1r }))
    ])

  module _ (psci_call : Firmware) (start : ℕ) (vm : VmVcpus) where
    -- `undefined` is what a call that ends without `return` leaves as its result.
    unfoldable pub vpsci_handler : ℕ → Machine D → Outcome (Machine D)
    vpsci_handler undefined g = do
      v ← current g
      let call : PsciCall = record { funcid = v.x 0 % 2 ^ 32; x1 = v.x 1; x2 = v.x 2; x3 = v.x 3 }
      (ret, s) ← vpsci_emulate psci_call start vm call g.vcpus
      let result : ℕ = elim ret [ none ↦ undefined | some r ↦ r ]
      ok (put_current (λ u. record u { x = update u.x 0 result }) (record g { vcpus = s }))

    -- `none` is the result -1.
    unfoldable pub hvc_handler : ℕ → ℕ → Machine D → Reply D
    hvc_handler undefined imm g =
        let call = (do g' ← vpsci_handler undefined g; ok (some g')) in
        if imm == 0 then call else ok none

    unfoldable pub vm_sync_handler :
        ℕ → (ℕ → ℕ) → ℕ → Mmio (Request D) (Reply D) → Syndrome → Machine D → Outcome (Machine D)
    vm_sync_handler undefined read_sysreg fuel mmio y g =
        let ec = bit_and (y.esr / 2 ^ 26) 0x3f in
        let iss = bit_and y.esr 0x1ffffff in
        let hvc = expect (hvc_handler undefined iss g) in
        let sysreg = (do
          g' ← expect (emulate_sysreg read_sysreg iss g)
          ok (skip_instruction g')) in
        let dabort = (do
          g' ← expect (vm_dabort_handler fuel mmio iss y g)
          ok (skip_instruction g')) in
        if ec == 0x1
        then ok (skip_instruction g)
        else if ec == 0x16
        then hvc
        else if ec == 0x17
        then hvc
        else if ec == 0x18
        then sysreg
        else if ec == 0x24
        then dabort
        else panic
