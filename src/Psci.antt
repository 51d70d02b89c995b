-- ===== src/Psci.antt =====
-- src/vpsci.c and include/psci.h: the power calls of a guest.
pub mod CpuOn
use mvmm.Base.{
  ℕ, ◌+◌, ◌-◌, ◌%◌, ◌^◌, ◌==◌, ltb, if◌then◌else◌, List, Option, none, some, Outcome, ok, panic,
  fault, get_elem?, ◌>>=◌,
}
use mvmm.Vcpu.{Vcpu, Vcpus, update_at, vcpu_ready}

-- `struct vpsci`
pub record PsciCall : Type 0 where
  pub funcid : ℕ
  pub x1 : ℕ
  pub x2 : ℕ
  pub x3 : ℕ

abbrev pub psci_version : ℕ
psci_version = 0x84000000

abbrev pub psci_migrate_info_type : ℕ
psci_migrate_info_type = 0x84000006

abbrev pub psci_system_off : ℕ
psci_system_off = 0x84000008

abbrev pub psci_system_reset : ℕ
psci_system_reset = 0x84000009

abbrev pub psci_system_cpuon : ℕ
psci_system_cpuon = 0xc4000003

-- The low 32 bits as an `i32`, in an `i64`.
abbrev pub sign_extend : ℕ → ℕ
sign_extend r = let w = r % 2 ^ 32 in if ltb w (2 ^ 31) then w else w + (2 ^ 64 - 2 ^ 32)

-- `psci_call`, the call of the firmware: function, processor, entry and context.
abbrev pub Firmware : Type 0
Firmware = ℕ → ℕ → ℕ → ℕ → ℕ

-- `nvcpu` and `vcpus` of the virtual machine; an entry is a place in the table of all.
pub record VmVcpus : Type 0 where
  pub nvcpu : ℕ
  pub vcpus : List ℕ

module _ (psci_call : Firmware) (start : ℕ) where
  -- `start` is the address of `_start`.
  unfoldable pub vpsci_cpu_on : VmVcpus → PsciCall → Vcpus → Outcome (ℕ × Vcpus)
  vpsci_cpu_on vm c s =
      if ltb c.x1 vm.nvcpu
      then (elim (get_elem? vm.vcpus c.x1) [
        | none ↦ fault
        | some n ↦
            let entered = record s { table = update_at n (λ v. record v { elr = c.x2 }) s.table } in
            ok (psci_call psci_system_cpuon c.x1 start 0 % 2 ^ 32, vcpu_ready n entered)
      ])
      else ok (2 ^ 32 - 1, s)

  -- `none` is the value of a function that ends without `return`.
  unfoldable pub vpsci_emulate : VmVcpus → PsciCall → Vcpus → Outcome (Option ℕ × Vcpus)
  vpsci_emulate vm c s =
      if c.funcid == psci_version
      then ok (some (psci_call psci_version 0 0 0 % 2 ^ 32), s)
      else if c.funcid == psci_migrate_info_type
      then ok (some (sign_extend (psci_call psci_migrate_info_type 0 0 0)), s)
      else if c.funcid == psci_system_off
      then ok (none, s)
      else if c.funcid == psci_system_reset
      then ok (none, s)
      else if c.funcid == psci_system_cpuon
      then (do (r, s') ← vpsci_cpu_on vm c s; ok (some (sign_extend r), s'))
      else panic
