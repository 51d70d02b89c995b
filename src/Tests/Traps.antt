-- ===== src/Tests/Traps.antt =====
-- Exceptions of a guest with one virtual processor and one emulated register, at 0x09000010.
use mvmm.Base.{ℕ, ◌+◌, ◌*◌, ◌^◌, ◌≡◌, ◌>>=◌, ok, panic, some, none, [], ◌∷◌, arith, refl}
use mvmm.Spinlock.{spinlock_init}
use mvmm.Mmio.{Info, Mmio}
use mvmm.Tests.Processors.{blank_vcpu, one_vcpu, one_vm, echo}
use mvmm.Sysreg.Fields.{access, IsAccess}
use mvmm.Trap.{
  Machine, Request, Reply, Syndrome, current, put_current, skip_instruction, vm_sync_handler,
}
use mvmm.Trap.Abort.{IsAbort, answer, vm_sync_handler-dabort}
use mvmm.Trap.Register.{advance, vm_sync_handler-sysreg}

-- A write keeps the value in the device.
abbrev keep : Info (Request ℕ) (Reply ℕ)
keep = record {
  next = none;
  base = 0x09000000;
  size = 0x1000;
  read = none;
  write = some (λ offset val request. ok (some (record request.1 { devices = val })));
}

abbrev keeping : Mmio (Request ℕ) (Reply ℕ)
keeping = record {
  infos = keep ∷ [];
  mi_lock = spinlock_init;
  pmap = some 0;
  vm_lock = spinlock_init;
}

abbrev machine : Machine ℕ
machine = record { vcpus = one_vcpu; cur = 1; sgi1r = []; devices = 5 }

machine-current : current machine ≡ ok blank_vcpu
unfolding current
machine-current = refl

-- `str w3, [x]` at 0x09000010.
abbrev store_word : Syndrome
store_word = record {
  esr = 0x24 * 2 ^ 26 + 2 ^ 24 + 2 * 2 ^ 22 + 3 * 2 ^ 16 + 2 ^ 6;
  elr = 0x40200000;
  far = 0xffff000009000010;
  hpfar = 0x90000;
}

store_word-IsAbort : IsAbort store_word 0x09000010
store_word-IsAbort = record {
  class = refl;
  far_valid = refl;
  room = omega arith;
  page = refl;
  offset = refl;
}

vm_sync_handler-dabort_example :
    vm_sync_handler echo 0x40000000 one_vm 0 (λ r. r) 1 keeping store_word machine ≡ (
      answer (keep ∷ []) store_word 0x09000010 blank_vcpu machine
      >>= (λ r. elim r [ none ↦ panic | some g' ↦ ok (skip_instruction g') ]))
vm_sync_handler-dabort_example =
    vm_sync_handler-dabort echo 0x40000000 one_vm 0 (λ r. r) 1 keeping (keep ∷ []) store_word
      0x09000010 blank_vcpu machine store_word-IsAbort machine-current
      (0, refl, refl, omega arith, refl) (omega arith)

-- `mrs x7, id_isar5_el1`.
abbrev read_isar5 : Syndrome
read_isar5 = record {
  esr = 0x18 * 2 ^ 26 + 2 ^ 25 + 3 * 2 ^ 20 + 5 * 2 ^ 17 + 2 * 2 + 7 * 2 ^ 5 + 1;
  elr = 0x40200000;
  far = 0;
  hpfar = 0;
}

read_isar5-IsAccess : IsAccess 3 0 0 2 5 7 1
read_isar5-IsAccess = record {
  op0-lt = omega arith;
  op1-lt = omega arith;
  crn-lt = omega arith;
  crm-lt = omega arith;
  op2-lt = omega arith;
  rt-lt = omega arith;
  dir-lt = omega arith;
}

vm_sync_handler-sysreg_example :
    vm_sync_handler echo 0x40000000 one_vm 0 (λ r. r) 1 keeping read_isar5 machine
    ≡ elim (access (λ r. r) 3 0 0 2 5 7 1 (record { vcpu = blank_vcpu; sgi1r = [] })) [
      | none ↦ panic
      | some s ↦ ok (put_current (λ u. advance s.vcpu) (record machine { sgi1r = s.sgi1r }))
    ]
vm_sync_handler-sysreg_example =
    vm_sync_handler-sysreg echo 0x40000000 one_vm 0 (λ r. r) 1 keeping read_isar5 3 0 0 2 5 7 1
      blank_vcpu machine refl refl read_isar5-IsAccess machine-current
