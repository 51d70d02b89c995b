-- ===== src/Trap/Register.antt =====
-- A trapped access to a system register, from the syndrome to the guest's next instruction.
use mvmm.Base.{
  ℕ, zero, suc, ◌+◌, ◌/◌, ◌%◌, ◌^◌, ◌≡◌, bit_and, List, [], ◌∷◌, Option, none, some, Outcome, ok,
  panic, ◌>>=◌, refl, ap, ◌∙◌,
}
use mvmm.Base.Bits.{bit_and-mask}
use mvmm.Mmio.{Mmio}
use mvmm.Vcpu.{Vcpu, update_at}
use mvmm.Psci.{Firmware, VmVcpus}
use mvmm.Sysreg.{Sgi}
use mvmm.Sysreg.Fields.{IsAccess, access, number, syndrome, vsysreg_emulate-access}
use mvmm.Trap.{
  Machine, Request, Reply, Syndrome, current, put_current, skip_instruction, emulate_sysreg, expect,
  vm_sync_handler,
}

update_at_twice :
    {A : Type 0} (n : ℕ) (f g : A → A) (l : List A)
    → update_at n f (update_at n g l) ≡ update_at n (λ a. f (g a)) l
unfolding update_at
update_at_twice n f g [] = refl
update_at_twice zero f g (a ∷ l) = refl
update_at_twice (suc n) f g (a ∷ l) = ap (λ (t : List _). a ∷ t) (update_at_twice n f g l)

-- At the next instruction.
abbrev pub advance : Vcpu → Vcpu
advance v = record v { elr = (v.elr + 4) % 2 ^ 64 }

module _ {D : Type 0} where
  skip-put :
      (u : Vcpu) (g : Machine D)
      → skip_instruction (put_current (λ v. u) g) ≡ put_current (λ v. advance u) g
  unfolding skip_instruction put_current
  skip-put u g =
      ap (λ (l : List Vcpu). record g { vcpus = record g.vcpus { table = l } })
        (update_at_twice g.cur advance (λ v. u) g.vcpus.table)

  resumed :
      (r : Option Sgi) (g : Machine D)
      → (expect (
            ok (elim r as (λ x. Option (Machine D)) [
              | none ↦ none
              | some s ↦ some (put_current (λ u. s.vcpu) (record g { sgi1r = s.sgi1r }))
            ]))
          >>= (λ g'. ok (skip_instruction g')))
        ≡ elim r as (λ x. Outcome (Machine D)) [
          | none ↦ panic
          | some s ↦ ok (put_current (λ u. advance s.vcpu) (record g { sgi1r = s.sgi1r }))
        ]
  unfolding expect
  resumed none g = refl
  resumed (some s) g = ap ok (skip-put s.vcpu (record g { sgi1r = s.sgi1r }))

  -- A trapped access of a guest to a system register, with a general register other than 31: where the
  -- access is emulated, it changes the current virtual processor and the writes of ICC_SGI1R_EL1 as
  -- `access` says, and the guest goes on at the next instruction; where it is refused, the hypervisor panics.
  pub vm_sync_handler-sysreg :
      (psci_call : Firmware) (start : ℕ) (vm : VmVcpus) (undefined : ℕ) (read_sysreg : ℕ → ℕ)
      (fuel : ℕ) (mmio : Mmio (Request D) (Reply D)) (y : Syndrome) (op0 op1 crn crm op2 rt dir : ℕ)
      (v : Vcpu) (g : Machine D)
      → y.esr / 2 ^ 26 % 64 ≡ 0x18
      → y.esr % 2 ^ 25 ≡ syndrome (number op0 op1 crn crm op2) rt dir
      → IsAccess op0 op1 crn crm op2 rt dir
      → current g ≡ ok v
      → vm_sync_handler psci_call start vm undefined read_sysreg fuel mmio y g
        ≡ elim (access read_sysreg op0 op1 crn crm op2 rt dir
            (record { vcpu = v; sgi1r = g.sgi1r })) [
              | none ↦ panic
              | some s ↦ ok (put_current (λ u. advance s.vcpu) (record g { sgi1r = s.sgi1r }))
            ]
  unfolding vm_sync_handler expect emulate_sysreg
  vm_sync_handler-sysreg psci_call start vm undefined read_sysreg fuel mmio y op0 op1 crn crm op2 rt
        dir v g class iss h at =
      let ec : bit_and (y.esr / 2 ^ 26) 0x3f ≡ 0x18 = bit_and-mask 6 (y.esr / 2 ^ 26) ∙ class in
      let iss' : bit_and y.esr 0x1ffffff ≡ syndrome (number op0 op1 crn crm op2) rt dir =
        bit_and-mask 25 y.esr ∙ iss in
      let s : Sgi = record { vcpu = v; sgi1r = g.sgi1r } in
      rw (ec, iss', at, vsysreg_emulate-access op0 op1 crn crm op2 rt dir h read_sysreg s)
        (resumed (access read_sysreg op0 op1 crn crm op2 rt dir s) g)
