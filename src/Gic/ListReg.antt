-- ===== src/Gic/ListReg.antt =====
-- The word that `gic_make_lr` builds, and saving and restoring the list registers.
use mvmm.Base.{
  ℕ, zero, suc, ◌+◌, ◌*◌, ◌/◌, ◌%◌, ◌^◌, ◌<◌, ◌≤◌, ◌≡◌, bit_or, false, arith, if◌then◌else◌, refl,
  ◌∙◌, ap, ltb, ltb-true,
}
use mvmm.Base.Bits.{bit_or-shift, bit_and-mask, bit_and-one}
use mvmm.Gic.{
  Interface, GicState, update, lr_state, lr_pending, gic_make_lr, lr_is_inactive, fall_through,
  copy_lr, gic_restore_lr, gic_save_lr, gic_restore_state, gic_save_state,
}

pub gic_make_lr_lem :
    (pirq virq grp : ℕ)
    → gic_make_lr pirq virq grp
      ≡ 3 * 2 ^ 61 + grp % 2 * 2 ^ 60 + pirq % 1024 * 2 ^ 32 + virq % 2 ^ 32
unfolding gic_make_lr
gic_make_lr_lem pirq virq grp =
    let g : ℕ = grp % 2 in
    let p : ℕ = pirq % 1024 in
    let v : ℕ = virq % 2 ^ 32 in
    rw (bit_and-one grp, bit_and-mask 10 pirq, bit_and-mask 32 virq)
      (ap (λ (x : ℕ). bit_or (bit_or x (p * 2 ^ 32)) v)
          (bit_or-shift 61 3 (g * 2 ^ 60) (omega arith)
            ∙ (let e : 3 * 2 ^ 61 + g * 2 ^ 60 ≡ (6 + g) * 2 ^ 60 = omega arith in e))
        ∙ ap (λ (x : ℕ). bit_or x v)
            (bit_or-shift 60 (6 + g) (p * 2 ^ 32) (omega arith)
              ∙ (let e : (6 + g) * 2 ^ 60 + p * 2 ^ 32 ≡ ((6 + g) * 2 ^ 28 + p) * 2 ^ 32 =
                    omega arith in
                  e))
        ∙ bit_or-shift 32 ((6 + g) * 2 ^ 28 + p) v (omega arith)
        ∙ omega arith)

-- For a physical number below 1024, a virtual one below 2^32 and a group below 2, the fields of a list
-- register read back what `gic_make_lr` was given: pending, for a hardware
-- interrupt, with the group, the physical and the virtual number; and the register is not inactive.
pub gic_make_lr_fields :
    (pirq virq grp : ℕ)
    → pirq < 1024
    → virq < 2 ^ 32
    → grp < 2
    → let lr = gic_make_lr pirq virq grp in
      (lr_state lr ≡ lr_pending)
      × (lr / 2 ^ 61 % 2 ≡ 1)
      × (lr / 2 ^ 60 % 2 ≡ grp)
      × (lr / 2 ^ 32 % 1024 ≡ pirq)
      × (lr % 2 ^ 32 ≡ virq)
      × (lr_is_inactive lr ≡ false)
unfolding lr_is_inactive
gic_make_lr_fields pirq virq grp hp hv hg =
    let word = gic_make_lr_lem pirq virq grp in
    let state : lr_state (gic_make_lr pirq virq grp) ≡ 1 =
      omega (arith, bit_and-mask 2 (gic_make_lr pirq virq grp / 2 ^ 62)) in
    (state, omega arith, omega arith, omega arith, omega arith, rw state refl)

fall_through_lem :
    (n k : ℕ) (from to : ℕ → ℕ)
    → fall_through n from to k ≡ (if ltb k (suc n) then from k else to k)
unfolding fall_through
fall_through_lem zero k from to = ground arith
fall_through_lem (suc n) k from to =
    ground (arith, fall_through_lem n k from (update to (suc n) (from (suc n))))

copy_lr_lem :
    (lr_max k : ℕ) (from to : ℕ → ℕ)
    → lr_max < 17
    → copy_lr lr_max from to k ≡ (if ltb k lr_max then from k else to k)
unfolding copy_lr
copy_lr_lem zero k from to h = ground arith
copy_lr_lem (suc n) k from to h =
    rw (ltb-true {a = n} {b = 16} (omega arith)) (fall_through_lem n k from to)

-- With at most 16 list registers, what `gic_save_state` took from the interface, `gic_restore_state` puts
-- back, whatever the interface holds by then: every list register in use and VMCR; the other list registers
-- stay. ICC_SRE_EL1 becomes the OR of the low 32 bits of what it held and of what was saved: bits that were
-- set in between stay set, and the upper half is lost.
pub save-restore :
    (lr_max : ℕ) (gic : GicState) (before after : Interface)
    → lr_max < 17
    → let back = gic_restore_state lr_max (gic_save_state lr_max gic before) after in
      ((k : ℕ) → k < lr_max → back.lr k ≡ before.lr k)
      × ((k : ℕ) → lr_max ≤ k → back.lr k ≡ after.lr k)
      × (back.vmcr ≡ before.vmcr)
      × (back.sre_el1 ≡ bit_or (after.sre_el1 % 2 ^ 32) (before.sre_el1 % 2 ^ 32))
unfolding gic_restore_state gic_save_state gic_restore_lr gic_save_lr
save-restore lr_max gic before after h = (
  λ k lt. ground (
    arith,
    copy_lr_lem lr_max k (copy_lr lr_max before.lr gic.lr) after.lr h,
    copy_lr_lem lr_max k before.lr gic.lr h,
  ),
  λ k le. ground (arith, copy_lr_lem lr_max k (copy_lr lr_max before.lr gic.lr) after.lr h),
  refl,
  refl,
)
