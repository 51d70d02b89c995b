-- ===== src/Spinlock/Race/Safety.antt =====
-- Who has the lock: an invariant of every interleaving.
use mvmm.Base.{
  write_at, ℕ, ◌≡◌, ◌≢◌, Bool, true, false, Bool-cases, Option-cases, inl, inr, none, arith, refl,
  sym, ap, ◌∙◌,
}
use mvmm.Spinlock.{Spinlock, spinlock_init, held_by}
use mvmm.Spinlock.Race.{
  Pc, outside, test_lock, test_cpuid, loading, storing, inside, check_lock, check_cpuid, clearing,
  again_lock, again_cpuid, stray_lock, stray_cpuid, panicked, stopped_inside, stopped_outside,
  System, Move, call_acquire, lock_free, lock_busy, cpuid_other, cpuid_self, load_busy, load_free,
  store_fails, store_succeeds, set_cpuid, call_release, check_free, check_busy, check_other,
  check_self, clear_cpuid, unlock, call_again, again_free, again_busy, again_other, again_self,
  call_astray, stray_free, stray_busy, stray_other, stray_self, pick, Reach, at_start, later,
}
use mvmm.Spinlock.Race.Holder.{holds, is_named, Inv, lock_eq, win, name, clear, give, calm, listen}

-- Every access keeps the invariant.
Move-Inv :
    {i : ℕ} {lk lk' : Spinlock} {mon mon' : ℕ → Bool} {pc : ℕ → Pc} {p q : Pc}
    → Move i lk mon p lk' mon' q
    → pc i ≡ p
    → Inv lk mon pc
    → Inv lk' mon' (write_at pc i q)
Move-Inv {i} call_acquire at inv = calm i test_lock at inv refl refl (λ h. cc) (λ h. cc)
Move-Inv {i} (lock_free e) at inv = calm i loading at inv refl refl (λ h. cc) (λ h. cc)
Move-Inv {i} (lock_busy e) at inv = calm i test_cpuid at inv refl refl (λ h. cc) (λ h. cc)
Move-Inv {i} (cpuid_other ne) at inv = calm i loading at inv refl refl (λ h. cc) (λ h. cc)
Move-Inv {i} (cpuid_self e) at inv = absurd (ground (arith, inv.owner i e, ap is_named at))
Move-Inv {i} (load_busy e) at inv = listen i loading at inv true refl refl (λ h. cc) (λ h k. cc)
Move-Inv {i} (load_free e) at inv = listen i storing at inv true refl refl (λ h. cc) (λ h k. e)
Move-Inv {i} store_fails at inv = listen i loading at inv false refl refl (λ h. cc) (λ h k. cc)
Move-Inv {i} (store_succeeds set) at inv = win i inv set at
Move-Inv {i} set_cpuid at inv = name i inv at
Move-Inv {i} call_release at inv = calm i check_lock at inv refl refl (λ h. cc) (λ h. cc)
Move-Inv {i} (check_free e) at inv = absurd (ground (arith, inv.taken i, ap holds at))
Move-Inv {i} (check_busy e) at inv = calm i check_cpuid at inv refl refl (λ h. cc) (λ h. cc)
Move-Inv {i} (check_other ne) at inv = absurd (ne (inv.named i (ap is_named at)))
Move-Inv {i} (check_self e) at inv = calm i clearing at inv refl refl (λ h. cc) (λ h. cc)
Move-Inv {i} clear_cpuid at inv = clear i inv at
Move-Inv {i} unlock at inv = give i inv at
Move-Inv {i} call_again at inv = calm i again_lock at inv refl refl (λ h. cc) (λ h. cc)
Move-Inv {i} (again_free e) at inv = absurd (ground (arith, inv.taken i, ap holds at))
Move-Inv {i} (again_busy e) at inv = calm i again_cpuid at inv refl refl (λ h. cc) (λ h. cc)
Move-Inv {i} (again_other ne) at inv = absurd (ne (inv.named i (ap is_named at)))
Move-Inv {i} (again_self e) at inv = calm i stopped_inside at inv refl refl (λ h. cc) (λ h. cc)
Move-Inv {i} call_astray at inv = calm i stray_lock at inv refl refl (λ h. cc) (λ h. cc)
Move-Inv {i} (stray_free e) at inv = calm i stopped_outside at inv refl refl (λ h. cc) (λ h. cc)
Move-Inv {i} (stray_busy e) at inv = calm i stray_cpuid at inv refl refl (λ h. cc) (λ h. cc)
Move-Inv {i} (stray_other ne) at inv = calm i stopped_outside at inv refl refl (λ h. cc) (λ h. cc)
Move-Inv {i} (stray_self e) at inv = absurd (ground (arith, inv.owner i e, ap is_named at))

Reach-Inv : {s : System} → Reach s → Inv s.lk s.monitor s.pc
Reach-Inv at_start = record {
  safe = λ i. λ h. cc;
  exclusive = λ i j h k. cc;
  taken = λ i h. cc;
  holder = λ h. cc;
  named = λ i h. cc;
  owner = λ i h. cc;
  free = λ i h k. cc;
}
Reach-Inv (later r (pick i mv)) = Move-Inv mv refl (Reach-Inv r)

inside_or_stopped : inside ≢ stopped_inside
inside_or_stopped e = cc

module _ {lk : Spinlock} {mon : ℕ → Bool} {pc : ℕ → Pc} (inv : Inv lk mon pc)
    (h : (i : ℕ) → pc i ≡ outside) where
  cpuid_at_rest : lk.cpuid ≡ none
  cpuid_at_rest = elim (Option-cases lk.cpuid) [
    | inl e ↦ e
    | inr (i, e) ↦ absurd (ground (arith, inv.owner i e, ap is_named (h i)))
  ]

  unlocked_at_rest : lk.locked ≡ false
  unlocked_at_rest = elim (Bool-cases lk.locked) [
    | inl e ↦ let (i, has) = inv.holder e in absurd (ground (arith, has, ap holds (h i)))
    | inr e ↦ e
  ]

-- In whatever order the processors access the lock, and whether or not they have it when they call `acquire`
-- and `release`: the assertion fails in no call of `acquire` by a processor without the lock and in no
-- call of `release` by one with it. At most one processor is inside, and while one is, the lock is as
-- `acquire` of that processor alone leaves it. While all are outside, it is as after `spinlock_init`. A processor
-- that called `acquire` with the lock and was stopped by the assertion keeps the lock, with no other inside.
pub mutual_exclusion :
    {s : System}
    → Reach s
    → ((i : ℕ) → s.pc i ≢ panicked)
      × ((i j : ℕ) → s.pc i ≡ inside → s.pc j ≡ inside → i ≡ j)
      × ((i : ℕ) → s.pc i ≡ inside → s.lk ≡ held_by i)
      × (((i : ℕ) → s.pc i ≡ outside) → s.lk ≡ spinlock_init)
      × ((i : ℕ) → s.pc i ≡ stopped_inside → (s.lk ≡ held_by i) × ((j : ℕ) → s.pc j ≢ inside))
mutual_exclusion {s} r =
    let inv = Reach-Inv r in
    (
      inv.safe,
      λ i j h k. inv.exclusive i j (ap holds h) (ap holds k),
      λ i h. lock_eq (inv.named i (ap is_named h)) (inv.taken i (ap holds h)),
      λ h. lock_eq (cpuid_at_rest inv h) (unlocked_at_rest inv h),
      λ i h. (
        lock_eq (inv.named i (ap is_named h)) (inv.taken i (ap holds h)),
        λ j k.
            let e : i ≡ j = inv.exclusive i j (ap holds h) (ap holds k) in
            inside_or_stopped (sym k ∙ ap s.pc (sym e) ∙ h),
      ),
    )
