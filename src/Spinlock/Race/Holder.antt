-- ===== src/Spinlock/Race/Holder.antt =====
-- Who has the lock: the invariant, and what a move needs to leave it in place.
use mvmm.Base.{
  write_at, ◌==◌, eq_of_==, ℕ, ◌≡◌, ◌≢◌, Bool, true, false, Bool-cases, inl, inr, Option, none,
  some, arith, refl, sym, ap, ◌∙◌,
}
use mvmm.Spinlock.{Spinlock}
use mvmm.Spinlock.Race.{
  Pc, outside, test_lock, test_cpuid, loading, storing, naming, inside, check_lock, check_cpuid,
  clearing, unlocking, again_lock, again_cpuid, stray_lock, stray_cpuid, panicked, stopped_inside,
  stopped_outside, opened,
}

-- The processor has the lock.
abbrev pub holds : Pc → Bool
holds outside = false
holds test_lock = false
holds test_cpuid = false
holds loading = false
holds storing = false
holds panicked = false
holds naming = true
holds inside = true
holds check_lock = true
holds check_cpuid = true
holds clearing = true
holds unlocking = true
holds again_lock = true
holds again_cpuid = true
holds stopped_inside = true
holds stray_lock = false
holds stray_cpuid = false
holds stopped_outside = false

-- The processor has the lock and its number stands in it.
abbrev pub is_named : Pc → Bool
is_named outside = false
is_named test_lock = false
is_named test_cpuid = false
is_named loading = false
is_named storing = false
is_named panicked = false
is_named naming = false
is_named unlocking = false
is_named inside = true
is_named check_lock = true
is_named check_cpuid = true
is_named clearing = true
is_named again_lock = true
is_named again_cpuid = true
is_named stopped_inside = true
is_named stray_lock = false
is_named stray_cpuid = false
is_named stopped_outside = false

named_holds : (p : Pc) → is_named p ≡ true → holds p ≡ true
named_holds p h = elim p [ outside ↦ ground arith | _ ↦ ground arith ]

pub lock_eq :
    {lk : Spinlock} {c : Option ℕ} {b : Bool}
    → lk.cpuid ≡ c
    → lk.locked ≡ b
    → lk ≡ record { cpuid = c; locked = b }
lock_eq e e' = λ i. record { cpuid = e i; locked = e' i }

pub record Inv (lk : Spinlock) (mon : ℕ → Bool) (pc : ℕ → Pc) : Type 0 where
  pub safe : (i : ℕ) → pc i ≢ panicked
  pub exclusive : (i j : ℕ) → holds (pc i) ≡ true → holds (pc j) ≡ true → i ≡ j
  pub taken : (i : ℕ) → holds (pc i) ≡ true → lk.locked ≡ true
  pub holder : lk.locked ≡ true → (i : ℕ) × (holds (pc i) ≡ true)
  pub named : (i : ℕ) → is_named (pc i) ≡ true → lk.cpuid ≡ some i
  pub owner : (i : ℕ) → lk.cpuid ≡ some i → is_named (pc i) ≡ true
  pub free : (i : ℕ) → mon i ≡ true → pc i ≡ storing → lk.locked ≡ false

kept_holds :
    (pc : ℕ → Pc) (i : ℕ) (q : Pc) (j : ℕ)
    → holds q ≡ holds (pc i)
    → holds (write_at pc i q j) ≡ holds (pc j)
kept_holds pc i q j same = elim (Bool-cases (j == i)) [
  | inl here ↦ rw here (same ∙ ap (λ (x : ℕ). holds (pc x)) (sym (eq_of_== j i here)))
  | inr away ↦ rw away refl
]

-- What a move needs to leave the invariant in place.
module _ {lk : Spinlock} {mon : ℕ → Bool} {pc : ℕ → Pc} (i : ℕ) (q : Pc) (inv : Inv lk mon pc) where
  open inv use {safe, exclusive, taken, holder, named, owner, free}

  -- A move that neither takes nor gives the lock, nor changes it.
  quiet :
      {mon' : ℕ → Bool}
      → holds q ≡ holds (pc i)
      → is_named q ≡ is_named (pc i)
      → q ≢ panicked
      → ((j : ℕ) → mon' j ≡ true → write_at pc i q j ≡ storing → lk.locked ≡ false)
      → Inv lk mon' (write_at pc i q)
  quiet same same' ok' free' = record {
    safe = λ j. ground (arith, safe j);
    exclusive = λ j k hj hk.
        exclusive j k (sym (kept_holds pc i q j same) ∙ hj) (sym (kept_holds pc i q k same) ∙ hk);
    taken = λ j h. taken j (sym (kept_holds pc i q j same) ∙ h);
    holder = λ h. let (j, hj) = holder h in (j, ground arith);
    named = λ j h. ground (arith, named j, named i);
    owner = λ j h. ground (arith, owner j, owner i);
    free = free';
  }

module _ {lk : Spinlock} {mon : ℕ → Bool} {pc : ℕ → Pc} (i : ℕ) (inv : Inv lk mon pc) where
  open inv use {safe, exclusive, taken, holder, named, owner, free}

  nobody : lk.locked ≡ false → (j : ℕ) → holds (pc j) ≡ false
  nobody e j = elim (Bool-cases (holds (pc j))) [
    | inl h ↦ absurd (ground (arith, taken j h))
    | inr h ↦ h
  ]

  pub win :
      mon i ≡ true
      → pc i ≡ storing
      → Inv (record lk { locked = true }) opened (write_at pc i naming)
  win set at =
      let clear = nobody (free i set at) in
      record {
        safe = λ j. ground (arith, safe j);
        exclusive = λ j k hj hk. ground (arith, clear j, clear k);
        taken = λ j h. refl;
        holder = λ h. (i, ground arith);
        named = λ j h. ground (arith, named j);
        owner = λ j h. ground (arith, owner j, ap is_named at);
        free = λ j h e. cc;
      }

  pub name : pc i ≡ naming → Inv (record lk { cpuid = some i }) mon (write_at pc i inside)
  name at = record {
    safe = λ j. ground (arith, safe j);
    exclusive =
        λ j k hj hk. ground (arith, exclusive j k, exclusive i k, exclusive j i, ap holds at);
    taken = λ j h. ground (arith, taken j, taken i, ap holds at);
    holder = λ h. (i, ground arith);
    named = λ j h. ground (arith, exclusive i j, named_holds (pc j), ap holds at);
    owner = λ j h. ground arith;
    free = λ j h e. ground (arith, free j h);
  }

  pub clear : pc i ≡ clearing → Inv (record lk { cpuid = none }) mon (write_at pc i unlocking)
  clear at = record {
    safe = λ j. ground (arith, safe j);
    exclusive =
        λ j k hj hk. ground (arith, exclusive j k, exclusive i k, exclusive j i, ap holds at);
    taken = λ j h. ground (arith, taken j, taken i, ap holds at);
    holder = λ h. (i, ground arith);
    named = λ j h. ground (arith, exclusive i j, named_holds (pc j), ap holds at);
    owner = λ j h. cc;
    free = λ j h e. ground (arith, free j h);
  }

  pub give : pc i ≡ unlocking → Inv (record lk { locked = false }) opened (write_at pc i outside)
  give at = record {
    safe = λ j. ground (arith, safe j);
    exclusive = λ j k hj hk. ground (arith, exclusive j k);
    taken = λ j h. ground (arith, exclusive i j, ap holds at);
    holder = λ h. cc;
    named = λ j h. ground (arith, named j);
    owner = λ j h. ground (arith, owner j, ap is_named at);
    free = λ j h e. cc;
  }

module _ {lk : Spinlock} {mon : ℕ → Bool} {pc : ℕ → Pc} {p : Pc} (i : ℕ) (q : Pc) (at : pc i ≡ p)
    (inv : Inv lk mon pc) where
  -- A move to another place on the same side of the lock.
  pub calm :
      holds q ≡ holds p
      → is_named q ≡ is_named p
      → q ≢ panicked
      → q ≢ storing
      → Inv lk mon (write_at pc i q)
  calm h n ok' away =
      quiet i q inv (h ∙ ap holds (sym at)) (n ∙ ap is_named (sym at)) ok'
        (λ j set k. ground (arith, inv.free j set))

  -- A load or a failed store, which changes the monitor of the processor alone.
  pub listen :
      (b : Bool)
      → holds q ≡ holds p
      → is_named q ≡ is_named p
      → q ≢ panicked
      → ((b ≡ true) → q ≡ storing → lk.locked ≡ false)
      → Inv lk (write_at mon i b) (write_at pc i q)
  listen b h n ok' free' =
      quiet i q inv (h ∙ ap holds (sym at)) (n ∙ ap is_named (sym at)) ok'
        (λ j set k. ground (arith, inv.free j, free'))
