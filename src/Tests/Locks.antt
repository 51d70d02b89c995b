-- ===== src/Tests/Locks.antt =====
-- Processor 3 takes the lock while processor 5 asks for it.
use mvmm.Base.{write_at, ℕ, ◌≡◌, ◌≢◌, refl}
use mvmm.Spinlock.{held_by, spinlock_init}
use mvmm.Spinlock.Race.{
  Pc, outside, inside, panicked, stopped_inside, System, opened, Reach, at_start, later, pick,
  call_acquire, lock_free, load_free, store_succeeds, set_cpuid,
}
use mvmm.Spinlock.Race.Safety.{mutual_exclusion}

abbrev contended : System
contended = record {
  lk = held_by 3;
  monitor = opened;
  pc =
      write_at
        (write_at
          (write_at
            (write_at (write_at (write_at (λ i. outside) 3 Pc.test_lock) 5 Pc.test_lock) 3
              Pc.loading)
            3 Pc.storing)
          3 Pc.naming)
        3 Pc.inside;
}

contended-Reach : Reach contended
contended-Reach =
    later
      (later
        (later
          (later (later (later at_start (pick 3 call_acquire)) (pick 5 call_acquire))
            (pick 3 (lock_free refl)))
          (pick 3 (load_free refl)))
        (pick 3 (store_succeeds refl)))
      (pick 3 set_cpuid)

mutual_exclusion_example :
    ((i : ℕ) → contended.pc i ≢ panicked)
    × ((i j : ℕ) → contended.pc i ≡ inside → contended.pc j ≡ inside → i ≡ j)
    × ((i : ℕ) → contended.pc i ≡ inside → contended.lk ≡ held_by i)
    × (((i : ℕ) → contended.pc i ≡ outside) → contended.lk ≡ spinlock_init)
    × ((i : ℕ)
        → contended.pc i ≡ stopped_inside
        → (contended.lk ≡ held_by i) × ((j : ℕ) → contended.pc j ≢ inside))
mutual_exclusion_example = mutual_exclusion contended-Reach
