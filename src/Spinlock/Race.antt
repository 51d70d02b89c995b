-- ===== src/Spinlock/Race.antt =====
-- src/spinlock.c and include/spinlock.h as several processors run them at once, an access of the shared
-- lock at a time. The accesses are taken in one order for all processors.
pub mod Holder
pub mod Safety
use mvmm.Base.{
  write_at, ℕ, ◌+◌, ◌≡◌, ◌≢◌, ◌==◌, if◌then◌else◌, Bool, true, false, Option, none, some,
}
use mvmm.Spinlock.{Spinlock, spinlock_init}

-- Where a processor stands. The lock is taken from `naming` on, and given back by `unlocking`.
pub data Pc : Type 0 where
  outside : Pc  -- outside of `acquire` and `release`, without the lock
  test_lock : Pc  -- `holdinglk` of `acquire`, before it reads `lk->lock`
  test_cpuid : Pc  -- and before it reads `lk->cpuid`
  loading : Pc  -- at `ldaxr`
  storing : Pc  -- at `stxr`
  naming : Pc  -- at `lk->cpuid = cpuid()`
  inside : Pc  -- with the lock
  check_lock : Pc  -- `holdinglk` of `release`
  check_cpuid : Pc
  clearing : Pc  -- at `lk->cpuid = -1`
  unlocking : Pc  -- at `str wzr`
  again_lock : Pc  -- `holdinglk` of a call of `acquire` with the lock, before it reads `lk->lock`
  again_cpuid : Pc
  stray_lock : Pc  -- `holdinglk` of a call of `release` without the lock
  stray_cpuid : Pc
  panicked : Pc  -- in a call of `acquire` without the lock or of `release` with it
  stopped_inside : Pc  -- in a call of `acquire` with the lock
  stopped_outside : Pc  -- in a call of `release` without the lock

-- The lock, the exclusive monitors of the processors, and where each stands.
pub record System : Type 0 where
  pub lk : Spinlock
  pub monitor : ℕ → Bool
  pub pc : ℕ → Pc

-- Every monitor is open after a store to the lock.
abbrev pub opened : ℕ → Bool
opened i = false

-- One access of processor `i`, which calls `acquire` and `release` whether it has the lock or not. A `stxr` may fail at any time; it succeeds only if the monitor is still
-- set.
pub data Move (i : ℕ) (lk : Spinlock) (mon : ℕ → Bool)
    : Pc → Spinlock → (ℕ → Bool) → Pc → Type 0 where
  call_acquire : Move i lk mon outside lk mon test_lock
  lock_free : lk.locked ≡ false → Move i lk mon test_lock lk mon loading
  lock_busy : lk.locked ≡ true → Move i lk mon test_lock lk mon test_cpuid
  cpuid_other : lk.cpuid ≢ some i → Move i lk mon test_cpuid lk mon loading
  cpuid_self : lk.cpuid ≡ some i → Move i lk mon test_cpuid lk mon panicked
  load_busy : lk.locked ≡ true → Move i lk mon loading lk (write_at mon i true) loading
  load_free : lk.locked ≡ false → Move i lk mon loading lk (write_at mon i true) storing
  store_fails : Move i lk mon storing lk (write_at mon i false) loading
  store_succeeds : mon i ≡ true → Move i lk mon storing (record lk { locked = true }) opened naming
  set_cpuid : Move i lk mon naming (record lk { cpuid = some i }) mon inside
  call_release : Move i lk mon inside lk mon check_lock
  check_free : lk.locked ≡ false → Move i lk mon check_lock lk mon panicked
  check_busy : lk.locked ≡ true → Move i lk mon check_lock lk mon check_cpuid
  check_other : lk.cpuid ≢ some i → Move i lk mon check_cpuid lk mon panicked
  check_self : lk.cpuid ≡ some i → Move i lk mon check_cpuid lk mon clearing
  clear_cpuid : Move i lk mon clearing (record lk { cpuid = none }) mon unlocking
  unlock : Move i lk mon unlocking (record lk { locked = false }) opened outside
  call_again : Move i lk mon inside lk mon again_lock
  again_free : lk.locked ≡ false → Move i lk mon again_lock lk mon loading
  again_busy : lk.locked ≡ true → Move i lk mon again_lock lk mon again_cpuid
  again_other : lk.cpuid ≢ some i → Move i lk mon again_cpuid lk mon loading
  again_self : lk.cpuid ≡ some i → Move i lk mon again_cpuid lk mon stopped_inside
  call_astray : Move i lk mon outside lk mon stray_lock
  stray_free : lk.locked ≡ false → Move i lk mon stray_lock lk mon stopped_outside
  stray_busy : lk.locked ≡ true → Move i lk mon stray_lock lk mon stray_cpuid
  stray_other : lk.cpuid ≢ some i → Move i lk mon stray_cpuid lk mon stopped_outside
  stray_self : lk.cpuid ≡ some i → Move i lk mon stray_cpuid lk mon clearing

-- A step of any processor.
pub data Step (s : System) : System → Type 0 where
  pick :
      (i : ℕ) {lk : Spinlock} {mon : ℕ → Bool} {p : Pc}
      → Move i s.lk s.monitor (s.pc i) lk mon p
      → Step s (record { lk = lk; monitor = mon; pc = write_at s.pc i p })

abbrev pub start : System
start = record { lk = spinlock_init; monitor = opened; pc = λ i. outside }

pub data Reach : System → Type 0 where
  at_start : Reach start
  later : {s t : System} → Reach s → Step s t → Reach t
