-- ===== src/Spinlock.antt =====
-- src/spinlock.c and include/spinlock.h with SPINLOCK_DEBUG, as one processor runs them. The
-- exclusive load and store of `acquire` are one step that takes a free lock.
pub mod Race
use mvmm.Base.{
  ◌≡◌, refl, arith, ℕ, Bool, true, false, ◌&&◌, Option, none, some, ◌==◌, if◌then◌else◌, Outcome,
  ok, panic, spin,
}

-- `struct spinlock`; `none` is the `cpuid` of -1, and the name is used by messages only.
pub record Spinlock : Type 0 where
  pub cpuid : Option ℕ
  pub locked : Bool

abbrev is_cpu : Option ℕ → ℕ → Bool
is_cpu none me = false
is_cpu (some c) me = c == me

unfoldable pub holdinglk : ℕ → Spinlock → Bool
holdinglk me lk = lk.locked && is_cpu lk.cpuid me

-- `spinlock_init`
abbrev pub spinlock_init : Spinlock
spinlock_init = record { cpuid = none; locked = false }

abbrev pub held_by : ℕ → Spinlock
held_by me = record { cpuid = some me; locked = true }

unfoldable pub acquire : ℕ → Spinlock → Outcome Spinlock
unfolding holdinglk
acquire me lk = if holdinglk me lk then panic else if lk.locked then spin else ok (held_by me)

unfoldable pub release : ℕ → Spinlock → Outcome Spinlock
unfolding holdinglk
release me lk = if holdinglk me lk then ok spinlock_init else panic

-- A free lock is taken, and given back.
pub lock_taken : (me : ℕ) → acquire me spinlock_init ≡ ok (held_by me)
unfolding acquire
lock_taken me = refl

pub lock_given : (me : ℕ) → release me (held_by me) ≡ ok spinlock_init
unfolding release
lock_given me = ground arith
