-- ===== src/Tests/Data.antt =====
-- A memory with an empty root table at 0x1000 and three free pages from 0x2000 on, and one with a
-- page at 0x8000 that guest address 0 is mapped to.
use mvmm.Base.{
  ℕ, ◌<◌, ◌≡◌, ◌==◌, if◌then◌else◌, some, none, List, [], ◌∷◌, refl, arith, false, sym, ◌∙◌,
}
use mvmm.Memory.{Mem, load, load64}
use mvmm.Memory.Laws.{load-zero}
use mvmm.Spinlock.{spinlock_init}
use mvmm.Kalloc.{Pmem}
use mvmm.Kalloc.Pool.{IsPage, IsPool}
use mvmm.Mm.{is_table, pidx}
use mvmm.Mm.Entry.{is_table-zero, pidx-lt}
use mvmm.Mm.Tables.{Labels, slot, entry, entry_from}
use mvmm.Mm.Walk.{IsSpace}

-- The links 0x2000, 0x3000, 0x4000, null.
abbrev pub pool_mem : Mem
pool_mem = λ b. if b == 0x2001 then 0x30 else if b == 0x3001 then 0x40 else 0

abbrev pub pool_state : Pmem
pool_state = record { mem = pool_mem; freelist = 0x2000; lock = spinlock_init }

abbrev pub pool_pages : List ℕ
pool_pages = 0x2000 ∷ 0x3000 ∷ 0x4000 ∷ []

abbrev pub root_label : Labels
root_label = λ q. if q == 0x1000 then some (0, 0) else none

pub IsPage-2000 : IsPage 0x2000
IsPage-2000 = record { aligned = refl; ne_null = omega arith; fits = omega arith }

pub IsPage-3000 : IsPage 0x3000
IsPage-3000 = record { aligned = refl; ne_null = omega arith; fits = omega arith }

pub IsPage-4000 : IsPage 0x4000
IsPage-4000 = record { aligned = refl; ne_null = omega arith; fits = omega arith }

pub pool_state-IsPool : IsPool pool_state pool_pages
unfolding load
pool_state-IsPool = record {
  unlocked = refl;
  chain = (
    refl,
    IsPage-2000,
    (omega arith, (omega arith, tt)),
    (refl, IsPage-3000, (omega arith, tt), (refl, IsPage-4000, tt, refl)),
  );
}

root_slot : (i : ℕ) → i < 512 → load64 pool_mem (slot 0x1000 i) ≡ 0
root_slot i lt = load-zero 8 pool_mem (slot 0x1000 i) (λ b lo hi. ground arith)

root_at : (t l pre : ℕ) → root_label t ≡ some (l, pre) → t ≡ 0x1000
root_at t l pre at = ground arith

pub pool_state-IsSpace : IsSpace root_label 0x1000 pool_state pool_pages
pool_state-IsSpace = record {
  tables = record {
    at_root = refl;
    page = λ t l pre at.
        let e = root_at t l pre at in
        record { aligned = rw e refl; ne_null = omega arith; fits = omega arith };
    child = λ t l pre i at up lt tab.
        let e = root_at t l pre at in
        let none_there : is_table (load64 pool_mem (slot t i)) ≡ false =
          rw (e, root_slot i lt) is_table-zero in
        cc (sym none_there ∙ tab);
  };
  pool = pool_state-IsPool;
  free = (refl, (refl, (refl, tt)));
}

-- No address has a descriptor yet.
pub pool_state-entry : (va : ℕ) → entry pool_mem 0x1000 va ≡ 0
unfolding entry entry_from
pool_state-entry va = rw (root_slot (pidx 0 va) (pidx-lt 0 va), is_table-zero)
