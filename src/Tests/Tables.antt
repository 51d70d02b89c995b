-- ===== src/Tests/Tables.antt =====
-- The page tables on the small memories: an empty root that grows, and a full path to one page.
use mvmm.Base.{
  ℕ, zero, suc, ◌+◌, ◌*◌, ◌<◌, ◌≡◌, ◌≢◌, ◌⊎◌, ◌==◌, if◌then◌else◌, some, none, List, ◌∷◌, refl,
  arith, true, false, inl, inr, sym, ◌∙◌, ok,
}
use mvmm.Memory.{Mem, load, load64}
use mvmm.Memory.Laws.{load-zero}
use mvmm.Kalloc.{Pmem, page_size}
use mvmm.Kalloc.Pool.{IsPage}
use mvmm.Mm.{pidx, is_table, pte_pa, page_entry, map_page, pagemap, unmap_page}
use mvmm.Mm.Tables.{Labels, slot, entry, entry_from, page_number}
use mvmm.Mm.Walk.{IsSpace, IsData}
use mvmm.Mm.Map.{MappedPage, map_page-MappedPage, unmap_page-entry}
use mvmm.Mm.Range.{MappedRange, pagemap-MappedRange}
use mvmm.Tests.Data.{
  IsPage-2000, IsPage-3000, IsPage-4000, root_label, pool_state, pool_pages, pool_state-IsSpace,
  pool_state-entry,
}

-- `S2PTE_NORMAL | S2PTE_RW`
abbrev normal_rw : ℕ
normal_rw = 0xc4

pagemap-MappedRange_example :
    (s' : Pmem) × (lab' : Labels) × (ps' : List ℕ) × (pagemap 0 0x1000 0x40000000 0x50000000
        (1 * page_size)
        normal_rw
        pool_state
      ≡ ok s')
    × MappedRange root_label lab' 0x1000 pool_pages ps' 1 0x40000000 0x50000000 normal_rw pool_state
        s'
pagemap-MappedRange_example =
    pagemap-MappedRange 0 0x1000 1 0x40000000 0x50000000 normal_rw root_label pool_pages pool_state
      pool_state-IsSpace (omega arith) (omega arith) refl refl (omega arith) (omega arith)
      (λ k lt. rw (pool_state-entry (0x40000000 + k * page_size)) refl)

map_page-MappedPage_example :
    (s' : Pmem) × (lab' : Labels) × (ps' : List ℕ) × (map_page 0 0x1000 0x40000000 0x50000000
        normal_rw pool_state
      ≡ ok s')
    × MappedPage root_label lab' 0x1000 pool_pages ps' 0x40000000
        (page_entry 0x50000000 normal_rw)
        pool_state
        s'
map_page-MappedPage_example =
    map_page-MappedPage 0 0x1000 0x40000000 0x50000000 normal_rw root_label pool_pages pool_state
      pool_state-IsSpace (omega arith) (omega arith) (rw (pool_state-entry 0x40000000) refl)

-- Tables at 0x1000, 0x5000, 0x6000 and 0x7000, whose first entries lead to each other, and the pages at
-- 0x8000 and 0xb000 that the last one maps, with their access flags.
abbrev pub path_mem : Mem
path_mem = λ b.
    if b == 0x1000
    then 3
    else if b == 0x1001
    then 0x50
    else if b == 0x5000
    then 3
    else if b == 0x5001
    then 0x60
    else if b == 0x6000
    then 3
    else if b == 0x6001
    then 0x70
    else if b == 0x7000
    then 0xc7
    else if b == 0x7001
    then 0x84
    else if b == 0x7008
    then 0xc7
    else if b == 0x7009
    then 0xb4
    else if b == 0x2001
    then 0x30
    else if b == 0x3001
    then 0x40
    else 0

abbrev pub path_state : Pmem
path_state = record pool_state { mem = path_mem }

abbrev pub path_label : Labels
path_label = λ q.
    if q == 0x1000
    then some (0, 0)
    else if q == 0x5000
    then some (1, 0)
    else if q == 0x6000
    then some (2, 0)
    else if q == 0x7000
    then some (3, 0)
    else none

path-IsPage : (t l pre : ℕ) → path_label t ≡ some (l, pre) → IsPage t
path-IsPage t l pre at = record {
  aligned = ground arith;
  ne_null = ground arith;
  fits = ground arith;
}

-- The entries other than the first are empty in the upper tables.
path_slot :
    (t l pre i : ℕ)
    → path_label t ≡ some (l, pre)
    → l < 3
    → i < 511
    → load64 path_mem (slot t (suc i)) ≡ 0
path_slot t l pre i at up lt = load-zero 8 path_mem (slot t (suc i)) (λ b lo hi. ground arith)

-- The labels above level 3.
path_upper :
    (t l pre : ℕ)
    → path_label t ≡ some (l, pre)
    → l < 3
    → ((t ≡ 0x1000) × (l ≡ 0) × (pre ≡ 0))
      ⊎ ((t ≡ 0x5000) × (l ≡ 1) × (pre ≡ 0))
      ⊎ ((t ≡ 0x6000) × (l ≡ 2) × (pre ≡ 0))
path_upper t l pre at up = ground arith

path-child :
    (t l pre i : ℕ)
    → path_label t ≡ some (l, pre)
    → l < 3
    → i < 512
    → is_table (load64 path_mem (slot t i)) ≡ true
    → path_label (pte_pa (load64 path_mem (slot t i))) ≡ some (suc l, pre * 512 + i)
unfolding load is_table pte_pa
path-child t l pre zero at up lt tab = elim (path_upper t l pre at up) [
  | inl (et, el, ep) ↦ rw (et, el, ep) refl
  | inr (inl (et, el, ep)) ↦ rw (et, el, ep) refl
  | inr (inr (et, el, ep)) ↦ rw (et, el, ep) refl
]
path-child t l pre (suc i) at up lt tab =
    let none_there : is_table (load64 path_mem (slot t (suc i))) ≡ false =
      rw (path_slot t l pre i at up (omega arith)) refl in
    cc (sym none_there ∙ tab)

pub path_state-IsSpace : IsSpace path_label 0x1000 path_state pool_pages
unfolding load
path_state-IsSpace = record {
  tables = record { at_root = refl; page = path-IsPage; child = path-child };
  pool = record {
    unlocked = refl;
    chain = (
      refl,
      IsPage-2000,
      (omega arith, (omega arith, tt)),
      (refl, IsPage-3000, (omega arith, tt), (refl, IsPage-4000, tt, refl)),
    );
  };
  free = (refl, (refl, (refl, tt)));
}

page_8000-IsData : IsData path_label pool_pages 0x8000
page_8000-IsData = record {
  aligned = refl;
  not_table = refl;
  not_free = (omega arith, (omega arith, (omega arith, tt)));
}

path_state-entry : entry path_mem 0x1000 0x123 ≡ 0x84c7
unfolding entry entry_from is_table pte_pa load pidx
path_state-entry = refl

unmap_page-entry_example :
    (s' : Pmem) × (unmap_page 0 0x1000 0x123 path_state ≡ ok s')
    × IsSpace path_label 0x1000 s' (0x8000 ∷ pool_pages)
    × (entry s'.mem 0x1000 0x123 ≡ 0)
    × ((va' : ℕ)
        → page_number va' ≢ page_number 0x123
        → entry s'.mem 0x1000 va' ≡ entry path_mem 0x1000 va')
unfolding pte_pa
unmap_page-entry_example =
    unmap_page-entry 0 0x1000 0x123 0x8000 path_label pool_pages path_state path_state-IsSpace
      (record { aligned = refl; ne_null = omega arith; fits = omega arith }) page_8000-IsData
      (rw path_state-entry refl)
