-- ===== src/Mm/Frame.antt =====
-- Changes of memory that leave every table entry alone.
use mvmm.Base.{
  ℕ, zero, suc, ◌+◌, ◌*◌, ◌%◌, ◌<◌, ◌≡◌, ◌≢◌, some, none, arith, inl, inr, Bool-cases, ap, refl,
}
use mvmm.Memory.{Mem, load64}
use mvmm.Memory.Laws.{load_ext}
use mvmm.Kalloc.{page_size}
use mvmm.Kalloc.Pool.{SameOutsidePage}
use mvmm.Mm.{pidx, pte_pa, is_table}
use mvmm.Mm.Entry.{pidx-lt}
use mvmm.Mm.Tables.{Labels, prefix, slot, IsTables, entry_from, find}

-- Every entry of every table reads the same.
abbrev pub SameSlots : Labels → Mem → Mem → Type 0
SameSlots lab m m' =
    (q lq preq j : ℕ)
    → lab q ≡ some (lq, preq)
    → j < 512
    → load64 m' (slot q j) ≡ load64 m (slot q j)

module _ {lab : Labels} {root : ℕ} {m m' : Mem} (tables : IsTables lab root m) where
  -- A change inside a page that is not a table.
  pub page-SameSlots :
      (p : ℕ) → p % page_size ≡ 0 → lab p ≡ none → SameOutsidePage p m m' → SameSlots lab m m'
  page-SameSlots p pa free_p same q lq preq j at lt =
      let qp = tables.page q lq preq at in
      let qa = qp.aligned in
      let off : q ≢ p = λ e. cc (ap lab e) in
      load_ext 8 m m' (slot q j) (λ b lo hi. same b (omega arith))

module _ {lab : Labels} {root : ℕ} {m : Mem} (m' : Mem) (tables : IsTables lab root m)
    (same : SameSlots lab m m') where
  pub frame-IsTables : IsTables lab root m'
  frame-IsTables = record {
    at_root = tables.at_root;
    page = tables.page;
    child = λ q lq preq j e up lt tab.
        let s = same q lq preq j e lt in rw s (tables.child q lq preq j e up lt (rw s at tab));
  }

  pub frame-entry_from :
      (left level q preq va : ℕ)
      → level + left ≡ 3
      → lab q ≡ some (level, preq)
      → (entry_from left level m' q va ≡ entry_from left level m q va)
        × (find left level m' q va ≡ find left level m q va)
  unfolding entry_from find
  frame-entry_from zero level q preq va e h = (same q level preq (pidx 3 va) h (pidx-lt 3 va), refl)
  frame-entry_from (suc left) level q preq va e h =
      rw (same q level preq (pidx level va) h (pidx-lt level va))
        (elim (Bool-cases (is_table (load64 m (slot q (pidx level va))))) [
          | inl tab ↦ rw tab (
              frame-entry_from left (suc level) (pte_pa (load64 m (slot q (pidx level va))))
                (preq * 512 + pidx level va) va (omega arith)
                (tables.child q level preq (pidx level va) h (omega arith) (pidx-lt level va) tab))
          | inr empty ↦ rw empty (refl, refl)
        ])

-- A walk that finds an entry ends at a level-3 table with the address's label.
pub find-leaf :
    (lab : Labels) (root left level : ℕ) (m : Mem) (q va : ℕ)
    → IsTables lab root m
    → lab q ≡ some (level, prefix level va)
    → level + left ≡ 3
    → find left level m q va ≢ 0
    → (t : ℕ) × (lab t ≡ some (3, prefix 3 va)) × (find left level m q va ≡ slot t (pidx 3 va))
unfolding find prefix
find-leaf lab root zero level m q va tables at e ne =
    let three : level ≡ 3 = omega arith in (q, rw three at at, refl)
find-leaf lab root (suc left) level m q va tables at e ne =
    elim (Bool-cases (is_table (load64 m (slot q (pidx level va))))) [
      | inl tab ↦ rw tab (
          find-leaf lab root left (suc level) m (pte_pa (load64 m (slot q (pidx level va)))) va
            tables
            (tables.child q level (prefix level va) (pidx level va) at (omega arith)
              (pidx-lt level va) tab)
            (omega arith) (rw tab at ne))
      | inr empty ↦ absurd (ne (rw empty))
    ]
