-- ===== src/Mm/Walk.antt =====
-- `pagewalk`: what it returns, and what it leaves of memory when it builds the missing tables.
use mvmm.Base.{
  ℕ, zero, suc, ◌+◌, ◌%◌, ◌<◌, ◌≤◌, ◌≡◌, ◌≢◌, refl, none, some, true, false, arith, inl, inr,
  Bool-cases, List, All, length, ok,
}
use mvmm.Memory.{Mem, load64, store64}
use mvmm.Memory.Laws.{store_outside}
use mvmm.Kalloc.{Pmem, page_size}
use mvmm.Kalloc.Pool.{IsPool, SameOutsidePage}
use mvmm.Mm.{pidx, pte_pa, is_table, walk}
use mvmm.Mm.Entry.{pidx-lt}
use mvmm.Mm.Tables.{Labels, prefix, slot, IsTables, entry, find}

-- A guest's tables beside the pool: no free page is a table.
pub record IsSpace (lab : Labels) (root : ℕ) (s : Pmem) (ps : List ℕ) : Type 0 where
  pub tables : IsTables lab root s.mem
  pub pool : IsPool s ps
  pub free : All (λ q. lab q ≡ none) ps

-- A page that is neither a table nor free, such as a page of the guest.
pub record IsData (lab : Labels) (ps : List ℕ) (q : ℕ) : Type 0 where
  pub aligned : q % page_size ≡ 0
  pub not_table : lab q ≡ none
  pub not_free : All (λ p. q ≢ p) ps

abbrev pub SamePage : ℕ → Mem → Mem → Type 0
SamePage q m m' = (b : ℕ) → q ≤ b → b < q + page_size → m' b ≡ m b

-- Without allocation the walk changes nothing and returns what `find` says.
pub walk-find :
    (me left level t va : ℕ) (s : Pmem)
    → walk me left level t va false s ≡ ok (find left level s.mem t va, s)
unfolding walk find
walk-find me zero level t va s = refl
walk-find me (suc left) level t va s =
    elim (Bool-cases (is_table (load64 s.mem (slot t (pidx level va))))) [
      | inl tab ↦
          rw (
            tab,
            walk-find me left (suc level) (pte_pa (load64 s.mem (slot t (pidx level va)))) va s,
          )
      | inr empty ↦ rw empty
    ]

-- The walk from `t` at `level` that may allocate, from `s` to `s'`, returned the address `r`.
pub record Walked (lab lab' : Labels) (root : ℕ) (ps ps' : List ℕ) (left level t va r : ℕ)
    (s s' : Pmem) : Type 0 where
  pub space : IsSpace lab' root s' ps'
  pub old : (q : ℕ) (x : ℕ × ℕ) → lab q ≡ some x → lab' q ≡ some x
  pub leaf : (t3 : ℕ) × (lab' t3 ≡ some (3, prefix 3 va)) × (r ≡ slot t3 (pidx 3 va))
  pub found : find left level s'.mem t va ≡ r
  pub same : (va' : ℕ) → entry s'.mem root va' ≡ entry s.mem root va'
  pub kept :
      (q lq preq j : ℕ)
      → lab q ≡ some (lq, preq)
      → j < 512
      → is_table (load64 s.mem (slot q j)) ≡ true
      → load64 s'.mem (slot q j) ≡ load64 s.mem (slot q j)
  pub room : length ps ≤ length ps' + left
  pub data_kept : (q : ℕ) → IsData lab ps q → IsData lab' ps' q × SamePage q s.mem s'.mem

abbrev pub WalkResult : ℕ → Labels → ℕ → List ℕ → ℕ → ℕ → ℕ → ℕ → Pmem → Type 0
WalkResult me lab root ps left level t va s =
    (r : ℕ) × (s' : Pmem) × (lab' : Labels) × (ps' : List ℕ) × (walk me left level t va true s
      ≡ ok (r, s'))
    × Walked lab lab' root ps ps' left level t va r s s'

-- A table that is there is walked through.
pub walk-down :
    (me left level t va : ℕ) {lab : Labels} {root : ℕ} {ps : List ℕ} {s : Pmem}
    → lab t ≡ some (level, prefix level va)
    → is_table (load64 s.mem (slot t (pidx level va))) ≡ true
    → WalkResult me lab root ps left
        (suc level)
        (pte_pa (load64 s.mem (slot t (pidx level va))))
        va
        s
    → WalkResult me lab root ps (suc left) level t va s
unfolding walk find
walk-down me left level t va {s = s} at tab (r, s', lab', ps', ran, w) = (
  r,
  s',
  lab',
  ps',
  rw tab ran,
  record {
    space = w.space;
    old = w.old;
    leaf = w.leaf;
    found =
        rw (w.kept t level (prefix level va) (pidx level va) at (pidx-lt level va) tab, tab)
          w.found;
    same = w.same;
    kept = w.kept;
    room = let h = w.room in omega arith;
    data_kept = w.data_kept;
  },
)

pub store-SameOutsidePage :
    (m : Mem) (t i v : ℕ) → i < 512 → SameOutsidePage t m (store64 m (slot t i) v)
store-SameOutsidePage m t i v lt b out = store_outside 8 m (slot t i) v b (omega arith)
