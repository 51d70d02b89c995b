-- ===== src/Mm/Grow.antt =====
-- `pagewalk` with allocation: it builds the missing tables and returns the entry for the address.
use mvmm.Base.{
  ℕ, zero, suc, ◌+◌, ◌<◌, ◌≤◌, ◌≡◌, ◌≢◌, refl, none, some, true, ◌==◌, arith, inl, inr, Bool-cases,
  ◌&&◌, ==-false, ==-true, ◌∙◌, ap, ap₂, List, [], ◌∷◌, All, All-map, length, ok,
}
use mvmm.Memory.{load64, store64}
use mvmm.Kalloc.{Pmem, kalloc}
use mvmm.Kalloc.Pool.{IsPool, Chain-frame, kalloc-page}
use mvmm.Mm.{pidx, pte_pa, is_table, table_entry, walk}
use mvmm.Mm.Entry.{pidx-lt, is_table-table_entry, pte_pa-table_entry}
use mvmm.Mm.Tables.{Labels, prefix, slot, entry, find}
use mvmm.Mm.Attach.{
  Attaching, attach_label, attach-other, attach_self, attach-entry_from, attach-IsTables,
  attach_label-old,
}
use mvmm.Mm.Walk.{IsSpace, IsData, SamePage, WalkResult, walk-down, store-SameOutsidePage}

-- The state after the new table `p` is hung into the entry for `va` of `t`, and its labels.
abbrev pub hung : Pmem → ℕ → ℕ → ℕ → ℕ → Pmem
hung s1 p t l va = record s1 { mem = store64 s1.mem (slot t (pidx l va)) (table_entry p) }

abbrev pub hung_label : Labels → ℕ → ℕ → ℕ → Labels
hung_label lab p l va = attach_label lab p l (prefix l va) (pidx l va)

hung_label-free :
    (lab : Labels) (p t l va : ℕ) (ps : List ℕ)
    → All (λ q. lab q ≡ none) ps
    → All (λ q. q ≢ p) ps
    → All (λ q. hung_label lab p l va q ≡ none) ps
hung_label-free lab p t l va [] free others = tt
hung_label-free lab p t l va (q ∷ ps) free others =
    (rw (==-false others.0) free.0, hung_label-free lab p t l va ps free.1 others.1)

module _ {lab : Labels} {root p t l : ℕ} (va : ℕ) (ps : List ℕ) (s s1 : Pmem)
    (a : Attaching lab root s.mem s1.mem p t l (prefix l va) (pidx l va)) (pool1 : IsPool s1 ps)
    (free : All (λ q. lab q ≡ none) ps) (others : All (λ q. q ≢ p) ps) where
  grow-IsSpace : IsSpace (hung_label lab p l va) root (hung s1 p t l va) ps
  grow-IsSpace =
      let tp = a.tables.page t l (prefix l va) a.parent in
      let off : All (λ q. q ≢ t) ps =
        All-map {P = λ q. lab q ≡ none} {Q = λ q. q ≢ t}
          (λ q e same. let par = a.parent in cc (ap lab same)) ps free in
      record {
        tables = attach-IsTables a;
        pool = record {
          unlocked = pool1.unlocked;
          chain =
              Chain-frame ps s1.freelist
                (store-SameOutsidePage s1.mem t (pidx l va) (table_entry p) a.index) tp.aligned off
                pool1.chain;
        };
        free = hung_label-free lab p t l va ps free others;
      }

  grow-IsData :
      (q : ℕ)
      → IsData lab (p ∷ ps) q
      → IsData (hung_label lab p l va) ps q × SamePage q s.mem (hung s1 p t l va).mem
  grow-IsData q d =
      let par = a.parent in
      let off : t ≢ q = λ same. let free_q = d.not_table in cc (ap lab same) in
      let tp = a.tables.page t l (prefix l va) par in
      let ta = tp.aligned in
      let pa = a.fresh.aligned in
      let qa = d.aligned in
      let ne = d.not_free in
      let ix = a.index in
      (
        record { aligned = qa; not_table = rw (==-false ne.0) d.not_table; not_free = ne.1 },
        λ b lo hi.
            store-SameOutsidePage s1.mem t (pidx l va) (table_entry p) ix b (omega arith)
            ∙ a.same b (omega arith),
      )

  grow-kept :
      (q lq preq j : ℕ)
      → lab q ≡ some (lq, preq)
      → j < 512
      → is_table (load64 s.mem (slot q j)) ≡ true
      → load64 (hung s1 p t l va).mem (slot q j) ≡ load64 s.mem (slot q j)
  grow-kept q lq preq j e lt tab = elim (Bool-cases ((t == q) && (pidx l va == j))) [
    | inl same ↦
        let tq : t ≡ q = ground arith in
        let ij : pidx l va ≡ j = ground arith in
        let empty = a.empty in cc (ap₂ (λ x y. is_table (load64 s.mem (slot x y))) tq ij)
    | inr differ ↦ attach-other a q lq preq j e lt (ground arith)
  ]

grow-entry :
    {lab : Labels} {root p t l : ℕ} (va : ℕ) (s s1 : Pmem)
    → Attaching lab root s.mem s1.mem p t l (prefix l va) (pidx l va)
    → (va' : ℕ) → entry (hung s1 p t l va).mem root va' ≡ entry s.mem root va'
unfolding entry
grow-entry {root = root} va s s1 a va' = attach-entry_from a 3 0 root 0 va' refl a.tables.at_root

-- The round of `pagewalk` that allocates, and the rounds after it.
walk-grow :
    (me left level t va p : ℕ) (ps : List ℕ) (lab : Labels) (root : ℕ) (s s1 : Pmem)
    → level + suc left ≡ 3
    → (a : Attaching lab root s.mem s1.mem p t level (prefix level va) (pidx level va))
    → IsPool s1 ps
    → All (λ q. lab q ≡ none) ps
    → All (λ q. q ≢ p) ps
    → kalloc me s ≡ ok (p, s1)
    → WalkResult me (hung_label lab p level va) root ps left (suc level) p va (hung s1 p t level va)
    → WalkResult me lab root (p ∷ ps) (suc left) level t va s
unfolding walk find
walk-grow me left level t va p ps lab root s s1 e a pool1 free others got
      (r, s', lab', ps', ran, w) =
    let i : ℕ = pidx level va in
    let there : is_table (load64 (hung s1 p t level va).mem (slot t i)) ≡ true =
      rw (attach_self a) (is_table-table_entry a.fresh) in
    let link : load64 s'.mem (slot t i) ≡ table_entry p =
      w.kept t level (prefix level va) i (attach_label-old a t (level, prefix level va) a.parent)
        a.index there
      ∙ attach_self a in
    (
      r,
      s',
      lab',
      ps',
      rw (a.empty, got, ==-false a.fresh.ne_null) ran,
      record {
        space = w.space;
        old = λ q x at. w.old q x (attach_label-old a q x at);
        leaf = w.leaf;
        found = rw (link, is_table-table_entry a.fresh, pte_pa-table_entry a.fresh) w.found;
        same = λ va'. w.same va' ∙ grow-entry va s s1 a va';
        kept = λ q lq preq j at lt tab.
            let step = grow-kept va ps s s1 a pool1 free others q lq preq j at lt tab in
            w.kept q lq preq j (attach_label-old a q (lq, preq) at) lt (rw step tab) ∙ step;
        room = let h = w.room in omega arith;
        data_kept = λ q d.
            let (d2, same2) = grow-IsData va ps s s1 a pool1 free others q d in
            let (d', same') = w.data_kept q d2 in (d', λ b lo hi. same' b lo hi ∙ same2 b lo hi);
      },
    )

-- From a table with its label at `level`, with a page in the pool for each level below, `pagewalk`
-- returns the level-3 entry for the address, keeps the tables and the pool, and changes no descriptor
-- of any address and no page of the guest.
pub walk-alloc :
    (me left level t va : ℕ) (lab : Labels) (root : ℕ) (ps : List ℕ) (s : Pmem)
    → IsSpace lab root s ps
    → lab t ≡ some (level, prefix level va)
    → level + left ≡ 3
    → left ≤ length ps
    → WalkResult me lab root ps left level t va s
unfolding walk find prefix
walk-alloc me zero level t va lab root ps s space at e enough =
    let three : level ≡ 3 = omega arith in
    (
      slot t (pidx 3 va),
      s,
      lab,
      ps,
      refl,
      record {
        space = space;
        old = λ q x h. h;
        leaf = (t, at ∙ ap (λ (k : ℕ). some (k, prefix k va)) three, refl);
        found = refl;
        same = λ va'. refl;
        kept = λ q lq preq j h lt tab. refl;
        room = omega arith;
        data_kept = λ q d. (d, λ b lo hi. refl);
      },
    )
walk-alloc me (suc left) level t va lab root [] s space at e enough = absurd (omega arith)
walk-alloc me (suc left) level t va lab root (p ∷ ps) s space at e enough =
    elim (Bool-cases (is_table (load64 s.mem (slot t (pidx level va))))) [
      | inl tab ↦ walk-down me left level t va at tab (
          walk-alloc me left (suc level) (pte_pa (load64 s.mem (slot t (pidx level va)))) va lab
            root (p ∷ ps) s space
            (space.tables.child t level (prefix level va) (pidx level va) at (omega arith)
              (pidx-lt level va) tab)
            (omega arith) (omega arith))
      | inr empty ↦
          let (s1, got, pool1, zeroed, same) = kalloc-page me p ps space.pool in
          let a : Attaching lab root s.mem s1.mem p t level (prefix level va) (pidx level va) =
            record {
              tables = space.tables;
              unused = space.free.0;
              fresh = space.pool.chain.1;
              same = same;
              zeroed = zeroed;
              parent = at;
              upper = omega arith;
              index = pidx-lt level va;
              empty = empty;
            } in
          let others = space.pool.chain.2 in
          walk-grow me left level t va p ps lab root s s1 e a pool1 space.free.1 others got (
            walk-alloc me left (suc level) p va (hung_label lab p level va) root ps
              (hung s1 p t level va) (grow-IsSpace va ps s s1 a pool1 space.free.1 others)
              (rw (==-true {a = p} {b = p} refl)) (omega arith) (omega arith))
    ]
