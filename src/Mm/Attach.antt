-- ===== src/Mm/Attach.antt =====
-- Hanging a fresh, zeroed table page into an empty entry.
use mvmm.Base.{
  ℕ, zero, suc, ◌+◌, ◌*◌, ◌<◌, ◌≤◌, ◌≡◌, ◌≢◌, ◌⊎◌, refl, none, some, true, false, ◌==◌,
  if◌then◌else◌, arith, inl, inr, Bool-cases, ◌&&◌, ==-false, ==-true, sym, ◌∙◌, ap, ap₂,
}
use mvmm.Memory.{Mem, load64, store64}
use mvmm.Memory.Laws.{load_ext, load-store_apart, load-store_self, load-zero}
use mvmm.Kalloc.{page_size}
use mvmm.Kalloc.Pool.{IsPage, SameOutsidePage}
use mvmm.Mm.{pidx, pte_pa, is_table, table_entry}
use mvmm.Mm.Entry.{pidx-lt, is_table-table_entry, pte_pa-table_entry, is_table-zero, table_entry-lt}
use mvmm.Mm.Tables.{Labels, slot, IsTables, entry_from, slots_apart, label_unique}

-- What is known when `pagewalk` has taken the page `p` for entry `i` of the table `t`.
pub record Attaching (lab : Labels) (root : ℕ) (m m1 : Mem) (p t l pre i : ℕ) : Type 0 where
  pub tables : IsTables lab root m
  pub unused : lab p ≡ none
  pub fresh : IsPage p
  pub same : SameOutsidePage p m m1
  pub zeroed : (b : ℕ) → p ≤ b → b < p + page_size → m1 b ≡ 0
  pub parent : lab t ≡ some (l, pre)
  pub upper : l < 3
  pub index : i < 512
  pub empty : is_table (load64 m (slot t i)) ≡ false

-- The new label.
abbrev pub attach_label : Labels → ℕ → ℕ → ℕ → ℕ → Labels
attach_label lab p l pre i q = if q == p then some (suc l, pre * 512 + i) else lab q

module _ {lab : Labels} {root : ℕ} {m m1 : Mem} {p t l pre i : ℕ}
    (a : Attaching lab root m m1 p t l pre i) where
  pub other_page : (q : ℕ) (x : ℕ × ℕ) → lab q ≡ some x → q ≢ p
  other_page q x e = λ same. let u = a.unused in cc (ap lab same)

  -- Every other entry of a table keeps its value.
  pub attach-other :
      (q lq preq j : ℕ)
      → lab q ≡ some (lq, preq)
      → j < 512
      → (t ≢ q) ⊎ (i ≢ j)
      → load64 (store64 m1 (slot t i) (table_entry p)) (slot q j) ≡ load64 m (slot q j)
  attach-other q lq preq j e lt ne =
      let tp = a.tables.page t l pre a.parent in
      let qp = a.tables.page q lq preq e in
      let off = other_page q (lq, preq) e in
      let pa = a.fresh.aligned in
      let qa = qp.aligned in
      let apart = slots_apart t i q j tp.aligned qp.aligned a.index lt ne in
      load-store_apart 8 8 m1 (slot t i) (table_entry p) (slot q j) (omega arith)
      ∙ load_ext 8 m m1 (slot q j) (λ b lo hi. a.same b (omega arith))

  pub attach_self : load64 (store64 m1 (slot t i) (table_entry p)) (slot t i) ≡ table_entry p
  attach_self = load-store_self 8 m1 (slot t i) (table_entry p) (table_entry-lt a.fresh)

  pub attach-fresh :
      (j : ℕ) → j < 512 → load64 (store64 m1 (slot t i) (table_entry p)) (slot p j) ≡ 0
  attach-fresh j lt =
      let tp = a.tables.page t l pre a.parent in
      let off = other_page t (l, pre) a.parent in
      let pa = a.fresh.aligned in
      let apart = slots_apart t i p j tp.aligned pa a.index lt (inl off) in
      load-store_apart 8 8 m1 (slot t i) (table_entry p) (slot p j) (omega arith)
      ∙ load-zero 8 m1 (slot p j) (λ b lo hi. a.zeroed b (omega arith) (omega arith))

  -- Nothing is mapped below the fresh table.
  entry_from-fresh :
      (left level va : ℕ) → entry_from left level (store64 m1 (slot t i) (table_entry p)) p va ≡ 0
  unfolding entry_from
  entry_from-fresh zero level va = attach-fresh (pidx 3 va) (pidx-lt 3 va)
  entry_from-fresh (suc left) level va =
      rw (attach-fresh (pidx level va) (pidx-lt level va), is_table-zero)

  -- No address changes its descriptor: what the new entry leads to is as empty as the old one.
  pub attach-entry_from :
      (left level q preq va : ℕ)
      → level + left ≡ 3
      → lab q ≡ some (level, preq)
      → entry_from left level (store64 m1 (slot t i) (table_entry p)) q va
        ≡ entry_from left level m q va
  unfolding entry_from
  attach-entry_from zero level q preq va e at =
      let lt = a.upper in
      attach-other q level preq (pidx 3 va) at (pidx-lt 3 va)
        (inl (λ same. omega (arith, label_unique lab t q l pre level preq a.parent at same)))
  attach-entry_from (suc left) level q preq va e at =
      let j : ℕ = pidx level va in
      let down : is_table (load64 m (slot q j)) ≡ true
          → entry_from left (suc level) (store64 m1 (slot t i) (table_entry p))
              (pte_pa (load64 m (slot q j))) va
            ≡ entry_from left (suc level) m (pte_pa (load64 m (slot q j))) va =
        λ tab.
          attach-entry_from left (suc level) (pte_pa (load64 m (slot q j))) (preq * 512 + j) va
            (omega arith) (a.tables.child q level preq j at (omega arith) (pidx-lt level va) tab) in
      elim (Bool-cases ((t == q) && (i == j))) [
        | inl same ↦
            let tq : q ≡ t = ground arith in
            let ij : j ≡ i = ground arith in
            let here : load64 (store64 m1 (slot t i) (table_entry p)) (slot q j) ≡ table_entry p =
              ap₂ (λ x y. load64 (store64 m1 (slot t i) (table_entry p)) (slot x y)) tq ij
              ∙ attach_self in
            let old : is_table (load64 m (slot q j)) ≡ false =
              ap₂ (λ x y. is_table (load64 m (slot x y))) tq ij ∙ a.empty in
            rw (here, is_table-table_entry a.fresh, pte_pa-table_entry a.fresh, old)
              (entry_from-fresh left (suc level) va)
        | inr differ ↦
            rw (attach-other q level preq j at (pidx-lt level va) (ground arith))
              (elim (Bool-cases (is_table (load64 m (slot q j)))) [
                | inl tab ↦ rw (tab, down tab)
                | inr leaf ↦ rw leaf
              ])
      ]

  pub attach_label-old :
      (q : ℕ) (x : ℕ × ℕ) → lab q ≡ some x → attach_label lab p l pre i q ≡ some x
  attach_label-old q x e = rw (==-false (other_page q x e)) e

  -- A page with a label after the attachment is the new one, or had the label before.
  attach_label-cases :
      (q lq preq : ℕ)
      → attach_label lab p l pre i q ≡ some (lq, preq)
      → ((q ≡ p) × (suc l ≡ lq)) ⊎ (lab q ≡ some (lq, preq))
  attach_label-cases q lq preq e = elim (Bool-cases (q == p)) [
    | inl new ↦ inl (ground arith, ground arith)
    | inr old ↦ inr (rw old at e)
  ]

  attach-child :
      (q lq preq j : ℕ)
      → lab q ≡ some (lq, preq)
      → lq < 3
      → j < 512
      → is_table (load64 (store64 m1 (slot t i) (table_entry p)) (slot q j)) ≡ true
      → attach_label lab p l pre i
          (pte_pa (load64 (store64 m1 (slot t i) (table_entry p)) (slot q j)))
        ≡ some (suc lq, preq * 512 + j)
  attach-child q lq preq j at up lt tab = elim (Bool-cases ((t == q) && (i == j))) [
    | inl same ↦
        let tq : t ≡ q = ground arith in
        let ij : i ≡ j = ground arith in
        let labels = label_unique lab t q l pre lq preq a.parent at tq in
        let value : pte_pa (load64 (store64 m1 (slot t i) (table_entry p)) (slot q j)) ≡ p =
          sym
            (ap₂ (λ x y. pte_pa (load64 (store64 m1 (slot t i) (table_entry p)) (slot x y))) tq ij)
          ∙ ap pte_pa attach_self
          ∙ pte_pa-table_entry a.fresh in
        rw (value, ==-true {a = p} {b = p} refl) (ground arith)
    | inr differ ↦
        let kept = attach-other q lq preq j at lt (ground arith) in
        rw kept (
          attach_label-old (pte_pa (load64 m (slot q j))) (suc lq, preq * 512 + j)
            (a.tables.child q lq preq j at up lt (rw kept at tab)))
  ]

  -- The tables with the new one are tables.
  pub attach-IsTables :
      IsTables (attach_label lab p l pre i) root (store64 m1 (slot t i) (table_entry p))
  attach-IsTables = record {
    at_root = attach_label-old root (0, 0) a.tables.at_root;
    page = λ q lq preq e. elim (attach_label-cases q lq preq e) [
      | inl new ↦ rw (new.0) a.fresh
      | inr old ↦ a.tables.page q lq preq old
    ];
    child = λ q lq preq j e up lt tab. elim (attach_label-cases q lq preq e) [
      | inl new ↦
          let none_there : is_table (load64 (store64 m1 (slot t i) (table_entry p)) (slot q j))
              ≡ false =
            ap (λ (x : ℕ). is_table (load64 (store64 m1 (slot t i) (table_entry p)) (slot x j)))
              new.0
            ∙ ap is_table (attach-fresh j lt)
            ∙ is_table-zero in
          cc
      | inr old ↦ attach-child q lq preq j old up lt tab
    ];
  }
