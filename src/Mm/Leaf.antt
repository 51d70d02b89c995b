-- ===== src/Mm/Leaf.antt =====
-- Writing a level-3 entry.
use mvmm.Base.{
  ℕ, zero, suc, ◌+◌, ◌*◌, ◌/◌, ◌%◌, ◌^◌, ◌<◌, ◌≡◌, ◌≢◌, ◌⊎◌, refl, some, ◌==◌, arith, inl, inr,
  Bool-cases, sym, ◌∙◌, ap, ap₂,
}
use mvmm.Memory.{Mem, load64, store64}
use mvmm.Memory.Laws.{load-store_apart}
use mvmm.Mm.{pidx, pte_pa, is_table}
use mvmm.Mm.Entry.{pidx-lt, pidx_lem}
use mvmm.Mm.Tables.{
  Labels, prefix, page_number, slot, IsTables, entry_from, find, slots_apart, label_unique,
}

-- The tables see 36 bits of page number.
pub page_number_lem : (va : ℕ) → page_number va ≡ va / 4096 % 2 ^ 36
unfolding prefix
page_number_lem va = omega (arith, pidx_lem 0 va, pidx_lem 1 va, pidx_lem 2 va, pidx_lem 3 va)

-- Where the walk finds an entry, that entry is the descriptor.
pub find-entry_from :
    (left level : ℕ) (m : Mem) (q va r : ℕ)
    → find left level m q va ≡ r
    → r ≢ 0
    → entry_from left level m q va ≡ load64 m r
unfolding find entry_from
find-entry_from zero level m q va r e ne = ap (load64 m) e
find-entry_from (suc left) level m q va r e ne =
    elim (Bool-cases (is_table (load64 m (slot q (pidx level va))))) [
      | inl tab ↦ rw tab (
          find-entry_from left (suc level) m (pte_pa (load64 m (slot q (pidx level va)))) va r
            (rw tab at e) ne)
      | inr empty ↦ absurd (ne (sym (rw empty at e)))
    ]

-- Where the walk finds none, the descriptor is 0; an entry of a table has an address other than 0.
pub find-zero :
    (lab : Labels) (root left level : ℕ) (m : Mem) (q preq va : ℕ)
    → IsTables lab root m
    → lab q ≡ some (level, preq)
    → level + left ≡ 3
    → find left level m q va ≡ 0
    → entry_from left level m q va ≡ 0
unfolding find entry_from
find-zero lab root zero level m q preq va tables at e none_there =
    let page = tables.page q level preq at in let ne = page.ne_null in absurd (omega arith)
find-zero lab root (suc left) level m q preq va tables at e none_there =
    elim (Bool-cases (is_table (load64 m (slot q (pidx level va))))) [
      | inl tab ↦ rw tab (
          find-zero lab root left (suc level) m (pte_pa (load64 m (slot q (pidx level va))))
            (preq * 512 + pidx level va) va tables
            (tables.child q level preq (pidx level va) at (omega arith) (pidx-lt level va) tab)
            (omega arith) (rw tab at none_there))
      | inr empty ↦ rw empty
    ]

module _ {lab : Labels} {root : ℕ} {m : Mem} (tables : IsTables lab root m) (t va v : ℕ)
    (at : lab t ≡ some (3, prefix 3 va)) where
  -- A different entry keeps its value.
  leaf-other :
      (q lq preq j : ℕ)
      → lab q ≡ some (lq, preq)
      → j < 512
      → (t ≢ q) ⊎ (pidx 3 va ≢ j)
      → load64 (store64 m (slot t (pidx 3 va)) v) (slot q j) ≡ load64 m (slot q j)
  leaf-other q lq preq j e lt ne =
      let tp = tables.page t 3 (prefix 3 va) at in
      let qp = tables.page q lq preq e in
      let apart = slots_apart t (pidx 3 va) q j tp.aligned qp.aligned (pidx-lt 3 va) lt ne in
      load-store_apart 8 8 m (slot t (pidx 3 va)) v (slot q j) (omega arith)

  leaf-upper :
      (q lq preq j : ℕ)
      → lab q ≡ some (lq, preq)
      → lq < 3
      → j < 512
      → load64 (store64 m (slot t (pidx 3 va)) v) (slot q j) ≡ load64 m (slot q j)
  leaf-upper q lq preq j e up lt =
      leaf-other q lq preq j e lt
        (inl (λ same. omega (arith, label_unique lab t q 3 (prefix 3 va) lq preq at e same)))

  pub leaf-IsTables : IsTables lab root (store64 m (slot t (pidx 3 va)) v)
  leaf-IsTables = record {
    at_root = tables.at_root;
    page = tables.page;
    child = λ q lq preq j e up lt tab.
        let same = leaf-upper q lq preq j e up lt in
        rw same (tables.child q lq preq j e up lt (rw same at tab));
  }

  pub leaf-find :
      (left level q preq va' : ℕ)
      → level + left ≡ 3
      → lab q ≡ some (level, preq)
      → find left level (store64 m (slot t (pidx 3 va)) v) q va' ≡ find left level m q va'
  unfolding find
  leaf-find zero level q preq va' e h = refl
  leaf-find (suc left) level q preq va' e h =
      rw (leaf-upper q level preq (pidx level va') h (omega arith) (pidx-lt level va'))
        (elim (Bool-cases (is_table (load64 m (slot q (pidx level va'))))) [
          | inl tab ↦ rw tab (
              leaf-find left (suc level) (pte_pa (load64 m (slot q (pidx level va'))))
                (preq * 512 + pidx level va') va' (omega arith)
                (tables.child q level preq (pidx level va') h (omega arith) (pidx-lt level va')
                  tab))
          | inr empty ↦ rw empty
        ])

  -- Addresses of other pages keep their descriptor.
  pub leaf-entry_from :
      (left level q va' : ℕ)
      → level + left ≡ 3
      → lab q ≡ some (level, prefix level va')
      → page_number va' ≢ page_number va
      → entry_from left level (store64 m (slot t (pidx 3 va)) v) q va'
        ≡ entry_from left level m q va'
  unfolding entry_from prefix
  leaf-entry_from zero level q va' e h ne =
      leaf-other q level (prefix level va') (pidx 3 va') h (pidx-lt 3 va')
        (elim (Bool-cases (t == q)) [
          | inl eq ↦
              let labels =
                label_unique lab t q 3 (prefix 3 va) level (prefix level va') at h (ground arith) in
              let three : prefix level va' ≡ prefix 3 va' =
                ap (λ (k : ℕ). prefix k va') (sym labels.0) in
              let high : prefix 3 va' ≡ prefix 3 va = sym three ∙ sym labels.1 in
              inr (λ same. ne (ap₂ (λ (x y : ℕ). x * 512 + y) high (sym same)))
          | inr differ ↦ inl (ground arith)
        ])
  leaf-entry_from (suc left) level q va' e h ne =
      rw
        (leaf-upper q level (prefix level va') (pidx level va') h (omega arith) (pidx-lt level va'))
        (elim (Bool-cases (is_table (load64 m (slot q (pidx level va'))))) [
          | inl tab ↦ rw tab (
              leaf-entry_from left (suc level) (pte_pa (load64 m (slot q (pidx level va')))) va'
                (omega arith)
                (tables.child q level (prefix level va') (pidx level va') h (omega arith)
                  (pidx-lt level va') tab)
                ne)
          | inr empty ↦ rw empty
        ])
