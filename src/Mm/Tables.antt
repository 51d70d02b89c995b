-- ===== src/Mm/Tables.antt =====
-- The tree of tables under a root, by a label for each table page: its level, and the part of the
-- guest addresses that leads to it. A page has one label, so no table has two parents.
use mvmm.Base.{
  ℕ, zero, suc, ◌+◌, ◌*◌, ◌%◌, ◌<◌, ◌≤◌, ◌≡◌, ◌≢◌, ◌⊎◌, Option, some, true, if◌then◌else◌, arith,
  ap,
}
use mvmm.Memory.{Mem, load64}
use mvmm.Kalloc.{page_size}
use mvmm.Kalloc.Pool.{IsPage}
use mvmm.Mm.{pidx, pte_pa, is_table}

-- Level and prefix of a table page; `none` for every other page.
abbrev pub Labels : Type 0
Labels = ℕ → Option (ℕ × ℕ)

-- The prefix of `va` above level `l`: nine bits for each level.
unfoldable pub prefix : ℕ → ℕ → ℕ
prefix zero va = 0
prefix (suc l) va = prefix l va * 512 + pidx l va

-- The number of the page that `va` lies in, as the tables see it.
abbrev pub page_number : ℕ → ℕ
page_number va = prefix 4 va

-- Entry `i` of the table at `t`.
abbrev pub slot : ℕ → ℕ → ℕ
slot t i = t + 8 * i

-- Every labelled page is a page, and every table descriptor above level 3 leads to the table with
-- the label one level down.
pub record IsTables (lab : Labels) (root : ℕ) (m : Mem) : Type 0 where
  pub at_root : lab root ≡ some (0, 0)
  pub page : (t l pre : ℕ) → lab t ≡ some (l, pre) → IsPage t
  pub child :
      (t l pre i : ℕ)
      → lab t ≡ some (l, pre)
      → l < 3
      → i < 512
      → is_table (load64 m (slot t i)) ≡ true
      → lab (pte_pa (load64 m (slot t i))) ≡ some (suc l, pre * 512 + i)

-- The descriptor that the tables hold for `va`: 0 where a table is missing on the way.
unfoldable pub entry_from : ℕ → ℕ → Mem → ℕ → ℕ → ℕ
entry_from zero level m t va = load64 m (slot t (pidx 3 va))
entry_from (suc left) level m t va =
    let e = load64 m (slot t (pidx level va)) in
    if is_table e then entry_from left (suc level) m (pte_pa e) va else 0

unfoldable pub entry : Mem → ℕ → ℕ → ℕ
entry m root va = entry_from 3 0 m root va

-- The address of that descriptor, 0 where a table is missing.
unfoldable pub find : ℕ → ℕ → Mem → ℕ → ℕ → ℕ
find zero level m t va = slot t (pidx 3 va)
find (suc left) level m t va =
    let e = load64 m (slot t (pidx level va)) in
    if is_table e then find left (suc level) m (pte_pa e) va else 0

-- Different entries of tables are apart in memory.
pub slots_apart :
    (t i t' i' : ℕ)
    → t % page_size ≡ 0
    → t' % page_size ≡ 0
    → i < 512
    → i' < 512
    → (t ≢ t') ⊎ (i ≢ i')
    → (slot t i + 8 ≤ slot t' i') ⊎ (slot t' i' + 8 ≤ slot t i)
slots_apart t i t' i' a a' h h' ne = omega arith

-- A page has one label.
pub label_unique :
    (lab : Labels) (t q l pre l' pre' : ℕ)
    → lab t ≡ some (l, pre)
    → lab q ≡ some (l', pre')
    → t ≡ q
    → (l ≡ l') × (pre ≡ pre')
label_unique lab t q l pre l' pre' e e' same = ground (arith, ap lab same)
