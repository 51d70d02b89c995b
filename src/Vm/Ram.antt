-- ===== src/Vm/Ram.antt =====
-- The loops of `create_vm` that add cleared memory.
use mvmm.Base.{
  ℕ, zero, suc, ◌+◌, ◌*◌, ◌%◌, ◌^◌, ◌<◌, ◌≤◌, ◌≡◌, ◌≢◌, List, [], ◌∷◌, length, ok, arith, refl, ap,
  ◌∙◌, ==-false,
}
use mvmm.Kalloc.{Pmem, page_size, kalloc}
use mvmm.Kalloc.Pool.{kalloc-page}
use mvmm.Mm.{pagemap}
use mvmm.Mm.Tables.{Labels}
use mvmm.Mm.Walk.{IsSpace}
use mvmm.Vm.{s2pte_ram, ram_page, ram_pages}
use mvmm.Vm.Grown.{
  taken_lem, Content, Grown, Stable, Grown-nil, Grown-cons, Unused, Unused-rest, map-Taken,
}

abbrev pub Zeroed : Content
Zeroed i p m = (b : ℕ) → p ≤ b → b < p + page_size → m b ≡ 0

pub Zeroed-Stable : Stable Zeroed
Zeroed-Stable i p m m' same zero_p b lo hi = same b lo hi ∙ zero_p b lo hi

ram_page_lem :
    (me root va q : ℕ) (s s1 s2 : Pmem)
    → q ≢ 0
    → kalloc me s ≡ ok (q, s1)
    → pagemap me root va q page_size s2pte_ram s1 ≡ ok s2
    → ram_page me root va s ≡ ok s2
unfolding ram_page
ram_page_lem me root va q s s1 s2 ne got mapped = rw (got, ==-false ne) mapped

ram_pages-suc :
    (me root n base p va : ℕ) (s s2 s' : Pmem)
    → base + p ≡ va
    → va + page_size < 2 ^ 64
    → ram_page me root va s ≡ ok s2
    → ram_pages me n root base (p + page_size) s2 ≡ ok s'
    → ram_pages me (suc n) root base p s ≡ ok s'
unfolding ram_pages
ram_pages-suc me root n base p va s s2 s' e low one rest =
    let here : (base + p) % 2 ^ 64 ≡ va = omega arith in
    let next : (p + page_size) % 2 ^ 64 ≡ p + page_size = omega arith in rw (here, next, one) rest

-- Over well-formed tables, with four free pages for each page of the range, and no page of the range in
-- use, the loop gives the guest a page of its own for each page of the range, cleared and different
-- from every other: none of them is a table, free, or was in use before. The tables and the pool stay
-- well formed, no other address changes its descriptor, and no page that was in use changes.
pub ram_pages-Grown :
    (i me root n base p va : ℕ) (lab : Labels) (ps : List ℕ) (s : Pmem)
    → base + p ≡ va
    → IsSpace lab root s ps
    → 4 * n ≤ length ps
    → va % page_size ≡ 0
    → va + n * page_size ≤ 2 ^ 48
    → Unused s.mem root va n
    → (s' : Pmem) × (lab' : Labels) × (ps' pages : List ℕ) × (ram_pages me n root base p s ≡ ok s')
      × (length pages ≡ n)
      × Grown Zeroed i lab lab' root ps ps' pages va s s'
unfolding ram_pages
ram_pages-Grown i me root zero base p va lab ps s e space enough al low unused =
    (s, lab, ps, [], refl, refl, Grown-nil Zeroed i lab root ps va s space)
ram_pages-Grown i me root (suc n) base p va lab [] s e space enough al low unused =
    absurd (omega arith)
ram_pages-Grown i me root (suc n) base p va lab (q ∷ ps) s e space enough al low unused =
    let (s1, got, pool, cleared, same) = kalloc-page me q ps space.pool in
    let taken = taken_lem lab root q ps s s1 space pool same in
    let (s2, lab1, ps1, mapped, one) =
      map-Taken me root va n q lab ps s s1 al (omega arith) taken unused in
    let room = one.room in
    let (s', lab', ps', pages, ran, count, rest) =
      ram_pages-Grown (suc i) me root n base (p + page_size) (va + page_size) lab1 ps1 s2
        (omega arith) one.space (omega arith) (omega arith) (omega arith)
        (Unused-rest va n al low taken one unused) in
    (
      s',
      lab',
      ps',
      q ∷ pages,
      ram_pages-suc me root n base p va s s2 s' e (omega arith)
          (ram_page_lem me root va q s s1 s2 taken.is_page.ne_null got mapped) ran,
      ap suc count,
      Grown-cons Zeroed i lab lab1 lab' root q ps ps1 ps' pages va s s1 s2 s' Zeroed-Stable al
          (omega arith) cleared taken one rest,
    )
