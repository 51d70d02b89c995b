-- ===== src/Mm/Range.antt =====
-- `pagemap` over a range of pages.
use mvmm.Base.{
  ℕ, zero, suc, ◌+◌, ◌*◌, ◌/◌, ◌%◌, ◌^◌, ◌<◌, ◌≤◌, ◌≡◌, ◌≢◌, true, ◌==◌, bit_and, arith, sym, ◌∙◌,
  ap, List, length, ok, refl,
}
use mvmm.Kalloc.{Pmem, page_size}
use mvmm.Mm.{pte_af, page_entry, map_page, map_pages, pagemap}
use mvmm.Mm.Tables.{Labels, page_number, entry}
use mvmm.Mm.Walk.{IsSpace, IsData, SamePage}
use mvmm.Mm.Map.{MappedPage, map_page-MappedPage}
use mvmm.Mm.Leaf.{page_number_lem}

-- Page `k` of the range from `a`.
abbrev pub page_at : ℕ → ℕ → ℕ
page_at a k = a + k * page_size

-- What `pagemap` of `n` pages leaves.
pub record MappedRange (lab lab' : Labels) (root : ℕ) (ps ps' : List ℕ) (n va pa attr : ℕ)
    (s s' : Pmem) : Type 0 where
  pub space : IsSpace lab' root s' ps'
  pub mapped : (k : ℕ) → k < n → entry s'.mem root (page_at va k) ≡ page_entry (page_at pa k) attr
  pub others :
      (va' : ℕ)
      → ((k : ℕ) → k < n → page_number va' ≢ page_number (page_at va k))
      → entry s'.mem root va' ≡ entry s.mem root va'
  pub data_kept : (q : ℕ) → IsData lab ps q → IsData lab' ps' q × SamePage q s.mem s'.mem

abbrev RangeResult : ℕ → Labels → ℕ → List ℕ → ℕ → ℕ → ℕ → ℕ → Pmem → Type 0
RangeResult me lab root ps n va pa attr s =
    (s' : Pmem) × (lab' : Labels) × (ps' : List ℕ) × (map_pages me n root va pa attr s ≡ ok s')
    × MappedRange lab lab' root ps ps' n va pa attr s s'

-- Different pages of a range below 2^48 have different numbers.
pub page_at-ne :
    (va k l : ℕ)
    → va % page_size ≡ 0
    → page_at va k < 2 ^ 48
    → page_at va l < 2 ^ 48
    → k ≢ l
    → page_number (page_at va k) ≢ page_number (page_at va l)
page_at-ne va k l al hk hl ne e =
    omega (arith, page_number_lem (page_at va k), page_number_lem (page_at va l))

pub shift : (a k : ℕ) → page_at (a + page_size) k ≡ page_at a (suc k)
shift a k = omega arith

pub start : (a : ℕ) → a ≡ page_at a 0
start a = omega arith

map_pages-cons :
    (me root n va pa attr : ℕ) (lab lab1 : Labels) (ps ps1 : List ℕ) (s s1 : Pmem)
    → va % page_size ≡ 0
    → va + suc n * page_size ≤ 2 ^ 48
    → pa + suc n * page_size < 2 ^ 64
    → map_page me root va pa attr s ≡ ok s1
    → MappedPage lab lab1 root ps ps1 va (page_entry pa attr) s s1
    → RangeResult me lab1 root ps1 n (va + page_size) (pa + page_size) attr s1
    → RangeResult me lab root ps (suc n) va pa attr s
unfolding map_pages
map_pages-cons me root n va pa attr lab lab1 ps ps1 s s1 al low lowp ran one
      (s', lab', ps', ran', more) =
    let next : (va + page_size) % 2 ^ 64 ≡ va + page_size = omega arith in
    let nextp : (pa + page_size) % 2 ^ 64 ≡ pa + page_size = omega arith in
    let first : entry s'.mem root (page_at va 0) ≡ page_entry (page_at pa 0) attr =
      ap (λ (x : ℕ). entry s'.mem root x) (sym (start va))
      ∙ more.others va (λ k lt e.
        page_at-ne va 0 (suc k) al (omega arith) (omega arith) (omega arith) (
          ap (λ (x : ℕ). page_number x) (sym (start va))
          ∙ e
          ∙ ap (λ (x : ℕ). page_number x) (shift va k)))
      ∙ one.here
      ∙ ap (λ (x : ℕ). page_entry x attr) (start pa) in
    let later : (k : ℕ)
        → k < n
        → entry s'.mem root (page_at va (suc k)) ≡ page_entry (page_at pa (suc k)) attr =
      λ k lt.
        ap (λ (x : ℕ). entry s'.mem root x) (sym (shift va k))
        ∙ more.mapped k lt
        ∙ ap (λ (x : ℕ). page_entry x attr) (shift pa k) in
    (
      s',
      lab',
      ps',
      rw (ran, next, nextp) ran',
      record {
        space = more.space;
        mapped = elim [ zero ↦ λ lt. first | suc k ↦ λ lt. later k (omega arith) ];
        others = λ va' ne.
            more.others va'
              (λ k lt e. ne (suc k) (omega arith) (e ∙ ap (λ (x : ℕ). page_number x) (shift va k)))
            ∙ one.others va'
                (λ e. ne 0 (omega arith) (e ∙ ap (λ (x : ℕ). page_number x) (start va)));
        data_kept = λ q d.
            let (d1, same1) = one.data_kept q d in
            let (d', same') = more.data_kept q d1 in (d', λ b lo hi. same' b lo hi ∙ same1 b lo hi);
      },
    )

map_pages-MappedRange :
    (me root n va pa attr : ℕ) (lab : Labels) (ps : List ℕ) (s : Pmem)
    → IsSpace lab root s ps
    → 3 * n ≤ length ps
    → attr < 2 ^ 64
    → va % page_size ≡ 0
    → va + n * page_size ≤ 2 ^ 48
    → pa + n * page_size < 2 ^ 64
    → ((k : ℕ) → k < n → (bit_and (entry s.mem root (page_at va k)) pte_af == 0) ≡ true)
    → RangeResult me lab root ps n va pa attr s
unfolding map_pages
map_pages-MappedRange me root zero va pa attr lab ps s space enough lt al low lowp unused = (
  s,
  lab,
  ps,
  refl,
  record {
    space = space;
    mapped = λ k h. absurd (omega arith);
    others = λ va' ne. refl;
    data_kept = λ q d. (d, λ b lo hi. refl);
  },
)
map_pages-MappedRange me root (suc n) va pa attr lab ps s space enough lt al low lowp unused =
    let (s1, lab1, ps1, ran, one) =
      map_page-MappedPage me root va pa attr lab ps s space (omega arith) lt (
        ap (λ (x : ℕ). bit_and (entry s.mem root x) pte_af == 0) (start va)
        ∙ unused 0 (omega arith)) in
    let room = one.room in
    let still : (k : ℕ)
        → k < n
        → (bit_and (entry s1.mem root (page_at (va + page_size) k)) pte_af == 0) ≡ true =
      λ k h.
        ap (λ (x : ℕ). bit_and (entry s1.mem root x) pte_af == 0) (shift va k)
        ∙ ap (λ (x : ℕ). bit_and x pte_af == 0)
            (one.others (page_at va (suc k)) (λ e.
              page_at-ne va (suc k) 0 al (omega arith) (omega arith) (omega arith)
                (e ∙ ap (λ (x : ℕ). page_number x) (start va))))
        ∙ unused (suc k) (omega arith) in
    map_pages-cons me root n va pa attr lab lab1 ps ps1 s s1 al low lowp ran one (
      map_pages-MappedRange me root n (va + page_size) (pa + page_size) attr lab1 ps1 s1 one.space
        (omega arith) lt (omega arith) (omega arith) (omega arith) still)

-- Over well-formed tables, `pagemap` of an aligned range below 2^48 whose pages are all unused, with three free pages for each
-- page of the range, succeeds: page `k` of the range gets the descriptor for page `k` of the physical
-- range, no other address changes its descriptor, and no page of the guest changes.
pub pagemap-MappedRange :
    (me root n va pa attr : ℕ) (lab : Labels) (ps : List ℕ) (s : Pmem)
    → IsSpace lab root s ps
    → 3 * n ≤ length ps
    → attr < 2 ^ 64
    → va % page_size ≡ 0
    → pa % page_size ≡ 0
    → va + n * page_size ≤ 2 ^ 48
    → pa + n * page_size < 2 ^ 64
    → ((k : ℕ) → k < n → (bit_and (entry s.mem root (page_at va k)) pte_af == 0) ≡ true)
    → (s' : Pmem) × (lab' : Labels) × (ps' : List ℕ) × (pagemap me root va pa (n * page_size) attr s
        ≡ ok s')
      × MappedRange lab lab' root ps ps' n va pa attr s s'
unfolding pagemap
pagemap-MappedRange me root n va pa attr lab ps s space enough lt al alp low lowp unused =
    let rounds : n * page_size / page_size ≡ n = omega arith in
    let whole : n * page_size % page_size ≡ 0 = omega arith in
    rw (al, alp, whole, rounds)
      (map_pages-MappedRange me root n va pa attr lab ps s space enough lt al low lowp unused)
