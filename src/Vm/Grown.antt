-- ===== src/Vm/Grown.antt =====
-- A page that is taken from the pool and mapped for the guest, and a range of them.
use mvmm.Base.{
  ℕ, suc, ◌+◌, ◌*◌, ◌%◌, ◌^◌, ◌<◌, ◌≤◌, ◌≡◌, ◌≢◌, bit_and, ◌==◌, true, List, [], ◌∷◌, length, All,
  All-map, ok, ◌>>=◌, arith, refl, sym, ap, ◌∙◌,
}
use mvmm.Memory.{Mem}
use mvmm.Kalloc.{Pmem, page_size}
use mvmm.Kalloc.Pool.{IsPool, IsPage, SameOutsidePage}
use mvmm.Mm.{pte_af, page_entry, map_page, pagemap}
use mvmm.Mm.Tables.{Labels, page_number, entry}
use mvmm.Mm.Walk.{IsSpace, IsData, SamePage}
use mvmm.Mm.Frame.{page-SameSlots, frame-IsTables, frame-entry_from}
use mvmm.Mm.Range.{page_at, page_at-ne, shift, start}
use mvmm.Mm.Map.{MappedPage, map_page-MappedPage}
use mvmm.Vm.{s2pte_ram}

-- A page `p` that came out of the pool, with what was written into it since.
pub record Taken (lab : Labels) (root p : ℕ) (ps : List ℕ) (s s1 : Pmem) : Type 0 where
  pub space : IsSpace lab root s1 ps
  pub is_page : IsPage p
  pub here : IsData lab ps p
  pub entries : (va : ℕ) → entry s1.mem root va ≡ entry s.mem root va
  pub data_kept : (q : ℕ) → IsData lab (p ∷ ps) q → IsData lab ps q × SamePage q s.mem s1.mem

-- A page of the pool that is taken, and whatever is written into it and nowhere else.
pub taken_lem :
    (lab : Labels) (root p : ℕ) (ps : List ℕ) (s s1 : Pmem)
    → IsSpace lab root s (p ∷ ps)
    → IsPool s1 ps
    → SameOutsidePage p s.mem s1.mem
    → Taken lab root p ps s s1
unfolding entry
taken_lem lab root p ps s s1 space pool same =
    let page = space.pool.chain.1 in
    let slots = page-SameSlots space.tables p page.aligned space.free.0 same in
    record {
      space = record {
        tables = frame-IsTables s1.mem space.tables slots;
        pool = pool;
        free = space.free.1;
      };
      is_page = page;
      here = record {
        aligned = page.aligned;
        not_table = space.free.0;
        not_free =
            All-map {P = λ q. q ≢ p} {Q = λ q. p ≢ q} (λ q ne e. ne (sym e)) ps space.pool.chain.2;
      };
      entries = λ va.
          (frame-entry_from s1.mem space.tables slots 3 0 root 0 va refl space.tables.at_root).0;
      data_kept = λ q d.
          let ne = d.not_free.0 in
          let qa = d.aligned in
          let pa = page.aligned in
          (
            record { aligned = d.aligned; not_table = d.not_table; not_free = d.not_free.1 },
            λ b lo hi. same b (omega arith),
          );
    }

-- `pagemap` of one page.
pub pagemap-page :
    (me root va pa attr : ℕ) (s s' : Pmem)
    → va % page_size ≡ 0
    → pa % page_size ≡ 0
    → map_page me root va pa attr s ≡ ok s'
    → pagemap me root va pa page_size attr s ≡ ok s'
unfolding pagemap
pagemap-page me root va pa attr s s' al alp ran = rw (al, alp) (ap (λ r. r >>= (λ s1. ok s1)) ran)

abbrev pub Distinct : List ℕ → Type 0
Distinct [] = Unit
Distinct (p ∷ ps) = All (λ q. q ≢ p) ps × Distinct ps

-- The pages of the list are mapped from `va` on, in order.
abbrev pub Mapped : Mem → ℕ → ℕ → List ℕ → Type 0
Mapped m root va [] = Unit
Mapped m root va (p ∷ ps) =
    (entry m root va ≡ page_entry p s2pte_ram) × Mapped m root (va + page_size) ps

-- What is known of the contents of page number `i`, which is at `p`.
abbrev pub Content : Type 1
Content = ℕ → ℕ → Mem → Type 0

abbrev pub Filled : Content → ℕ → Mem → List ℕ → Type 0
Filled C i m [] = Unit
Filled C i m (p ∷ ps) = C i p m × Filled C (suc i) m ps

-- Pages that were taken from the pool and mapped from `va` on: they are no tables, not free, all
-- different, and no page that was in use before; the rest of the address space is as it was.
pub record Grown (C : Content) (i : ℕ) (lab lab' : Labels) (root : ℕ) (ps ps' pages : List ℕ)
    (va : ℕ) (s s' : Pmem) : Type 0 where
  pub space : IsSpace lab' root s' ps'
  pub mapped : Mapped s'.mem root va pages
  pub filled : Filled C i s'.mem pages
  pub others :
      (va' : ℕ)
      → ((k : ℕ) → k < length pages → page_number va' ≢ page_number (page_at va k))
      → entry s'.mem root va' ≡ entry s.mem root va'
  pub room : length ps ≤ length ps' + 4 * length pages
  pub own : All (λ p. IsData lab' ps' p) pages
  pub distinct : Distinct pages
  pub apart : (q : ℕ) → IsData lab ps q → All (λ p. q ≢ p) pages
  pub data_kept : (q : ℕ) → IsData lab ps q → IsData lab' ps' q × SamePage q s.mem s'.mem

-- The contents of a page that is kept are kept.
abbrev pub Stable : Content → Type 0
Stable C = (i p : ℕ) (m m' : Mem) → SamePage p m m' → C i p m → C i p m'

pub Grown-nil :
    (C : Content) (i : ℕ) (lab : Labels) (root : ℕ) (ps : List ℕ) (va : ℕ) (s : Pmem)
    → IsSpace lab root s ps
    → Grown C i lab lab root ps ps [] va s s
Grown-nil C i lab root ps va s space = record {
  space = space;
  mapped = tt;
  filled = tt;
  others = λ va' ne. refl;
  room = omega arith;
  own = tt;
  distinct = tt;
  apart = λ q d. tt;
  data_kept = λ q d. (d, λ b lo hi. refl);
}

pub Grown-cons :
    (C : Content) (i : ℕ) (lab lab1 lab' : Labels) (root p : ℕ) (ps ps1 ps' pages : List ℕ) (va : ℕ)
    (s s1 s2 s' : Pmem)
    → Stable C
    → va % page_size ≡ 0
    → va + suc (length pages) * page_size ≤ 2 ^ 48
    → C i p s1.mem
    → Taken lab root p ps s s1
    → MappedPage lab lab1 root ps ps1 va (page_entry p s2pte_ram) s1 s2
    → Grown C (suc i) lab1 lab' root ps1 ps' pages (va + page_size) s2 s'
    → Grown C i lab lab' root (p ∷ ps) ps' (p ∷ pages) va s s'
Grown-cons C i lab lab1 lab' root p ps ps1 ps' pages va s s1 s2 s' stable al low content taken one
      rest =
    let (data1, same1) = one.data_kept p taken.here in
    let (data', same') = rest.data_kept p data1 in
    let room1 = one.room in
    let room' = rest.room in
    record {
      space = rest.space;
      mapped = (
        rest.others va (λ k lt e.
              page_at-ne va 0 (suc k) al (omega arith) (omega arith) (omega arith) (
                ap (λ (x : ℕ). page_number x) (sym (start va))
                ∙ e
                ∙ ap (λ (x : ℕ). page_number x) (shift va k)))
            ∙ one.here,
        rest.mapped,
      );
      filled = (
        stable i p s1.mem s'.mem (λ b lo hi. same' b lo hi ∙ same1 b lo hi) content,
        rest.filled,
      );
      others = λ va' ne.
          rest.others va'
            (λ k lt e. ne (suc k) (omega arith) (e ∙ ap (λ (x : ℕ). page_number x) (shift va k)))
          ∙ one.others va' (λ e. ne 0 (omega arith) (e ∙ ap (λ (x : ℕ). page_number x) (start va)))
          ∙ taken.entries va';
      room = omega arith;
      own = (data', rest.own);
      distinct = (
        All-map {P = λ q. p ≢ q} {Q = λ q. q ≢ p} (λ q ne e. ne (sym e)) pages (rest.apart p data1),
        rest.distinct,
      );
      apart = λ q d.
          let (d0, same0) = taken.data_kept q d in
          let (d1, _) = one.data_kept q d0 in (d.not_free.0, rest.apart q d1);
      data_kept = λ q d.
          let (d0, same0) = taken.data_kept q d in
          let (d1, kept1) = one.data_kept q d0 in
          let (d2, kept2) = rest.data_kept q d1 in
          (d2, λ b lo hi. kept2 b lo hi ∙ kept1 b lo hi ∙ same0 b lo hi);
    }

-- No page of the range has a descriptor with the access flag yet.
abbrev pub Unused : Mem → ℕ → ℕ → ℕ → Type 0
Unused m root va n = (k : ℕ) → k < n → (bit_and (entry m root (page_at va k)) pte_af == 0) ≡ true

-- The rest of the range is still unused when its first page is mapped.
pub Unused-rest :
    {lab lab1 : Labels} {root p : ℕ} {ps ps1 : List ℕ} {s s1 s2 : Pmem} (va n : ℕ)
    → va % page_size ≡ 0
    → va + suc n * page_size ≤ 2 ^ 48
    → Taken lab root p ps s s1
    → MappedPage lab lab1 root ps ps1 va (page_entry p s2pte_ram) s1 s2
    → Unused s.mem root va (suc n)
    → Unused s2.mem root (va + page_size) n
Unused-rest {root} {s2} va n al low taken one unused k h =
    ap (λ (x : ℕ). bit_and (entry s2.mem root x) pte_af == 0) (shift va k)
    ∙ ap (λ (x : ℕ). bit_and x pte_af == 0)
        (one.others (page_at va (suc k)) (λ e.
            page_at-ne va (suc k) 0 al (omega arith) (omega arith) (omega arith)
              (e ∙ ap (λ (x : ℕ). page_number x) (start va)))
          ∙ taken.entries (page_at va (suc k)))
    ∙ unused (suc k) (omega arith)

-- The first page of the range as a page of `pagemap`.
pub map-Taken :
    (me root va n p : ℕ) (lab : Labels) (ps : List ℕ) (s s1 : Pmem)
    → va % page_size ≡ 0
    → 3 ≤ length ps
    → Taken lab root p ps s s1
    → Unused s.mem root va (suc n)
    → (s2 : Pmem) × (lab1 : Labels) × (ps1 : List ℕ) × (pagemap me root va p page_size s2pte_ram s1
        ≡ ok s2)
      × MappedPage lab lab1 root ps ps1 va (page_entry p s2pte_ram) s1 s2
unfolding s2pte_ram
map-Taken me root va n p lab ps s s1 al enough taken unused =
    let free_here : (bit_and (entry s1.mem root va) pte_af == 0) ≡ true =
      ap (λ (x : ℕ). bit_and x pte_af == 0)
        (taken.entries va ∙ ap (λ (x : ℕ). entry s.mem root x) (start va))
      ∙ unused 0 (omega arith) in
    let (s2, lab1, ps1, ran, one) =
      map_page-MappedPage me root va p s2pte_ram lab ps s1 taken.space enough (omega arith)
        free_here in
    (s2, lab1, ps1, pagemap-page me root va p s2pte_ram s1 s2 al taken.is_page.aligned ran, one)
