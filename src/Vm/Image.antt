-- ===== src/Vm/Image.antt =====
-- The image of the guest in its memory.
use mvmm.Base.{
  ℕ, zero, suc, ◌+◌, ◌-◌, ◌*◌, ◌%◌, ◌^◌, ◌<◌, ◌≤◌, ◌≡◌, ◌≢◌, ltb, if◌then◌else◌, Bool-cases, true,
  false, inl, inr, List, [], ◌∷◌, length, ok, arith, refl, ap, ◌∙◌, ==-false,
}
use mvmm.Memory.{Mem}
use mvmm.CLib.{memcpy}
use mvmm.CLib.Block.{in_block, memmove_lem}
use mvmm.Kalloc.{Pmem, page_size, kalloc}
use mvmm.Kalloc.Pool.{IsPool, SameOutsidePage, Chain-frame, kalloc-page}
use mvmm.Mm.{pagemap}
use mvmm.Mm.Tables.{Labels}
use mvmm.Mm.Walk.{IsSpace, IsData, SamePage}
use mvmm.Vm.{s2pte_ram, Guest, cpsize, image_page, image_pages}
use mvmm.Vm.Grown.{
  Taken, taken_lem, Content, Stable, Unused, Unused-rest, map-Taken, Grown, Grown-nil, Grown-cons,
}

-- Page `i` of the guest holds the bytes of the image from `i * 4096` on, and zeros after its end.
abbrev pub Loaded : (ℕ → ℕ) → ℕ → Content
Loaded image size i p m =
    (b : ℕ)
    → b < page_size
    → m (p + b) ≡ (if ltb (i * page_size + b) size then image (i * page_size + b) else 0)

pub Loaded-Stable : (image : ℕ → ℕ) (size : ℕ) → Stable (Loaded image size)
Loaded-Stable image size i p m m' same h b lt = same (p + b) (omega arith) (omega arith) ∙ h b lt

-- The image lies at `start` in pages that are no tables and not free.
abbrev pub IsImage : (ℕ → ℕ) → Labels → List ℕ → Guest → Mem → Type 0
IsImage image lab ps guest m =
    (j : ℕ)
    → j < guest.size
    → (q : ℕ) × IsData lab ps q
      × (q ≤ guest.start + j)
      × (guest.start + j < q + page_size)
      × (m (guest.start + j) ≡ image j)

pub IsImage-kept :
    (image : ℕ → ℕ) {lab lab' : Labels} {ps ps' : List ℕ} (guest : Guest) (m m' : Mem)
    → ((q : ℕ) → IsData lab ps q → IsData lab' ps' q × SamePage q m m')
    → IsImage image lab ps guest m
    → IsImage image lab' ps' guest m'
IsImage-kept image guest m m' kept h j lt =
    let (q, d, lo, hi, e) = h j lt in
    let (d', same) = kept q d in (q, d', lo, hi, same (guest.start + j) lo hi ∙ e)

-- The copy into a cleared page.
module _ (m : Mem) (page from n : ℕ) where
  memcpy_at :
      (b : ℕ) → memcpy m page from n b ≡ (if in_block page n b then m (from + (b - page)) else m b)
  unfolding memcpy
  memcpy_at b = memmove_lem m page from n b

  memcpy_outside : n ≤ page_size → SameOutsidePage page m (memcpy m page from n)
  memcpy_outside le b out = ground (arith, memcpy_at b)

copied :
    (image : ℕ → ℕ) (guest : Guest) (i p q : ℕ) (m : Mem)
    → i * page_size ≡ p
    → ((j : ℕ) → j < guest.size → m (guest.start + j) ≡ image j)
    → ((b : ℕ) → q ≤ b → b < q + page_size → m b ≡ 0)
    → Loaded image guest.size i q (memcpy m q (guest.start + p) (cpsize guest p))
copied image guest i p q m e there cleared b lt =
    let n : ℕ = cpsize guest p in
    let at = memcpy_at m q (guest.start + p) n (q + b) in
    let same : guest.start + p + (q + b - q) ≡ guest.start + (p + b) = omega arith in
    elim (Bool-cases (ltb (p + b) guest.size)) [
      | inl inside ↦
          let block : in_block q n (q + b) ≡ true = ground arith in
          rw (e, inside) (at ∙ rw block (ap m same ∙ there (p + b) (ground arith)))
      | inr past ↦
          let block : in_block q n (q + b) ≡ false = ground arith in
          rw (e, past) (at ∙ rw block (cleared (q + b) (omega arith) (omega arith)))
    ]

cpsize-le : (guest : Guest) (p : ℕ) → cpsize guest p ≤ page_size
cpsize-le guest p = ground arith

image_page_lem :
    (me root va q p : ℕ) (guest : Guest) (s s1 s2 : Pmem)
    → q ≢ 0
    → kalloc me s ≡ ok (q, s1)
    → pagemap me root va q page_size s2pte_ram
        (record s1 { mem = memcpy s1.mem q (guest.start + p) (cpsize guest p) })
      ≡ ok s2
    → image_page me root va guest p s ≡ ok s2
unfolding image_page
image_page_lem me root va q p guest s s1 s2 ne got mapped = rw (got, ==-false ne) mapped

image_pages-suc :
    (me root n base p va : ℕ) (guest : Guest) (s s2 s' : Pmem)
    → base + p ≡ va
    → va + page_size < 2 ^ 64
    → image_page me root va guest p s ≡ ok s2
    → image_pages me n root base guest (p + page_size) s2 ≡ ok s'
    → image_pages me (suc n) root base guest p s ≡ ok s'
unfolding image_pages
image_pages-suc me root n base p va guest s s2 s' e low one rest =
    let here : (base + p) % 2 ^ 64 ≡ va = omega arith in rw (here, one) rest

-- Over well-formed tables, with four free pages for each page of the range, no page of the range in use,
-- and the image in pages that are no tables and not free, the loop gives the guest a page of its own
-- for each page of the range, different from every other, and no table, free, or in use before. The
-- pages hold the bytes of the image, and zeros after its end. The tables and the pool stay well formed,
-- no other address changes its descriptor, and no page that was in use changes.
pub image_pages-Grown :
    (image : ℕ → ℕ) (i me root n base p va : ℕ) (guest : Guest) (lab : Labels) (ps : List ℕ)
    (s : Pmem)
    → i * page_size ≡ p
    → base + p ≡ va
    → IsSpace lab root s ps
    → 4 * n ≤ length ps
    → va % page_size ≡ 0
    → va + n * page_size ≤ 2 ^ 48
    → Unused s.mem root va n
    → IsImage image lab ps guest s.mem
    → (s' : Pmem) × (lab' : Labels) × (ps' pages : List ℕ) × (image_pages me n root base guest p s
        ≡ ok s')
      × (length pages ≡ n)
      × Grown (Loaded image guest.size) i lab lab' root ps ps' pages va s s'
unfolding image_pages
image_pages-Grown image i me root zero base p va guest lab ps s pi e space enough al low unused h =
    (s, lab, ps, [], refl, refl, Grown-nil (Loaded image guest.size) i lab root ps va s space)
image_pages-Grown image i me root (suc n) base p va guest lab [] s pi e space enough al low unused
      h =
    absurd (omega arith)
image_pages-Grown image i me root (suc n) base p va guest lab (q ∷ ps) s pi e space enough al low
      unused h =
    let (s1, got, pool, cleared, same) = kalloc-page me q ps space.pool in
    let before = taken_lem lab root q ps s s1 space pool same in
    let there : (j : ℕ) → j < guest.size → s1.mem (guest.start + j) ≡ image j = λ j lt.
      let (page, d, lo, hi, eq) = h j lt in
      (before.data_kept page d).1 (guest.start + j) lo hi ∙ eq in
    let from : ℕ = guest.start + p in
    let count : ℕ = cpsize guest p in
    let outside = memcpy_outside s1.mem q from count (cpsize-le guest p) in
    let loaded : Pmem = record s1 { mem = memcpy s1.mem q from count } in
    let pool' : IsPool loaded ps = record {
      unlocked = pool.unlocked;
      chain =
          Chain-frame ps s1.freelist outside space.pool.chain.1.aligned space.pool.chain.2
            pool.chain;
    } in
    let taken : Taken lab root q ps s loaded =
      taken_lem lab root q ps s loaded space pool' (λ b out. outside b out ∙ same b out) in
    let (s2, lab1, ps1, mapped, one) =
      map-Taken me root va n q lab ps s loaded al (omega arith) taken unused in
    let room = one.room in
    let image1 : IsImage image lab1 ps1 guest s2.mem =
      IsImage-kept image guest s.mem s2.mem
        (λ page d.
          let (d0, kept0) = taken.data_kept page d in
          let (d1, kept1) = one.data_kept page d0 in (d1, λ b lo hi. kept1 b lo hi ∙ kept0 b lo hi))
        h in
    let (s', lab', ps', pages, ran, len, rest) =
      image_pages-Grown image (suc i) me root n base (p + page_size) (va + page_size) guest lab1 ps1
        s2 (omega arith) (omega arith) one.space (omega arith) (omega arith) (omega arith)
        (Unused-rest va n al low taken one unused) image1 in
    (
      s',
      lab',
      ps',
      q ∷ pages,
      image_pages-suc me root n base p va guest s s2 s' e (omega arith)
          (image_page_lem me root va q p guest s s1 s2 taken.is_page.ne_null got mapped) ran,
      ap suc len,
      Grown-cons (Loaded image guest.size) i lab lab1 lab' root q ps ps1 ps' pages va s loaded s2 s'
          (Loaded-Stable image guest.size) al (omega arith)
          (copied image guest i p q s1.mem pi there cleared) taken one rest,
    )
