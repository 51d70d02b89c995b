-- ===== src/Mm/Copy/Space.antt =====
-- Changes of memory that keep the tables and the pool.
use mvmm.Base.{
  ℕ, ◌+◌, ◌%◌, ◌≤◌, ◌<◌, ◌≡◌, ◌≢◌, ◌∙◌, none, List, [], ◌∷◌, All, All-map, arith, refl, sym, ap,
}
use mvmm.Memory.{Mem}
use mvmm.Memory.Laws.{load_ext}
use mvmm.Kalloc.{Pmem, page_size}
use mvmm.Kalloc.Pool.{Chain, SameOutsidePage}
use mvmm.Mm.Tables.{Labels, IsTables, entry}
use mvmm.Mm.Walk.{IsSpace, IsData, SamePage}
use mvmm.Mm.Frame.{page-SameSlots, frame-IsTables, frame-entry_from}
use mvmm.Mm.Copy.{SameTables, IsBuffer, frame, place, page_of, frame-aligned}

pub Chain-same :
    (m m' : Mem) (ps : List ℕ) (head : ℕ)
    → All (λ q. SamePage q m m') ps
    → Chain m head ps
    → Chain m' head ps
Chain-same m m' [] head same chain = chain
Chain-same m m' (p ∷ ps) head (here, same) (at, page, fresh, rest) = (
  at,
  page,
  fresh,
  rw (load_ext 8 m m' p (λ b lo hi. here b lo (omega arith))) (Chain-same m m' ps _ same rest),
)

-- A change that leaves the tables and each free page alone.
pub kept-IsSpace :
    (lab : Labels) (root : ℕ) (s : Pmem) (m' : Mem) (ps : List ℕ)
    → IsSpace lab root s ps
    → SameTables lab root s.mem m'
    → All (λ q. SamePage q s.mem m') ps
    → IsSpace lab root (record s { mem = m' }) ps
kept-IsSpace lab root s m' ps space same pages = record {
  tables = same.tables;
  pool = record {
    unlocked = space.pool.unlocked;
    chain = Chain-same s.mem m' ps s.freelist pages space.pool.chain;
  };
  free = space.free;
}

-- A change inside one page that is neither a table nor free.
pub page-SameTables :
    (lab : Labels) (root q : ℕ) (m m' : Mem)
    → IsTables lab root m
    → q % page_size ≡ 0
    → lab q ≡ none
    → SameOutsidePage q m m'
    → SameTables lab root m m'
unfolding entry
page-SameTables lab root q m m' tables al off same =
    let slots = page-SameSlots tables q al off same in
    record {
      tables = frame-IsTables m' tables slots;
      entries = λ va. (frame-entry_from m' tables slots 3 0 root 0 va refl tables.at_root).0;
      finds = λ va. (frame-entry_from m' tables slots 3 0 root 0 va refl tables.at_root).1;
    }

outside-pages :
    (q : ℕ) (m m' : Mem) (ps : List ℕ) (head : ℕ)
    → q % page_size ≡ 0
    → SameOutsidePage q m m'
    → All (λ p. q ≢ p) ps
    → Chain m head ps
    → All (λ p. SamePage p m m') ps
outside-pages q m m' [] head al same ne chain = tt
outside-pages q m m' (p ∷ ps) head al same (ne, more) (at, page, fresh, rest) =
    let pa = page.aligned in
    (λ b lo hi. same b (omega arith), outside-pages q m m' ps _ al same more rest)

pub page-IsSpace :
    (lab : Labels) (root q : ℕ) (s : Pmem) (m' : Mem) (ps : List ℕ)
    → IsSpace lab root s ps
    → IsData lab ps q
    → SameOutsidePage q s.mem m'
    → IsSpace lab root (record s { mem = m' }) ps
page-IsSpace lab root q s m' ps space d same =
    kept-IsSpace lab root s m' ps space
      (page-SameTables lab root q s.mem m' space.tables d.aligned d.not_table same)
      (outside-pages q s.mem m' ps s.freelist d.aligned same d.not_free space.pool.chain)

-- The page that `kalloc` takes is no table and no longer free.
pub taken-IsData :
    (lab : Labels) (root real : ℕ) (ps : List ℕ) (s : Pmem)
    → IsSpace lab root s (real ∷ ps)
    → IsData lab ps real
taken-IsData lab root real ps s space =
    let (at, page, fresh, rest) = space.pool.chain in
    record {
      aligned = page.aligned;
      not_table = space.free.0;
      not_free = All-map (λ q ne e. ne (sym e)) ps fresh;
    }

-- None of the guest's pages of the range is the page `q`.
abbrev pub ClearOf : ℕ → ℕ → ℕ → Mem → ℕ → Type 0
ClearOf root ipa len m q = (k : ℕ) → k < len → frame m root (ipa + k) ≢ q

-- A buffer inside one page that is no table and no page of the guest.
pub page-IsBuffer :
    (lab : Labels) (root ipa len q : ℕ) (m : Mem)
    → q % page_size ≡ 0
    → lab q ≡ none
    → len ≤ page_size
    → ClearOf root ipa len m q
    → IsBuffer lab root ipa len m q
page-IsBuffer lab root ipa len q m al off short clear = record {
  not_table = λ j lt. let here : page_of (q + j) ≡ q = omega arith in ap lab here ∙ off;
  apart = λ j k ltj ltk e. clear k ltk (omega arith);
}

-- A copy to the guest changes no free page, when the guest's pages are not free.
pub guest-pages :
    (root ipa len : ℕ) (m m' : Mem) (ps : List ℕ) (head : ℕ)
    → All (λ p. ClearOf root ipa len m p) ps
    → ((b : ℕ) → ((k : ℕ) → k < len → b ≢ place m root (ipa + k)) → m' b ≡ m b)
    → Chain m head ps
    → All (λ p. SamePage p m m') ps
guest-pages root ipa len m m' [] head clear others chain = tt
guest-pages root ipa len m m' (p ∷ ps) head (here, more) others (at, page, fresh, rest) =
    let pa = page.aligned in
    (
      λ b lo hi. others b (λ k lt e. here k lt (omega (arith, frame-aligned m root (ipa + k)))),
      guest-pages root ipa len m m' ps _ more others rest,
    )
