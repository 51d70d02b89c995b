-- ===== src/Kalloc/Pool.antt =====
-- The pool of free pages that `pmem` stands for, and what `kalloc` and `kfree` do to it.
use mvmm.Base.{
  ℕ, ◌+◌, ◌%◌, ◌^◌, ◌≤◌, ◌<◌, ◌≡◌, ◌≢◌, ◌⊎◌, refl, arith, List, [], ◌∷◌, All, ok, panic, spin, ◌∙◌,
}
use mvmm.Memory.{Mem, load64, store64}
use mvmm.Memory.Laws.{store_outside, load_ext, load-store_self}
use mvmm.CLib.{memset}
use mvmm.CLib.Block.{memset_lem}
use mvmm.Spinlock.{spinlock_init, held_by, acquire, release}
use mvmm.Kalloc.{Pmem, page_size, kalloc, kfree}

-- A page of physical memory: aligned, not null, within 48 bits.
pub record IsPage (p : ℕ) : Type 0 where
  pub aligned : p % page_size ≡ 0
  pub ne_null : p ≢ 0
  pub fits : p < 2 ^ 48

-- From `head` the links lead through the distinct pages of the list to null.
abbrev pub Chain : Mem → ℕ → List ℕ → Type 0
Chain m head [] = head ≡ 0
Chain m head (p ∷ ps) = (head ≡ p) × IsPage p × All (λ q. q ≢ p) ps × Chain m (load64 m p) ps

-- The allocator at rest: its lock is free and its free list holds the pages `ps`.
pub record IsPool (s : Pmem) (ps : List ℕ) : Type 0 where
  pub unlocked : s.lock ≡ spinlock_init
  pub chain : Chain s.mem s.freelist ps

-- The two memories agree outside the page `p`.
abbrev pub SameOutsidePage : ℕ → Mem → Mem → Type 0
SameOutsidePage p m m' = (b : ℕ) → (b < p) ⊎ (p + page_size ≤ b) → m' b ≡ m b

pub memset_outside : (m : Mem) (p : ℕ) → SameOutsidePage p m (memset m p 0 page_size)
memset_outside m p b out = ground (arith, memset_lem page_size m p 0 b)

memset_inside : (m : Mem) (p b : ℕ) → p ≤ b → b < p + page_size → memset m p 0 page_size b ≡ 0
memset_inside m p b lo hi = ground (arith, memset_lem page_size m p 0 b)

-- Pages other than `p` keep their links.
pub load64_other :
    {m m' : Mem} {p q : ℕ}
    → SameOutsidePage p m m'
    → p % page_size ≡ 0
    → q % page_size ≡ 0
    → q ≢ p
    → load64 m' q ≡ load64 m q
load64_other {m} {m'} {p} {q} same hp hq ne = load_ext 8 m m' q (λ b lo hi. same b (omega arith))

pub Chain-frame :
    {m m' : Mem} {p : ℕ} (ps : List ℕ) (head : ℕ)
    → SameOutsidePage p m m'
    → p % page_size ≡ 0
    → All (λ q. q ≢ p) ps
    → Chain m head ps
    → Chain m' head ps
Chain-frame [] head same hp ne c = c
Chain-frame {m = m} (q ∷ ps) head same hp ne (e, page, others, rest) = (
  e,
  page,
  others,
  rw (load64_other same hp page.aligned ne.0) (Chain-frame ps (load64 m q) same hp ne.1 rest),
)

Chain-head-lt : (m : Mem) (ps : List ℕ) (head : ℕ) → Chain m head ps → head < 256 ^ 8
Chain-head-lt m [] head c = omega arith
Chain-head-lt m (p ∷ ps) head c = let page = c.1.fits in omega arith

-- With the lock free and a page in the pool, `kalloc` takes the first one, hands it out zeroed, and changes no byte outside it.
pub kalloc-page :
    (me p : ℕ) (ps : List ℕ) {s : Pmem}
    → IsPool s (p ∷ ps)
    → (s' : Pmem) × (kalloc me s ≡ ok (p, s'))
      × IsPool s' ps
      × ((b : ℕ) → p ≤ b → b < p + page_size → s'.mem b ≡ 0)
      × SameOutsidePage p s.mem s'.mem
unfolding kalloc acquire release
kalloc-page me p ps {s} pool = (
  record { mem = memset s.mem p 0 page_size; freelist = load64 s.mem p; lock = spinlock_init },
  ground arith,
  record {
    unlocked = refl;
    chain =
        Chain-frame ps (load64 s.mem p) (memset_outside s.mem p) pool.chain.1.aligned pool.chain.2
          pool.chain.3;
  },
  memset_inside s.mem p,
  memset_outside s.mem p,
)

-- With the lock free, `kfree` puts a page that is not in the pool in front of it, and changes no byte outside the page.
pub kfree-page :
    (me p : ℕ) (ps : List ℕ) {s : Pmem}
    → IsPage p
    → All (λ q. q ≢ p) ps
    → IsPool s ps
    → (s' : Pmem) × (kfree me p s ≡ ok s') × IsPool s' (p ∷ ps) × SameOutsidePage p s.mem s'.mem
unfolding kfree acquire release
kfree-page me p ps {s} page fresh pool =
    let linked : Mem = store64 (memset s.mem p 0 page_size) p s.freelist in
    let same : SameOutsidePage p s.mem linked = λ b out.
      store_outside 8 (memset s.mem p 0 page_size) p s.freelist b (omega arith)
      ∙ memset_outside s.mem p b out in
    let next : load64 linked p ≡ s.freelist =
      load-store_self 8 (memset s.mem p 0 page_size) p s.freelist
        (Chain-head-lt s.mem ps s.freelist pool.chain) in
    (
      record { mem = linked; freelist = p; lock = spinlock_init },
      ground arith,
      record {
        unlocked = refl;
        chain = (
          refl,
          page,
          fresh,
          rw next (Chain-frame ps s.freelist same page.aligned fresh pool.chain),
        );
      },
      same,
    )

-- When the pool is empty `kalloc` returns null with the lock held by the caller: after that any
-- call of `kalloc` by the same processor panics, and one by any other waits for ever.
pub kalloc-empty :
    (me other : ℕ) {s : Pmem}
    → other ≢ me
    → IsPool s []
    → (s' : Pmem) × (kalloc me s ≡ ok (0, s')) × (kalloc me s' ≡ panic) × (kalloc other s' ≡ spin)
unfolding kalloc acquire release
kalloc-empty me other {s} ne pool =
    (record s { lock = held_by me }, ground arith, ground arith, ground arith)
