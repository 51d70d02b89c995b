-- ===== src/Virtq/Init.antt =====
-- A new queue.
use mvmm.Base.{ℕ, ◌≡◌, ◌==◌, false, List, [], ◌∷◌, ok, arith, refl}
use mvmm.Kalloc.{Pmem}
use mvmm.Kalloc.Pool.{IsPool, kalloc-page}
use mvmm.Virtq.{Virtq, nqueue, desc_init, zero_desc, virtq_init}
use mvmm.Virtq.FreeList.{FreeList}

abbrev new_queue : ℕ → ℕ → ℕ → Virtq
new_queue desc avail used = record {
  desc = desc_init nqueue 0 (λ i. zero_desc);
  ring = λ i. 0;
  avail_idx = 0;
  free_head = 0;
  nfree = nqueue;
  desc_page = desc;
  avail_page = avail;
  used_page = used;
}

new_queue-FreeList :
    (a b c : ℕ) → FreeList (new_queue a b c) (0 ∷ (1 ∷ (2 ∷ (3 ∷ (4 ∷ (5 ∷ (6 ∷ (7 ∷ []))))))))
unfolding desc_init
new_queue-FreeList a b c = record { count = refl; linked = omega arith; distinct = omega arith }

-- With three pages in the pool, a new queue has all its descriptors free, the first one first, and
-- stands in the first three pages.
pub virtq_init-FreeList :
    (me desc avail used : ℕ) (ps : List ℕ) (s : Pmem)
    → IsPool s (desc ∷ (avail ∷ (used ∷ ps)))
    → (vq : Virtq) × (s' : Pmem) × (virtq_init me s ≡ ok (vq, s'))
      × FreeList vq (0 ∷ (1 ∷ (2 ∷ (3 ∷ (4 ∷ (5 ∷ (6 ∷ (7 ∷ []))))))))
      × IsPool s' ps
      × (vq.desc_page ≡ desc)
      × (vq.avail_page ≡ avail)
      × (vq.used_page ≡ used)
unfolding virtq_init
virtq_init-FreeList me desc avail used ps s pool =
    let (s1, ran1, pool1, _, _) = kalloc-page me desc (avail ∷ (used ∷ ps)) pool in
    let (s2, ran2, pool2, _, _) = kalloc-page me avail (used ∷ ps) pool1 in
    let (s3, ran3, pool3, _, _) = kalloc-page me used ps pool2 in
    let page = pool.chain.1.ne_null in
    let nonzero : (desc == 0) ≡ false = ground arith in
    (
      new_queue desc avail used,
      s3,
      rw (ran1, ran2, ran3, nonzero) refl,
      new_queue-FreeList desc avail used,
      pool3,
      refl,
      refl,
      refl,
    )
