-- ===== src/Tests/Queues.antt =====
-- A queue whose descriptors 2 and 0 are free.
use mvmm.Base.{ℕ, ◌≢◌, ◌≡◌, ◌==◌, if◌then◌else◌, [], ◌∷◌, ok, arith, refl}
use mvmm.Virtq.{Virtq, Request, zero_desc, link, virtio_rng_req}
use mvmm.Virtq.FreeList.{FreeList}
use mvmm.Virtq.Random.{Answers, IsPosted, virtio_rng_req-FreeList}

abbrev two_free : Virtq
two_free = record {
  desc = λ i. if i == 2 then link 0 zero_desc else zero_desc;
  ring = λ i. 0;
  avail_idx = 9;
  free_head = 2;
  nfree = 2;
  desc_page = 0x2000;
  avail_page = 0x3000;
  used_page = 0x4000;
}

two_free-FreeList : FreeList two_free (2 ∷ (0 ∷ []))
two_free-FreeList = record { count = refl; linked = omega arith; distinct = omega arith }

-- A device that answers 77 at the third read.
abbrev slow : Request → ℕ → ℕ
slow r i = if i == 2 then 77 else 0

abbrev bell : ℕ → ℕ × ℕ
bell queue = (0x8000, queue)

slow-Answers : (r : Request) → Answers 2 (slow r)
slow-Answers r = (λ i lt. ground arith, omega arith)

virtio_rng_req-FreeList_example :
    (r : Request) × (vq' : Virtq) × (virtio_rng_req slow 3 1 bell 0x5000 two_free
      ≡ ok (r, slow r 2, vq'))
    × IsPosted bell 0x5000 2 (0 ∷ []) two_free r
    × (slow r 2 ≢ 0)
    × FreeList vq' (2 ∷ (0 ∷ []))
virtio_rng_req-FreeList_example =
    virtio_rng_req-FreeList slow 2 3 0 0x5000 2 bell (0 ∷ []) two_free two_free-FreeList
      (omega arith) (λ r is. slow-Answers r) (omega arith)
