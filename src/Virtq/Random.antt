-- ===== src/Virtq/Random.antt =====
-- A request for a random number: what the device is handed, and the wait for its answer.
use mvmm.Base.{
  ℕ, zero, suc, ◌+◌, ◌%◌, ◌^◌, ◌<◌, ◌≡◌, ◌≢◌, bit_and, List, [], ◌∷◌, length, ok, arith, refl,
}
use mvmm.Virtq.{Virtq, nqueue, f_next, f_write, post_request, Request, wait_rnd, virtio_rng_req}
use mvmm.Virtq.FreeList.{FreeList, Linked-write_at, alloc_desc-FreeList, free_desc-FreeList}

-- The first read that is not 0 is number `j`.
abbrev pub Answers : ℕ → (ℕ → ℕ) → Type 0
Answers j reads = ((i : ℕ) → i < j → reads i ≡ 0) × (reads j ≢ 0)

wait_rnd-value :
    (j wait k l : ℕ) (reads : ℕ → ℕ)
    → Answers l reads
    → k + j ≡ l
    → j < wait
    → wait_rnd wait reads k ≡ ok (reads l)
unfolding wait_rnd
wait_rnd-value j zero k l reads h at lt = absurd (omega arith)
wait_rnd-value zero (suc wait) k l reads (waits, ends) at lt =
    let e : k ≡ l = omega arith in rw e (ground (arith, ends))
wait_rnd-value (suc j) (suc wait) k l reads h at lt = ground (
  arith,
  h.0 k (omega arith),
  wait_rnd-value j wait (k + 1) l reads h (omega arith) (omega arith),
)

-- What the device is handed: `d`, as a descriptor of its own for 8 bytes at `rnd` that the device writes, in the
-- next place of the ring, with `*rnd` cleared and the queue 0 notified; `ds` are free meanwhile.
pub record IsPosted (notify : ℕ → ℕ × ℕ) (rnd d : ℕ) (ds : List ℕ) (vq : Virtq) (r : Request)
    : Type 0 where
  pub ring : r.queue.ring (vq.avail_idx % nqueue) ≡ d
  pub index : r.queue.avail_idx ≡ (vq.avail_idx + 1) % 2 ^ 16
  pub addr : (r.queue.desc d).addr ≡ rnd
  pub len : (r.queue.desc d).len ≡ 8
  pub flags : (r.queue.desc d).flags ≡ f_write
  pub cleared : r.rnd ≡ 0
  pub notified : r.notify ≡ notify 0
  pub free : FreeList r.queue ds

-- With the descriptor `d` at the head of fewer than 2^16 free ones, a device that answers a request posted
-- as `IsPosted` says, so that the read number `j` of `*rnd` is the first that is not 0, and fuel for more
-- than `j` rounds of the wait, `virtio_rng_req` posts such a request and ends with the device's value, and
-- the same descriptors are free in the same order.
pub virtio_rng_req-FreeList :
    (dev : Request → ℕ → ℕ) (j wait fuel rnd d : ℕ) (notify : ℕ → ℕ × ℕ) (ds : List ℕ) (vq : Virtq)
    → FreeList vq (d ∷ ds)
    → length (d ∷ ds) < 2 ^ 16
    → ((r : Request) → IsPosted notify rnd d ds vq r → Answers j (dev r))
    → j < wait
    → (r : Request) × (vq' : Virtq) × (virtio_rng_req dev wait (suc fuel) notify rnd vq
        ≡ ok (r, dev r j, vq'))
      × IsPosted notify rnd d ds vq r
      × (dev r j ≢ 0)
      × FreeList vq' (d ∷ ds)
unfolding virtio_rng_req post_request
virtio_rng_req-FreeList dev j wait fuel rnd d notify ds vq h few answers lt =
    let (head, took, left) = alloc_desc-FreeList d ds vq h in
    let posted = post_request rnd d (record vq { free_head = head; nfree = length ds }) in
    let still : FreeList posted ds = record {
      count = refl;
      linked =
          Linked-write_at vq.desc d (record (vq.desc d) { addr = rnd; len = 8; flags = f_write })
            head ds h.distinct.0 left.linked;
      distinct = left.distinct;
    } in
    let flags : bit_and (posted.desc d).flags f_next ≡ 0 = ground arith in
    let (vq', gave, free, _, _) =
      free_desc-FreeList (suc fuel) d (d ∷ []) ds posted (refl, flags) still h.distinct few
        (omega arith) in
    let r : Request = record { queue = posted; rnd = 0; notify = notify 0 } in
    let is : IsPosted notify rnd d ds vq r = record {
      ring = ground arith;
      index = refl;
      addr = ground arith;
      len = ground arith;
      flags = ground arith;
      cleared = refl;
      notified = refl;
      free = still;
    } in
    let answer = answers r is in
    (
      r,
      vq',
      rw (took, wait_rnd-value j wait 0 j (dev r) answer (omega arith) lt, gave) refl,
      is,
      answer.1,
      free,
    )
