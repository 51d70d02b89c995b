-- ===== src/Virtq.antt =====
-- src/virtio-pci.c and include/virtio-pci.h: the queue of a virtio device on PCI, with the free list of its
-- descriptors, and a request to the random number generator.
pub mod FreeList
pub mod Init
pub mod Random
use mvmm.Base.{
  ℕ, zero, suc, ◌+◌, ◌-◌, ◌*◌, ◌%◌, ◌^◌, bit_and, ◌==◌, if◌then◌else◌, List, [], ◌∷◌, Outcome, ok,
  panic, fault, spin, ◌>>=◌, write_at,
}
use mvmm.Kalloc.{Pmem, kalloc}

-- `NQUEUE`, and the flags VIRTQ_DESC_F_NEXT and VIRTQ_DESC_F_WRITE
abbrev pub nqueue : ℕ
nqueue = 8

abbrev pub f_next : ℕ
f_next = 1

abbrev pub f_write : ℕ
f_write = 2

-- `struct virtq_desc`
pub record Desc : Type 0 where
  pub addr : ℕ
  pub len : ℕ
  pub flags : ℕ
  pub next : ℕ

-- `struct virtq` with the contents of its pages: the descriptors, and the ring and index of `avail`, and
-- the addresses of the pages.
pub record Virtq : Type 0 where
  pub desc : ℕ → Desc
  pub ring : ℕ → ℕ
  pub avail_idx : ℕ
  pub free_head : ℕ
  pub nfree : ℕ
  pub desc_page : ℕ
  pub avail_page : ℕ
  pub used_page : ℕ

abbrev pub zero_desc : Desc
zero_desc = record { addr = 0; len = 0; flags = 0; next = 0 }

abbrev pub link : ℕ → Desc → Desc
link n d = record d { flags = f_next; next = n }

-- The loop of `desc_init` from `i` on, with the rounds left.
unfoldable pub desc_init : ℕ → ℕ → (ℕ → Desc) → ℕ → Desc
desc_init zero i desc = desc
desc_init (suc left) i desc =
    desc_init left (i + 1)
      (if i == nqueue - 1 then desc else write_at desc i (link (i + 1) (desc i)))

-- `vq->desc[d].flags & VIRTQ_DESC_F_NEXT`
unfoldable pub has_next : Virtq → ℕ → ℕ
has_next vq d = bit_and (vq.desc d).flags f_next

unfoldable pub alloc_desc : Virtq → Outcome (ℕ × Virtq)
alloc_desc vq =
    let d : ℕ = vq.free_head in
    let head = if has_next vq d == 0 then d else (vq.desc d).next in
    if vq.nfree == 0 then panic else ok (d, record vq { free_head = head; nfree = vq.nfree - 1 })

-- The loop of `free_desc`, with as many rounds as the fuel allows: the last descriptor of the chain and
-- the count of the free ones.
unfoldable pub free_loop : ℕ → Virtq → ℕ → ℕ → Outcome (ℕ × ℕ)
free_loop zero vq n nfree = spin
free_loop (suc fuel) vq n nfree =
    let count = (nfree + 1) % 2 ^ 16 in
    let rest = free_loop fuel vq (vq.desc n).next count in
    if has_next vq n == 0 then ok (n, count) else rest

unfoldable pub free_desc : ℕ → ℕ → Virtq → Outcome Virtq
free_desc fuel n vq = do
  (last, count) ← free_loop fuel vq n vq.nfree
  let d = vq.desc last
  let tail = if vq.nfree == 0 then record d { flags = f_next } else link vq.free_head d
  ok (record vq { desc = write_at vq.desc last tail; free_head = n; nfree = count })

-- The pages come cleared from `kalloc`; a write to the descriptors through the null pointer is a fault.
unfoldable pub virtq_init : ℕ → Pmem → Outcome (Virtq × Pmem)
virtq_init me s = do
  (desc, s1) ← kalloc me s
  (avail, s2) ← kalloc me s1
  (used, s3) ← kalloc me s2
  let vq : Virtq = record {
    desc = desc_init nqueue 0 (λ i. zero_desc);
    ring = λ i. 0;
    avail_idx = 0;
    free_head = 0;
    nfree = nqueue;
    desc_page = desc;
    avail_page = avail;
    used_page = used;
  }
  if desc == 0 then fault else ok (vq, s3)

-- `virtio_notify_queue`: the address and the value of the write.
unfoldable pub virtio_notify_queue : ℕ → ℕ → ℕ → ℕ → ℕ × ℕ
virtio_notify_queue notify_base notify_off multiplier queue =
    ((notify_base + notify_off * multiplier % 2 ^ 32) % 2 ^ 64, queue % 2 ^ 32)

-- The descriptor, and the entry of the ring, of a request for 8 bytes at `rnd`.
unfoldable pub post_request : ℕ → ℕ → Virtq → Virtq
post_request rnd d vq = record vq {
  desc = write_at vq.desc d (record (vq.desc d) { addr = rnd; len = 8; flags = f_write });
  ring = write_at vq.ring (vq.avail_idx % nqueue) d;
  avail_idx = (vq.avail_idx + 1) % 2 ^ 16;
}

-- What a request has done by the time it waits: the queue, `*rnd`, and the write that notifies the device.
pub record Request : Type 0 where
  pub queue : Virtq
  pub rnd : ℕ
  pub notify : ℕ × ℕ

-- `while(*rnd == 0)`, with as many rounds as the fuel allows, and the value that ends it; `reads k` is what
-- the read number `k` of `*rnd` gives.
unfoldable pub wait_rnd : ℕ → (ℕ → ℕ) → ℕ → Outcome ℕ
wait_rnd zero reads k = spin
wait_rnd (suc fuel) reads k =
    let rest = wait_rnd fuel reads (k + 1) in if reads k == 0 then rest else ok (reads k)

-- `dev` gives what the code reads at `*rnd` once the device has been notified of the request, and `notify` is
-- `virtio_notify_queue` of the device. The results are the request, `*rnd` at the end, and the queue.
unfoldable pub virtio_rng_req :
    (Request → ℕ → ℕ) → ℕ → ℕ → (ℕ → ℕ × ℕ) → ℕ → Virtq → Outcome (Request × ℕ × Virtq)
virtio_rng_req dev wait fuel notify rnd vq = do
  (d, vq1) ← alloc_desc vq
  let posted : Request = record { queue = post_request rnd d vq1; rnd = 0; notify = notify 0 }
  value ← wait_rnd wait (dev posted) 0
  vq2 ← free_desc fuel d posted.queue
  ok (posted, value, vq2)
