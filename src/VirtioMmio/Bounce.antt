-- ===== src/VirtioMmio/Bounce.antt =====
-- Buffers of a guest that go on in another page: the copy that the device works on.
use mvmm.Base.{
  ℕ, ◌+◌, ◌*◌, ◌/◌, ◌%◌, ◌^◌, ◌<◌, ◌≤◌, ◌≡◌, ◌≢◌, ◌⊎◌, ◌==◌, ltb, true, List, ◌∷◌, ok, arith, refl,
  ap, ◌∙◌, ltb-true, ==-true, write_at,
}
use mvmm.Memory.{Mem, load64, store64}
use mvmm.Memory.Laws.{store_outside, load-store_self}
use mvmm.Spinlock.{spinlock_init, lock_taken, lock_given}
use mvmm.Kalloc.{Pmem, page_size, kalloc}
use mvmm.Kalloc.Pool.{SameOutsidePage, kalloc-page}
use mvmm.Mm.{pte_pa, copy_from_guest}
use mvmm.Mm.Tables.{Labels}
use mvmm.Mm.Walk.{IsSpace, IsData}
use mvmm.Mm.Copy.{IsReachable, place, page_of, frame-aligned}
use mvmm.Mm.Copy.In.{copy_from_guest-CopiedIn}
use mvmm.Mm.Copy.Back.{IsReachable-kept}
use mvmm.Mm.Copy.Space.{ClearOf, page-SameTables, page-IsSpace, page-IsBuffer, taken-IsData}
use mvmm.VirtioMmio.{VtDesc, Vtdev, num, change_desc, bounce, write_len}

-- The page of the queue that holds descriptor `n`.
abbrev pub queue_page : ℕ → ℕ → ℕ
queue_page virtqueue n = page_of (virtqueue + n * 16)

-- A buffer of at most a page that goes on in another page, in descriptor `n`, when `real` is the first
-- free page. The queue lies in pages that are neither free nor tables.
pub record IsCrossing (lab : Labels) (root virtqueue n len real : ℕ) (ps : List ℕ) (d : Vtdev)
    : Type 0 where
  pub unlocked : d.lock ≡ spinlock_init
  pub space : IsSpace lab root d.pmem (real ∷ ps)
  pub in_ring : n < num
  pub short : len ≤ page_size
  pub crosses :
      ltb ((d.ring n).real_addr / 2 ^ 12) (((d.ring n).real_addr + len) % 2 ^ 64 / 2 ^ 12) ≡ true
  pub reach : IsReachable lab root (d.ring n).ipa len d.pmem.mem
  pub clear : ClearOf root (d.ring n).ipa len d.pmem.mem real
  pub queue : virtqueue % 16 ≡ 0
  pub queue_data : IsData lab (real ∷ ps) (queue_page virtqueue n)

-- The device is given a copy of the buffer.
pub record Bounced (lab : Labels) (root virtqueue n len real : ℕ) (ps : List ℕ) (d d' : Vtdev)
    : Type 0 where
  pub contents :
      (k : ℕ)
      → k < len
      → d'.pmem.mem (real + k) ≡ d.pmem.mem (place d.pmem.mem root ((d.ring n).ipa + k))
  pub in_queue : load64 d'.pmem.mem (virtqueue + n * 16) ≡ real
  pub here : d'.ring n ≡ record (d.ring n) { real_addr = real; len = len; across_page = true }
  pub others : (k : ℕ) → k ≢ n → d'.ring k ≡ d.ring k
  pub unlocked : d'.lock ≡ spinlock_init
  pub space : IsSpace lab root d'.pmem ps

module _ (lab : Labels) (root virtqueue n len real : ℕ) (ps : List ℕ) (d : Vtdev)
    (h : IsCrossing lab root virtqueue n len real ps d) where
  -- The pages of the guest's buffer read the same after `kalloc`.
  guest_kept :
      (s1 : Pmem)
      → SameOutsidePage real d.pmem.mem s1.mem
      → (k : ℕ) → k < len
      → s1.mem (place s1.mem root ((d.ring n).ipa + k))
        ≡ d.pmem.mem (place d.pmem.mem root ((d.ring n).ipa + k))
  guest_kept s1 same k lt =
      let a : ℕ = (d.ring n).ipa + k in
      let taken = taken-IsData lab root real ps d.pmem h.space in
      let al = taken.aligned in
      let tables =
        page-SameTables lab root real d.pmem.mem s1.mem h.space.tables al taken.not_table same in
      let off = h.clear k lt in
      ap (λ (x : ℕ). s1.mem (pte_pa x + a % page_size)) (tables.entries a)
      ∙ same (place d.pmem.mem root a) (omega (arith, frame-aligned d.pmem.mem root a))

  -- The page is taken and holds the guest's bytes.
  bounce_copy :
      (me : ℕ)
      → (s1 : Pmem) × (s2 : Pmem) × (kalloc me d.pmem ≡ ok (real, s1))
        × (copy_from_guest me root real (d.ring n).ipa len s1 ≡ ok s2)
        × ((k : ℕ)
            → k < len
            → s2.mem (real + k) ≡ d.pmem.mem (place d.pmem.mem root ((d.ring n).ipa + k)))
        × IsSpace lab root s2 ps
  bounce_copy me =
      let ipa : ℕ = (d.ring n).ipa in
      let (s1, ran1, pool1, zeroed, same) = kalloc-page me real ps h.space.pool in
      let taken = taken-IsData lab root real ps d.pmem h.space in
      let short = h.short in
      let tables =
        page-SameTables lab root real d.pmem.mem s1.mem h.space.tables taken.aligned taken.not_table
          same in
      let clear1 : ClearOf root ipa len s1.mem real =
        λ k lt. rw (tables.entries (ipa + k)) (h.clear k lt) in
      let (m2, ran2, c) =
        copy_from_guest-CopiedIn lab me root real ipa len s1
          (IsReachable-kept lab root ipa len d.pmem.mem s1.mem h.reach tables)
          (page-IsBuffer lab root ipa len real s1.mem taken.aligned taken.not_table short clear1) in
      let space1 : IsSpace lab root s1 ps = record {
        tables = tables.tables;
        pool = pool1;
        free = h.space.free.1;
      } in
      (
        s1,
        record s1 { mem = m2 },
        ran1,
        ran2,
        λ k lt. c.copied k lt ∙ guest_kept s1 same k lt,
        page-IsSpace lab root real s1 m2 ps space1 taken
            (λ b out. c.others b (λ j lt e. omega arith)),
      )

  abbrev field : ℕ
  field = virtqueue + n * 16

  queue-outside : (m : Mem) → SameOutsidePage (queue_page virtqueue n) m (store64 m field real)
  queue-outside m b out = let al = h.queue in store_outside 8 m field real b (omega arith)

  real-ne-queue : (k : ℕ) → k < page_size → (real + k < field) ⊎ (field + 8 ≤ real + k)
  real-ne-queue k lt =
      let al = h.queue in
      let ne = h.queue_data.not_free.0 in
      let (at, page, fresh, rest) = h.space.pool.chain in let pa = page.aligned in omega arith

-- With the lock free, well-formed tables, a page free, the entry `n` one of the NUM that the code keeps, a
-- length of at most one page, the address noted for the buffer in another page than its sum with the length, the
-- buffer in guest pages that are mapped and apart from the free page, and the queue aligned to 16 in a page
-- that is neither free nor a table, a write of the length succeeds: the device is given the first free page,
-- which holds the guest's bytes, of all pages of the buffer, in one block, by its address in the queue's
-- descriptor. The entry of the descriptor notes the length and the page; the other entries, the guest's tables
-- and the other free pages stay as they are, and the lock is free again.
pub write_len-Bounced :
    (lab : Labels) (me root virtqueue n len real : ℕ) (ps : List ℕ) (d : Vtdev)
    → IsCrossing lab root virtqueue n len real ps d
    → (d' : Vtdev) × (write_len me root virtqueue n len d ≡ ok d')
      × Bounced lab root virtqueue n len real ps d d'
unfolding write_len bounce change_desc
write_len-Bounced lab me root virtqueue n len real ps d h =
    let (s1, s2, ran1, ran2, contents, space2) =
      bounce_copy lab root virtqueue n len real ps d h me in
    let short = h.short in
    let small : len % 2 ^ 32 ≡ len = omega arith in
    let field : ℕ = virtqueue + n * 16 in
    let (at, page, fresh, rest) = h.space.pool.chain in
    let fits = page.fits in
    let off : IsData lab ps (queue_page virtqueue n) = record {
      aligned = h.queue_data.aligned;
      not_table = h.queue_data.not_table;
      not_free = h.queue_data.not_free.1;
    } in
    let entry' : VtDesc = record (d.ring n) { real_addr = real; len = len; across_page = true } in
    let sized : VtDesc = record (d.ring n) { len = len } in
    let self : (n == n) ≡ true = ==-true refl in
    (
      record d {
        ring = write_at (write_at d.ring n sized) n entry';
        lock = spinlock_init;
        pmem = record s2 { mem = store64 s2.mem field real };
      },
      rw
          (
            small,
            h.unlocked,
            lock_taken me,
            ltb-true h.in_ring,
            h.crosses,
            ran1,
            self,
            ran2,
            lock_given me,
          )
          refl,
      record {
        contents = λ k lt.
            store_outside 8 s2.mem field real (real + k)
              (real-ne-queue lab root virtqueue n len real ps d h k (omega arith))
            ∙ contents k lt;
        in_queue = load-store_self 8 s2.mem field real (omega arith);
        here = ground arith;
        others = λ k ne. ground arith;
        unlocked = refl;
        space =
            page-IsSpace lab root (queue_page virtqueue n) s2 (store64 s2.mem field real) ps space2
              off (queue-outside lab root virtqueue n len real ps d h s2.mem);
      },
    )
