-- ===== src/VirtioMmio/Translate.antt =====
-- The address that the device is given for a buffer of the guest.
use mvmm.Base.{
  ℕ, ◌+◌, ◌*◌, ◌/◌, ◌%◌, ◌^◌, ◌<◌, ◌≤◌, ◌≡◌, ◌≢◌, ◌⊎◌, inl, inr, ◌==◌, leb, if◌then◌else◌, false,
  ok, arith, refl, ap, ltb-true, write_at, Bool-cases,
}
use mvmm.Memory.{load64, store64}
use mvmm.Memory.Laws.{store_outside, load-store_self}
use mvmm.Spinlock.{spinlock_init, lock_taken, lock_given}
use mvmm.Kalloc.{Pmem, page_size}
use mvmm.Mm.{pte_pa}
use mvmm.Mm.Entry.{pte_pa_lem}
use mvmm.Mm.Tables.{Labels, IsTables, entry, find}
use mvmm.Mm.Map.{ipa2pa_lem}
use mvmm.VirtioMmio.{
  VtDesc, Vtdev, num, is_accsize, change_desc, virtq_read, pass_through, write_addr, virtq_write,
}

-- The physical address behind a guest address, 0 for 0 and where the guest has no table for it.
abbrev pub translated : ℕ → ℕ → Pmem → ℕ
translated root ipa s =
    if ipa == 0
    then 0
    else if find 3 0 s.mem root ipa == 0
    then 0
    else pte_pa (entry s.mem root ipa) + ipa % page_size

translated-lt : (root ipa : ℕ) (s : Pmem) → translated root ipa s < 256 ^ 8
translated-lt root ipa s = ground (arith, pte_pa_lem (entry s.mem root ipa))

write_addr-translated :
    (me root virtqueue n val : ℕ) (lab : Labels) (d : Vtdev)
    → d.lock ≡ spinlock_init
    → IsTables lab root d.pmem.mem
    → n < num
    → write_addr me root virtqueue n val d
      ≡ ok (
        translated root val d.pmem,
        record d {
          ring =
              write_at d.ring n
                (record (d.ring n) { ipa = val; real_addr = translated root val d.pmem });
          lock = spinlock_init;
        },
      )
unfolding write_addr change_desc
write_addr-translated me root virtqueue n val lab d free tables lt = elim (Bool-cases (val == 0)) [
  | inl z ↦ rw (free, lock_taken me, z, ltb-true lt, lock_given me) refl
  | inr nz ↦
      rw
        (
          free,
          lock_taken me,
          nz,
          ipa2pa_lem me root val lab d.pmem tables,
          ltb-true lt,
          lock_given me,
        )
        refl
]

-- The branch of `virtq_write` for the address of a descriptor.
virtq_write-branch :
    (me root virtqueue n val accsize pa : ℕ) (d d1 : Vtdev)
    → n < d.qnum
    → d.qnum < 2 ^ 28
    → write_addr me root virtqueue n val d ≡ ok (pa, d1)
    → virtq_write me root virtqueue (16 * n) val accsize d
      ≡ pass_through me root virtqueue (16 * n) pa accsize d1
unfolding virtq_write
virtq_write-branch me root virtqueue n val accsize pa d d1 lt small ran =
    let index : 16 * n / 16 ≡ n = omega arith in
    let field : 16 * n % 16 ≡ 0 = omega arith in
    let inside : leb (16 * d.qnum % 2 ^ 32) (16 * n) ≡ false = ground arith in
    rw (inside, index, field, ran) refl

-- With the lock free and well-formed tables, for a queue of fewer than 2^28 descriptors, a write of all 8
-- bytes of the address of a descriptor that is one of the queue and one of the NUM, 8, that the code keeps an
-- entry for succeeds and gives the device the physical address behind it, as the guest's tables have it, 0
-- for 0 and where there is no table; a read gives that address too. The guest's address and the physical
-- one are noted in the entry of the descriptor. No other entry and no byte outside the field changes.
pub virtq_write-translated :
    (me root virtqueue n val : ℕ) (lab : Labels) (d : Vtdev)
    → d.lock ≡ spinlock_init
    → IsTables lab root d.pmem.mem
    → n < num
    → n < d.qnum
    → d.qnum < 2 ^ 28
    → (d' : Vtdev) × (virtq_write me root virtqueue (16 * n) val 8 d ≡ ok d')
      × (load64 d'.pmem.mem (virtqueue + 16 * n) ≡ translated root val d.pmem)
      × (virtq_read me root virtqueue (16 * n) 8 d' ≡ ok (translated root val d.pmem))
      × ((d'.ring n).ipa ≡ val)
      × ((d'.ring n).real_addr ≡ translated root val d.pmem)
      × ((k : ℕ) → k ≢ n → d'.ring k ≡ d.ring k)
      × ((b : ℕ)
          → (b < virtqueue + 16 * n) ⊎ (virtqueue + 16 * n + 8 ≤ b)
          → d'.pmem.mem b ≡ d.pmem.mem b)
      × (d'.lock ≡ spinlock_init)
unfolding pass_through virtq_read is_accsize
virtq_write-translated me root virtqueue n val lab d free tables lt in_queue small =
    let pa : ℕ = translated root val d.pmem in
    let field : ℕ = virtqueue + 16 * n in
    let entry' : VtDesc = record (d.ring n) { ipa = val; real_addr = pa } in
    let noted : Vtdev = record d { ring = write_at d.ring n entry'; lock = spinlock_init } in
    let stored = load-store_self 8 d.pmem.mem field pa (translated-lt root val d.pmem) in
    let here : write_at d.ring n entry' n ≡ entry' = ground arith in
    (
      record noted { pmem = record d.pmem { mem = store64 d.pmem.mem field pa } },
      virtq_write-branch me root virtqueue n val 8 pa d noted in_queue small
          (write_addr-translated me root virtqueue n val lab d free tables lt),
      stored,
      ap ok stored,
      ap (λ (e : VtDesc). e.ipa) here,
      ap (λ (e : VtDesc). e.real_addr) here,
      λ k ne. ground arith,
      λ b out. store_outside 8 d.pmem.mem field pa b out,
      refl,
    )
