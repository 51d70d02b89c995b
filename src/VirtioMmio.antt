-- ===== src/VirtioMmio.antt =====
-- src/virtio-mmio-dev.c and include/virtio-mmio.h: the queue that a guest shares with a virtio device. The
-- guest writes addresses of its own; the device is given physical ones.
pub mod Translate
pub mod Bounce
pub mod Finish
use mvmm.Base.{
  ℕ, zero, suc, ◌+◌, ◌-◌, ◌*◌, ◌/◌, ◌%◌, ◌^◌, bit_and, Bool, true, false, not, ◌==◌, ltb, leb,
  if◌then◌else◌, List, [], ◌∷◌, Option, none, some, Outcome, ok, panic, fault, spin, ◌>>=◌,
  write_at,
}
use mvmm.Memory.{Mem, load, store, store64}
use mvmm.Spinlock.{Spinlock, spinlock_init, acquire, release}
use mvmm.Kalloc.{Pmem, kalloc, kfree}
use mvmm.Mm.{ipa2pa, copy_to_guest, copy_from_guest}
use mvmm.Mmio.{Mmio}
use mvmm.Vm.{pagetrap}

-- `struct vtdev_desc`
pub record VtDesc : Type 0 where
  pub ipa : ℕ
  pub real_addr : ℕ
  pub len : ℕ
  pub next : ℕ
  pub across_page : Bool
  pub has_next : Bool

-- `struct virtio_mmio_dev` with the memory of the hypervisor, and the writes to the device, the newest
-- first: address, size and value.
pub record Vtdev : Type 0 where
  pub qnum : ℕ
  pub last_used_idx : ℕ
  pub ring : ℕ → VtDesc
  pub lock : Spinlock
  pub pmem : Pmem
  pub writes : List (ℕ × ℕ × ℕ)

-- `NUM`, the entries of `ring`
abbrev pub num : ℕ
num = 8

-- `enum mmio_accsize`
unfoldable pub is_accsize : ℕ → Bool
is_accsize size =
    if size == 1 then true else if size == 2 then true else if size == 4 then true else size == 8

-- A change of entry `n` of the ring; an entry past the array is a fault.
unfoldable pub change_desc : ℕ → (VtDesc → VtDesc) → Vtdev → Outcome Vtdev
change_desc n f d =
    if ltb n num then ok (record d { ring = write_at d.ring n (f (d.ring n)) }) else fault

-- `virtqueue` is the address of the array that stands for the queue.
module _ (me vttbr virtqueue : ℕ) where
  unfoldable pub virtq_read : ℕ → ℕ → Vtdev → Outcome ℕ
  virtq_read offset accsize d =
      if is_accsize accsize then ok (load accsize d.pmem.mem (virtqueue + offset)) else panic

  -- The end of `virtq_write`.
  unfoldable pub pass_through : ℕ → ℕ → ℕ → Vtdev → Outcome Vtdev
  pass_through offset val accsize d =
      if is_accsize accsize
      then ok (record d {
        pmem = record d.pmem { mem = store accsize d.pmem.mem (virtqueue + offset) val };
      })
      else panic

  -- `case offsetof(struct virtq_desc, addr)`: the value that goes to the queue, and the state.
  unfoldable pub write_addr : ℕ → ℕ → Vtdev → Outcome (ℕ × Vtdev)
  write_addr n val d = do
    l ← acquire me d.lock
    pa ← if val == 0 then ok 0 else ipa2pa me vttbr val d.pmem
    d1 ← change_desc n (λ e. record e { ipa = val; real_addr = pa }) d
    l' ← release me l
    ok (pa, record d1 { lock = l' })

  -- A buffer that goes on in the next page is copied to a page of its own.
  unfoldable pub bounce : ℕ → ℕ → Vtdev → Outcome Vtdev
  bounce n len d = do
    (real, s1) ← kalloc me d.pmem
    s2 ← copy_from_guest me vttbr real (d.ring n).ipa len s1
    d1 ←
        change_desc n (λ e. record e { real_addr = real; across_page = true })
          (record d { pmem = s2 })
    ok (record d1 { pmem = record d1.pmem { mem = store64 d1.pmem.mem (virtqueue + n * 16) real } })

  -- `case offsetof(struct virtq_desc, len)`
  unfoldable pub write_len : ℕ → ℕ → Vtdev → Outcome Vtdev
  write_len n val d = do
    l ← acquire me d.lock
    let len = val % 2 ^ 32
    d1 ← change_desc n (λ e. record e { len = len }) d
    let daddr = (d.ring n).real_addr
    let crosses = ltb (daddr / 2 ^ 12) ((daddr + len) % 2 ^ 64 / 2 ^ 12)
    d2 ← if crosses then bounce n len d1 else ok d1
    l' ← release me l
    ok (record d2 { lock = l' })

  -- `case offsetof(struct virtq_desc, flags)` and `next`
  unfoldable pub write_field : ℕ → (VtDesc → VtDesc) → Vtdev → Outcome Vtdev
  write_field n f d = do
    l ← acquire me d.lock
    d1 ← change_desc n f d
    l' ← release me l
    ok (record d1 { lock = l' })

  unfoldable pub virtq_write : ℕ → ℕ → ℕ → Vtdev → Outcome Vtdev
  virtq_write offset val accsize d =
      let desc_size = 16 * d.qnum % 2 ^ 32 in
      let descn = offset / 16 in
      let descoff = offset % 16 in
      let addr = (do (pa, d1) ← write_addr descn val d; pass_through offset pa accsize d1) in
      let len = (do d1 ← write_len descn val d; pass_through offset val accsize d1) in
      let flags = (do
        d1 ← write_field descn (λ e. record e { has_next = not (bit_and (val % 2 ^ 16) 1 == 0) }) d
        pass_through offset val accsize d1) in
      let next = (do
        d1 ← write_field descn (λ e. record e { next = val % 2 ^ 16 }) d
        pass_through offset val accsize d1) in
      if leb desc_size offset
      then pass_through offset val accsize d
      else if descoff == 0
      then addr
      else if descoff == 8
      then len
      else if descoff == 12
      then flags
      else if descoff == 14
      then next
      else pass_through offset val accsize d

  -- The read of a device register at `ipa`, which `device` answers.
  unfoldable pub virtio_mmio_read : (ℕ → ℕ → ℕ) → ℕ → ℕ → Outcome ℕ
  virtio_mmio_read device ipa accsize =
      if is_accsize accsize then ok (device ipa accsize) else panic

  unfoldable pub write_device : ℕ → ℕ → ℕ → Vtdev → Outcome Vtdev
  write_device ipa val accsize d =
      if is_accsize accsize
      then ok (record d { writes = (ipa, accsize, val % 256 ^ accsize) ∷ d.writes })
      else panic

  -- `read` and `write` are `virtq_read` and `virtq_write` as handlers of a region.
  unfoldable pub virtio_mmio_write :
      {S R : Type 0}
      → Option (ℕ → Option ℕ → S → R)
      → Option (ℕ → ℕ → S → R)
      → ℕ
      → ℕ
      → ℕ
      → ℕ
      → Mmio S R
      → Vtdev
      → Outcome (Mmio S R × Vtdev)
  virtio_mmio_write read write ipa offset val accsize mmio d =
      let plain = (do d1 ← write_device ipa val accsize d; ok (mmio, d1)) in
      let queue_num = (do
        l ← acquire me d.lock
        l' ← release me l
        d1 ← write_device ipa val accsize (record d { qnum = val % 2 ^ 32; lock = l' })
        ok (mmio, d1)) in
      let queue_pfn = (do
        (s1, mmio1) ← pagetrap me vttbr (val * 2 ^ 12 % 2 ^ 64) 0x2000 read write d.pmem mmio
        d1 ← write_device ipa (virtqueue / 2 ^ 12) accsize (record d { pmem = s1 })
        ok (mmio1, d1)) in
      if offset == 0x38
      then queue_num
      else if offset == 0x28
      then (if val == 4096 then plain else panic)
      else if offset == 0x40
      then queue_pfn
      else if offset == 0x64
      then ok (mmio, d)
      else plain

  -- The inner loop of `virtio_dev_intr`, over the chain from `id`, with as many rounds as the fuel allows.
  unfoldable pub finish_chain : ℕ → ℕ → Vtdev → Outcome Vtdev
  finish_chain zero id d = spin
  finish_chain (suc fuel) id d = do
    let e = d.ring id
    let back = (do
      s1 ← copy_to_guest me vttbr e.ipa e.real_addr e.len d.pmem
      s2 ← kfree me e.real_addr s1
      change_desc id (λ x. record x { across_page = false }) (record d { pmem = s2 }))
    d1 ← if ltb id num then (if e.across_page then back else ok d) else fault
    let rest = finish_chain fuel e.next d1
    if e.has_next then rest else ok d1

  -- The outer loop; `used` is in the second page of the queue: its index at 2, its ring from 4 on.
  unfoldable pub finish_used : ℕ → ℕ → Vtdev → Outcome Vtdev
  finish_used chain_fuel zero d = spin
  finish_used chain_fuel (suc fuel) d =
      let used : ℕ = virtqueue + 4096 in
      let round = (do
        d1 ← finish_chain chain_fuel (load 4 d.pmem.mem (used + 4 + d.last_used_idx % num * 8)) d
        finish_used chain_fuel fuel
            (record d1 { last_used_idx = (d1.last_used_idx + 1) % 2 ^ 16 })) in
      if d.last_used_idx == load 2 d.pmem.mem (used + 2) then ok d else round

  -- `device` answers the read of INTERRUPT_STATUS.
  unfoldable pub virtio_dev_intr : ℕ → ℕ → (ℕ → ℕ → ℕ) → Vtdev → Outcome Vtdev
  virtio_dev_intr chain_fuel fuel device d = do
    l ← acquire me d.lock
    let status = bit_and (device (0x0a000000 + 0x60) 4) 3
    d1 ←
        finish_used chain_fuel fuel
          (record d { writes = (0x0a000000 + 0x64, 4, status) ∷ d.writes; lock = l })
    l' ← release me d1.lock
    ok (record d1 { lock = l' })

-- `virtio_mmio_init`: the device's registers are emulated, and its locks set up: `vtdev.lock` is the last result,
-- `vq_lock` is not used.
unfoldable pub virtio_mmio_init :
    {S R : Type 0}
    → ℕ
    → ℕ
    → Option (ℕ → Option ℕ → S → R)
    → Option (ℕ → ℕ → S → R)
    → Pmem
    → Mmio S R
    → Outcome (Pmem × Mmio S R × Spinlock)
virtio_mmio_init me vttbr read write s mmio = do
  (s1, mmio1) ← pagetrap me vttbr 0x0a000000 0x10000 read write s mmio
  ok (s1, mmio1, spinlock_init)
