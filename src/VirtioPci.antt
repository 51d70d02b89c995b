-- ===== src/VirtioPci.antt =====
-- src/virtio-pci.c: the capabilities of a virtio device on PCI, and the writes that start it.
pub mod Chain
pub mod Start
use mvmm.Base.{
  ℕ, zero, suc, ◌+◌, ◌-◌, ◌*◌, ◌%◌, ◌^◌, bit_and, bit_or, Bool, true, false, ◌==◌, ltb,
  if◌then◌else◌, List, [], ◌∷◌, Outcome, ok, fault, spin, ◌>>=◌,
}
use mvmm.Kalloc.{Pmem}
use mvmm.Virtq.{Virtq, virtq_init}
use mvmm.Pci.{PciDev}

-- What `virtio_pci_scan_cap` finds out of `struct virtio_pci_dev`.
pub record VirtioPciDev : Type 0 where
  pub vtcfg : ℕ
  pub notify_base : ℕ
  pub notify_off_multiplier : ℕ

-- `struct virtio_pci_cap`, with the field that the capability for notifications has after it
pub record Cap : Type 0 where
  pub cap_vndr : ℕ
  pub cap_next : ℕ
  pub cfg_type : ℕ
  pub bar : ℕ
  pub offset : ℕ
  pub notify_off_multiplier : ℕ

-- One capability. Its register number is not tested in the source: one past the array is a fault.
unfoldable pub use_cap : PciDev → Cap → VirtioPciDev → Outcome VirtioPciDev
use_cap pdev cap vdev =
    let addr : ℕ = pdev.reg_addr cap.bar in
    let notify : VirtioPciDev = record vdev {
      notify_base = (addr + cap.offset) % 2 ^ 64;
      notify_off_multiplier = cap.notify_off_multiplier;
    } in
    if cap.cfg_type == 1
    then (if ltb cap.bar 6 then ok (record vdev { vtcfg = addr }) else fault)
    else if cap.cfg_type == 2
    then (if ltb cap.bar 6 then ok notify else fault)
    else ok vdev

-- `__virtio_pci_scan_cap` from the capability at `at` of the configuration space on, as far as the fuel goes.
unfoldable pub scan_cap : ℕ → PciDev → (ℕ → Cap) → ℕ → VirtioPciDev → Outcome VirtioPciDev
scan_cap zero pdev caps at vdev = spin
scan_cap (suc fuel) pdev caps at vdev = do
  let cap : Cap = caps at
  vdev1 ← use_cap pdev cap vdev
  let rest = scan_cap fuel pdev caps cap.cap_next vdev1
  if cap.cap_next == 0 then ok vdev1 else rest

-- A write to the registers of the device: address, size in bytes, value.
abbrev pub Write : Type 0
Write = ℕ × ℕ × ℕ

-- The hypervisor's memory, and the writes to the device, the newest first.
pub record Startup : Type 0 where
  pub pmem : Pmem
  pub writes : List Write

unfoldable pub write_cfg : ℕ → ℕ → ℕ → Startup → Startup
write_cfg addr size v s = record s { writes = (addr, size, v % 2 ^ (8 * size)) ∷ s.writes }

-- `vtcfg->device_status = status`
abbrev pub set_status : ℕ → ℕ → Startup → Startup
set_status vtcfg status s = write_cfg (vtcfg + 20) 1 status s

-- The writes for the queue: its number, size, addresses, and its start.
unfoldable pub set_queue : ℕ → Virtq → Startup → Startup
set_queue vtcfg vq s =
    let s1 : Startup = write_cfg (vtcfg + 24) 2 1 (write_cfg (vtcfg + 22) 2 0 s) in
    let s2 : Startup = write_cfg (vtcfg + 32) 8 vq.desc_page s1 in
    let s3 : Startup = write_cfg (vtcfg + 40) 8 vq.avail_page s2 in
    let s4 : Startup = write_cfg (vtcfg + 48) 8 vq.used_page s3 in write_cfg (vtcfg + 28) 2 1 s4

-- `virtio_rng_init`; `device_status` is the answer of the device, after these writes, to the read of its
-- status. The Boolean is `true` for the result 0, `false` for -1.
unfoldable pub virtio_rng_init :
    ℕ → (List Write → ℕ) → ℕ → Startup → Outcome (Bool × Virtq × Startup)
virtio_rng_init me device_status vtcfg s = do
  let s1 : Startup = set_status vtcfg 3 (set_status vtcfg 1 (set_status vtcfg 0 s))
  let s2 : Startup = write_cfg (vtcfg + 8) 4 0 (write_cfg vtcfg 4 0 s1)
  let s3 : Startup = set_status vtcfg 11 s2
  (vq, pmem) ← virtq_init me s3.pmem
  let s4 : Startup = set_status vtcfg 15 (set_queue vtcfg vq (record s3 { pmem = pmem }))
  let refused : Bool = bit_and (device_status s4.writes) 4 == 0
  ok (if refused then false else true, vq, s4)

-- `virtio_pci_dev_init`, with the offset of the first capability. The structure on the stack, which the
-- capabilities fill in, starts with whatever is there; the results of the calls are not used.
unfoldable pub virtio_pci_dev_init :
    ℕ
    → ℕ
    → (List Write → ℕ)
    → (ℕ → Cap)
    → ℕ
    → VirtioPciDev
    → PciDev
    → Startup
    → Outcome (Bool × Startup)
virtio_pci_dev_init me fuel device_status caps cap_ptr stack pdev s = do
  let scan = scan_cap fuel pdev caps cap_ptr stack
  let rng = (do
    vdev ← scan
    (_, _, s1) ← virtio_rng_init me device_status vdev.vtcfg s
    ok (true, s1))
  let net = (do vdev ← scan; ok (true, s))
  let other = (do vdev ← scan; ok (false, s))
  if ltb pdev.dev_id 0x1040
      then ok (false, s)
      else if pdev.dev_id == 0x1041
      then net
      else if pdev.dev_id == 0x1044
      then rng
      else other
