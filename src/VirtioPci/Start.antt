-- ===== src/VirtioPci/Start.antt =====
-- The start of a random number generator on PCI.
use mvmm.Base.{
  ℕ, ◌+◌, ◌%◌, ◌^◌, ◌<◌, ◌≡◌, true, ◌==◌, ltb, List, [], ◌∷◌, All, length, ok, arith, refl, ap, ◌∙◌,
  Bool, false, bit_and, if◌then◌else◌,
}
use mvmm.Kalloc.Pool.{IsPool}
use mvmm.Pci.{PciDev}
use mvmm.Virtq.{Virtq}
use mvmm.Virtq.FreeList.{FreeList}
use mvmm.Virtq.Init.{virtq_init-FreeList}
use mvmm.VirtioPci.{
  VirtioPciDev, Cap, Write, Startup, write_cfg, set_queue, virtio_rng_init, virtio_pci_dev_init,
}
use mvmm.VirtioPci.Chain.{Linked, last_with, value_or, HasRegister, scan_cap-Scanned}

-- The writes of a start, the newest first: the status goes through reset, ACKNOWLEDGE, DRIVER and
-- FEATURES_OK, the queue gets the addresses of its pages and is enabled, and only then comes DRIVER_OK.
abbrev pub start_writes : ℕ → ℕ → ℕ → ℕ → List Write → List Write
start_writes vtcfg desc avail used earlier =
    (vtcfg + 20, 1, 15)
    ∷ (vtcfg + 28, 2, 1)
    ∷ (vtcfg + 48, 8, used)
    ∷ (vtcfg + 40, 8, avail)
    ∷ (vtcfg + 32, 8, desc)
    ∷ (vtcfg + 24, 2, 1)
    ∷ (vtcfg + 22, 2, 0)
    ∷ (vtcfg + 20, 1, 11)
    ∷ (vtcfg + 8, 4, 0)
    ∷ (vtcfg, 4, 0)
    ∷ (vtcfg + 20, 1, 3)
    ∷ (vtcfg + 20, 1, 1)
    ∷ (vtcfg + 20, 1, 0)
    ∷ earlier

-- The device has taken the status after these writes.
abbrev pub accepted : (List Write → ℕ) → List Write → Bool
accepted device_status writes = if bit_and (device_status writes) 4 == 0 then false else true

rng_started :
    (me vtcfg desc avail used : ℕ) (device_status : List Write → ℕ) (ps : List ℕ) (s : Startup)
    → IsPool s.pmem (desc ∷ avail ∷ used ∷ ps)
    → (vq : Virtq) × (s' : Startup) × (virtio_rng_init me device_status vtcfg s
        ≡ ok (accepted device_status s'.writes, vq, s'))
      × (s'.writes ≡ start_writes vtcfg desc avail used s.writes)
      × FreeList vq (0 ∷ 1 ∷ 2 ∷ 3 ∷ 4 ∷ 5 ∷ 6 ∷ 7 ∷ [])
      × IsPool s'.pmem ps
unfolding virtio_rng_init set_queue write_cfg
rng_started me vtcfg desc avail used device_status ps s pool =
    let (vq, s3, ran, free, pool3, d, a, u) =
      virtq_init-FreeList me desc avail used ps s.pmem pool in
    let (_, page1, _, (_, page2, _, (_, page3, _, _))) = pool.chain in
    let fit1 : desc % 2 ^ 64 ≡ desc = let h = page1.fits in omega arith in
    let fit2 : avail % 2 ^ 64 ≡ avail = let h = page2.fits in omega arith in
    let fit3 : used % 2 ^ 64 ≡ used = let h = page3.fits in omega arith in
    (
      vq,
      record { pmem = s3; writes = start_writes vtcfg desc avail used s.writes },
      rw (ran, d, a, u, fit1, fit2, fit3) refl,
      refl,
      free,
      pool3,
    )

-- A random number generator (device 0x1044) whose chain of capabilities ends, with as much fuel as that has
-- members, and names registers within the six, is started when the pool has three pages: at the base of
-- the last capability for the common configuration come the writes of `start_writes` in their order, with
-- the first three free pages as the queue's, and the pool keeps the others.
pub virtio_pci_dev_init-started :
    (me fuel desc avail used cap_ptr : ℕ) (device_status : List Write → ℕ) (caps : ℕ → Cap)
    (ns ps : List ℕ) (stack : VirtioPciDev) (pdev : PciDev) (s : Startup)
    → pdev.dev_id ≡ 0x1044
    → length ns < fuel
    → Linked caps cap_ptr ns
    → All (λ n. HasRegister (caps n)) (cap_ptr ∷ ns)
    → IsPool s.pmem (desc ∷ avail ∷ used ∷ ps)
    → (s' : Startup) × (virtio_pci_dev_init me fuel device_status caps cap_ptr stack pdev s
        ≡ ok (true, s'))
      × (s'.writes
          ≡ start_writes
              (value_or (λ c. pdev.reg_addr c.bar) stack.vtcfg (last_with 1 caps (cap_ptr ∷ ns)))
              desc
              avail
              used
              s.writes)
      × IsPool s'.pmem ps
unfolding virtio_pci_dev_init
virtio_pci_dev_init-started me fuel desc avail used cap_ptr device_status caps ns ps stack pdev s id
      enough chain regs pool =
    let is_virtio : ltb pdev.dev_id 0x1040 ≡ false = ground arith in
    let not_net : (pdev.dev_id == 0x1041) ≡ false = ground arith in
    let is_rng : (pdev.dev_id == 0x1044) ≡ true = ground arith in
    let (vdev, scanned, found) =
      scan_cap-Scanned fuel pdev caps cap_ptr ns stack enough chain regs in
    let (vq, s', ran, writes, free, pool') =
      rng_started me vdev.vtcfg desc avail used device_status ps s pool in
    (
      s',
      rw (is_virtio, not_net, is_rng, scanned, ran) refl,
      writes ∙ ap (λ (x : ℕ). start_writes x desc avail used s.writes) found.common,
      pool',
    )
