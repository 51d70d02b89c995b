-- ===== src/Tests/Bus.antt =====
-- A function with a 32-bit window, a 64-bit window and ports, and a generator with two capabilities.
use mvmm.Base.{
  ℕ, ◌+◌, ◌*◌, ◌/◌, ◌≡◌, ◌==◌, if◌then◌else◌, true, List, [], ◌∷◌, All, ok, arith, refl, ==-true,
  ==-false, write_at,
}
use mvmm.Pci.{ConfigSpace, PciDev, Enabling, start_bases, is_mem, is_mem64, pci_func_enable}
use mvmm.Pci.Place.{Slot, empty, port, narrow, wide, IsFunction, Unplaced, Placed}
use mvmm.Pci.Enable.{pci_func_enable-Placed}
use mvmm.Pci.Windows.{Disjoint, InRange, windows, need32, need64, pci_func_enable-Disjoint}
use mvmm.VirtioPci.{VirtioPciDev, Cap, Startup, scan_cap, virtio_pci_dev_init}
use mvmm.VirtioPci.Chain.{Scanned, scan_cap-Scanned}
use mvmm.VirtioPci.Start.{start_writes, virtio_pci_dev_init-started}
use mvmm.Kalloc.Pool.{IsPool}
use mvmm.Tests.Tables.{path_state, path_state-IsSpace}

abbrev answer : ℕ → ℕ → ℕ
answer i v =
    if i == 0
    then v / 0x1000 * 0x1000
    else if i == 1
    then v / 0x4000 * 0x4000 + 0xc
    else if i == 2
    then v
    else if i == 3
    then v / 0x20 * 0x20 + 1
    else 0

-- The state of the function is what its registers hold.
abbrev function : ConfigSpace (ℕ → ℕ)
function = record {
  vendor_id = λ c. 0x1af4;
  device_id = λ c. 0x1044;
  header_type = λ c. 0;
  command = λ c. 0;
  set_command = λ v c. c;
  bar = λ c i. c i;
  set_bar = λ i v c. write_at c i (answer i v);
}

function-IsFunction : IsFunction function answer
function-IsFunction = record {
  self = λ c i v. rw (==-true {a = i} {b = i} refl) refl;
  other = λ c i j v ne. rw (==-false ne) refl;
  command = λ c v j. refl;
}

abbrev slots : List Slot
slots = narrow 0x1000 0 ∷ wide 0x4000 0xc ∷ port ∷ empty ∷ empty ∷ []

abbrev pub test_dev : PciDev
test_dev = record {
  bus = 0;
  device = 3;
  func = 0;
  vndr_id = 0x1af4;
  dev_id = 0x1044;
  reg_addr = λ i. 0;
  reg_size = λ i. 0;
}

abbrev function_state : Enabling (ℕ → ℕ)
function_state = record {
  config = λ i. if i == 1 then 0xc else if i == 3 then 1 else 0;
  bases = start_bases;
  dev = test_dev;
}

function-Unplaced : Unplaced function answer slots 0 function_state.config
unfolding is_mem is_mem64
function-Unplaced = (
  refl,
  record {
    mask = refl;
    aligned = refl;
    some_bytes = omega arith;
    small = omega arith;
    flags = omega arith;
    mem = refl;
  },
  refl,
  (
    refl,
    record {
      mask = refl;
      aligned = refl;
      some_bytes = omega arith;
      small = omega arith;
      flags = omega arith;
      mem = refl;
    },
    refl,
    (omega arith, refl, (refl, (refl, tt))),
  ),
)

pci_func_enable-Placed_example :
    Placed function answer slots 0 start_bases (pci_func_enable function function_state)
pci_func_enable-Placed_example =
    pci_func_enable-Placed function answer slots function_state function-IsFunction refl
      function-Unplaced

pci_func_enable-Disjoint_example :
    Disjoint (pci_func_enable function function_state) (windows slots 0)
    × All
        (InRange start_bases
          (0x10000000 + need32 slots)
          (0x8000000000 + need64 slots)
          (pci_func_enable function function_state))
        (windows slots 0)
pci_func_enable-Disjoint_example =
    pci_func_enable-Disjoint function answer slots function_state function-IsFunction refl
      function-Unplaced (omega arith) (omega arith)

-- The common configuration at 0x40, and after it the notifications at 0x54.
abbrev capabilities : ℕ → Cap
capabilities at = record {
  cap_vndr = 9;
  cap_next = if at == 0x40 then 0x54 else 0;
  cfg_type = if at == 0x40 then 1 else 2;
  bar = 1;
  offset = if at == 0x40 then 0 else 0x3000;
  notify_off_multiplier = 4;
}

abbrev blank : VirtioPciDev
blank = record { vtcfg = 0; notify_base = 0; notify_off_multiplier = 0 }

scan_cap-Scanned_example :
    (d' : VirtioPciDev) × (scan_cap 2 test_dev capabilities 0x40 blank ≡ ok d')
    × Scanned test_dev capabilities (0x40 ∷ 0x54 ∷ []) blank d'
scan_cap-Scanned_example =
    scan_cap-Scanned 2 test_dev capabilities 0x40 (0x54 ∷ []) blank (omega arith)
      (refl, omega arith, refl) (omega arith, (omega arith, tt))

virtio_pci_dev_init-started_example :
    (s' : Startup) × (virtio_pci_dev_init 0 2
        (λ w. 15)
        capabilities
        0x40
        blank
        test_dev
        (record { pmem = path_state; writes = [] })
      ≡ ok (true, s'))
    × (s'.writes ≡ start_writes 0 0x2000 0x3000 0x4000 [])
    × IsPool s'.pmem []
virtio_pci_dev_init-started_example =
    virtio_pci_dev_init-started 0 2 0x2000 0x3000 0x4000 0x40 (λ w. 15) capabilities (0x54 ∷ []) []
      blank test_dev (record { pmem = path_state; writes = [] }) refl (omega arith)
      (refl, omega arith, refl) (omega arith, (omega arith, tt)) (path_state-IsSpace.pool)
