-- ===== src/Pci.antt =====
-- src/pci.c and include/pci.h: the functions on the PCI bus, and the addresses that their registers get.
pub mod Place
pub mod Enable
pub mod Windows
use mvmm.Base.{
  ℕ, zero, suc, ◌+◌, ◌-◌, ◌*◌, ◌/◌, ◌%◌, ◌^◌, bit_and, bit_or, Bool, true, false, ◌==◌, ltb,
  if◌then◌else◌, write_at, Outcome, ok, ◌>>=◌,
}

-- A function's configuration space: its state is of type `C`, and a base address register keeps of a write
-- what its function decodes.
pub record ConfigSpace (C : Type 0) : Type 0 where
  pub vendor_id : C → ℕ
  pub device_id : C → ℕ
  pub header_type : C → ℕ
  pub command : C → ℕ
  pub set_command : ℕ → C → C
  pub bar : C → ℕ → ℕ
  pub set_bar : ℕ → ℕ → C → C

-- `pci_mmio_base32` and `pci_mmio_base64`
pub record Bases : Type 0 where
  pub base32 : ℕ
  pub base64 : ℕ

abbrev pub start_bases : Bases
start_bases = record { base32 = 0x10000000; base64 = 0x8000000000 }

-- `struct pci_dev` less its pointer to the configuration space
pub record PciDev : Type 0 where
  pub bus : ℕ
  pub device : ℕ
  pub func : ℕ
  pub vndr_id : ℕ
  pub dev_id : ℕ
  pub reg_addr : ℕ → ℕ
  pub reg_size : ℕ → ℕ

unfoldable pub pci_baseaddr_map : ℕ → Bool → Bases → ℕ × Bases
pci_baseaddr_map size mem64 b =
    if mem64
    then (b.base64, record b { base64 = (b.base64 + size) % 2 ^ 64 })
    else (b.base32, record b { base32 = (b.base32 + size) % 2 ^ 64 })

-- `PCI_BAR_TYPE(bar) == PCI_BAR_TYPE_MEM`
unfoldable pub is_mem : ℕ → Bool
is_mem bar = bit_and bar 1 == 0

-- `PCI_BAR_MEM_TYPE(bar) == PCI_BAR_MEM_TYPE_64`
unfoldable pub is_mem64 : ℕ → Bool
is_mem64 bar = bit_and (bar / 2) 3 == 2

-- `~(rv & 0xfffffff0) + 1` as a `u32`
unfoldable pub bar_size : ℕ → ℕ
bar_size rv = (2 ^ 32 - bit_and rv 0xfffffff0) % 2 ^ 32

-- The function, the bases and the record of the device, on the way through `pci_func_enable`.
pub record Enabling (C : Type 0) : Type 0 where
  pub config : C
  pub bases : Bases
  pub dev : PciDev

-- The functions by bus, device and number, with the state of the hypervisor.
pub record Bus (C S : Type 0) : Type 0 where
  pub space : ℕ → ℕ → ℕ → C
  pub bases : Bases
  pub dev : PciDev
  pub state : S

module _ {C : Type 0} (hw : ConfigSpace C) where
  -- The memory branch: the value to go back to the register, and the state.
  unfoldable pub place_bar : ℕ → ℕ → ℕ → Enabling C → ℕ × Enabling C
  place_bar i oldv rv s =
      let addr = bit_and oldv 0xfffffff0 in
      let size : ℕ = bar_size rv in
      let (fresh, bases) = pci_baseaddr_map size (is_mem64 oldv) s.bases in
      let note : ℕ → PciDev = λ a. record s.dev {
        reg_addr = write_at s.dev.reg_addr i a;
        reg_size = write_at s.dev.reg_size i size;
      } in
      if addr == 0
      then (bit_or fresh (bit_and oldv 0xf), record s { bases = bases; dev = note fresh })
      else (oldv, record s { dev = note addr })

  -- `cfg->bar[i] = ...`, for a 64-bit register in both halves.
  unfoldable pub restore_bar : Bool → ℕ → ℕ → Enabling C → Enabling C
  restore_bar mem64 i v s =
      let low : C = hw.set_bar i (v % 2 ^ 32) s.config in
      let high : C = hw.set_bar (i + 1) (v / 2 ^ 32 % 2 ^ 32) low in
      if mem64 then record s { config = high } else record s { config = low }

  -- One round: the next index, and the state.
  unfoldable pub bar_round : ℕ → Enabling C → ℕ × Enabling C
  bar_round i s =
      let oldv : ℕ = hw.bar s.config i in
      let probed : C = hw.set_bar i 0xffffffff s.config in
      let rv : ℕ = hw.bar probed i in
      let s1 : Enabling C = record s { config = probed } in
      let (v, s2) = place_bar i oldv rv s1 in
      if rv == 0
      then (i + 1, s1)
      else if is_mem oldv
      then (if is_mem64 oldv then i + 2 else i + 1, restore_bar (is_mem64 oldv) i v s2)
      else (i + 1, restore_bar false i oldv s1)

  -- The loop from `i` on; each round advances, so six rounds are enough.
  unfoldable pub enable_bars : ℕ → ℕ → Enabling C → Enabling C
  enable_bars zero i s = s
  enable_bars (suc fuel) i s =
      let (next, s1) = bar_round i s in if ltb i 6 then enable_bars fuel next s1 else s

  unfoldable pub pci_func_enable : Enabling C → Enabling C
  pci_func_enable s = enable_bars 6 0 (record s {
    config = hw.set_command (bit_or (hw.command s.config) 7) s.config;
    dev = record s.dev { vndr_id = hw.vendor_id s.config; dev_id = hw.device_id s.config };
  })

  -- `pci_scan_bus`, with what is called for a virtio device.
  module _ {S : Type 0} (virtio_pci_dev_init : C → PciDev → S → Outcome (C × S)) where
    unfoldable pub scan_func : ℕ → ℕ → ℕ → Bus C S → Outcome (Bus C S)
    scan_func bc dc fc b =
        let cfg : C = b.space bc dc fc in
        let here : PciDev = record b.dev { bus = bc; device = dc; func = fc } in
        let e : Enabling C =
          pci_func_enable (record { config = cfg; bases = b.bases; dev = here }) in
        let put : C → S → Bus C S = λ c s. record {
          space = write_at b.space bc (write_at (b.space bc) dc (write_at (b.space bc dc) fc c));
          bases = e.bases;
          dev = e.dev;
          state = s;
        } in
        let virtio = (do
          (cfg', s') ← virtio_pci_dev_init e.config e.dev b.state
          ok (put cfg' s')) in
        if hw.vendor_id cfg == 0xffff
        then ok b
        else if hw.header_type cfg == 0
        then (if e.dev.vndr_id == 0x1af4 then virtio else ok (put e.config b.state))
        else ok b

    -- The loops, with the rounds left and the index.
    unfoldable pub scan_funcs : ℕ → ℕ → ℕ → ℕ → Bus C S → Outcome (Bus C S)
    scan_funcs zero bc dc fc b = ok b
    scan_funcs (suc n) bc dc fc b = do b1 ← scan_func bc dc fc b; scan_funcs n bc dc (fc + 1) b1

    unfoldable pub scan_devices : ℕ → ℕ → ℕ → Bus C S → Outcome (Bus C S)
    scan_devices zero bc dc b = ok b
    scan_devices (suc n) bc dc b = do b1 ← scan_funcs 8 bc dc 0 b; scan_devices n bc (dc + 1) b1

    unfoldable pub scan_buses : ℕ → ℕ → Bus C S → Outcome (Bus C S)
    scan_buses zero bc b = ok b
    scan_buses (suc n) bc b = do b1 ← scan_devices 32 bc 0 b; scan_buses n (bc + 1) b1

    unfoldable pub pci_scan_bus : Bus C S → Outcome (Bus C S)
    pci_scan_bus b = scan_buses 256 0 b
