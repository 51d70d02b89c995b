-- ===== src/Vm.antt =====
-- src/vm.c: the memory of a new virtual machine, and the regions of it that are emulated.
pub mod Grown
pub mod Ram
pub mod Image
pub mod Ranges
pub mod Layout
use mvmm.Base.{
  ℕ, zero, suc, ◌+◌, ◌-◌, ◌*◌, ◌/◌, ◌%◌, ◌^◌, bit_or, ◌==◌, ltb, if◌then◌else◌, Option, none, some,
  false, List, [], ◌∷◌, Outcome, ok, panic, ◌>>=◌,
}
use mvmm.CLib.{memcpy}
use mvmm.Kalloc.{Pmem, page_size, kalloc}
use mvmm.Mm.{pagewalk, pagemap, pageunmap, copy_to_guest}
use mvmm.Mmio.{Mmio, mmio_reg_handler}

-- `S2PTE_NORMAL|S2PTE_RW` and `S2PTE_DEVICE|S2PTE_RW`
unfoldable pub s2pte_ram : ℕ
s2pte_ram = bit_or (1 * 2 ^ 2) (3 * 2 ^ 6)

unfoldable pub s2pte_device : ℕ
s2pte_device = bit_or (0 * 2 ^ 2) (3 * 2 ^ 6)

-- A page from the pool for one page of the guest.
unfoldable pub ram_page : ℕ → ℕ → ℕ → Pmem → Outcome Pmem
ram_page me vttbr ipa s = do
  (page, s1) ← kalloc me s
  if page == 0 then panic else pagemap me vttbr ipa page page_size s2pte_ram s1

-- The loops that add memory to the guest, with the rounds left; `p` goes up by a page each round.
unfoldable pub ram_pages : ℕ → ℕ → ℕ → ℕ → ℕ → Pmem → Outcome Pmem
ram_pages me zero vttbr base p s = ok s
ram_pages me (suc n) vttbr base p s = do
  s1 ← ram_page me vttbr ((base + p) % 2 ^ 64) s
  ram_pages me n vttbr base ((p + page_size) % 2 ^ 64) s1

-- `struct guest`, without its name.
pub record Guest : Type 0 where
  pub start : ℕ
  pub size : ℕ

abbrev pub cpsize : Guest → ℕ → ℕ
cpsize guest p = if ltb page_size (guest.size - p) then page_size else guest.size - p

-- A page for the part of the image from `p` on.
unfoldable pub image_page : ℕ → ℕ → ℕ → Guest → ℕ → Pmem → Outcome Pmem
image_page me vttbr ipa guest p s = do
  (page, s1) ← kalloc me s
  let loaded = record s1 { mem = memcpy s1.mem page (guest.start + p) (cpsize guest p) }
  if page == 0 then panic else pagemap me vttbr ipa page page_size s2pte_ram loaded

unfoldable pub image_pages : ℕ → ℕ → ℕ → ℕ → Guest → ℕ → Pmem → Outcome Pmem
image_pages me zero vttbr base guest p s = ok s
image_pages me (suc n) vttbr base guest p s = do
  s1 ← image_page me vttbr ((base + p) % 2 ^ 64) guest p s
  image_pages me n vttbr base guest (p + page_size) s1

-- The rounds of a loop that goes up by pages from `p` to `limit`.
abbrev pub rounds : ℕ → ℕ → ℕ
rounds p limit = (limit - p + (page_size - 1)) / page_size

-- The guest's memory: 512 KB below the image, the image, and the rest of the `nallocate` bytes.
unfoldable pub map_memory : ℕ → ℕ → ℕ → ℕ → Guest → Pmem → Outcome Pmem
map_memory me vttbr entrypoint nallocate guest s =
    let p : ℕ = rounds 0 guest.size * page_size in
    let limit : ℕ = (nallocate + 2 ^ 64 - 0x80000) % 2 ^ 64 in
    (do
      s1 ← ram_pages me (rounds 0 0x80000) vttbr 0x40000000 0 s
      s2 ← image_pages me (rounds 0 guest.size) vttbr entrypoint guest 0 s1
      ram_pages me (rounds p limit) vttbr entrypoint p s2)

-- A file of the guest, where there is one, copied to its address.
unfoldable pub load_file : ℕ → ℕ → ℕ → Option Guest → Pmem → Outcome Pmem
load_file me vttbr ipa none s = ok s
load_file me vttbr ipa (some file) s = copy_to_guest me vttbr ipa file.start file.size s

-- The devices that the guest uses itself, as addresses and sizes: UART, GPIO, RTC and PCI.
abbrev pub peripherals : List (ℕ × ℕ)
peripherals =
    (0x09000000, page_size)
    ∷ ((0x09030000, page_size)
        ∷ ((0x09010000, page_size)
            ∷ ((0x4010000000, 256 * 1024 * 1024)
                ∷ ((0x10000000, 0x2eff0000) ∷ ((0x8000000000, 0x100000) ∷ [])))))

unfoldable pub map_peripherals : ℕ → ℕ → List (ℕ × ℕ) → Pmem → Outcome Pmem
map_peripherals me vttbr [] s = ok s
map_peripherals me vttbr ((base, size) ∷ rest) s = do
  s1 ← pagemap me vttbr base base size s2pte_device s
  map_peripherals me vttbr rest s1

-- `struct vmconfig`
pub record VmConfig : Type 0 where
  pub guest_img : Option Guest
  pub fdt_img : Option Guest
  pub initrd_img : Option Guest
  pub nvcpu : ℕ
  pub nallocate : ℕ
  pub entrypoint : ℕ

-- The tests of `create_vm`, which yield the image.
unfoldable pub check_config : VmConfig → Outcome Guest
check_config cfg = elim cfg.guest_img [
  | none ↦ panic
  | some guest ↦
      if ltb cfg.nallocate guest.size
      then panic
      else if cfg.nallocate % page_size == 0
      then (if ltb 8 cfg.nvcpu then panic else ok guest)
      else panic
]

-- The part of `create_vm` that makes the guest's address space: the address of the tables and the memory.
unfoldable pub create_space : ℕ → Guest → VmConfig → Pmem → Outcome (ℕ × Pmem)
create_space me guest cfg s = do
  (vttbr, s1) ← kalloc me s
  s2 ← if vttbr == 0 then panic else map_memory me vttbr cfg.entrypoint cfg.nallocate guest s1
  s3 ← load_file me vttbr 0x44000000 cfg.initrd_img s2
  s4 ← load_file me vttbr 0x44400000 cfg.fdt_img s3
  s5 ← map_peripherals me vttbr peripherals s4
  ok (vttbr, s5)

-- `pagetrap`: the pages of the range are taken from the guest if there is a table for the first of
-- them, and the range is registered.
unfoldable pub pagetrap :
    {S R : Type 0}
    → ℕ
    → ℕ
    → ℕ
    → ℕ
    → Option (ℕ → Option ℕ → S → R)
    → Option (ℕ → ℕ → S → R)
    → Pmem
    → Mmio S R
    → Outcome (Pmem × Mmio S R)
pagetrap me vttbr ipa size read write s mmio = do
  (pte, s1) ← pagewalk me vttbr ipa false s
  s2 ← if pte == 0 then ok s1 else pageunmap me vttbr ipa size s1
  registered ← mmio_reg_handler me ipa size read write mmio
  elim registered [ none ↦ panic | some mmio' ↦ ok (s2, mmio') ]
