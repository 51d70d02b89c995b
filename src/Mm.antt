-- ===== src/Mm.antt =====
-- src/mm.c and include/mm.h: the stage-2 page tables of a guest, in physical memory.
pub mod Entry
pub mod Tables
pub mod Attach
pub mod Walk
pub mod Grow
pub mod Leaf
pub mod Frame
pub mod Map
pub mod Range
pub mod Copy
pub mod Regime
use mvmm.Base.{
  ℕ, zero, suc, ◌+◌, ◌-◌, ◌*◌, ◌/◌, ◌%◌, ◌^◌, bit_and, bit_or, Bool, true, false, ◌&&◌, ◌||◌, not,
  ◌==◌, ltb, if◌then◌else◌, Outcome, ok, panic, fault, ◌>>=◌,
}
use mvmm.Memory.{load64, store64}
use mvmm.CLib.{memcpy}
use mvmm.Kalloc.{Pmem, page_size, kalloc, kfree}

-- `PIDX(level, va)`
unfoldable pub pidx : ℕ → ℕ → ℕ
pidx level va = bit_and (va / 2 ^ (39 - level * 9)) 0x1ff

-- `PTE_PA(pte)`
unfoldable pub pte_pa : ℕ → ℕ
pte_pa e = bit_and e 0xfffffffff000

abbrev pub pte_valid : ℕ
pte_valid = 1

abbrev pub pte_table : ℕ
pte_table = 2

abbrev pub pte_v : ℕ
pte_v = 3

-- `PTE_AF` and `S2PTE_AF`
abbrev pub pte_af : ℕ
pte_af = 2 ^ 10

-- `(*pte & PTE_VALID) && (*pte & PTE_TABLE)`
unfoldable pub is_table : ℕ → Bool
is_table e = not (bit_and e pte_valid == 0) && not (bit_and e pte_table == 0)

-- `PTE_PA(pgt) | PTE_TABLE | PTE_VALID`
unfoldable pub table_entry : ℕ → ℕ
unfolding pte_pa
table_entry page = bit_or (bit_or (pte_pa page) pte_table) pte_valid

-- The rounds of `pagewalk` that are left from `level` on, and its `return`. 0 is the null pointer.
unfoldable pub walk : ℕ → ℕ → ℕ → ℕ → ℕ → Bool → Pmem → Outcome (ℕ × Pmem)
walk me zero level pgt va alloc s = ok (pgt + 8 * pidx 3 va, s)
walk me (suc left) level pgt va alloc s =
    let pte = pgt + 8 * pidx level va in
    let e = load64 s.mem pte in
    let down = walk me left (suc level) (pte_pa e) va alloc s in
    let grow = (do
      (page, s1) ← kalloc me s
      let linked = record s1 { mem = store64 s1.mem pte (table_entry page) }
      if page == 0 then panic else walk me left (suc level) page va alloc linked) in
    if is_table e then down else if alloc then grow else ok (0, s)

unfoldable pub pagewalk : ℕ → ℕ → ℕ → Bool → Pmem → Outcome (ℕ × Pmem)
pagewalk me pgt va alloc s = walk me 3 0 pgt va alloc s

-- `PTE_PA(pa) | S2PTE_AF | attr | PTE_V`
unfoldable pub page_entry : ℕ → ℕ → ℕ
page_entry pa attr = bit_or (bit_or (bit_or (pte_pa pa) pte_af) attr) pte_v

-- One round of `pagemap`.
unfoldable pub map_page : ℕ → ℕ → ℕ → ℕ → ℕ → Pmem → Outcome Pmem
map_page me pgt va pa attr s = do
  (pte, s1) ← pagewalk me pgt va true s
  if bit_and (load64 s1.mem pte) pte_af == 0
      then ok (record s1 { mem = store64 s1.mem pte (page_entry pa attr) })
      else panic

-- The loops run `size / PAGESIZE` rounds, since `size` is a multiple of it; addresses are `u64`.
map_pages : ℕ → ℕ → ℕ → ℕ → ℕ → ℕ → Pmem → Outcome Pmem
map_pages me zero pgt va pa attr s = ok s
map_pages me (suc n) pgt va pa attr s = do
  s1 ← map_page me pgt va pa attr s
  map_pages me n pgt ((va + page_size) % 2 ^ 64) ((pa + page_size) % 2 ^ 64) attr s1

unfoldable pub pagemap : ℕ → ℕ → ℕ → ℕ → ℕ → ℕ → Pmem → Outcome Pmem
unfolding map_pages
pagemap me pgt va pa size attr s =
    if not (va % page_size == 0) || not (pa % page_size == 0) || not (size % page_size == 0)
    then panic
    else map_pages me (size / page_size) pgt va pa attr s

-- One round of `pageunmap`; `*pte` is read through a pointer that may be null.
unfoldable pub unmap_page : ℕ → ℕ → ℕ → Pmem → Outcome Pmem
unmap_page me pgt va s = do
  (pte, s1) ← pagewalk me pgt va false s
  let e = load64 s1.mem pte
  let freed = (do s2 ← kfree me (pte_pa e) s1; ok (record s2 { mem = store64 s2.mem pte 0 }))
  if pte == 0 then fault else if e == 0 then panic else freed

unmap_pages : ℕ → ℕ → ℕ → ℕ → Pmem → Outcome Pmem
unmap_pages me zero pgt va s = ok s
unmap_pages me (suc n) pgt va s = do
  s1 ← unmap_page me pgt va s
  unmap_pages me n pgt ((va + page_size) % 2 ^ 64) s1

unfoldable pub pageunmap : ℕ → ℕ → ℕ → ℕ → Pmem → Outcome Pmem
unfolding unmap_pages
pageunmap me pgt va size s =
    if not (va % page_size == 0) || not (size % page_size == 0)
    then panic
    else unmap_pages me (size / page_size) pgt va s

unfoldable pub pageremap : ℕ → ℕ → ℕ → ℕ → ℕ → ℕ → Pmem → Outcome Pmem
pageremap me pgt va pa size attr s =
    if not (va % page_size == 0) || not (size % page_size == 0)
    then panic
    else (do s1 ← pageunmap me pgt va size s; pagemap me pgt va pa size attr s1)

-- The result is a `u64`, the offset a `u32`.
unfoldable pub ipa2pa : ℕ → ℕ → ℕ → Pmem → Outcome ℕ
ipa2pa me pgt ipa s = do
  (pte, s1) ← pagewalk me pgt ipa false s
  if pte == 0 then ok 0 else ok (pte_pa (load64 s1.mem pte) + bit_and ipa (page_size - 1))

-- The bytes that one round of a copy loop moves, at the guest address `ipa`.
abbrev pub chunk : ℕ → ℕ → ℕ
chunk ipa len = let n = page_size - bit_and ipa (page_size - 1) in if ltb len n then len else n

-- A round moves at least one byte, so `len` rounds are enough; the first argument counts them.
copy_out : ℕ → ℕ → ℕ → ℕ → ℕ → ℕ → Pmem → Outcome Pmem
copy_out zero me pgt ipa from len s = ok s
copy_out (suc fuel) me pgt ipa from len s =
    let n = chunk ipa len in
    let round = (do
      pa ← ipa2pa me pgt ipa s
      let copied = record s { mem = memcpy s.mem pa from n }
      if pa == 0 then panic else copy_out fuel me pgt (ipa + n) (from + n) (len - n) copied) in
    if len == 0 then ok s else round

unfoldable pub copy_to_guest : ℕ → ℕ → ℕ → ℕ → ℕ → Pmem → Outcome Pmem
unfolding copy_out
copy_to_guest me pgt to_ipa from len s = copy_out len me pgt to_ipa from len s

copy_in : ℕ → ℕ → ℕ → ℕ → ℕ → ℕ → Pmem → Outcome Pmem
copy_in zero me pgt to ipa len s = ok s
copy_in (suc fuel) me pgt to ipa len s =
    let n = chunk ipa len in
    let round = (do
      pa ← ipa2pa me pgt ipa s
      let copied = record s { mem = memcpy s.mem to pa n }
      if pa == 0 then panic else copy_in fuel me pgt (to + n) (ipa + n) (len - n) copied) in
    if len == 0 then ok s else round

unfoldable pub copy_from_guest : ℕ → ℕ → ℕ → ℕ → ℕ → Pmem → Outcome Pmem
unfolding copy_in
copy_from_guest me pgt to from_ipa len s = copy_in len me pgt to from_ipa len s
