-- ===== src/Mm/Entry.antt =====
-- The fields of a descriptor word.
use mvmm.Base.{
  ℕ, ◌+◌, ◌-◌, ◌*◌, ◌/◌, ◌%◌, ◌^◌, ◌<◌, bit_and, bit_or, ◌≡◌, ◌∙◌, refl, ap, true, false, arith,
  ◌==◌,
}
use mvmm.Base.Bits.{
  bit, bit-lt, bit-div, bit_and-pow_test, bit_and-mask, bit_and-shift, bit_or-shift, bit_and-bit_or,
  bit-bit_or, bit-pow_self, bit_or-zero, bit_or-lt,
}
use mvmm.Kalloc.Pool.{IsPage}
use mvmm.Mm.{pidx, pte_pa, is_table, table_entry, page_entry, pte_af, pte_v}

pub pidx-lt : (level va : ℕ) → pidx level va < 512
unfolding pidx
pidx-lt level va = omega (arith, bit_and-mask 9 (va / 2 ^ (39 - level * 9)))

pub pidx_lem : (level va : ℕ) → pidx level va ≡ va / 2 ^ (39 - level * 9) % 512
unfolding pidx
pidx_lem level va = bit_and-mask 9 (va / 2 ^ (39 - level * 9))

-- `PTE_PA` keeps bits 12 to 47.
pub pte_pa_lem : (e : ℕ) → pte_pa e ≡ e / 4096 % 2 ^ 36 * 4096
unfolding pte_pa
pte_pa_lem e =
    bit_and-shift 12 e (2 ^ 36 - 1) ∙ ap (λ (t : ℕ). t * 4096) (bit_and-mask 36 (e / 4096))

pub pte_pa-page : {p : ℕ} → IsPage p → pte_pa p ≡ p
pte_pa-page {p} page = let h = page.fits in let a = page.aligned in omega (arith, pte_pa_lem p)

pub pte_pa-bit_or : (a b : ℕ) → pte_pa (bit_or a b) ≡ bit_or (pte_pa a) (pte_pa b)
unfolding pte_pa
pte_pa-bit_or a b = bit_and-bit_or a b 0xfffffffff000

-- A table descriptor is the page's address with the two low bits set.
pub table_entry_lem : {p : ℕ} → IsPage p → table_entry p ≡ p + 3
unfolding table_entry
table_entry_lem {p} page =
    let a = page.aligned in
    let here : pte_pa p ≡ p / 4096 * 2 ^ 12 = omega (arith, pte_pa-page page) in
    let two : bit_or (pte_pa p) 2 ≡ (p / 2 + 1) * 2 ^ 1 =
      omega (arith, ap (λ (t : ℕ). bit_or t 2) here, bit_or-shift 12 (p / 4096) 2 (omega arith)) in
    omega (arith, ap (λ (t : ℕ). bit_or t 1) two, bit_or-shift 1 (p / 2 + 1) 1 (omega arith))

-- The test of `pagewalk` reads the two low bits.
pub is_table_lem : (e : ℕ) → is_table e ≡ (e % 4 == 3)
unfolding is_table
is_table_lem e =
    ground (arith, bit_and-pow_test e 0, bit_and-pow_test e 1, bit-div e 0, bit-div e 1)

pub is_table-table_entry : {p : ℕ} → IsPage p → is_table (table_entry p) ≡ true
is_table-table_entry {p} page =
    let a = page.aligned in ground (arith, is_table_lem (table_entry p), table_entry_lem page)

pub pte_pa-table_entry : {p : ℕ} → IsPage p → pte_pa (table_entry p) ≡ p
pte_pa-table_entry {p} page =
    let a = page.aligned in
    let h = page.fits in omega (arith, pte_pa_lem (table_entry p), table_entry_lem page)

pub is_table-zero : is_table 0 ≡ false
unfolding is_table
is_table-zero = refl

-- A page descriptor holds the address and, if the attributes keep clear of it, nothing else there.
pub pte_pa-page_entry : (pa attr : ℕ) → pte_pa attr ≡ 0 → pte_pa (page_entry pa attr) ≡ pte_pa pa
unfolding page_entry
pte_pa-page_entry pa attr h =
    let flag : pte_pa pte_af ≡ 0 = omega (arith, pte_pa_lem pte_af) in
    let low : pte_pa pte_v ≡ 0 = omega (arith, pte_pa_lem pte_v) in
    let again : pte_pa (pte_pa pa) ≡ pte_pa pa =
      omega (arith, pte_pa_lem (pte_pa pa), pte_pa_lem pa) in
    simp (pte_pa-bit_or, flag, low, h, again, bit_or-zero)

-- The access flag, by which `pagemap` knows an entry in use, is set in every page descriptor.
pub page_entry-af : (pa attr : ℕ) → (bit_and (page_entry pa attr) pte_af == 0) ≡ false
unfolding page_entry
page_entry-af pa attr =
    let x : ℕ = bit_or (pte_pa pa) pte_af in
    let on : bit (bit_or (bit_or x attr) pte_v) 10 ≡ 1 = omega (
      arith,
      bit-bit_or (bit_or x attr) pte_v 10,
      bit-bit_or x attr 10,
      bit-bit_or (pte_pa pa) pte_af 10,
      bit-pow_self 10,
      bit-lt (pte_pa pa) 10,
      bit-lt attr 10,
      bit-lt pte_v 10,
    ) in
    bit_and-pow_test (bit_or (bit_or x attr) pte_v) 10 ∙ ground arith

pub page_entry-lt : (pa attr : ℕ) → attr < 2 ^ 64 → page_entry pa attr < 2 ^ 64
unfolding page_entry
page_entry-lt pa attr h =
    bit_or-lt 64 (bit_or (bit_or (pte_pa pa) pte_af) attr) pte_v
      (bit_or-lt 64 (bit_or (pte_pa pa) pte_af) attr
        (bit_or-lt 64 (pte_pa pa) pte_af (omega (arith, pte_pa_lem pa)) (omega arith)) h)
      (omega arith)

pub table_entry-lt : {p : ℕ} → IsPage p → table_entry p < 2 ^ 64
table_entry-lt page = let h = page.fits in omega (arith, table_entry_lem page)
