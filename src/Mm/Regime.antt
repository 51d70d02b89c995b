-- ===== src/Mm/Regime.antt =====
-- src/mm.c: the registers that say how the processor walks the stage-2 tables.
use mvmm.Base.{ℕ, ◌-◌, ◌*◌, ◌/◌, ◌%◌, ◌^◌, ◌<◌, ◌≡◌, bit_and, bit_or, arith, refl}
use mvmm.Mm.{pidx}
use mvmm.Mm.Entry.{pidx_lem}

-- `vtcr_el2` and `mair_el2`
pub record Regime : Type 0 where
  pub vtcr : ℕ
  pub mair : ℕ

abbrev pub vtcr_t0sz : ℕ → ℕ
vtcr_t0sz n = bit_and n 0x3f

abbrev pub vtcr_sl0 : ℕ → ℕ
vtcr_sl0 n = bit_and n 0x3 * 2 ^ 6

abbrev pub vtcr_sh0 : ℕ → ℕ
vtcr_sh0 n = bit_and n 0x3 * 2 ^ 12

abbrev pub vtcr_tg0 : ℕ → ℕ
vtcr_tg0 n = bit_and n 0x3 * 2 ^ 14

abbrev pub vtcr_ps : ℕ → ℕ
vtcr_ps n = bit_and n 0x7 * 2 ^ 16

unfoldable pub s2mmu_init : Regime → Regime
s2mmu_init r = record {
  vtcr =
      bit_or
        (bit_or
          (bit_or (bit_or (bit_or (bit_or (vtcr_t0sz 20) (vtcr_sh0 0)) (vtcr_sl0 2)) (vtcr_tg0 0))
            (2 ^ 29))
          (2 ^ 30))
        (vtcr_ps 4);
  mair = bit_or (0x0 * 2 ^ (8 * 0)) (0x44 * 2 ^ (8 * 1));
}

-- The bits of a guest address that the processor takes.
abbrev pub input_size : Regime → ℕ
input_size r = 64 - r.vtcr % 2 ^ 6

-- The processor takes guest addresses of 44 bits, in pages of 4 KB, and starts at level 0, as `pagewalk`
-- does: of the level-0 table it reads the first 32 entries, as `pagewalk` does for such addresses.
s2mmu_init-walk :
    (r : Regime) (va : ℕ)
    → va < 2 ^ input_size (s2mmu_init r)
    → (input_size (s2mmu_init r) ≡ 44)
      × ((s2mmu_init r).vtcr / 2 ^ 6 % 4 ≡ 2)
      × ((s2mmu_init r).vtcr / 2 ^ 14 % 4 ≡ 0)
      × (pidx 0 va < 32)
unfolding s2mmu_init
s2mmu_init-walk r va lt = (refl, refl, refl, omega (arith, pidx_lem 0 va))
