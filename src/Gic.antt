-- ===== src/Gic.antt =====
-- src/gic.c and include/gic.h: the list registers of the virtual interface, and the distributor and
-- redistributor registers on the bus.
pub mod ListReg
pub mod Distributor
pub mod Start
use mvmm.Base.{
  ℕ, zero, suc, ◌+◌, ◌-◌, ◌*◌, ◌/◌, ◌%◌, ◌^◌, bit_and, bit_or, Bool, true, false, ◌==◌, leb, ltb,
  if◌then◌else◌, List, ◌∷◌, Outcome, ok, panic,
}

-- What the virtual interface of one processor holds: ICH_LRn_EL2, ICH_VMCR_EL2 and ICC_SRE_EL1.
pub record Interface : Type 0 where
  pub lr : ℕ → ℕ
  pub vmcr : ℕ
  pub sre_el1 : ℕ

-- `struct gic_state`
pub record GicState : Type 0 where
  pub lr : ℕ → ℕ
  pub vmcr : ℕ
  pub sre_el1 : ℕ

abbrev pub update : (ℕ → ℕ) → ℕ → ℕ → ℕ → ℕ
update f n v k = if k == n then v else f k

-- The first argument is `gic_lr_max`.
unfoldable pub gic_read_lr : ℕ → ℕ → Interface → Outcome ℕ
gic_read_lr lr_max n hw = if leb lr_max n then panic else if ltb n 16 then ok (hw.lr n) else panic

unfoldable pub gic_write_lr : ℕ → ℕ → ℕ → Interface → Outcome Interface
gic_write_lr lr_max n val hw =
    if leb lr_max n
    then panic
    else if ltb n 16
    then ok (record hw { lr = update hw.lr n val })
    else panic

-- The cases of the switch from `n` down to 0, each falling through to the next.
fall_through : ℕ → (ℕ → ℕ) → (ℕ → ℕ) → ℕ → ℕ
fall_through zero from to = update to 0 (from 0)
fall_through (suc n) from to = fall_through n from (update to (suc n) (from (suc n)))

-- `switch(gic_lr_max-1)`: no case for a negative value or one above 15.
copy_lr : ℕ → (ℕ → ℕ) → (ℕ → ℕ) → ℕ → ℕ
unfolding fall_through
copy_lr zero from to = to
copy_lr (suc last) from to = if ltb last 16 then fall_through last from to else to

unfoldable pub gic_restore_lr : ℕ → GicState → Interface → Interface
unfolding copy_lr
gic_restore_lr lr_max gic hw = record hw { lr = copy_lr lr_max gic.lr hw.lr }

unfoldable pub gic_save_lr : ℕ → GicState → Interface → GicState
unfolding copy_lr
gic_save_lr lr_max gic hw = record gic { lr = copy_lr lr_max hw.lr gic.lr }

-- `u32 sre;`
unfoldable pub gic_restore_state : ℕ → GicState → Interface → Interface
gic_restore_state lr_max gic hw =
    gic_restore_lr lr_max gic
      (record hw { vmcr = gic.vmcr; sre_el1 = bit_or (hw.sre_el1 % 2 ^ 32) gic.sre_el1 })

-- `gic->sre_el1` is a `u32`.
unfoldable pub gic_save_state : ℕ → GicState → Interface → GicState
gic_save_state lr_max gic hw =
    gic_save_lr lr_max (record gic { vmcr = hw.vmcr; sre_el1 = hw.sre_el1 % 2 ^ 32 }) hw

abbrev pub lr_inactive : ℕ
lr_inactive = 0

abbrev pub lr_pending : ℕ
lr_pending = 1

-- `(lr >> 62) & 0x3`
abbrev pub lr_state : ℕ → ℕ
lr_state lr = bit_and (lr / 2 ^ 62) 0x3

-- `ICH_LR_STATE(LR_PENDING) | ICH_LR_HW | ICH_LR_GROUP(grp) | ICH_LR_PINTID(pirq) | ICH_LR_VINTID(virq)`
unfoldable pub gic_make_lr : ℕ → ℕ → ℕ → ℕ
gic_make_lr pirq virq grp =
    bit_or
      (bit_or
        (bit_or (bit_or (bit_and lr_pending 0x3 * 2 ^ 62) (1 * 2 ^ 61)) (bit_and grp 0x1 * 2 ^ 60))
        (bit_and pirq 0x3ff * 2 ^ 32))
      (bit_and virq 0xffffffff)

unfoldable pub lr_is_inactive : ℕ → Bool
lr_is_inactive lr = lr_state lr == lr_inactive

-- Device registers: what was written so far, the latest first, as address and value.
abbrev pub Trace : Type 0
Trace = List (ℕ × ℕ)

-- What a device register reads as, after the writes so far.
abbrev pub Device : Type 0
Device = Trace → ℕ → ℕ

abbrev pub gicd_base : ℕ
gicd_base = 0x08000000

abbrev pub gicr_base : ℕ
gicr_base = 0x080a0000

abbrev pub gicd_isenabler : ℕ → ℕ
gicd_isenabler n = 0x100 + n * 4

abbrev pub gicd_icenabler : ℕ → ℕ
gicd_icenabler n = 0x180 + n * 4

abbrev pub gicd_igroupr : ℕ → ℕ
gicd_igroupr n = 0x080 + n * 4

abbrev pub gicd_ispendr : ℕ → ℕ
gicd_ispendr n = 0x200 + n * 4

abbrev pub gicd_w : ℕ → ℕ → Trace → Trace
gicd_w offset val bus = (gicd_base + offset, val) ∷ bus

abbrev pub gicd_itargetsr : ℕ → ℕ
gicd_itargetsr n = 0x800 + n * 4

abbrev pub gicr_isenabler0 : ℕ
gicr_isenabler0 = 0x10100

abbrev pub gicr_icenabler0 : ℕ
gicr_icenabler0 = 0x10180

abbrev pub gicr_addr : ℕ → ℕ → ℕ
gicr_addr cpuid offset = gicr_base + cpuid * 0x20000 + offset

module _ (dev : Device) where
  abbrev pub gicd_r : ℕ → Trace → ℕ
  gicd_r offset bus = dev bus (gicd_base + offset)

  abbrev pub gicr_r32 : ℕ → ℕ → Trace → ℕ
  gicr_r32 cpuid offset bus = dev bus (gicr_addr cpuid offset)

  unfoldable pub gic_irq_enable : ℕ → Trace → Trace
  gic_irq_enable irq bus =
      let is = bit_or (gicd_r (gicd_isenabler (irq / 32)) bus) (2 ^ (irq % 32)) in
      (gicd_base + gicd_isenabler (irq / 32), is) ∷ bus

  unfoldable pub gic_irq_disable : ℕ → Trace → Trace
  gic_irq_disable irq bus =
      let is = bit_or (gicd_r (gicd_icenabler (irq / 32)) bus) (2 ^ (irq % 32)) in
      (gicd_base + gicd_icenabler (irq / 32), is) ∷ bus

  unfoldable pub gic_irq_enabled : ℕ → Trace → Bool
  gic_irq_enabled irq bus =
      if bit_and (gicd_r (gicd_isenabler (irq / 32)) bus) (2 ^ (irq % 32)) == 0 then false else true

  unfoldable pub gic_irq_enable_redist : ℕ → ℕ → Trace → Trace
  gic_irq_enable_redist cpuid irq bus =
      let is = bit_or (gicr_r32 cpuid gicr_isenabler0 bus) (2 ^ (irq % 32)) in
      (gicr_addr cpuid gicr_isenabler0, is) ∷ bus

  unfoldable pub gic_irq_disable_redist : ℕ → ℕ → Trace → Trace
  gic_irq_disable_redist cpuid irq bus =
      let is = bit_or (gicr_r32 cpuid gicr_icenabler0 bus) (2 ^ (irq % 32)) in
      (gicr_addr cpuid gicr_icenabler0, is) ∷ bus

  -- `itargetsr & ~((u32)0xff << (irq % 4 * 8))`, then `| (target << (irq % 4 * 8))`
  unfoldable pub gic_set_target : ℕ → ℕ → Trace → Trace
  gic_set_target irq target bus =
      let shift = irq % 4 * 8 in
      let old = gicd_r (gicd_itargetsr (irq / 4)) bus in
      let kept = bit_and old (2 ^ 32 - 1 - 0xff * 2 ^ shift) in
      (gicd_base + gicd_itargetsr (irq / 4), bit_or kept (target * 2 ^ shift)) ∷ bus

  -- `32 * (lines + 1) - 1`, at most 1019
  unfoldable pub gic_max_spi : Trace → ℕ
  gic_max_spi bus =
      let lines = bit_and (gicd_r 0x4 bus) 0x1f in
      let max_spi = 32 * (lines + 1) - 1 in if ltb max_spi 1020 then max_spi else 1019

  unfoldable pub gic_irq_pending : ℕ → Trace → Bool
  gic_irq_pending irq bus =
      if bit_and (gicd_r (gicd_ispendr (irq / 32)) bus) (2 ^ (irq % 32)) == 0 then false else true

  -- Its body is empty.
  unfoldable pub gic_set_igroup : ℕ → ℕ → Trace → Trace
  gic_set_igroup irq igrp bus = bus

  unfoldable pub gic_setup_spi : ℕ → Trace → Trace
  gic_setup_spi irq bus = gic_irq_enable irq (gic_set_target irq 0 bus)

  -- The loop of `gicd_init` from `i` on, with the rounds left.
  unfoldable pub set_groups : ℕ → ℕ → Trace → Trace
  set_groups zero i bus = bus
  set_groups (suc left) i bus = set_groups left (suc i) (gicd_w (gicd_igroupr i) (2 ^ 32 - 1) bus)

  unfoldable pub gicd_init : Trace → Trace
  gicd_init bus = gicd_w 0x0 3 (set_groups (bit_and (gicd_r 0x4 bus) 0x1f) 0 bus)
