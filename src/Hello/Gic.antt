-- ===== src/Hello/Gic.antt =====
-- guest/hello/gicv3.c: the guest's driver of its interrupt controller. A register access is a load or a store
-- at an address, and what those do is a parameter; `CpuIf` holds the registers of the processor's interface.
use mvmm.Base.{
  ℕ, zero, suc, ◌+◌, ◌-◌, ◌*◌, ◌/◌, ◌%◌, ◌^◌, bit_and, bit_or, Bool, false, not, ◌==◌,
  if◌then◌else◌, Outcome, ok, fault, spin, ◌>>=◌,
}

-- Accesses of 32 bits.
pub record Bus (S : Type 0) : Type 0 where
  pub load : ℕ → S → Outcome (ℕ × S)
  pub store : ℕ → ℕ → S → Outcome S

-- The variable `gicv3`; `rdist_addrs` has one entry.
pub record Gicv3 : Type 0 where
  pub gicd : ℕ
  pub rdist : ℕ

pub record CpuIf : Type 0 where
  pub igrpen1 : ℕ
  pub pmr : ℕ
  pub sre : ℕ

-- `rdist_addrs[cpuid]`
unfoldable pub rdist_addr : Gicv3 → ℕ → Outcome ℕ
rdist_addr g zero = ok g.rdist
rdist_addr g (suc cpuid) = fault

-- `~((u32)0xff << (intid % 4 * 8))`
unfoldable pub byte_mask : ℕ → ℕ
byte_mask intid = 2 ^ 32 - 1 - 0xff * 2 ^ (intid % 4 * 8)

module _ {S : Type 0} (bus : Bus S) (g : Gicv3) where
  unfoldable pub wd32 : ℕ → ℕ → S → Outcome S
  wd32 off val s = bus.store (g.gicd + off) val s

  unfoldable pub rd32 : ℕ → S → Outcome (ℕ × S)
  rd32 off s = bus.load (g.gicd + off) s

  unfoldable pub wr32 : ℕ → ℕ → ℕ → S → Outcome S
  wr32 cpuid off val s = do a ← rdist_addr g cpuid; bus.store (a + off) val s

  unfoldable pub rr32 : ℕ → ℕ → S → Outcome (ℕ × S)
  rr32 cpuid off s = do a ← rdist_addr g cpuid; bus.load (a + off) s

  unfoldable pub gic_enable_int : ℕ → S → Outcome S
  gic_enable_int intid s = do
    (is, s1) ← rd32 (0x100 + intid / 32 * 4) s
    wd32 (0x100 + intid / 32 * 4) (bit_or is (2 ^ (intid % 32))) s1

  unfoldable pub gicr_enable_int : ℕ → ℕ → S → Outcome S
  gicr_enable_int cpuid intid s = do
    (is, s1) ← rr32 cpuid 0x10100 s
    wr32 cpuid 0x10100 (bit_or is (2 ^ (intid % 32))) s1

  unfoldable pub gicr_int_enabled : ℕ → ℕ → S → Outcome (Bool × S)
  gicr_int_enabled cpuid intid s = do
    (is, s1) ← rr32 cpuid 0x10100 s
    ok (not (bit_and is (2 ^ (intid % 32)) == 0), s1)

  unfoldable pub gic_clear_pending : ℕ → S → Outcome S
  gic_clear_pending intid s = do
    (ic, s1) ← rd32 (0x280 + intid / 32 * 4) s
    wd32 (0x280 + intid / 32 * 4) (bit_or ic (2 ^ (intid % 32))) s1

  unfoldable pub gicr_clear_pending : ℕ → ℕ → S → Outcome S
  gicr_clear_pending cpuid intid s = do
    (ic, s1) ← rr32 cpuid 0x10280 s
    wr32 cpuid 0x10280 (bit_or ic (2 ^ (intid % 32))) s1

  -- The priority that is asked for is not used.
  unfoldable pub gic_set_prio : ℕ → ℕ → S → Outcome S
  gic_set_prio intid prio s = do
    (p, s1) ← rd32 (0x400 + intid / 4 * 4) s
    wd32 (0x400 + intid / 4 * 4) (bit_and p (byte_mask intid)) s1

  unfoldable pub gicr_set_prio : ℕ → ℕ → ℕ → S → Outcome S
  gicr_set_prio cpuid intid prio s = do
    (p, s1) ← rr32 cpuid (0x10400 + intid / 4 * 4) s
    wr32 cpuid (0x10400 + intid / 4 * 4) (bit_and p (byte_mask intid)) s1

  -- `(u32)(1 << cpuid) << (intid % 4 * 8)`
  unfoldable pub gic_set_target : ℕ → ℕ → S → Outcome S
  gic_set_target intid cpuid s = do
    (t, s1) ← rd32 (0x800 + intid / 4 * 4) s
    let target : ℕ = 2 ^ cpuid * 2 ^ (intid % 4 * 8) % 2 ^ 32
    wd32 (0x800 + intid / 4 * 4) (bit_or (bit_and t (byte_mask intid)) target) s1

  -- The register is read once, before the loop.
  unfoldable pub gicr_wait_rwp : ℕ → S → Outcome S
  gicr_wait_rwp cpuid s = do
    (ctlr, s1) ← rr32 cpuid 0x0 s
    if bit_and (ctlr / 2 ^ 3) 1 == 0 then ok s1 else spin

  unfoldable pub gic_setup_ppi : ℕ → ℕ → ℕ → S → Outcome S
  gic_setup_ppi cpu intid prio s = do
    s1 ← gicr_set_prio cpu intid prio s
    s2 ← gicr_clear_pending cpu intid s1
    gicr_enable_int cpu intid s2

  unfoldable pub gic_setup_spi : ℕ → ℕ → S → Outcome S
  gic_setup_spi intid prio s = do
    s1 ← gic_set_prio intid prio s
    s2 ← gic_set_target intid 0 s1
    s3 ← gic_clear_pending intid s2
    gic_enable_int intid s3

  -- The loop of `gic_dist_init`, with the rounds that are left.
  unfoldable pub igroups : ℕ → ℕ → S → Outcome S
  igroups zero i s = ok s
  igroups (suc left) i s = do s1 ← wd32 (0x80 + i * 4) (2 ^ 32 - 1) s; igroups left (i + 1) s1

  -- `gic_dist_init`; the value of GICD_TYPER, which it prints, is given back.
  unfoldable pub gic_dist_init : S → Outcome (ℕ × S)
  gic_dist_init s = do
    s1 ← wd32 0x0 0 s
    (typer, s2) ← rd32 0x4 s1
    s3 ← igroups (bit_and typer 0x1f) 0 s2
    ok (typer, s3)

  -- `while(rr32(cpuid, GICR_WAKER) & (1<<2));` on fuel.
  unfoldable pub wait_woken : ℕ → ℕ → S → Outcome S
  wait_woken zero cpuid s = spin
  wait_woken (suc fuel) cpuid s = do
    (waker, s1) ← rr32 cpuid 0x14 s
    let again = wait_woken fuel cpuid s1
    if bit_and waker (2 ^ 2) == 0 then ok s1 else again

  unfoldable pub gic_redist_init : ℕ → ℕ → CpuIf → S → Outcome (CpuIf × S)
  gic_redist_init fuel cpuid c s = do
    s1 ← wr32 cpuid 0x0 0 s
    s2 ← wr32 cpuid 0x10080 (2 ^ 32 - 1) s1
    s3 ← wr32 cpuid 0x10d00 0 s2
    (waker, s4) ← rr32 cpuid 0x14 s3
    s5 ← wr32 cpuid 0x14 (bit_and waker (2 ^ 32 - 1 - 2 ^ 1)) s4
    s6 ← wait_woken fuel cpuid s5
    ok (record c { sre = bit_or c.sre 1 }, s6)

  unfoldable pub gic_enable : CpuIf → S → Outcome (CpuIf × S)
  gic_enable c s = do s1 ← wd32 0x0 3 s; ok (record c { igrpen1 = 1 }, s1)

  unfoldable pub gicv3_init_percpu : ℕ → CpuIf → S → Outcome (CpuIf × S)
  gicv3_init_percpu fuel c s = do
    let c1 : CpuIf = record c { igrpen1 = 0; pmr = 0xff }
    (c2, s1) ← gic_redist_init fuel 0 c1 s
    s2 ← gic_setup_ppi 0 27 0 s1
    gic_enable c2 s2

  -- GICD_CTLR is read only where the first test holds.
  unfoldable pub gic_enabled : CpuIf → S → Outcome (Bool × S)
  gic_enabled c s =
      let read = (do (ctlr, s1) ← rd32 0x0 s; ok (not (bit_and ctlr 0x1 == 0), s1)) in
      if bit_and c.igrpen1 0x1 == 0 then ok (false, s) else read

-- `gicv3_init` sets the addresses, and then starts the distributor.
unfoldable pub gicv3_addrs : Gicv3
gicv3_addrs = record { gicd = 0x08000000; rdist = 0x08000000 + 0xa0000 + 0 * 0x20000 }
