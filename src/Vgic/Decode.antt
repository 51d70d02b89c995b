-- ===== src/Vgic/Decode.antt =====
-- The register offsets of include/gic.h, in the order and ranges of the switches of src/vgic.c.
use mvmm.Base.{ℕ, ◌==◌, leb, ◌&&◌, if◌then◌else◌, Bool}

-- The cases of `vgicd_mmio_read` and `vgicd_mmio_write`.
pub data GicdReg : Type 0 where
  ctlr typer iidr typer2 igroupr isenabler icenabler ispendr icpendr isactiver icactiver : GicdReg
  ipriorityr itargetsr icfgr irouter_reserved irouter pidr2 unknown : GicdReg

abbrev within : ℕ → ℕ → ℕ → Bool
within lo hi x = leb lo x && leb x hi

-- The per-interrupt banks below 0x1000.
gicd_bank : ℕ → GicdReg
gicd_bank x =
    if within 0x080 0x0ff x
    then igroupr
    else if within 0x100 0x17f x
    then isenabler
    else if within 0x180 0x1ff x
    then icenabler
    else if within 0x200 0x27f x
    then ispendr
    else if within 0x280 0x2ff x
    then icpendr
    else if within 0x300 0x37f x
    then isactiver
    else if within 0x380 0x3ff x
    then icactiver
    else if within 0x400 0x7fb x
    then ipriorityr
    else if within 0x800 0xbfb x
    then itargetsr
    else if within 0xc00 0xcff x
    then icfgr
    else unknown

gicd_rest : ℕ → GicdReg
unfolding gicd_bank
gicd_rest x =
    if within 0x6000 0x60fb x
    then irouter_reserved
    else if within 0x6100 0x7fdb x
    then irouter
    else if x == 0xffe8
    then pidr2
    else gicd_bank x

unfoldable pub gicd_decode : ℕ → GicdReg
unfolding gicd_rest
gicd_decode x =
    if x == 0x0
    then ctlr
    else if x == 0x4
    then typer
    else if x == 0x8
    then iidr
    else if x == 0xc
    then typer2
    else gicd_rest x

-- The cases of `__vgicr_mmio_read` and `__vgicr_mmio_write`; GICR_IPRIORITYR ends at register 7 itself.
pub data GicrReg : Type 0 where
  ctlr iidr typer waker pidr2 igroupr0 isenabler0 icenabler0 icpendr0 isactiver0 : GicrReg
  icactiver0 ipriorityr icfgr0 icfgr1 igrpmodr0 unknown : GicrReg

gicr_sgi : ℕ → GicrReg
gicr_sgi x =
    if x == 0x10080
    then igroupr0
    else if x == 0x10100
    then isenabler0
    else if x == 0x10180
    then icenabler0
    else if x == 0x10280
    then icpendr0
    else if x == 0x10300
    then isactiver0
    else if x == 0x10380
    then icactiver0
    else if within 0x10400 0x1041c x
    then ipriorityr
    else if x == 0x10c00
    then icfgr0
    else if x == 0x10c04
    then icfgr1
    else if x == 0x10d00
    then igrpmodr0
    else unknown

unfoldable pub gicr_decode : ℕ → GicrReg
unfolding gicr_sgi
gicr_decode x =
    if x == 0x0
    then ctlr
    else if x == 0x4
    then iidr
    else if x == 0x8
    then typer
    else if x == 0x14
    then waker
    else if x == 0xffe8
    then pidr2
    else gicr_sgi x
