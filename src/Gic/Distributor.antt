-- ===== src/Gic/Distributor.antt =====
-- `gic_irq_enable` and `gic_irq_disable` on a distributor that works as the GICv3 specification says.
use mvmm.Base.{
  ℕ, ◌+◌, ◌-◌, ◌/◌, ◌%◌, ◌^◌, ◌<◌, ◌≡◌, ◌≢◌, bit_or, max, true, false, ◌==◌, arith, if◌then◌else◌,
  ap, ◌∷◌, Bool-cases, inl, inr,
}
use mvmm.Base.Bits.{bit, bit-lt, bit-bit_or, bit-pow_self, bit-pow_ne, bit_and-pow_test}
use mvmm.Gic.{
  Trace, Device, gicd_base, gicd_isenabler, gicd_icenabler, gic_irq_enable, gic_irq_disable,
  gic_irq_enabled,
}

-- Documented behaviour of GICD_ISENABLER<n> and GICD_ICENABLER<n>, n below 32: both read as the enable bits; a
-- write to the first sets the bits that are 1 in the value, a write to the second clears them.
pub record IsDistributor (dev : Device) : Type 0 where
  pub same_view :
      (bus : Trace) (n : ℕ)
      → n < 32
      → dev bus (gicd_base + gicd_icenabler n) ≡ dev bus (gicd_base + gicd_isenabler n)
  pub write_set :
      (bus : Trace) (n v k : ℕ)
      → n < 32
      → bit (dev ((gicd_base + gicd_isenabler n, v) ∷ bus) (gicd_base + gicd_isenabler n)) k
        ≡ max (bit (dev bus (gicd_base + gicd_isenabler n)) k) (bit v k)
  pub write_clear :
      (bus : Trace) (n v k : ℕ)
      → n < 32
      → bit (dev ((gicd_base + gicd_icenabler n, v) ∷ bus) (gicd_base + gicd_isenabler n)) k
        ≡ bit (dev bus (gicd_base + gicd_isenabler n)) k - bit v k

enabled_lem :
    (dev : Device) (bus : Trace) (irq : ℕ)
    → gic_irq_enabled dev irq bus ≡ (
        if bit (dev bus (gicd_base + gicd_isenabler (irq / 32))) (irq % 32) == 0
        then false
        else true)
unfolding gic_irq_enabled
enabled_lem dev bus irq =
    rw (bit_and-pow_test (dev bus (gicd_base + gicd_isenabler (irq / 32))) (irq % 32))

-- On a distributor as specified, for an interrupt below 1024, `gic_irq_enable` enables it, and leaves every other interrupt of its bank
-- of 32 as it was.
gic_irq_enable-enabled :
    (dev : Device) (bus : Trace) (irq other : ℕ)
    → IsDistributor dev
    → irq < 1024
    → other / 32 ≡ irq / 32
    → gic_irq_enabled dev other (gic_irq_enable dev irq bus)
      ≡ (if other == irq then true else gic_irq_enabled dev other bus)
unfolding gic_irq_enable
gic_irq_enable-enabled dev bus irq other d fits same =
    let old : ℕ = dev bus (gicd_base + gicd_isenabler (irq / 32)) in
    let v : ℕ = bit_or old (2 ^ (irq % 32)) in
    let b : ℕ = other % 32 in
    let written = d.write_set bus (irq / 32) v b (omega arith) in
    let joined = bit-bit_or old (2 ^ (irq % 32)) b in
    rw
      (enabled_lem dev (gic_irq_enable dev irq bus) other, enabled_lem dev bus other, same, written)
      (elim (Bool-cases (other == irq)) [
        | inl own ↦
            let place : b ≡ irq % 32 = ground arith in
            ground (arith, bit-pow_self (irq % 32), ap (bit (2 ^ (irq % 32))) place)
        | inr differ ↦
            let apart : irq % 32 ≢ b = ground arith in
            ground (arith, bit-pow_ne (irq % 32) b apart, bit-lt old b)
      ])

-- On a distributor as specified, for an interrupt below 1024, `gic_irq_disable` disables every interrupt of its bank of 32, not that one
-- alone: it writes back what it read from GICD_ICENABLER, which has a 1 for each enabled interrupt.
gic_irq_disable-enabled :
    (dev : Device) (bus : Trace) (irq other : ℕ)
    → IsDistributor dev
    → irq < 1024
    → other / 32 ≡ irq / 32
    → gic_irq_enabled dev other (gic_irq_disable dev irq bus) ≡ false
unfolding gic_irq_disable
gic_irq_disable-enabled dev bus irq other d fits same =
    let on : ℕ = dev bus (gicd_base + gicd_isenabler (irq / 32)) in
    let read : ℕ = dev bus (gicd_base + gicd_icenabler (irq / 32)) in
    let v : ℕ = bit_or read (2 ^ (irq % 32)) in
    let b : ℕ = other % 32 in
    let written = d.write_clear bus (irq / 32) v b (omega arith) in
    rw (enabled_lem dev (gic_irq_disable dev irq bus) other, same, written)
      (ground (
        arith,
        bit-bit_or read (2 ^ (irq % 32)) b,
        ap (λ (x : ℕ). bit x b) (d.same_view bus (irq / 32) (omega arith)),
      ))
