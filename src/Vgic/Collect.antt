-- ===== src/Vgic/Collect.antt =====
-- What a read of a register puts together: the fields of the interrupts' structs, each `width` bits wide.
use mvmm.Base.{
  ℕ, zero, suc, ◌+◌, ◌-◌, ◌*◌, ◌^◌, ◌≤◌, ◌<◌, ◌≡◌, ◌==◌, bit_or, some, ok, arith, refl, ◌∙◌,
  Bool-cases, inl, inr,
}
use mvmm.Base.Bits.{bit, bit-bit_or, bit_of_lt, lt_of_bits}
use mvmm.Base.Byte.{bit-shl, bit-shl_below}
use mvmm.Vgic.{VgicIrq, Vm, vgic_get_irq, collect}
use mvmm.Vgic.Cells.{read_irq-there}

module _ (acc f s width : ℕ) (low : acc < 2 ^ s) where
  kept : (m : ℕ) → m < s → bit (bit_or acc (f * 2 ^ s)) m ≡ bit acc m
  kept m lt = omega (arith, bit-bit_or acc (f * 2 ^ s) m, bit-shl_below s f m lt)

  added : (n : ℕ) → bit (bit_or acc (f * 2 ^ s)) (s + n) ≡ bit f n
  added n = omega (
    arith,
    bit-bit_or acc (f * 2 ^ s) (s + n),
    bit-shl s f n,
    bit_of_lt s acc (s + n) low (omega arith),
  )

  fits : f < 2 ^ width → bit_or acc (f * 2 ^ s) < 2 ^ (s + width)
  fits narrow = lt_of_bits (s + width) (bit_or acc (f * 2 ^ s)) (λ n le.
      let at : n ≡ s + (n - s) = omega arith in
      rw at (added (n - s) ∙ bit_of_lt width f (n - s) narrow (omega arith)))

row : (i width : ℕ) → suc i * width ≡ i * width + width
row i width = grind arith

module _ (field : VgicIrq → ℕ) (width vcpu base : ℕ) (vm : Vm) (irqs : ℕ → VgicIrq) where
  -- Struct `k` of the register is there, and its field is narrow enough.
  abbrev pub Readable : ℕ → Type 0
  Readable k =
      (vm.cell (vgic_get_irq vcpu (base + k)) ≡ some (irqs k)) × (field (irqs k) < 2 ^ width)

  pub collect-fields :
      (left i acc : ℕ)
      → ((k : ℕ) → i ≤ k → k < i + left → Readable k)
      → acc < 2 ^ (i * width)
      → (v : ℕ) × (collect field width vcpu base left i acc vm ≡ ok v)
        × (v < 2 ^ ((i + left) * width))
        × ((m : ℕ) → m < i * width → bit v m ≡ bit acc m)
        × ((k n : ℕ)
            → i ≤ k
            → k < i + left
            → n < width
            → bit v (k * width + n) ≡ bit (field (irqs k)) n)
  unfolding collect
  collect-fields zero i acc there low =
      let e : i + 0 ≡ i = omega arith in
      (acc, refl, rw e low, λ m lt. refl, λ k n le lt. absurd (omega arith))
  collect-fields (suc left) i acc there low =
      let (here, narrow) = there i (omega arith) (omega arith) in
      let s = i * width in
      let f = field (irqs i) in
      let acc' = bit_or acc (f * 2 ^ s) in
      let low' : acc' < 2 ^ (suc i * width) = rw (row i width) (fits acc f s width low narrow) in
      let (v, ran, lt, same, fields) =
        collect-fields left (suc i) acc' (λ k a b. there k (omega arith) (omega arith)) low' in
      let e : i + suc left ≡ suc i + left = omega arith in
      (
        v,
        rw (read_irq-there vm (vgic_get_irq vcpu (base + i)) here) ran,
        rw e lt,
        λ m below. same m (omega (arith, row i width)) ∙ kept acc f s width low m below,
        λ k n le below inside. elim (Bool-cases (k == i)) [
          | inl at ↦
              let at' : k ≡ i = ground arith in
              rw at' (same (i * width + n) (omega (arith, row i width)) ∙ added acc f s width low n)
          | inr past ↦ fields k n (ground arith) (omega arith) inside
        ],
      )
