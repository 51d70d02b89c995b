-- ===== src/Vgic/Lr/Laws.antt =====
-- What each operation on the list registers does.
use mvmm.Base.{
  ℕ, zero, suc, ◌+◌, ◌-◌, ◌%◌, ◌^◌, ◌<◌, ◌≤◌, ◌≡◌, ◌≢◌, ◌⊎◌, bit_and, bit_or, true, false, ◌==◌,
  ltb, leb, ◌&&◌, if◌then◌else◌, none, some, ok, panic, arith, refl, inl, inr, Bool-cases, sym, ◌∙◌,
  ap, ltb-true, ==-true, ==-false, ne_of_==,
}
use mvmm.Base.Bits.{
  bit, bit-lt, bit-bit_or, bit-bit_and, bit-pow_self, bit-pow_ne, bit_and-pow_test, bit-complement,
  bit_or-lt, bit_of_lt, lt_of_bits,
}
use native.Mathlib.Nat.{pow-le-pow_right}
use mvmm.Gic.{Interface, update, gic_read_lr, gic_write_lr, gic_make_lr, lr_is_inactive}
use mvmm.Vgic.Lr.{
  LrState, alloc_from, vgic_cpu_alloc_lr, vgic_inject_virq, enter_from, vgic_irq_enter,
}

-- Taking register `n`: the word with bit `n` set besides.
pub record Taken (lr_max used n used' : ℕ) : Type 0 where
  pub in_range : n < lr_max
  pub was_free : bit used n ≡ 0
  pub first : (k : ℕ) → k < n → bit used k ≡ 1
  pub now_used : bit used' n ≡ 1
  pub others : (k : ℕ) → k ≢ n → bit used' k ≡ bit used k
  pub fits : used' < 2 ^ 16

pow_lt_16 : (n : ℕ) → n < 16 → 2 ^ n < 2 ^ 16
pow_lt_16 n h =
    let le = pow-le-pow_right {n = 2} (omega arith) {i = n} {j = 15} (omega arith) in omega arith

take_lem :
    (lr_max used n : ℕ)
    → lr_max ≤ 16
    → used < 2 ^ 16
    → n < lr_max
    → bit used n ≡ 0
    → ((k : ℕ) → k < n → bit used k ≡ 1)
    → Taken lr_max used n (bit_or used (2 ^ n) % 2 ^ 16)
take_lem lr_max used n le fits lt free before =
    let small = bit_or-lt 16 used (2 ^ n) fits (pow_lt_16 n (omega arith)) in
    let same : bit_or used (2 ^ n) % 2 ^ 16 ≡ bit_or used (2 ^ n) = omega arith in
    rw same (record {
      in_range = lt;
      was_free = free;
      first = before;
      now_used = omega (arith, bit-bit_or used (2 ^ n) n, bit-pow_self n);
      others = λ k ne. omega (arith, bit-bit_or used (2 ^ n) k, bit-pow_ne n k (λ e. ne (sym e)));
      fits = small;
    })

alloc_from_lem :
    (lr_max left i used : ℕ)
    → lr_max ≤ 16
    → used < 2 ^ 16
    → i + left ≡ lr_max
    → ((k : ℕ) → k < i → bit used k ≡ 1)
    → ((n : ℕ) × (used' : ℕ) × (alloc_from left i used ≡ (some n, used'))
        × Taken lr_max used n used')
      ⊎ ((alloc_from left i used ≡ (none, used)) × ((k : ℕ) → k < lr_max → bit used k ≡ 1))
unfolding alloc_from
alloc_from_lem lr_max zero i used le fits e before = inr (refl, λ k lt. before k (omega arith))
alloc_from_lem lr_max (suc left) i used le fits e before =
    elim (Bool-cases (bit_and used (2 ^ i) == 0)) [
      | inl free ↦
          let zero_bit : bit used i ≡ 0 = ground (arith, bit_and-pow_test used i) in
          inl (
            i,
            bit_or used (2 ^ i) % 2 ^ 16,
            rw free refl,
            take_lem lr_max used i le fits (omega arith) zero_bit before,
          )
      | inr taken ↦
          let one_bit : bit used i ≡ 1 = ground (arith, bit_and-pow_test used i, bit-lt used i) in
          rw taken (
            alloc_from_lem lr_max left (suc i) used le fits (omega arith) (λ k lt.
              elim (Bool-cases (k == i)) [
                | inl same ↦ let eq : k ≡ i = ground arith in ap (bit used) eq ∙ one_bit
                | inr differ ↦ before k (ground arith)
              ]))
    ]

-- The injection from `s` to `s'` took register `n`.
pub record Injected (lr_max pirq virq grp : ℕ) (s s' : LrState) (n : ℕ) : Type 0 where
  pub taken : Taken lr_max s.used_lr n s'.used_lr
  pub written : s'.hw.lr n ≡ gic_make_lr pirq virq grp
  pub kept : (k : ℕ) → k ≢ n → s'.hw.lr k ≡ s.hw.lr k

-- With at most 16 list registers and `used_lr` of 16 bits, `vgic_inject_virq` either puts the word of
-- `gic_make_lr` into the lowest register below `gic_lr_max` that is not in use, marks exactly that one
-- and changes no other; or all of them are in use and it panics.
pub inject-cases :
    (lr_max pirq virq grp : ℕ) (s : LrState)
    → lr_max ≤ 16
    → s.used_lr < 2 ^ 16
    → ((n : ℕ) × (s' : LrState) × (vgic_inject_virq lr_max pirq virq grp s ≡ ok s')
        × Injected lr_max pirq virq grp s s' n)
      ⊎ ((vgic_inject_virq lr_max pirq virq grp s ≡ panic)
          × ((k : ℕ) → k < lr_max → bit s.used_lr k ≡ 1))
unfolding vgic_inject_virq vgic_cpu_alloc_lr gic_write_lr
inject-cases lr_max pirq virq grp s le fits =
    elim (alloc_from_lem lr_max lr_max 0 s.used_lr le fits (omega arith)
      (λ k lt. absurd (omega arith))) [
        | inl (n, used', ran, taken) ↦
            let lt = taken.in_range in
            let room : leb lr_max n ≡ false = ground arith in
            inl (
              n,
              record {
                used_lr = used';
                hw = record (s.hw) { lr = update s.hw.lr n (gic_make_lr pirq virq grp) };
              },
              rw (ran, room, ltb-true {a = n} {b = 16} (omega arith)),
              record {
                taken = taken;
                written = rw (==-true {a = n} {b = n} refl);
                kept = λ k ne. rw (==-false ne);
              },
            )
        | inr (ran, full) ↦ inr (rw ran, full)
      ]

-- Bit `k` after register `i` is released.
release_bit :
    (used i k : ℕ)
    → i < 16
    → used < 2 ^ 16
    → bit (bit_and used (2 ^ 16 - 1 - 2 ^ i)) k ≡ (if k == i then 0 else bit used k)
release_bit used i k lt fits = elim (Bool-cases (ltb k 16)) [
  | inl low ↦
      let mask = bit-complement 16 (2 ^ i) k (pow_lt_16 i lt) (ground arith) in
      elim (Bool-cases (k == i)) [
        | inl same ↦
            let eq : k ≡ i = ground arith in
            rw same (
              omega (
                arith,
                bit-bit_and used (2 ^ 16 - 1 - 2 ^ i) k,
                mask,
                ap (bit (2 ^ i)) eq,
                bit-pow_self i,
              ))
        | inr differ ↦ rw differ (
            omega (
              arith,
              bit-bit_and used (2 ^ 16 - 1 - 2 ^ i) k,
              mask,
              bit-pow_ne i k (λ e. ne_of_== k i differ (sym e)),
              bit-lt used k,
            ))
      ]
  | inr high ↦
      let none_there = bit_of_lt 16 used k fits (ground arith) in
      ground (arith, bit-bit_and used (2 ^ 16 - 1 - 2 ^ i) k)
]

-- The word after the registers from `i` to `i + left` are looked at.
swept : ℕ → ℕ → ℕ → Interface → ℕ → ℕ
swept left i used hw k =
    if leb i k && ltb k (i + left) && lr_is_inactive (hw.lr k) then 0 else bit used k

-- The sweep of one more register below: it is released if it is idle, and kept if it is not.
swept_step :
    (left i k used used1 : ℕ) (hw : Interface)
    → ((e : k ≡ i) → bit used1 k ≡ (if lr_is_inactive (hw.lr k) then 0 else bit used k))
    → (k ≢ i → bit used1 k ≡ bit used k)
    → swept left (suc i) used1 hw k ≡ swept (suc left) i used hw k
unfolding swept
swept_step left i k used used1 hw own other = elim (Bool-cases (k == i)) [
  | inl same ↦ let eq : k ≡ i = ground arith in ground (arith, own eq)
  | inr differ ↦ ground (arith, other (ne_of_== k i differ))
]

release_lt : (used i : ℕ) → i < 16 → used < 2 ^ 16 → bit_and used (2 ^ 16 - 1 - 2 ^ i) < 2 ^ 16
release_lt used i lt fits = lt_of_bits 16 (bit_and used (2 ^ 16 - 1 - 2 ^ i)) (λ n high.
    release_bit used i n lt fits
    ∙ rw (==-false {a = n} {b = i} (omega arith)) (bit_of_lt 16 used n fits high))

enter_from_lem :
    (lr_max left i used : ℕ) (hw : Interface)
    → lr_max ≤ 16
    → used < 2 ^ 16
    → i + left ≡ lr_max
    → (used' : ℕ) × (enter_from lr_max left i used hw ≡ ok used')
      × (used' < 2 ^ 16)
      × ((k : ℕ) → bit used' k ≡ swept left i used hw k)
unfolding enter_from swept gic_read_lr
enter_from_lem lr_max zero i used hw le fits e = (used, refl, fits, λ k. ground arith)
enter_from_lem lr_max (suc left) i used hw le fits e =
    let low : leb lr_max i ≡ false = ground arith in
    let lt : ltb i 16 ≡ true = ground arith in
    elim (Bool-cases (bit_and used (2 ^ i) == 0)) [
      | inl off ↦
          let zero_bit : bit used i ≡ 0 = ground (arith, bit_and-pow_test used i) in
          let (used', ran, fits', bits) =
            enter_from_lem lr_max left (suc i) used hw le fits (omega arith) in
          (
            used',
            rw off ran,
            fits',
            λ k.
                bits k
                ∙ swept_step left i k used used hw (λ eq. ground (arith, ap (bit used) eq))
                    (λ ne. refl),
          )
      | inr on ↦ elim (Bool-cases (lr_is_inactive (hw.lr i))) [
        | inl idle ↦
            let used1 : ℕ = bit_and used (2 ^ 16 - 1 - 2 ^ i) in
            let (used', ran, fits', bits) =
              enter_from_lem lr_max left (suc i) used1 hw le (release_lt used i (omega arith) fits)
                (omega arith) in
            (
              used',
              rw (on, low, lt, idle) ran,
              fits',
              λ k.
                  bits k
                  ∙ swept_step left i k used used1 hw
                      (λ eq.
                        release_bit used i k (omega arith) fits
                        ∙ rw (==-true eq) (rw (ap (λ (x : ℕ). lr_is_inactive (hw.lr x)) eq, idle)))
                      (λ ne. release_bit used i k (omega arith) fits ∙ rw (==-false ne)),
            )
        | inr busy ↦
            let (used', ran, fits', bits) =
              enter_from_lem lr_max left (suc i) used hw le fits (omega arith) in
            (
              used',
              rw (on, low, lt, busy) ran,
              fits',
              λ k.
                  bits k
                  ∙ swept_step left i k used used hw
                      (λ eq. rw (ap (λ (x : ℕ). lr_is_inactive (hw.lr x)) eq, busy)) (λ ne. refl),
            )
      ]
    ]

swept_all :
    (n : ℕ) (s : LrState) (k : ℕ)
    → swept n 0 s.used_lr s.hw k
      ≡ (if ltb k n && lr_is_inactive (s.hw.lr k) then 0 else bit s.used_lr k)
unfolding swept
swept_all n s k = ground arith

-- With at most 16 list registers and `used_lr` of 16 bits, `vgic_irq_enter` succeeds and releases exactly the list registers whose interrupt is inactive: after
-- it bit `k` is what it was, but 0 for a register below `gic_lr_max` that is inactive.
pub vgic_irq_enter_lem :
    (lr_max : ℕ) (s : LrState)
    → lr_max ≤ 16
    → s.used_lr < 2 ^ 16
    → (s' : LrState) × (vgic_irq_enter lr_max s ≡ ok s')
      × (s'.hw ≡ s.hw)
      × (s'.used_lr < 2 ^ 16)
      × ((k : ℕ)
          → bit s'.used_lr k
            ≡ (if ltb k lr_max && lr_is_inactive (s.hw.lr k) then 0 else bit s.used_lr k))
unfolding vgic_irq_enter
vgic_irq_enter_lem lr_max s le fits =
    let (used', ran, fits', bits) =
      enter_from_lem lr_max lr_max 0 s.used_lr s.hw le fits (omega arith) in
    (record s { used_lr = used' }, rw ran, refl, fits', λ k. bits k ∙ swept_all lr_max s k)
