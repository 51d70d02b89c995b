-- ===== src/Sysreg/Fields.antt =====
-- An access by the fields of its syndrome.
use mvmm.Base.{
  ℕ, zero, suc, ◌+◌, ◌-◌, ◌*◌, ◌/◌, ◌%◌, ◌^◌, ◌<◌, ◌≡◌, bit_and, bit_or, ◌==◌, leb, ◌&&◌, ◌||◌, not,
  if◌then◌else◌, Bool, true, false, Bool-cases, inl, inr, List, [], ◌∷◌, All, Option, none, some,
  ok, arith, refl, eq_of_==, ltb-true, sym, ap, ap₂, ◌∙◌,
}
use mvmm.Base.Bits.{
  bit_ext, bit-bit_and, bit-bit_or, bit_and-shift, bit_and-mask, bit_or-shift, bit_and-one,
}
use mvmm.Gic.{update}
use mvmm.Sysreg.{
  Sgi, iss_sysreg, iss_id_pfr0, iss_icc_sgi1r, ro_registers, is_case, register_of, rt_of, write_x,
  read_x, vgic_inject_sgi, vgic_emulate_sgi1r, vsysreg_emulate,
}

-- The number of a register, and the syndrome of an access to it: `rt` and the direction, 1 for a read.
abbrev pub number : ℕ → ℕ → ℕ → ℕ → ℕ → ℕ
number op0 op1 crn crm op2 = op0 * 2 ^ 20 + op2 * 2 ^ 17 + op1 * 2 ^ 14 + crn * 2 ^ 10 + crm * 2

abbrev pub syndrome : ℕ → ℕ → ℕ → ℕ
syndrome key rt dir = key + rt * 2 ^ 5 + dir

pub bit_and-bit_or_right : (a b c : ℕ) → bit_and c (bit_or a b) ≡ bit_or (bit_and c a) (bit_and c b)
bit_and-bit_or_right a b c =
    bit_ext (bit_and c (bit_or a b)) (bit_or (bit_and c a) (bit_and c b)) (λ n. omega (
      arith,
      bit-bit_and c (bit_or a b) n,
      bit-bit_or a b n,
      bit-bit_or (bit_and c a) (bit_and c b) n,
      bit-bit_and c a n,
      bit-bit_and c b n,
    ))

clear_low : (x : ℕ) → bit_and x (2 ^ 64 - 1 - 1) ≡ x / 2 % 2 ^ 63 * 2
clear_low x = bit_and-shift 1 x (2 ^ 63 - 1) ∙ ap (λ (t : ℕ). t * 2) (bit_and-mask 63 (x / 2))

clear_rt :
    (x : ℕ) → bit_and x (2 ^ 64 - 1 - 0x1f * 2 ^ 5) ≡ x / 2 ^ 10 % 2 ^ 54 * 2 ^ 10 + x % 2 ^ 5
clear_rt x =
    ap (bit_and x) (sym (bit_or-shift 10 (2 ^ 54 - 1) 31 (omega arith)))
    ∙ bit_and-bit_or_right ((2 ^ 54 - 1) * 2 ^ 10) 31 x
    ∙ ap₂ bit_or
        (bit_and-shift 10 x (2 ^ 54 - 1)
          ∙ ap (λ (t : ℕ). t * 2 ^ 10) (bit_and-mask 54 (x / 2 ^ 10)))
        (bit_and-mask 5 x)
    ∙ bit_or-shift 10 (x / 2 ^ 10 % 2 ^ 54) (x % 2 ^ 5) (omega arith)

register_of-arith : (x : ℕ) → x < 2 ^ 25 → register_of x ≡ x / 2 ^ 10 * 2 ^ 10 + x % 2 ^ 5 / 2 * 2
unfolding register_of
register_of-arith x lt =
    ap (λ (t : ℕ). bit_and t (2 ^ 64 - 1 - 0x1f * 2 ^ 5)) (clear_low x)
    ∙ clear_rt (x / 2 % 2 ^ 63 * 2)
    ∙ omega arith

rt_of-arith : (x : ℕ) → rt_of x ≡ x / 2 ^ 5 % 2 ^ 5
unfolding rt_of
rt_of-arith x = bit_and-mask 5 (x / 2 ^ 5)

-- Fields of an access to a register.
pub record IsAccess (op0 op1 crn crm op2 rt dir : ℕ) : Type 0 where
  pub op0-lt : op0 < 4
  pub op1-lt : op1 < 8
  pub crn-lt : crn < 16
  pub crm-lt : crm < 16
  pub op2-lt : op2 < 8
  pub rt-lt : rt < 31
  pub dir-lt : dir < 2

module _ (op0 op1 crn crm op2 rt dir : ℕ) (h : IsAccess op0 op1 crn crm op2 rt dir) where
  open h use {op0-lt, op1-lt, crn-lt, crm-lt, op2-lt, rt-lt, dir-lt}

  register_of-syndrome :
      register_of (syndrome (number op0 op1 crn crm op2) rt dir) ≡ number op0 op1 crn crm op2
  register_of-syndrome =
      register_of-arith (syndrome (number op0 op1 crn crm op2) rt dir) (omega arith) ∙ omega arith

  rt_of-syndrome : rt_of (syndrome (number op0 op1 crn crm op2) rt dir) ≡ rt
  rt_of-syndrome = rt_of-arith (syndrome (number op0 op1 crn crm op2) rt dir) ∙ omega arith

  dir_of-syndrome : bit_and (syndrome (number op0 op1 crn crm op2) rt dir) 1 ≡ dir
  dir_of-syndrome = bit_and-one (syndrome (number op0 op1 crn crm op2) rt dir) ∙ omega arith

-- The identification registers that are emulated: op0 3, op1 0, CRn 0, and by CRm and op2. Left out are
-- the auxiliary ID_AFR0_EL1, ID_ISAR6_EL1 and those that are reserved.
unfoldable pub is_id_register : ℕ → ℕ → ℕ → ℕ → ℕ → Bool
is_id_register op0 op1 crn crm op2 =
    op0 == 3
    && op1 == 0
    && crn == 0
    && ((crm == 1 && not (op2 == 3))
        || (crm == 2 && leb op2 6)
        || (crm == 3 && leb op2 2)
        || (crm == 4 && (leb op2 1 || op2 == 4))
        || (crm == 5 && leb op2 1)
        || (crm == 6 && leb op2 1)
        || (crm == 7 && leb op2 2))

-- Bounded checks.
all_below : ℕ → (ℕ → Bool) → Bool
all_below zero p = true
all_below (suc n) p = p n && all_below n p

all_below_lem : (n i : ℕ) (p : ℕ → Bool) → all_below n p ≡ true → i < n → p i ≡ true
unfolding all_below
all_below_lem zero i p h lt = absurd (omega arith)
all_below_lem (suc n) i p h lt = elim (Bool-cases (i == n)) [
  | inl e ↦ rw (eq_of_== i n e) (ground arith)
  | inr ne ↦ all_below_lem n i p (ground arith) (ground arith)
]

same : Bool → Bool → Bool
same true b = b
same false b = not b

same_eq : (a b : Bool) → same a b ≡ true → a ≡ b
unfolding same
same_eq true true h = refl
same_eq true false h = cc
same_eq false true h = cc
same_eq false false h = refl

is_emulated : ℕ → Bool
is_emulated key = key == iss_id_pfr0 || is_case key ro_registers

table_checked :
    all_below 16 (λ crm.
      all_below 8 (λ op2. same (is_emulated (number 3 0 0 crm op2)) (is_id_register 3 0 0 crm op2)))
    ≡ true
unfolding all_below same is_emulated iss_id_pfr0 ro_registers iss_sysreg is_case is_id_register
table_checked = refl

is_emulated-other :
    (key : ℕ) (cs : List ℕ)
    → All (λ c. (c / 2 ^ 20 ≡ 3) × (c / 2 ^ 10 % 2 ^ 7 ≡ 0)) cs
    → is_case key cs ≡ true
    → (key / 2 ^ 20 ≡ 3) × (key / 2 ^ 10 % 2 ^ 7 ≡ 0)
unfolding is_case
is_emulated-other key [] h e = cc
is_emulated-other key (c ∷ cs) h e = elim (Bool-cases (key == c)) [
  | inl here ↦ rw (eq_of_== key c here) h.0
  | inr other ↦ is_emulated-other key cs h.1 (ground arith)
]

group : (key : ℕ) → is_emulated key ≡ true → (key / 2 ^ 20 ≡ 3) × (key / 2 ^ 10 % 2 ^ 7 ≡ 0)
unfolding is_emulated iss_id_pfr0 ro_registers iss_sysreg
group key h = elim (Bool-cases (key == iss_id_pfr0)) [
  | inl e ↦ rw (eq_of_== key iss_id_pfr0 e) (omega arith)
  | inr other ↦ is_emulated-other key ro_registers (omega arith) (ground arith)
]

id_group :
    (crm op2 : ℕ)
    → crm < 16
    → op2 < 8
    → is_emulated (number 3 0 0 crm op2) ≡ is_id_register 3 0 0 crm op2
id_group crm op2 crm-lt op2-lt =
    let row =
      all_below_lem 16 crm
        (λ c. all_below 8 (λ o. same (is_emulated (number 3 0 0 c o)) (is_id_register 3 0 0 c o)))
        table_checked crm-lt in
    same_eq (is_emulated (number 3 0 0 crm op2)) (is_id_register 3 0 0 crm op2) (
      all_below_lem 8 op2
        (λ o. same (is_emulated (number 3 0 0 crm o)) (is_id_register 3 0 0 crm o)) row op2-lt)

outside :
    (op0 op1 crn crm op2 : ℕ)
    → (op0 == 3 && op1 == 0 && crn == 0) ≡ false
    → is_id_register op0 op1 crn crm op2 ≡ false
unfolding is_id_register
outside op0 op1 crn crm op2 h = ground arith

module _ (op0 op1 crn crm op2 rt dir : ℕ) (h : IsAccess op0 op1 crn crm op2 rt dir) where
  open h use {op0-lt, op1-lt, crn-lt, crm-lt, op2-lt, rt-lt, dir-lt}

  is_emulated-id : is_emulated (number op0 op1 crn crm op2) ≡ is_id_register op0 op1 crn crm op2
  is_emulated-id = elim (Bool-cases (op0 == 3 && op1 == 0 && crn == 0)) [
    | inl e ↦
        let op0_eq : op0 ≡ 3 = ground arith in
        let op1_eq : op1 ≡ 0 = ground arith in
        let crn_eq : crn ≡ 0 = ground arith in
        rw (op0_eq, op1_eq, crn_eq) (id_group crm op2 crm-lt op2-lt)
    | inr other ↦ elim (Bool-cases (is_emulated (number op0 op1 crn crm op2))) [
      | inl yes' ↦
          let g = group (number op0 op1 crn crm op2) yes' in absurd (ground (arith, g.0, g.1))
      | inr no' ↦ no' ∙ sym (outside op0 op1 crn crm op2 other)
    ]
  ]

-- What an access does: a read of an identification register, a write of ICC_SGI1R_EL1, or a refusal.
abbrev pub access : (ℕ → ℕ) → ℕ → ℕ → ℕ → ℕ → ℕ → ℕ → ℕ → Sgi → Option Sgi
access read_sysreg op0 op1 crn crm op2 rt dir s =
    let key = number op0 op1 crn crm op2 in
    let value = if crm == 1 && op2 == 0 then s.vcpu.pfr0 else read_sysreg key in
    if dir == 1
    then (if is_id_register op0 op1 crn crm op2
        then some (record s { vcpu = record s.vcpu { x = update s.vcpu.x rt value } })
        else none)
    else if op0 == 3 && op1 == 0 && crn == 12 && crm == 11 && op2 == 5
    then some (record s { sgi1r = s.vcpu.x rt ∷ s.sgi1r })
    else none

vsysreg_emulate-key :
    (read_sysreg : ℕ → ℕ) (key rt dir : ℕ) (s : Sgi) (iss : ℕ)
    → register_of iss ≡ key
    → rt_of iss ≡ rt
    → bit_and iss 1 ≡ dir
    → rt < 31
    → dir < 2
    → vsysreg_emulate read_sysreg iss s
      ≡ ok (
          if is_emulated key
          then (if dir == 1
              then some (record s {
                vcpu = record s.vcpu {
                  x =
                      update s.vcpu.x rt
                        (if key == iss_id_pfr0 then s.vcpu.pfr0 else read_sysreg key);
                };
              })
              else none)
          else if key == iss_icc_sgi1r
          then (if dir == 1 then none else some (record s { sgi1r = s.vcpu.x rt ∷ s.sgi1r }))
          else none)
unfolding vsysreg_emulate is_emulated write_x read_x vgic_emulate_sgi1r vgic_inject_sgi
vsysreg_emulate-key read_sysreg key rt dir s iss e e' e'' rt-lt dir-lt =
    rw (e, e', e'') (ground (arith, ltb-true rt-lt))

module _ (op0 op1 crn crm op2 rt dir : ℕ) (h : IsAccess op0 op1 crn crm op2 rt dir) where
  open h use {op0-lt, op1-lt, crn-lt, crm-lt, op2-lt, rt-lt, dir-lt}

  is_sgi1r :
      (number op0 op1 crn crm op2 == iss_icc_sgi1r)
      ≡ (op0 == 3 && op1 == 0 && crn == 12 && crm == 11 && op2 == 5)
  unfolding iss_icc_sgi1r iss_sysreg
  is_sgi1r = elim (Bool-cases (number op0 op1 crn crm op2 == 0x3a3016)) [
    | inl e ↦
        let eq = eq_of_== (number op0 op1 crn crm op2) 0x3a3016 e in
        let op0_eq : op0 ≡ 3 = omega arith in
        let op1_eq : op1 ≡ 0 = omega arith in
        let crn_eq : crn ≡ 12 = omega arith in
        let crm_eq : crm ≡ 11 = omega arith in
        let op2_eq : op2 ≡ 5 = omega arith in rw (op0_eq, op1_eq, crn_eq, crm_eq, op2_eq) refl
    | inr ne ↦ ground arith
  ]

  is_pfr0 :
      is_id_register op0 op1 crn crm op2 ≡ true
      → (number op0 op1 crn crm op2 == iss_id_pfr0) ≡ (crm == 1 && op2 == 0)
  unfolding iss_id_pfr0 iss_sysreg is_id_register
  is_pfr0 id = ground arith

  no_sgi1r :
      is_id_register op0 op1 crn crm op2 ≡ true
      → (op0 == 3 && op1 == 0 && crn == 12 && crm == 11 && op2 == 5) ≡ false
  unfolding is_id_register
  no_sgi1r id = ground arith

  -- A trapped access to the register of fields op0, op1, CRn, CRm and op2 with a general register other
  -- than 31 does exactly this. A read of an emulated identification register puts the value into the
  -- general register, for ID_PFR0_EL1 the one the guest has and otherwise the processor's; a write of
  -- ICC_SGI1R_EL1 passes the general register on to the processor; any other access is refused.
  pub vsysreg_emulate-access :
      (read_sysreg : ℕ → ℕ) (s : Sgi)
      → vsysreg_emulate read_sysreg (syndrome (number op0 op1 crn crm op2) rt dir) s
        ≡ ok (access read_sysreg op0 op1 crn crm op2 rt dir s)
  vsysreg_emulate-access read_sysreg s =
      let key : ℕ = number op0 op1 crn crm op2 in
      let run =
        vsysreg_emulate-key read_sysreg key rt dir s (syndrome key rt dir)
          (register_of-syndrome op0 op1 crn crm op2 rt dir h)
          (rt_of-syndrome op0 op1 crn crm op2 rt dir h)
          (dir_of-syndrome op0 op1 crn crm op2 rt dir h) rt-lt dir-lt in
      let same_set = is_emulated-id op0 op1 crn crm op2 rt dir h in
      elim (Bool-cases (is_id_register op0 op1 crn crm op2)) [
        | inl id ↦ run ∙ rw (same_set, id, is_pfr0 id) (ground (arith, no_sgi1r id))
        | inr other ↦ run ∙ rw (same_set, other, is_sgi1r) (ground arith)
      ]
