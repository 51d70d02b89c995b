-- ===== src/VirtioPci/Chain.antt =====
-- The scan of a chain of capabilities.
use mvmm.Base.{
  ℕ, zero, suc, ◌+◌, ◌%◌, ◌^◌, ◌<◌, ◌≡◌, ◌≢◌, false, ◌==◌, ==-false, ltb-true, if◌then◌else◌,
  Bool-cases, Option-cases, inl, inr, Option, none, some, List, [], ◌∷◌, All, length, ok, arith, ap,
  refl, ◌∙◌,
}
use mvmm.Pci.{PciDev}
use mvmm.VirtioPci.{VirtioPciDev, Cap, use_cap, scan_cap}

-- From the capability at `at` the chain goes on over the offsets of the list, and ends.
abbrev pub Linked : (ℕ → Cap) → ℕ → List ℕ → Type 0
Linked caps at [] = (caps at).cap_next ≡ 0
Linked caps at (n ∷ ns) = ((caps at).cap_next ≡ n) × (n ≢ 0) × Linked caps n ns

-- The last capability of a type.
abbrev pub last_with : ℕ → (ℕ → Cap) → List ℕ → Option Cap
last_with t caps [] = none
last_with t caps (n ∷ ns) =
    let c : Cap = caps n in
    elim (last_with t caps ns) [ some d ↦ some d | none ↦ if c.cfg_type == t then some c else none ]

abbrev pub value_or : (Cap → ℕ) → ℕ → Option Cap → ℕ
value_or f d none = d
value_or f d (some c) = f c

-- A capability that the scan uses names one of the six registers.
abbrev pub HasRegister : Cap → Type 0
HasRegister c = c.bar < 6

-- What the last capability of each kind says is what counts.
pub record Scanned (pdev : PciDev) (caps : ℕ → Cap) (offsets : List ℕ) (d d' : VirtioPciDev)
    : Type 0 where
  pub common : d'.vtcfg ≡ value_or (λ c. pdev.reg_addr c.bar) d.vtcfg (last_with 1 caps offsets)
  pub notify :
      d'.notify_base
      ≡ value_or
          (λ c. (pdev.reg_addr c.bar + c.offset) % 2 ^ 64)
          d.notify_base
          (last_with 2 caps offsets)
  pub multiplier :
      d'.notify_off_multiplier
      ≡ value_or (λ c. c.notify_off_multiplier) d.notify_off_multiplier (last_with 2 caps offsets)

use_cap-Scanned :
    (pdev : PciDev) (caps : ℕ → Cap) (at : ℕ) (d : VirtioPciDev)
    → HasRegister (caps at)
    → (d' : VirtioPciDev) × (use_cap pdev (caps at) d ≡ ok d') × Scanned pdev caps (at ∷ []) d d'
unfolding use_cap
use_cap-Scanned pdev caps at d h = elim (Bool-cases ((caps at).cfg_type == 1)) [
  | inl one ↦
      let two : ((caps at).cfg_type == 2) ≡ false = ground arith in
      (
        record d { vtcfg = pdev.reg_addr (caps at).bar },
        rw (one, ltb-true h) refl,
        record { common = rw one refl; notify = rw two refl; multiplier = rw two refl },
      )
  | inr other ↦ elim (Bool-cases ((caps at).cfg_type == 2)) [
    | inl two ↦ (
      record d {
        notify_base = (pdev.reg_addr (caps at).bar + (caps at).offset) % 2 ^ 64;
        notify_off_multiplier = (caps at).notify_off_multiplier;
      },
      rw (other, two, ltb-true h) refl,
      record { common = rw other refl; notify = rw two refl; multiplier = rw two refl },
    )
    | inr neither ↦ (
      d,
      rw (other, neither) refl,
      record { common = rw other refl; notify = rw neither refl; multiplier = rw neither refl },
    )
  ]
]

-- The first capability, and then the others.
value_or-last :
    (f : Cap → ℕ) (t : ℕ) (caps : ℕ → Cap) (at : ℕ) (ns : List ℕ) (d : ℕ)
    → value_or f (value_or f d (last_with t caps (at ∷ []))) (last_with t caps ns)
      ≡ value_or f d (last_with t caps (at ∷ ns))
value_or-last f t caps at ns d = elim (Option-cases (last_with t caps ns)) [
  | inl e ↦ rw e refl
  | inr (c, e) ↦ rw e refl
]

Scanned-cons :
    (pdev : PciDev) (caps : ℕ → Cap) (at : ℕ) (ns : List ℕ) (d d1 d' : VirtioPciDev)
    → Scanned pdev caps (at ∷ []) d d1
    → Scanned pdev caps ns d1 d'
    → Scanned pdev caps (at ∷ ns) d d'
Scanned-cons pdev caps at ns d d1 d' a b =
    let base = λ (c : Cap). pdev.reg_addr c.bar in
    let doorbell = λ (c : Cap). (pdev.reg_addr c.bar + c.offset) % 2 ^ 64 in
    let factor = λ (c : Cap). c.notify_off_multiplier in
    record {
      common =
          b.common
          ∙ ap (λ (x : ℕ). value_or base x (last_with 1 caps ns)) a.common
          ∙ value_or-last base 1 caps at ns d.vtcfg;
      notify =
          b.notify
          ∙ ap (λ (x : ℕ). value_or doorbell x (last_with 2 caps ns)) a.notify
          ∙ value_or-last doorbell 2 caps at ns d.notify_base;
      multiplier =
          b.multiplier
          ∙ ap (λ (x : ℕ). value_or factor x (last_with 2 caps ns)) a.multiplier
          ∙ value_or-last factor 2 caps at ns d.notify_off_multiplier;
    }

-- A chain of capabilities that ends and names registers within the six is scanned to its end, with as much
-- fuel as it has members: the last one for the common configuration gives its base, the last one for
-- notifications their address and factor, and a kind that the chain lacks keeps what was there.
pub scan_cap-Scanned :
    (fuel : ℕ) (pdev : PciDev) (caps : ℕ → Cap) (at : ℕ) (ns : List ℕ) (d : VirtioPciDev)
    → length ns < fuel
    → Linked caps at ns
    → All (λ n. HasRegister (caps n)) (at ∷ ns)
    → (d' : VirtioPciDev) × (scan_cap fuel pdev caps at d ≡ ok d')
      × Scanned pdev caps (at ∷ ns) d d'
unfolding scan_cap
scan_cap-Scanned zero pdev caps at ns d enough chain regs = absurd (omega arith)
scan_cap-Scanned (suc fuel) pdev caps at [] d enough chain (reg, _) =
    let (d1, ran, one) = use_cap-Scanned pdev caps at d reg in (d1, rw (ran, chain) refl, one)
scan_cap-Scanned (suc fuel) pdev caps at (n ∷ ns) d enough (next, ne, chain) (reg, regs) =
    let (d1, ran1, one) = use_cap-Scanned pdev caps at d reg in
    let (d', ran, more) = scan_cap-Scanned fuel pdev caps n ns d1 (omega arith) chain regs in
    (d', rw (ran1, next, ==-false ne) ran, Scanned-cons pdev caps at (n ∷ ns) d d1 d' one more)
