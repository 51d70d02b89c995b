-- ===== src/Vgic/Lr/Ownership.antt =====
-- Injection, the guest's progress through its interrupts, and release, in any order.
use mvmm.Base.{
  ℕ, ◌^◌, ◌<◌, ◌≤◌, ◌≡◌, true, false, ◌==◌, ok, arith, inl, inr, Bool-cases, ok-injective, subst,
  eq_of_==, ne_of_==, sym, ◌∙◌, ap, ltb-true,
}
use mvmm.Base.Bits.{bit}
use mvmm.Gic.{Interface, lr_is_inactive}
use mvmm.Vgic.Lr.{LrState, vgic_inject_virq, vgic_irq_enter}
use mvmm.Vgic.Lr.Laws.{Injected, inject-cases, vgic_irq_enter_lem}

-- Every list register with an interrupt that the guest has not finished is marked in use.
pub record IsOwned (lr_max : ℕ) (s : LrState) : Type 0 where
  pub fits : s.used_lr < 2 ^ 16
  pub owned : (k : ℕ) → k < lr_max → lr_is_inactive (s.hw.lr k) ≡ false → bit s.used_lr k ≡ 1

-- What happens to the list registers: the two operations that return, and the guest and the hardware,
-- which move an interrupt on but never make an inactive register pending or active.
pub data Step (lr_max : ℕ) (s : LrState) : LrState → Type 0 where
  inject :
      {s' : LrState} (pirq virq grp : ℕ)
      → vgic_inject_virq lr_max pirq virq grp s ≡ ok s'
      → Step lr_max s s'
  enter : {s' : LrState} → vgic_irq_enter lr_max s ≡ ok s' → Step lr_max s s'
  progress :
      (hw : Interface)
      → ((k : ℕ) → lr_is_inactive (s.hw.lr k) ≡ true → lr_is_inactive (hw.lr k) ≡ true)
      → Step lr_max s (record s { hw = hw })

pub data Reach (lr_max : ℕ) (s : LrState) : LrState → Type 0 where
  here : Reach lr_max s s
  next : {t u : LrState} → Reach lr_max s t → Step lr_max t u → Reach lr_max s u

inject-IsOwned :
    (lr_max pirq virq grp : ℕ) (s s' : LrState)
    → lr_max ≤ 16
    → IsOwned lr_max s
    → vgic_inject_virq lr_max pirq virq grp s ≡ ok s'
    → IsOwned lr_max s'
inject-IsOwned lr_max pirq virq grp s s' le own ran =
    elim (inject-cases lr_max pirq virq grp s le own.fits) [
      | inl (n, s1, ran1, i) ↦ subst (IsOwned lr_max) (ok-injective (sym ran1 ∙ ran)) (record {
        fits = i.taken.fits;
        owned = λ k lt busy. elim (Bool-cases (k == n)) [
          | inl same ↦ ap (bit s1.used_lr) (eq_of_== k n same) ∙ i.taken.now_used
          | inr differ ↦
              let ne = ne_of_== k n differ in
              i.taken.others k ne ∙ own.owned k lt (sym (ap lr_is_inactive (i.kept k ne)) ∙ busy)
        ];
      })
      | inr (ran1, full) ↦ cc (sym ran1 ∙ ran)
    ]

enter-IsOwned :
    (lr_max : ℕ) (s s' : LrState)
    → lr_max ≤ 16
    → IsOwned lr_max s
    → vgic_irq_enter lr_max s ≡ ok s'
    → IsOwned lr_max s'
enter-IsOwned lr_max s s' le own ran =
    let (s1, ran1, same, fits, bits) = vgic_irq_enter_lem lr_max s le own.fits in
    subst (IsOwned lr_max) (ok-injective (sym ran1 ∙ ran)) (record {
      fits = fits;
      owned = λ k lt busy.
          let was : lr_is_inactive (s.hw.lr k) ≡ false =
            ap (λ (h : Interface). lr_is_inactive (h.lr k)) (sym same) ∙ busy in
          bits k ∙ rw (ltb-true lt, was) (own.owned k lt was);
    })

Step-IsOwned :
    (lr_max : ℕ) {s s' : LrState}
    → lr_max ≤ 16
    → IsOwned lr_max s
    → Step lr_max s s'
    → IsOwned lr_max s'
Step-IsOwned lr_max {s} {s'} le own (inject pirq virq grp ran) =
    inject-IsOwned lr_max pirq virq grp s s' le own ran
Step-IsOwned lr_max {s} {s'} le own (enter ran) = enter-IsOwned lr_max s s' le own ran
Step-IsOwned lr_max {s} le own (progress hw on) = record {
  fits = own.fits;
  owned = λ k lt busy. elim (Bool-cases (lr_is_inactive (s.hw.lr k))) [
    | inl idle ↦ cc (sym (on k idle) ∙ busy)
    | inr was ↦ own.owned k lt was
  ];
}

pub Reach-IsOwned :
    (lr_max : ℕ) {s s' : LrState}
    → lr_max ≤ 16
    → IsOwned lr_max s
    → Reach lr_max s s'
    → IsOwned lr_max s'
Reach-IsOwned lr_max le own here = own
Reach-IsOwned lr_max le own (next r st) = Step-IsOwned lr_max le (Reach-IsOwned lr_max le own r) st

-- With at most 16 list registers, from a state in which every live register is marked in use, however
-- injections, releases and the guest's progress are interleaved, an injection that returns
-- writes its interrupt into a register below `gic_lr_max` whose interrupt the guest had finished, and
-- keeps every other register: no interrupt is lost.
pub inject_no_loss :
    (lr_max pirq virq grp : ℕ) {s t t' : LrState}
    → lr_max ≤ 16
    → IsOwned lr_max s
    → Reach lr_max s t
    → vgic_inject_virq lr_max pirq virq grp t ≡ ok t'
    → (n : ℕ) × (n < lr_max)
      × (lr_is_inactive (t.hw.lr n) ≡ true)
      × Injected lr_max pirq virq grp t t' n
inject_no_loss lr_max pirq virq grp {t = t} {t' = t'} le own r ran =
    let now = Reach-IsOwned lr_max le own r in
    elim (inject-cases lr_max pirq virq grp t le now.fits) [
      | inl (n, t1, ran1, i) ↦ (
        n,
        i.taken.in_range,
        elim (Bool-cases (lr_is_inactive (t.hw.lr n))) [
          | inl idle ↦ idle
          | inr busy ↦
              let free = i.taken.was_free in
              absurd (omega (arith, now.owned n i.taken.in_range busy))
        ],
        subst (λ x. Injected lr_max pirq virq grp t x n) (ok-injective (sym ran1 ∙ ran)) i,
      )
      | inr (ran1, full) ↦ cc (sym ran1 ∙ ran)
    ]

-- With at most 16 list registers and `used_lr` of 16 bits, after `vgic_irq_enter` an injection succeeds as soon as one register below `gic_lr_max` is inactive.
enter_then_inject :
    (lr_max pirq virq grp k : ℕ) (s : LrState)
    → lr_max ≤ 16
    → s.used_lr < 2 ^ 16
    → k < lr_max
    → lr_is_inactive (s.hw.lr k) ≡ true
    → (s1 s2 : LrState) × (vgic_irq_enter lr_max s ≡ ok s1)
      × (vgic_inject_virq lr_max pirq virq grp s1 ≡ ok s2)
enter_then_inject lr_max pirq virq grp k s le fits lt idle =
    let (s1, ran1, same, fits1, bits) = vgic_irq_enter_lem lr_max s le fits in
    elim (inject-cases lr_max pirq virq grp s1 le fits1) [
      | inl (n, s2, ran2, i) ↦ (s1, s2, ran1, ran2)
      | inr (ran2, full) ↦
          let released : bit s1.used_lr k ≡ 0 = bits k ∙ rw (ltb-true lt, idle) in
          absurd (omega (arith, full k lt))
    ]
