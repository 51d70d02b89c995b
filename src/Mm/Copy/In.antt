-- ===== src/Mm/Copy/In.antt =====
-- `copy_from_guest`: which bytes it reads, across the pages of the guest.
use mvmm.Base.{
  ℕ, zero, suc, ◌+◌, ◌-◌, ◌%◌, ◌<◌, ◌≤◌, ◌≡◌, ◌≢◌, ok, inl, inr, Bool-cases, arith, ap, refl, sym,
  subst, ◌∙◌, ◌==◌, ==-false, ltb, eq_of_==, ne_of_==,
}
use mvmm.Memory.{Mem}
use mvmm.CLib.{memcpy}
use mvmm.Kalloc.{Pmem, page_size}
use mvmm.Mm.{pte_pa, chunk, copy_in, copy_from_guest}
use mvmm.Mm.Tables.{Labels}
use mvmm.Mm.Copy.{
  place, IsReachable, IsBuffer, SameTables, frame-aligned, memcpy-inside, memcpy-outside,
  memcpy-SameTables, place-chunk, chunk-bounds, ipa2pa-place, IsReachable-rest, IsBuffer-rest,
}

-- The bytes from `to` on are those of the guest from `ipa` on; no other byte and no table changes.
pub record CopiedIn (lab : Labels) (root to ipa len : ℕ) (m m' : Mem) : Type 0 where
  pub same : SameTables lab root m m'
  pub copied : (k : ℕ) → k < len → m' (to + k) ≡ m (place m root (ipa + k))
  pub others : (b : ℕ) → ((j : ℕ) → j < len → b ≢ to + j) → m' b ≡ m b

abbrev InResult : ℕ → Labels → ℕ → ℕ → ℕ → ℕ → ℕ → Pmem → Type 0
InResult fuel lab me root to ipa len s =
    (m' : Mem) × (copy_in fuel me root to ipa len s ≡ ok (record s { mem = m' }))
    × CopiedIn lab root to ipa len s.mem m'

-- The buffer holds no byte of the guest.
place-ne :
    (lab : Labels) (root ipa len : ℕ) (m : Mem) (b j k : ℕ)
    → IsBuffer lab root ipa len m b
    → j < len
    → k < len
    → place m root (ipa + k) ≢ b + j
place-ne lab root ipa len m b j k buf ltj ltk e =
    buf.apart j k ltj ltk (omega (arith, frame-aligned m root (ipa + k)))

copy_in-round :
    (lab : Labels) (me root to ipa len n fuel : ℕ) (s : Pmem)
    → chunk ipa len ≡ n
    → n ≤ len
    → IsReachable lab root ipa len s.mem
    → IsBuffer lab root ipa len s.mem to
    → len ≢ 0
    → InResult fuel lab me root
        (to + n)
        (ipa + n)
        (len - n)
        (record s { mem = memcpy s.mem to (place s.mem root ipa) n })
    → InResult (suc fuel) lab me root to ipa len s
unfolding copy_in
copy_in-round lab me root to ipa len n fuel s en le r buf ne (m', ran, c) =
    let pa : ℕ = place s.mem root ipa in
    let m1 : Mem = memcpy s.mem to pa n in
    let (found, there) = ipa2pa-place me root ipa len lab s r ne in
    let same1 : SameTables lab root s.mem m1 =
      memcpy-SameTables lab root s.mem to pa n r.tables (λ j lt. buf.not_table j (omega arith)) in
    let kept : (k : ℕ)
        → k < len
        → m1 (place s.mem root (ipa + k)) ≡ s.mem (place s.mem root (ipa + k)) =
      λ k lt.
        memcpy-outside s.mem to pa n (place s.mem root (ipa + k))
          (λ j ltj. place-ne lab root ipa len s.mem to j k buf (omega arith) lt) in
    let first : (k : ℕ) → k < n → m' (to + k) ≡ s.mem (place s.mem root (ipa + k)) = λ k lt.
      c.others (to + k) (λ j ltj e. omega arith)
      ∙ memcpy-inside s.mem to pa n k lt
      ∙ ap s.mem (sym (place-chunk s.mem root ipa len k (omega arith))) in
    let later : (k : ℕ)
        → k < len - n
        → m' (to + (n + k)) ≡ s.mem (place s.mem root (ipa + (n + k))) =
      λ k lt.
        let e : to + n + k ≡ to + (n + k) = omega arith in
        let e' : ipa + n + k ≡ ipa + (n + k) = omega arith in
        ap m' (sym e)
        ∙ c.copied k lt
        ∙ ap (λ (x : ℕ). m1 (place m1 root x)) e'
        ∙ ap (λ (x : ℕ). m1 (pte_pa x + (ipa + (n + k)) % page_size))
            (same1.entries (ipa + (n + k)))
        ∙ kept (n + k) (omega arith) in
    (
      m',
      rw (==-false ne, en, found, ==-false there) ran,
      record {
        same = record {
          tables = c.same.tables;
          entries = λ va. c.same.entries va ∙ same1.entries va;
          finds = λ va. c.same.finds va ∙ same1.finds va;
        };
        copied = λ k lt. elim (Bool-cases (ltb k n)) [
          | inl in_round ↦ first k (ground arith)
          | inr after ↦
              let e : n + (k - n) ≡ k = ground arith in
              subst (λ (x : ℕ). m' (to + x) ≡ s.mem (place s.mem root (ipa + x))) e
                (later (k - n) (ground arith))
        ];
        others = λ b out.
            c.others b (λ j lt e. out (n + j) (omega arith) (omega arith))
            ∙ memcpy-outside s.mem to pa n b (λ j lt. out j (omega arith));
      },
    )

nothing :
    (lab : Labels) (me root to ipa len : ℕ) (s : Pmem)
    → IsReachable lab root ipa len s.mem
    → len ≡ 0
    → CopiedIn lab root to ipa len s.mem s.mem
nothing lab me root to ipa len s r none_left = record {
  same = record { tables = r.tables; entries = λ va. refl; finds = λ va. refl };
  copied = λ k lt. absurd (omega arith);
  others = λ b out. refl;
}

copy_in-CopiedIn :
    (fuel : ℕ) (lab : Labels) (me root to ipa len : ℕ) (s : Pmem)
    → len ≤ fuel
    → IsReachable lab root ipa len s.mem
    → IsBuffer lab root ipa len s.mem to
    → InResult fuel lab me root to ipa len s
unfolding copy_in
copy_in-CopiedIn zero lab me root to ipa len s enough r buf =
    (s.mem, refl, nothing lab me root to ipa len s r (omega arith))
copy_in-CopiedIn (suc fuel) lab me root to ipa len s enough r buf = elim (Bool-cases (len == 0)) [
  | inl done ↦ (s.mem, rw done, nothing lab me root to ipa len s r (eq_of_== len 0 done))
  | inr more ↦
      let ne : len ≢ 0 = ne_of_== len 0 more in
      let n : ℕ = chunk ipa len in
      let (le, pos) = chunk-bounds ipa len ne in
      let pa : ℕ = place s.mem root ipa in
      let same1 : SameTables lab root s.mem (memcpy s.mem to pa n) =
        memcpy-SameTables lab root s.mem to pa n r.tables (λ j lt. buf.not_table j (omega arith)) in
      copy_in-round lab me root to ipa len n fuel s refl le r buf ne (
        copy_in-CopiedIn fuel lab me root (to + n) (ipa + n) (len - n)
          (record s { mem = memcpy s.mem to pa n }) (omega arith)
          (IsReachable-rest lab root ipa len n s.mem (memcpy s.mem to pa n) r same1 le)
          (IsBuffer-rest lab root ipa len n s.mem (memcpy s.mem to pa n) to buf same1 le))
]

-- `copy_from_guest` of a range that is mapped, to a buffer outside the tables and the pages of the range,
-- succeeds: byte `k` of the buffer is the guest's byte at `from_ipa + k`, whatever pages the range
-- crosses, and no other byte of memory changes.
pub copy_from_guest-CopiedIn :
    (lab : Labels) (me root to from_ipa len : ℕ) (s : Pmem)
    → IsReachable lab root from_ipa len s.mem
    → IsBuffer lab root from_ipa len s.mem to
    → (m' : Mem) × (copy_from_guest me root to from_ipa len s ≡ ok (record s { mem = m' }))
      × CopiedIn lab root to from_ipa len s.mem m'
unfolding copy_from_guest
copy_from_guest-CopiedIn lab me root to from_ipa len s r buf =
    copy_in-CopiedIn len lab me root to from_ipa len s (omega arith) r buf
