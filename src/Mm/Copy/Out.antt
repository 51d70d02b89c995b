-- ===== src/Mm/Copy/Out.antt =====
-- `copy_to_guest`: which bytes it writes, across the pages of the guest.
use mvmm.Base.{
  ℕ, zero, suc, ◌+◌, ◌-◌, ◌/◌, ◌%◌, ◌<◌, ◌≤◌, ◌≡◌, ◌≢◌, ok, inl, inr, Bool-cases, arith, ap, refl,
  sym, subst, ◌∙◌, ◌==◌, ==-false, ltb, eq_of_==, ne_of_==,
}
use mvmm.Memory.{Mem}
use mvmm.CLib.{memcpy}
use mvmm.Kalloc.{Pmem, page_size}
use mvmm.Mm.{pte_pa, chunk, copy_out, copy_to_guest}
use mvmm.Mm.Tables.{Labels}
use mvmm.Mm.Copy.{
  frame, place, page_of, IsReachable, IsBuffer, SameTables, frame-aligned, memcpy-inside,
  memcpy-outside, memcpy-SameTables, place-chunk, chunk-bounds, chunk-next, ipa2pa-place,
  IsReachable-rest, IsBuffer-rest,
}

-- Different guest pages of the range have different physical pages.
abbrev pub OwnFrames : ℕ → ℕ → ℕ → Mem → Type 0
OwnFrames root ipa len m =
    (k l : ℕ)
    → k < len
    → l < len
    → (ipa + k) / page_size ≢ (ipa + l) / page_size
    → frame m root (ipa + k) ≢ frame m root (ipa + l)

-- The guest's bytes from `ipa` on are those from `source` on; no other byte and no table changes.
pub record CopiedOut (lab : Labels) (root ipa source len : ℕ) (m m' : Mem) : Type 0 where
  pub same : SameTables lab root m m'
  pub copied : (k : ℕ) → k < len → m' (place m root (ipa + k)) ≡ m (source + k)
  pub others : (b : ℕ) → ((k : ℕ) → k < len → b ≢ place m root (ipa + k)) → m' b ≡ m b

abbrev OutResult : ℕ → Labels → ℕ → ℕ → ℕ → ℕ → ℕ → Pmem → Type 0
OutResult fuel lab me root ipa source len s =
    (m' : Mem) × (copy_out fuel me root ipa source len s ≡ ok (record s { mem = m' }))
    × CopiedOut lab root ipa source len s.mem m'

place-SameTables :
    (lab : Labels) (root ipa source len : ℕ) (m : Mem)
    → IsReachable lab root ipa len m
    → len ≢ 0
    → SameTables lab root m (memcpy m (place m root ipa) source (chunk ipa len))
place-SameTables lab root ipa source len m r ne =
    let (le, pos) = chunk-bounds ipa len ne in
    memcpy-SameTables lab root m (place m root ipa) source (chunk ipa len) r.tables (λ j lt.
      let here : page_of (place m root ipa + j) ≡ frame m root (ipa + j) =
        omega (arith, place-chunk m root ipa len j lt, frame-aligned m root (ipa + j)) in
      ap lab here ∙ r.guest_page j (omega arith))

-- The source holds no byte of the guest.
place-ne :
    (lab : Labels) (root ipa len : ℕ) (m : Mem) (b j k : ℕ)
    → IsBuffer lab root ipa len m b
    → j < len
    → k < len
    → b + j ≢ place m root (ipa + k)
place-ne lab root ipa len m b j k buf ltj ltk e =
    buf.apart j k ltj ltk (omega (arith, frame-aligned m root (ipa + k)))

-- Bytes of different pages of the range are apart.
places_apart :
    (root ipa len k l : ℕ) (m : Mem)
    → OwnFrames root ipa len m
    → k < len
    → l < len
    → (ipa + k) / page_size ≢ (ipa + l) / page_size
    → place m root (ipa + k) ≢ place m root (ipa + l)
places_apart root ipa len k l m own ltk ltl ne e =
    own k l ltk ltl ne
      (omega (arith, frame-aligned m root (ipa + k), frame-aligned m root (ipa + l)))

OwnFrames-rest :
    (lab : Labels) (root ipa len n : ℕ) (m m' : Mem)
    → OwnFrames root ipa len m
    → SameTables lab root m m'
    → n ≤ len
    → OwnFrames root (ipa + n) (len - n) m'
OwnFrames-rest lab root ipa len n m m' own same le k l ltk ltl =
    let e : ipa + n + k ≡ ipa + (n + k) = omega arith in
    let e' : ipa + n + l ≡ ipa + (n + l) = omega arith in
    rw (same.entries (ipa + n + k), same.entries (ipa + n + l), e, e')
      (own (n + k) (n + l) (omega arith) (omega arith))

copy_out-round :
    (lab : Labels) (me root ipa source len n fuel : ℕ) (s : Pmem)
    → chunk ipa len ≡ n
    → n ≤ len
    → IsReachable lab root ipa len s.mem
    → IsBuffer lab root ipa len s.mem source
    → OwnFrames root ipa len s.mem
    → len ≢ 0
    → SameTables lab root s.mem (memcpy s.mem (place s.mem root ipa) source n)
    → OutResult fuel lab me root
        (ipa + n)
        (source + n)
        (len - n)
        (record s { mem = memcpy s.mem (place s.mem root ipa) source n })
    → OutResult (suc fuel) lab me root ipa source len s
unfolding copy_out
copy_out-round lab me root ipa source len n fuel s en le r buf own ne same1 (m', ran, c) =
    let m : Mem = s.mem in
    let pa : ℕ = place m root ipa in
    let m1 : Mem = memcpy m pa source n in
    let (found, there) = ipa2pa-place me root ipa len lab s r ne in
    let moved : (k : ℕ) → place m1 root (ipa + n + k) ≡ place m root (ipa + (n + k)) = λ k.
      let e : ipa + n + k ≡ ipa + (n + k) = omega arith in
      ap (λ (x : ℕ). place m1 root x) e
      ∙ ap (λ (x : ℕ). pte_pa x + (ipa + (n + k)) % page_size) (same1.entries (ipa + (n + k))) in
    let chunk_place : (k : ℕ) → k < n → place m root (ipa + k) ≡ pa + k =
      λ k lt. place-chunk m root ipa len k (omega arith) in
    let first : (k : ℕ) → k < n → m' (place m root (ipa + k)) ≡ m (source + k) = λ k lt.
      c.others (place m root (ipa + k)) (λ l ltl e.
        places_apart root ipa len k (n + l) m own (omega arith) (omega arith)
          (chunk-next ipa len n k l en lt ltl) (e ∙ moved l))
      ∙ ap m1 (chunk_place k lt)
      ∙ memcpy-inside m pa source n k lt in
    let later : (k : ℕ) → k < len - n → m' (place m root (ipa + (n + k))) ≡ m (source + (n + k)) =
      λ k lt.
        let e : source + n + k ≡ source + (n + k) = omega arith in
        ap m' (sym (moved k))
        ∙ c.copied k lt
        ∙ ap m1 e
        ∙ memcpy-outside m pa source n (source + (n + k)) (λ j ltj e.
          place-ne lab root ipa len m source (n + k) j buf (omega arith) (omega arith)
            (e ∙ sym (chunk_place j ltj))) in
    (
      m',
      rw (==-false ne, en, found, ==-false there) ran,
      record {
        same = record {
          tables = c.same.tables;
          entries = λ va. c.same.entries va ∙ same1.entries va;
          finds = λ va. c.same.finds va ∙ same1.finds va;
        };
        copied = λ k lt. elim (Bool-cases (ltb k n)) [
          | inl in_round ↦ first k (ground arith)
          | inr after ↦
              let e : n + (k - n) ≡ k = ground arith in
              subst (λ (x : ℕ). m' (place m root (ipa + x)) ≡ m (source + x)) e
                (later (k - n) (ground arith))
        ];
        others = λ b out.
            c.others b (λ j lt e. out (n + j) (omega arith) (e ∙ moved j))
            ∙ memcpy-outside m pa source n b
                (λ j lt e. out j (omega arith) (e ∙ sym (chunk_place j lt)));
      },
    )

nothing :
    (lab : Labels) (root ipa source len : ℕ) (m : Mem)
    → IsReachable lab root ipa len m
    → len ≡ 0
    → CopiedOut lab root ipa source len m m
nothing lab root ipa source len m r none_left = record {
  same = record { tables = r.tables; entries = λ va. refl; finds = λ va. refl };
  copied = λ k lt. absurd (omega arith);
  others = λ b out. refl;
}

copy_out-CopiedOut :
    (fuel : ℕ) (lab : Labels) (me root ipa source len : ℕ) (s : Pmem)
    → len ≤ fuel
    → IsReachable lab root ipa len s.mem
    → IsBuffer lab root ipa len s.mem source
    → OwnFrames root ipa len s.mem
    → OutResult fuel lab me root ipa source len s
unfolding copy_out
copy_out-CopiedOut zero lab me root ipa source len s enough r buf own =
    (s.mem, refl, nothing lab root ipa source len s.mem r (omega arith))
copy_out-CopiedOut (suc fuel) lab me root ipa source len s enough r buf own =
    elim (Bool-cases (len == 0)) [
      | inl done ↦ (s.mem, rw done, nothing lab root ipa source len s.mem r (eq_of_== len 0 done))
      | inr more ↦
          let ne : len ≢ 0 = ne_of_== len 0 more in
          let n : ℕ = chunk ipa len in
          let (le, pos) = chunk-bounds ipa len ne in
          let m1 : Mem = memcpy s.mem (place s.mem root ipa) source n in
          let same1 : SameTables lab root s.mem m1 =
            place-SameTables lab root ipa source len s.mem r ne in
          copy_out-round lab me root ipa source len n fuel s refl le r buf own ne same1 (
            copy_out-CopiedOut fuel lab me root (ipa + n) (source + n) (len - n)
              (record s { mem = m1 }) (omega arith)
              (IsReachable-rest lab root ipa len n s.mem m1 r same1 le)
              (IsBuffer-rest lab root ipa len n s.mem m1 source buf same1 le)
              (OwnFrames-rest lab root ipa len n s.mem m1 own same1 le))
    ]

-- `copy_to_guest` to a range that is mapped, with a physical page of its own for each guest page, from a
-- buffer outside the tables and those pages, succeeds: the guest's byte at `to_ipa + k` is byte `k` of
-- the buffer, whatever pages the range crosses, and no other byte of memory changes.
pub copy_to_guest-CopiedOut :
    (lab : Labels) (me root to_ipa source len : ℕ) (s : Pmem)
    → IsReachable lab root to_ipa len s.mem
    → IsBuffer lab root to_ipa len s.mem source
    → OwnFrames root to_ipa len s.mem
    → (m' : Mem) × (copy_to_guest me root to_ipa source len s ≡ ok (record s { mem = m' }))
      × CopiedOut lab root to_ipa source len s.mem m'
unfolding copy_to_guest
copy_to_guest-CopiedOut lab me root to_ipa source len s r buf own =
    copy_out-CopiedOut len lab me root to_ipa source len s (omega arith) r buf own
