-- ===== src/Mmio/Dispatch.antt =====
-- Registered regions as a list, the newest first, and how an access finds its region.
use mvmm.Base.{
  ℕ, zero, suc, ◌-◌, ◌≤◌, ◌≡◌, ◌≢◌, ◌==◌, if◌then◌else◌, Bool, List, [], ◌∷◌, Option, none, some,
  ok, arith, refl, get_elem?, length, inl, inr, Bool-cases, ◌+◌, ◌<◌, ◌^◌, ◌⊎◌, true, false, All,
  Option-cases, subst, sym, ==-true, ==-false,
}
use mvmm.Mmio.{Info, Mmio, covers, call_handler, walk_infos, mmio_emulate}

module _ {S R : Type 0} where
  -- From `cur` the links lead through used slots, which hold the regions of the list, to null.
  abbrev pub Regions : List (Info S R) → Option ℕ → List (Info S R) → Type 0
  Regions infos cur [] = cur ≡ none
  Regions infos cur (m ∷ ms) =
      (i : ℕ) × (cur ≡ some i)
      × (get_elem? infos i ≡ some m)
      × (m.size ≢ 0)
      × Regions infos m.next ms

  -- The first region that covers the address answers.
  unfoldable pub dispatch : R → List (Info S R) → Bool → ℕ → Option ℕ → ℕ → S → R
  dispatch fail [] wnr ipa reg val st = fail
  dispatch fail (m ∷ ms) wnr ipa reg val st =
      if covers m ipa
      then call_handler fail m wnr (ipa - m.base) reg val st
      else dispatch fail ms wnr ipa reg val st

  walk_infos-dispatch :
      (fuel : ℕ) (fail : R) (infos : List (Info S R)) (cur : Option ℕ) (ms : List (Info S R))
      (wnr : Bool) (ipa : ℕ) (reg : Option ℕ) (val : ℕ) (st : S)
      → Regions infos cur ms
      → length ms ≤ fuel
      → walk_infos fuel fail infos cur wnr ipa reg val st ≡ ok (dispatch fail ms wnr ipa reg val st)
  unfolding walk_infos dispatch
  walk_infos-dispatch fuel fail infos cur [] wnr ipa reg val st e le = rw e refl
  walk_infos-dispatch zero fail infos cur (m ∷ ms) wnr ipa reg val st h le = absurd (omega arith)
  walk_infos-dispatch (suc fuel) fail infos cur (m ∷ ms) wnr ipa reg val st (i, e, at, used, rest)
        le =
      let ih =
        walk_infos-dispatch fuel fail infos m.next ms wnr ipa reg val st rest (omega arith) in
      elim (Bool-cases (covers m ipa)) [
        | inl here ↦ ground (arith, e, at, here)
        | inr past ↦ ground (arith, e, at, past, ih)
      ]

  -- With as much fuel as regions, `mmio_emulate` is the dispatch over the registered regions; register 31
  -- is written as 0 and read into nothing.
  pub mmio_emulate-dispatch :
      (fuel : ℕ) (fail : R) (s : Mmio S R) (ms : List (Info S R)) (x : ℕ → ℕ) (rn : ℕ) (wnr : Bool)
      (ipa : ℕ) (st : S)
      → Regions s.infos s.pmap ms
      → length ms ≤ fuel
      → mmio_emulate fuel fail s x rn wnr ipa st
        ≡ ok (
            dispatch fail ms wnr ipa
              (if rn == 31 then none else some rn)
              (if rn == 31 then 0 else x rn)
              st)
  unfolding mmio_emulate
  mmio_emulate-dispatch fuel fail s ms x rn wnr ipa st h le = elim (Bool-cases (rn == 31)) [
    | inl zr ↦ rw zr (walk_infos-dispatch fuel fail s.infos s.pmap ms wnr ipa none 0 st h le)
    | inr gp ↦
        rw gp (walk_infos-dispatch fuel fail s.infos s.pmap ms wnr ipa (some rn) (x rn) st h le)
  ]

  -- What an access gets from the regions, as the handlers have it: the first region with the address, by its
  -- bounds, answers with its handler at the offset; a write goes to the write handler, and a read, or a write
  -- where there is none, to the read handler.
  pub data Handled (fail : R) (wnr : Bool) (ipa : ℕ) (reg : Option ℕ) (val : ℕ) (st : S)
      : List (Info S R) → R → Type 0 where
    nowhere : Handled fail wnr ipa reg val st [] fail
    elsewhere :
        {m : Info S R} {ms : List (Info S R)} {r : R}
        → (ipa < m.base) ⊎ (m.base + m.size ≤ ipa)
        → Handled fail wnr ipa reg val st ms r
        → Handled fail wnr ipa reg val st (m ∷ ms) r
    written :
        {m : Info S R} {ms : List (Info S R)} {w : ℕ → ℕ → S → R} {offset : ℕ}
        → ipa ≡ m.base + offset
        → offset < m.size
        → wnr ≡ true
        → m.write ≡ some w
        → Handled fail wnr ipa reg val st (m ∷ ms) (w offset val st)
    read_from :
        {m : Info S R} {ms : List (Info S R)} {r : ℕ → Option ℕ → S → R} {offset : ℕ}
        → ipa ≡ m.base + offset
        → offset < m.size
        → (wnr ≡ false) ⊎ (m.write ≡ none)
        → m.read ≡ some r
        → Handled fail wnr ipa reg val st (m ∷ ms) (r offset reg st)
    refused :
        {m : Info S R} {ms : List (Info S R)} {offset : ℕ}
        → ipa ≡ m.base + offset
        → offset < m.size
        → (wnr ≡ false) ⊎ (m.write ≡ none)
        → m.read ≡ none
        → Handled fail wnr ipa reg val st (m ∷ ms) fail

  module _ (fail : R) (wnr : Bool) (ipa : ℕ) (reg : Option ℕ) (val : ℕ) (st : S) where
    answered :
        (m : Info S R) (ms : List (Info S R)) (offset : ℕ) (r : R)
        → call_handler fail m wnr offset reg val st ≡ r
        → Handled fail wnr ipa reg val st (m ∷ ms) r
        → Handled fail wnr ipa reg val st (m ∷ ms) (call_handler fail m wnr offset reg val st)
    answered m ms offset r e h = subst (Handled fail wnr ipa reg val st (m ∷ ms)) (sym e) h

    falls_to :
        (m : Info S R) (offset : ℕ) (r : R)
        → (wnr ≡ false) ⊎ (m.write ≡ none)
        → (elim m.read [ some f ↦ f offset reg st | none ↦ fail ]) ≡ r
        → call_handler fail m wnr offset reg val st ≡ r
    unfolding call_handler
    falls_to m offset r (inl e) found = rw e found
    falls_to m offset r (inr e) found = elim (Bool-cases wnr) [
      | inl t ↦ rw (t, e) found
      | inr t ↦ rw t found
    ]

    -- The read handler, where there is no write or no handler for it.
    call_handler-read :
        (m : Info S R) (ms : List (Info S R)) (offset : ℕ)
        → ipa ≡ m.base + offset
        → offset < m.size
        → (wnr ≡ false) ⊎ (m.write ≡ none)
        → Handled fail wnr ipa reg val st (m ∷ ms) (call_handler fail m wnr offset reg val st)
    unfolding call_handler
    call_handler-read m ms offset at lt other = elim (Option-cases m.read) [
      | inl e ↦
          answered m ms offset fail (falls_to m offset fail other (rw e refl))
            (refused at lt other e)
      | inr (r, e) ↦
          answered m ms offset (r offset reg st)
            (falls_to m offset (r offset reg st) other (rw e refl)) (read_from at lt other e)
    ]

    call_handler-Handled :
        (m : Info S R) (ms : List (Info S R)) (offset : ℕ)
        → ipa ≡ m.base + offset
        → offset < m.size
        → Handled fail wnr ipa reg val st (m ∷ ms) (call_handler fail m wnr offset reg val st)
    unfolding call_handler
    call_handler-Handled m ms offset at lt = elim (Bool-cases wnr) [
      | inr e ↦ call_handler-read m ms offset at lt (inl e)
      | inl e ↦ elim (Option-cases m.write) [
        | inl none_left ↦ call_handler-read m ms offset at lt (inr none_left)
        | inr (w, found) ↦
            answered m ms offset (w offset val st) (rw (e, found) refl) (written at lt e found)
      ]
    ]

    dispatch-Handled :
        (ms : List (Info S R))
        → All (λ m. m.base + m.size < 2 ^ 64) ms
        → Handled fail wnr ipa reg val st ms (dispatch fail ms wnr ipa reg val st)
    unfolding dispatch
    dispatch-Handled [] fits = nowhere
    dispatch-Handled (m ∷ ms) (fit, fits) = elim (Bool-cases (covers m ipa)) [
      | inl here ↦ rw here (call_handler-Handled m ms (ipa - m.base) (ground arith) (ground arith))
      | inr past ↦ rw past (elsewhere (ground arith) (dispatch-Handled ms fits))
    ]

  -- For regions that are registered and end below 2^64, with as much fuel as regions, `mmio_emulate` ends
  -- with the answer of the first region that has the address, as `Handled` says, and -1 without one. The
  -- register 31 gives 0 to write and no register to read into.
  pub mmio_emulate-Handled :
      (fuel : ℕ) (fail : R) (s : Mmio S R) (ms : List (Info S R)) (x : ℕ → ℕ) (rn : ℕ) (wnr : Bool)
      (ipa : ℕ) (st : S)
      → Regions s.infos s.pmap ms
      → All (λ m. m.base + m.size < 2 ^ 64) ms
      → length ms ≤ fuel
      → (r : R) × (mmio_emulate fuel fail s x rn wnr ipa st ≡ ok r)
        × ((rn ≡ 31) → Handled fail wnr ipa none 0 st ms r)
        × ((rn ≢ 31) → Handled fail wnr ipa (some rn) (x rn) st ms r)
  mmio_emulate-Handled fuel fail s ms x rn wnr ipa st h fits le =
      let ran = mmio_emulate-dispatch fuel fail s ms x rn wnr ipa st h le in
      (
        dispatch fail ms wnr ipa (if rn == 31 then none else some rn) (if rn == 31 then 0 else x rn)
            st,
        ran,
        λ e. let t = ==-true e in rw t (dispatch-Handled fail wnr ipa none 0 st ms fits),
        λ ne.
            let t = ==-false ne in rw t (dispatch-Handled fail wnr ipa (some rn) (x rn) st ms fits),
      )
