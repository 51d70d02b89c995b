-- ===== src/Mmio/Register.antt =====
-- What `mmio_reg_handler` does to the list of regions.
use mvmm.Base.{
  ℕ, zero, suc, ◌+◌, ◌-◌, ◌≤◌, ◌≡◌, ◌≢◌, ◌==◌, List, [], ◌∷◌, Option, some, ok, arith, refl, ap,
  get_elem?, sym, ◌∙◌, inl, inr, Bool-cases, eq_of_==,
}
use mvmm.Spinlock.{spinlock_init, acquire, release}
use mvmm.Mmio.{
  Info, Mmio, find_slot, write_slot, claim_slot, set_slot, alloc_mmio_info, mmio_reg_handler,
}
use mvmm.Mmio.Dispatch.{Regions}

module _ {S R : Type 0} where
  -- The slot found holds a struct of size 0.
  find_slot-free :
      (i n : ℕ) (ms : List (Info S R))
      → find_slot i ms ≡ some n
      → (m : Info S R) × (i ≤ n) × (get_elem? ms (n - i) ≡ some m) × (m.size ≡ 0)
  unfolding find_slot
  find_slot-free i n [] found = cc
  find_slot-free i n (m ∷ ms) found = elim (Bool-cases (m.size == 0)) [
    | inl free ↦
        let e : i ≡ n = ground (arith, found, free) in
        let at : n - i ≡ 0 = omega arith in (m, omega arith, rw at refl, eq_of_== m.size 0 free)
    | inr busy ↦
        let found' : find_slot (i + 1) ms ≡ some n = ground (arith, found, busy) in
        let (u, le, at, free) = find_slot-free (i + 1) n ms found' in
        let next : n - i ≡ suc (n - (i + 1)) = omega arith in (u, omega arith, rw next at, free)
  ]

  write_slot_self :
      (f : Info S R → Info S R) (n : ℕ) (ms : List (Info S R)) {m : Info S R}
      → get_elem? ms n ≡ some m
      → get_elem? (write_slot n f ms) n ≡ some (f m)
  unfolding write_slot
  write_slot_self f n [] at = cc
  write_slot_self f zero (m ∷ ms) at = ground (arith, at)
  write_slot_self f (suc n) (m ∷ ms) at = write_slot_self f n ms at

  write_slot-other :
      (f : Info S R → Info S R) (n j : ℕ) (ms : List (Info S R))
      → j ≢ n
      → get_elem? (write_slot n f ms) j ≡ get_elem? ms j
  unfolding write_slot
  write_slot-other f n j [] ne = refl
  write_slot-other f zero zero (m ∷ ms) ne = absurd (ne refl)
  write_slot-other f zero (suc j) (m ∷ ms) ne = refl
  write_slot-other f (suc n) zero (m ∷ ms) ne = refl
  write_slot-other f (suc n) (suc j) (m ∷ ms) ne =
      write_slot-other f n j ms (λ e. ne (ap (λ (x : ℕ). suc x) e))

  -- A change of a free slot alone keeps the regions.
  Regions-frame :
      (n : ℕ) (infos infos' : List (Info S R)) (old : Info S R) (cur : Option ℕ)
      (ms : List (Info S R))
      → ((j : ℕ) → j ≢ n → get_elem? infos' j ≡ get_elem? infos j)
      → get_elem? infos n ≡ some old
      → old.size ≡ 0
      → Regions infos cur ms
      → Regions infos' cur ms
  Regions-frame n infos infos' old cur [] same_else at free h = h
  Regions-frame n infos infos' old cur (m ∷ ms) same_else at free (i, e, here, used, rest) =
      let apart : i ≢ n = λ same.
        let both : get_elem? infos n ≡ some m =
          sym (ap (λ (k : ℕ). get_elem? infos k) same) ∙ here in
        let one : m ≡ old = cc (sym both ∙ at) in used (ap (λ (k : Info S R). k.size) one ∙ free) in
      (
        i,
        e,
        same_else i apart ∙ here,
        used,
        Regions-frame n infos infos' old m.next ms same_else at free rest,
      )

  -- With both locks free, a slot of size 0 in the table and a size that is not 0, `mmio_reg_handler`
  -- succeeds and puts the new region, with its bounds and handlers, in front of those registered before.
  pub mmio_reg_handler-Regions :
      (me ipa size n : ℕ) (read : Option (ℕ → Option ℕ → S → R)) (write : Option (ℕ → ℕ → S → R))
      (s : Mmio S R) (ms : List (Info S R))
      → s.vm_lock ≡ spinlock_init
      → s.mi_lock ≡ spinlock_init
      → size ≢ 0
      → find_slot 0 s.infos ≡ some n
      → Regions s.infos s.pmap ms
      → (s' : Mmio S R) × (m : Info S R) × (mmio_reg_handler me ipa size read write s
          ≡ ok (some s'))
        × Regions s'.infos s'.pmap (m ∷ ms)
        × (m.base ≡ ipa)
        × (m.size ≡ size)
        × (m.read ≡ read)
        × (m.write ≡ write)
        × (s'.vm_lock ≡ spinlock_init)
        × (s'.mi_lock ≡ spinlock_init)
  unfolding mmio_reg_handler alloc_mmio_info acquire release
  mmio_reg_handler-Regions me ipa size n read write s ms vm_free mi_free ne found h =
      let (old, le, at0, free) = find_slot-free 0 n s.infos found in
      let at : get_elem? s.infos n ≡ some old =
        ap (λ (k : ℕ). get_elem? s.infos k) (omega arith) ∙ at0 in
      let c = claim_slot s.pmap in
      let f = set_slot ipa size read write in
      let twice = write_slot n f (write_slot n c s.infos) in
      let kept =
        Regions-frame n s.infos twice old s.pmap ms
          (λ j ne'.
            write_slot-other f n j (write_slot n c s.infos) ne'
            ∙ write_slot-other c n j s.infos ne')
          at free h in
      (
        record {
          infos = write_slot n f (write_slot n c s.infos);
          mi_lock = spinlock_init;
          pmap = some n;
          vm_lock = spinlock_init;
        },
        f (c old),
        ground (arith, vm_free, mi_free, found, ne),
        (
          n,
          refl,
          write_slot_self f n (write_slot n c s.infos) (write_slot_self c n s.infos at),
          ne,
          kept,
        ),
        refl,
        refl,
        refl,
        refl,
        refl,
        refl,
      )
