-- ===== src/Virtq/FreeList.antt =====
-- The free descriptors as a list, and what `alloc_desc` and `free_desc` do to it.
use mvmm.Base.{
  ℕ, zero, suc, ◌+◌, ◌%◌, ◌^◌, ◌<◌, ◌≤◌, ◌≡◌, ◌≢◌, bit_and, ◌==◌, if◌then◌else◌, List, [], ◌∷◌,
  ◌++◌, length, length-append, All, ok, write_at, arith, refl, sym, subst,
}
use mvmm.Virtq.{Desc, Virtq, f_next, link, has_next, alloc_desc, free_loop, free_desc}

-- From `head` the links lead through the descriptors of the list. The link of the last one is not used.
abbrev pub Linked : (ℕ → Desc) → ℕ → List ℕ → Type 0
Linked desc head [] = Unit
Linked desc head (d ∷ []) = head ≡ d
Linked desc head (d ∷ (e ∷ ds)) =
    (head ≡ d) × (bit_and (desc d).flags f_next ≢ 0) × Linked desc (desc d).next (e ∷ ds)

abbrev pub Distinct : List ℕ → Type 0
Distinct [] = Unit
Distinct (d ∷ ds) = All (λ e. e ≢ d) ds × Distinct ds

-- The descriptors of the list are free.
pub record FreeList (vq : Virtq) (ds : List ℕ) : Type 0 where
  pub count : vq.nfree ≡ length ds
  pub linked : Linked vq.desc vq.free_head ds
  pub distinct : Distinct ds

-- A chain that was handed out: every link but the last has the flag.
abbrev pub Chain : (ℕ → Desc) → ℕ → List ℕ → Type 0
Chain desc n [] = ⊥
Chain desc n (c ∷ []) = (n ≡ c) × (bit_and (desc c).flags f_next ≡ 0)
Chain desc n (c ∷ (e ∷ cs)) =
    (n ≡ c) × (bit_and (desc c).flags f_next ≢ 0) × Chain desc (desc c).next (e ∷ cs)

pub Linked-write_at :
    (desc : ℕ → Desc) (l : ℕ) (t : Desc) (head : ℕ) (ds : List ℕ)
    → All (λ e. e ≢ l) ds
    → Linked desc head ds
    → Linked (write_at desc l t) head ds
Linked-write_at desc l t head [] out h = tt
Linked-write_at desc l t head (d ∷ []) out h = h
Linked-write_at desc l t head (d ∷ (e ∷ ds)) (ne, out) (at, flag, rest) =
    let kept : write_at desc l t d ≡ desc d = ground arith in
    (at, rw kept flag, rw kept (Linked-write_at desc l t (desc d).next (e ∷ ds) out rest))

-- A free descriptor is handed out, and the others stay free.
pub alloc_desc-FreeList :
    (d : ℕ) (ds : List ℕ) (vq : Virtq)
    → FreeList vq (d ∷ ds)
    → (head : ℕ) × (alloc_desc vq ≡ ok (d, record vq { free_head = head; nfree = length ds }))
      × FreeList (record vq { free_head = head; nfree = length ds }) ds
unfolding alloc_desc has_next
alloc_desc-FreeList d [] vq h =
    let at = h.linked in
    let count = h.count in
    (
      (if bit_and (vq.desc vq.free_head).flags f_next == 0
          then vq.free_head
          else (vq.desc vq.free_head).next),
      ground arith,
      record { count = refl; linked = tt; distinct = tt },
    )
alloc_desc-FreeList d (e ∷ ds) vq h =
    let (at, flag, rest) = h.linked in
    let count = h.count in
    (
      (vq.desc d).next,
      ground arith,
      record { count = refl; linked = rest; distinct = h.distinct.1 },
    )

-- The last descriptor of a chain.
abbrev last : ℕ → List ℕ → ℕ
last c [] = c
last c (e ∷ cs) = last e cs

free_loop-last :
    (fuel : ℕ) (vq : Virtq) (n k c : ℕ) (cs : List ℕ)
    → Chain vq.desc n (c ∷ cs)
    → k + length (c ∷ cs) < 2 ^ 16
    → length (c ∷ cs) ≤ fuel
    → free_loop fuel vq n k ≡ ok (last c cs, k + length (c ∷ cs))
unfolding free_loop has_next
free_loop-last zero vq n k c cs h lt le = absurd (omega arith)
free_loop-last (suc fuel) vq n k c [] (at, flag) lt le =
    let count : (k + 1) % 2 ^ 16 ≡ k + 1 = omega arith in rw (at, flag, count) refl
free_loop-last (suc fuel) vq n k c (e ∷ cs) (at, flag, rest) lt le =
    let count : (k + 1) % 2 ^ 16 ≡ k + 1 = omega arith in
    let ih =
      free_loop-last fuel vq (vq.desc c).next (k + 1) e cs rest (omega arith) (omega arith) in
    rw (at, count, ih) (ground (arith, flag))

last-ne : (c e : ℕ) (cs ds : List ℕ) → All (λ x. x ≢ c) ((e ∷ cs) ++ ds) → last e cs ≢ c
last-ne c e [] ds h = h.0
last-ne c e (f ∷ cs) ds h = last-ne c f cs ds h.1

not-last : (c : ℕ) (cs ds : List ℕ) → Distinct ((c ∷ cs) ++ ds) → All (λ e. e ≢ last c cs) ds
not-last c [] ds h = h.0
not-last c (e ∷ cs) ds h = not-last e cs ds h.1

-- A chain in front of the free descriptors.
join :
    (desc : ℕ → Desc) (t : Desc) (n c : ℕ) (cs ds : List ℕ)
    → Chain desc n (c ∷ cs)
    → Distinct ((c ∷ cs) ++ ds)
    → bit_and t.flags f_next ≢ 0
    → Linked (write_at desc (last c cs) t) t.next ds
    → Linked (write_at desc (last c cs) t) n ((c ∷ cs) ++ ds)
join desc t n c [] [] h apart flag rest = h.0
join desc t n c [] (d ∷ ds) h apart flag rest =
    let written : write_at desc c t c ≡ t = ground arith in (h.0, rw written flag, rw written rest)
join desc t n c (e ∷ cs) ds (at, link', more) apart flag rest =
    let ne = last-ne c e cs ds apart.0 in
    let kept : write_at desc (last e cs) t c ≡ desc c = ground (arith, ne) in
    (at, rw kept link', rw kept (join desc t (desc c).next e cs ds more apart.1 flag rest))

-- The last descriptor of a chain that is given back.
tail_of : ℕ → ℕ → Desc → Desc
tail_of nfree head d = if nfree == 0 then record d { flags = f_next } else link head d

tail_of-flags : (nfree head : ℕ) (d : Desc) → (tail_of nfree head d).flags ≡ f_next
unfolding tail_of
tail_of-flags nfree head d = ground arith

tail_of-flag : (nfree head : ℕ) (d : Desc) → bit_and (tail_of nfree head d).flags f_next ≢ 0
tail_of-flag nfree head d = rw (tail_of-flags nfree head d) (λ e. omega arith)

tail_of-link : (nfree head : ℕ) (d : Desc) → nfree ≢ 0 → tail_of nfree head d ≡ link head d
unfolding tail_of
tail_of-link nfree head d ne = ground arith

tail_of-Linked :
    (desc : ℕ → Desc) (l nfree head : ℕ) (d : Desc) (ds : List ℕ)
    → nfree ≡ length ds
    → All (λ e. e ≢ l) ds
    → Linked desc head ds
    → Linked (write_at desc l (tail_of nfree head d)) (tail_of nfree head d).next ds
tail_of-Linked desc l nfree head d [] e out h = tt
tail_of-Linked desc l nfree head d (f ∷ ds) e out h =
    subst (λ (t : Desc). Linked (write_at desc l t) t.next (f ∷ ds))
      (sym (tail_of-link nfree head d (omega arith)))
      (Linked-write_at desc l (link head d) head (f ∷ ds) out h)

-- A chain that is given back stands in front of the free descriptors.
pub free_desc-FreeList :
    (fuel n : ℕ) (cs ds : List ℕ) (vq : Virtq)
    → Chain vq.desc n cs
    → FreeList vq ds
    → Distinct (cs ++ ds)
    → length (cs ++ ds) < 2 ^ 16
    → length cs ≤ fuel
    → (vq' : Virtq) × (free_desc fuel n vq ≡ ok vq')
      × FreeList vq' (cs ++ ds)
      × (vq'.ring ≡ vq.ring)
      × (vq'.avail_idx ≡ vq.avail_idx)
unfolding free_desc tail_of
free_desc-FreeList fuel n [] ds vq h free apart few le = absurd h
free_desc-FreeList fuel n (c ∷ cs) ds vq h free apart few le =
    let room = length-append (c ∷ cs) ds in
    let count = free.count in
    let run = free_loop-last fuel vq n vq.nfree c cs h (omega arith) le in
    let d = vq.desc (last c cs) in
    let tail = tail_of vq.nfree vq.free_head d in
    (
      record vq {
        desc = write_at vq.desc (last c cs) tail;
        free_head = n;
        nfree = vq.nfree + length (c ∷ cs);
      },
      rw run refl,
      record {
        count = omega (arith, room);
        linked = join vq.desc tail n c cs ds h apart (tail_of-flag vq.nfree vq.free_head d) (
            tail_of-Linked vq.desc (last c cs) vq.nfree vq.free_head d ds free.count
              (not-last c cs ds apart) free.linked);
        distinct = apart;
      },
      refl,
      refl,
    )
