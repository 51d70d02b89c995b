-- ===== src/Mmio.antt =====
-- src/mmio.c and include/mmio.h: the regions of guest addresses that are emulated, and the dispatch of
-- an access to the handlers of its region.
pub mod Dispatch
pub mod Register
use mvmm.Base.{
  ℕ, zero, suc, ◌+◌, ◌-◌, ◌%◌, ◌^◌, ◌==◌, leb, ltb, ◌&&◌, if◌then◌else◌, Bool, List, [], ◌∷◌,
  Option, none, some, Outcome, ok, panic, fault, spin, ◌>>=◌, get_elem?,
}
use mvmm.Spinlock.{Spinlock, acquire, release}

-- `struct mmio_info`, over the state `S` that the handlers act on and their results `R`. A handler is
-- called with the offset in the region, and with the value to write or the number of the register to
-- read into, `none` for a null pointer.
pub record Info (S R : Type 0) : Type 0 where
  pub next : Option ℕ
  pub base : ℕ
  pub size : ℕ
  pub read : Option (ℕ → Option ℕ → S → R)
  pub write : Option (ℕ → ℕ → S → R)

-- `mmio_infos` with its lock, and the `pmap` and the lock of the virtual machine. A pointer is a place
-- in `mmio_infos`.
pub record Mmio (S R : Type 0) : Type 0 where
  pub infos : List (Info S R)
  pub mi_lock : Spinlock
  pub pmap : Option ℕ
  pub vm_lock : Spinlock

module _ {S R : Type 0} where
  unfoldable pub find_slot : ℕ → List (Info S R) → Option ℕ
  find_slot i [] = none
  find_slot i (m ∷ ms) = if m.size == 0 then some i else find_slot (i + 1) ms

  unfoldable pub write_slot : ℕ → (Info S R → Info S R) → List (Info S R) → List (Info S R)
  write_slot n f [] = []
  write_slot zero f (m ∷ ms) = f m ∷ ms
  write_slot (suc n) f (m ∷ ms) = m ∷ write_slot n f ms

  -- `m->size = 1; m->next = prev;`
  abbrev pub claim_slot : Option ℕ → Info S R → Info S R
  claim_slot prev m = record m { size = 1; next = prev }

  unfoldable pub alloc_mmio_info : ℕ → Option ℕ → Mmio S R → Outcome (ℕ × Mmio S R)
  alloc_mmio_info me prev s = do
    l ← acquire me s.mi_lock
    l' ← release me l
    elim (find_slot 0 s.infos) [
      | none ↦ panic
      | some n ↦ ok (n, record s { infos = write_slot n (claim_slot prev) s.infos; mi_lock = l' })
    ]

  abbrev pub set_slot :
      ℕ → ℕ → Option (ℕ → Option ℕ → S → R) → Option (ℕ → ℕ → S → R) → Info S R → Info S R
  set_slot ipa size read write m = record m { base = ipa; size = size; read = read; write = write }

  -- `none` is the result -1.
  unfoldable pub mmio_reg_handler :
      ℕ
      → ℕ
      → ℕ
      → Option (ℕ → Option ℕ → S → R)
      → Option (ℕ → ℕ → S → R)
      → Mmio S R
      → Outcome (Option (Mmio S R))
  mmio_reg_handler me ipa size read write s = if size == 0 then ok none else (do
    l ← acquire me s.vm_lock
    (n, s1) ← alloc_mmio_info me s.pmap s
    l' ← release me l
    ok (
        some (record s1 {
          infos = write_slot n (set_slot ipa size read write) s1.infos;
          pmap = some n;
          vm_lock = l';
        })))

  -- `m->base <= ipa && ipa < m->base + m->size`
  abbrev pub covers : Info S R → ℕ → Bool
  covers m ipa = leb m.base ipa && ltb ipa ((m.base + m.size) % 2 ^ 64)

  -- The call of a handler of the region, `fail` for -1; a write without a write handler goes to the read
  -- handler.
  unfoldable pub call_handler : R → Info S R → Bool → ℕ → Option ℕ → ℕ → S → R
  call_handler fail m wnr offset reg val st = elim (if wnr then m.write else none) [
    | some w ↦ w offset val st
    | none ↦ elim m.read [ some r ↦ r offset reg st | none ↦ fail ]
  ]

  -- The loop over the list, with as many rounds as the fuel allows.
  unfoldable pub walk_infos :
      ℕ → R → List (Info S R) → Option ℕ → Bool → ℕ → Option ℕ → ℕ → S → Outcome R
  walk_infos fuel fail infos none wnr ipa reg val st = ok fail
  walk_infos zero fail infos (some i) wnr ipa reg val st = spin
  walk_infos (suc fuel) fail infos (some i) wnr ipa reg val st = elim (get_elem? infos i) [
    | none ↦ fault
    | some m ↦
        let rest = walk_infos fuel fail infos m.next wnr ipa reg val st in
        if covers m ipa then ok (call_handler fail m wnr (ipa - m.base) reg val st) else rest
  ]

  -- `x` are the registers of the guest, `rn` the one of the access.
  unfoldable pub mmio_emulate : ℕ → R → Mmio S R → (ℕ → ℕ) → ℕ → Bool → ℕ → S → Outcome R
  mmio_emulate fuel fail s x rn wnr ipa st =
      if rn == 31
      then walk_infos fuel fail s.infos s.pmap wnr ipa none 0 st
      else walk_infos fuel fail s.infos s.pmap wnr ipa (some rn) (x rn) st
