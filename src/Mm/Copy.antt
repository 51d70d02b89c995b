-- ===== src/Mm/Copy.antt =====
-- Where the bytes of a guest lie in physical memory, and what a copy in the hypervisor leaves of it.
pub mod In
pub mod Out
pub mod Back
pub mod Space
use mvmm.Base.{
  ℕ, zero, suc, ◌+◌, ◌-◌, ◌*◌, ◌/◌, ◌%◌, ◌<◌, ◌≤◌, ◌≡◌, ◌≢◌, none, ok, inl, inr, Bool-cases, arith,
  ap, refl, sym, ◌∙◌, bit_and, ◌==◌, ==-false, ltb, if◌then◌else◌,
}
use mvmm.Base.Bits.{bit_and-mask}
use mvmm.Memory.{Mem, load64}
use mvmm.Memory.Laws.{load_ext}
use mvmm.CLib.{memcpy}
use mvmm.CLib.Block.{memmove_lem}
use mvmm.Kalloc.{Pmem, page_size}
use mvmm.Mm.{pidx, pte_pa, is_table, ipa2pa, chunk}
use mvmm.Mm.Entry.{pidx_lem, pte_pa_lem}
use mvmm.Mm.Tables.{Labels, slot, IsTables, entry, entry_from, find}
use mvmm.Mm.Map.{ipa2pa_lem}
use mvmm.Mm.Frame.{SameSlots, frame-IsTables, frame-entry_from}

-- The physical page of a guest address, and the address of its byte.
abbrev pub frame : Mem → ℕ → ℕ → ℕ
frame m root a = pte_pa (entry m root a)

abbrev pub place : Mem → ℕ → ℕ → ℕ
place m root a = frame m root a + a % page_size

abbrev pub page_of : ℕ → ℕ
page_of b = b / page_size * page_size

-- The guest addresses from `ipa` on are mapped, to pages that are no tables.
pub record IsReachable (lab : Labels) (root ipa len : ℕ) (m : Mem) : Type 0 where
  pub tables : IsTables lab root m
  pub found : (k : ℕ) → k < len → find 3 0 m root (ipa + k) ≢ 0
  pub present : (k : ℕ) → k < len → frame m root (ipa + k) ≢ 0
  pub guest_page : (k : ℕ) → k < len → lab (frame m root (ipa + k)) ≡ none

-- The bytes from `b` on lie neither in tables nor in the guest's pages of the range.
pub record IsBuffer (lab : Labels) (root ipa len : ℕ) (m : Mem) (b : ℕ) : Type 0 where
  pub not_table : (j : ℕ) → j < len → lab (page_of (b + j)) ≡ none
  pub apart : (j k : ℕ) → j < len → k < len → page_of (b + j) ≢ frame m root (ipa + k)

-- The tables and what they say are the same.
pub record SameTables (lab : Labels) (root : ℕ) (m m' : Mem) : Type 0 where
  pub tables : IsTables lab root m'
  pub entries : (va : ℕ) → entry m' root va ≡ entry m root va
  pub finds : (va : ℕ) → find 3 0 m' root va ≡ find 3 0 m root va

pub frame-aligned : (m : Mem) (root a : ℕ) → frame m root a % page_size ≡ 0
frame-aligned m root a = omega (arith, pte_pa_lem (entry m root a))

pub memcpy-inside : (m : Mem) (d s n j : ℕ) → j < n → memcpy m d s n (d + j) ≡ m (s + j)
unfolding memcpy
memcpy-inside m d s n j lt =
    let back : d + j - d ≡ j = omega arith in ground (arith, memmove_lem m d s n (d + j), back)

pub memcpy-outside :
    (m : Mem) (d s n b : ℕ) → ((j : ℕ) → j < n → b ≢ d + j) → memcpy m d s n b ≡ m b
unfolding memcpy
memcpy-outside m d s n b out = ground (arith, memmove_lem m d s n b, out (b - d))

-- A copy to bytes outside the tables keeps them.
pub memcpy-SameTables :
    (lab : Labels) (root : ℕ) (m : Mem) (d s n : ℕ)
    → IsTables lab root m
    → ((j : ℕ) → j < n → lab (page_of (d + j)) ≡ none)
    → SameTables lab root m (memcpy m d s n)
unfolding entry
memcpy-SameTables lab root m d s n tables off =
    let same : SameSlots lab m (memcpy m d s n) = λ q lq preq i at lt.
      let page = tables.page q lq preq at in
      let al = page.aligned in
      load_ext 8 m (memcpy m d s n) (slot q i) (λ b lo hi. memcpy-outside m d s n b (λ j ltj e.
        let here : page_of (d + j) ≡ q = omega arith in cc (off j ltj, ap lab here, at))) in
    record {
      tables = frame-IsTables (memcpy m d s n) tables same;
      entries =
          λ va. (frame-entry_from (memcpy m d s n) tables same 3 0 root 0 va refl tables.at_root).0;
      finds =
          λ va. (frame-entry_from (memcpy m d s n) tables same 3 0 root 0 va refl tables.at_root).1;
    }

-- The index depends on the page only.
pidx-page :
    (level va va' : ℕ)
    → level < 4
    → va / page_size ≡ va' / page_size
    → pidx level va ≡ pidx level va'
pidx-page zero va va' lt e = omega (arith, pidx_lem 0 va, pidx_lem 0 va')
pidx-page (suc zero) va va' lt e = omega (arith, pidx_lem 1 va, pidx_lem 1 va')
pidx-page (suc (suc zero)) va va' lt e = omega (arith, pidx_lem 2 va, pidx_lem 2 va')
pidx-page (suc (suc (suc zero))) va va' lt e = omega (arith, pidx_lem 3 va, pidx_lem 3 va')
pidx-page (suc (suc (suc (suc l)))) va va' lt e = absurd (omega arith)

entry_from-page :
    (left level : ℕ) (m : Mem) (t va va' : ℕ)
    → level + left ≡ 3
    → va / page_size ≡ va' / page_size
    → entry_from left level m t va ≡ entry_from left level m t va'
unfolding entry_from
entry_from-page zero level m t va va' h e = rw (pidx-page 3 va va' (omega arith) e)
entry_from-page (suc left) level m t va va' h e =
    rw (pidx-page level va va' (omega arith) e)
      (elim (Bool-cases (is_table (load64 m (slot t (pidx level va'))))) [
        | inl tab ↦ rw tab (
            entry_from-page left (suc level) m (pte_pa (load64 m (slot t (pidx level va')))) va va'
              (omega arith) e)
        | inr empty ↦ rw empty
      ])

-- Addresses of one page have one frame.
pub frame-page :
    (m : Mem) (root va va' : ℕ)
    → va / page_size ≡ va' / page_size
    → frame m root va ≡ frame m root va'
unfolding entry
frame-page m root va va' e = ap (λ (x : ℕ). pte_pa x) (entry_from-page 3 0 m root va va' refl e)

-- The bytes of one round lie beside each other.
pub place-chunk :
    (m : Mem) (root ipa len j : ℕ)
    → j < chunk ipa len
    → place m root (ipa + j) ≡ place m root ipa + j
place-chunk m root ipa len j lt =
    let same : (ipa + j) / page_size ≡ ipa / page_size = ground (arith, bit_and-mask 12 ipa) in
    let off : (ipa + j) % page_size ≡ ipa % page_size + j = ground (arith, bit_and-mask 12 ipa) in
    omega (arith, frame-page m root (ipa + j) ipa same, off)

-- What is left after a round is in other pages.
pub chunk-next :
    (ipa len n j k : ℕ)
    → chunk ipa len ≡ n
    → j < n
    → k < len - n
    → (ipa + j) / page_size ≢ (ipa + (n + k)) / page_size
chunk-next ipa len n j k e lt more = ground (arith, bit_and-mask 12 ipa)

pub chunk-bounds : (ipa len : ℕ) → len ≢ 0 → (chunk ipa len ≤ len) × (chunk ipa len ≢ 0)
chunk-bounds ipa len ne = ground (arith, bit_and-mask 12 ipa)

-- A mapped address translates to the place of its byte, which is not null.
pub ipa2pa-place :
    (me root ipa len : ℕ) (lab : Labels) (s : Pmem)
    → IsReachable lab root ipa len s.mem
    → len ≢ 0
    → (ipa2pa me root ipa s ≡ ok (place s.mem root ipa)) × (place s.mem root ipa ≢ 0)
ipa2pa-place me root ipa len lab s r ne =
    let here : ipa + 0 ≡ ipa = omega arith in
    let there : find 3 0 s.mem root ipa ≢ 0 = rw here at (r.found 0 (omega arith)) in
    let some_page : frame s.mem root ipa ≢ 0 = rw here at (r.present 0 (omega arith)) in
    (rw (ipa2pa_lem me root ipa lab s r.tables, ==-false there), omega arith)

-- What is left of the range.
pub IsReachable-rest :
    (lab : Labels) (root ipa len n : ℕ) (m m' : Mem)
    → IsReachable lab root ipa len m
    → SameTables lab root m m'
    → n ≤ len
    → IsReachable lab root (ipa + n) (len - n) m'
IsReachable-rest lab root ipa len n m m' r same le = record {
  tables = same.tables;
  found = λ k lt.
      let e : ipa + n + k ≡ ipa + (n + k) = omega arith in
      rw (same.finds (ipa + n + k), e) (r.found (n + k) (omega arith));
  present = λ k lt.
      let e : ipa + n + k ≡ ipa + (n + k) = omega arith in
      rw (same.entries (ipa + n + k), e) (r.present (n + k) (omega arith));
  guest_page = λ k lt.
      let e : ipa + n + k ≡ ipa + (n + k) = omega arith in
      rw (same.entries (ipa + n + k), e) (r.guest_page (n + k) (omega arith));
}

pub IsBuffer-rest :
    (lab : Labels) (root ipa len n : ℕ) (m m' : Mem) (b : ℕ)
    → IsBuffer lab root ipa len m b
    → SameTables lab root m m'
    → n ≤ len
    → IsBuffer lab root (ipa + n) (len - n) m' (b + n)
IsBuffer-rest lab root ipa len n m m' b r same le = record {
  not_table = λ j lt.
      let e : b + n + j ≡ b + (n + j) = omega arith in rw e (r.not_table (n + j) (omega arith));
  apart = λ j k ltj ltk.
      let e : ipa + n + k ≡ ipa + (n + k) = omega arith in
      let e' : b + n + j ≡ b + (n + j) = omega arith in
      rw (same.entries (ipa + n + k), e, e') (r.apart (n + j) (n + k) (omega arith) (omega arith));
}
