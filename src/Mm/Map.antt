-- ===== src/Mm/Map.antt =====
-- One page of `pagemap`, `pageunmap` and `ipa2pa`.
use mvmm.Base.{
  ℕ, ◌+◌, ◌%◌, ◌^◌, ◌<◌, ◌≤◌, ◌≡◌, ◌≢◌, refl, none, some, true, false, ◌==◌, bit_and, if◌then◌else◌,
  arith, inl, inr, Bool-cases, sym, ◌∙◌, ap, List, ◌∷◌, All, All-map, length, ok, panic, ne_of_==,
  ==-false,
}
use mvmm.Base.Bits.{bit_and-mask}
use mvmm.Memory.{load64, store64}
use mvmm.Memory.Laws.{load-store_self}
use mvmm.Kalloc.{Pmem, page_size}
use mvmm.Kalloc.Pool.{IsPage, Chain-frame, kfree-page}
use mvmm.Mm.{pidx, pte_pa, pte_af, page_entry, pagewalk, map_page, unmap_page, ipa2pa}
use mvmm.Mm.Entry.{pidx-lt, page_entry-lt, pte_pa_lem}
use mvmm.Mm.Tables.{Labels, prefix, page_number, slot, entry, find, IsTables}
use mvmm.Mm.Walk.{IsSpace, IsData, SamePage, walk-find, store-SameOutsidePage}
use mvmm.Mm.Grow.{walk-alloc}
use mvmm.Mm.Frame.{page-SameSlots, frame-IsTables, frame-entry_from, find-leaf}
use mvmm.Mm.Leaf.{find-entry_from, find-zero, leaf-IsTables, leaf-find, leaf-entry_from}

-- A write of `v` to the level-3 entry for `va` sets the descriptor of that page alone, and keeps the
-- tables, the pool and the pages of the guest.
record Written (lab : Labels) (root : ℕ) (ps : List ℕ) (va v : ℕ) (s s' : Pmem) : Type 0 where
  space : IsSpace lab root s' ps
  here : entry s'.mem root va ≡ v
  others :
      (va' : ℕ) → page_number va' ≢ page_number va → entry s'.mem root va' ≡ entry s.mem root va'
  data_kept : (q : ℕ) → IsData lab ps q → SamePage q s.mem s'.mem

leaf-Written :
    (lab : Labels) (root : ℕ) (ps : List ℕ) (t va v : ℕ) (s : Pmem)
    → IsSpace lab root s ps
    → lab t ≡ some (3, prefix 3 va)
    → find 3 0 s.mem root va ≡ slot t (pidx 3 va)
    → v < 2 ^ 64
    → Written lab root ps va v s (record s { mem = store64 s.mem (slot t (pidx 3 va)) v })
unfolding entry prefix
leaf-Written lab root ps t va v s space at found lt =
    let tp = space.tables.page t 3 (prefix 3 va) at in
    let tn = tp.ne_null in
    let off : All (λ q. q ≢ t) ps =
      All-map {P = λ q. lab q ≡ none} {Q = λ q. q ≢ t} (λ q e same. cc (ap lab same)) ps
        space.free in
    let same = store-SameOutsidePage s.mem t (pidx 3 va) v (pidx-lt 3 va) in
    record {
      space = record {
        tables = leaf-IsTables space.tables t va v at;
        pool = record {
          unlocked = space.pool.unlocked;
          chain = Chain-frame ps s.freelist same tp.aligned off space.pool.chain;
        };
        free = space.free;
      };
      here =
          find-entry_from 3 0 (store64 s.mem (slot t (pidx 3 va)) v) root va (slot t (pidx 3 va))
            (leaf-find space.tables t va v at 3 0 root 0 va refl space.tables.at_root ∙ found)
            (omega arith)
          ∙ load-store_self 8 s.mem (slot t (pidx 3 va)) v lt;
      others = λ va' ne.
          leaf-entry_from space.tables t va v at 3 0 root va' refl space.tables.at_root ne;
      data_kept = λ q d b lo hi.
          let da = d.aligned in
          let ta = tp.aligned in
          let free_q = d.not_table in
          let apart : q ≢ t = λ e. cc (ap lab e) in same b (omega arith);
    }

-- What mapping a page at `va` with the descriptor `v` leaves.
pub record MappedPage (lab lab' : Labels) (root : ℕ) (ps ps' : List ℕ) (va v : ℕ) (s s' : Pmem)
    : Type 0 where
  pub space : IsSpace lab' root s' ps'
  pub here : entry s'.mem root va ≡ v
  pub others :
      (va' : ℕ) → page_number va' ≢ page_number va → entry s'.mem root va' ≡ entry s.mem root va'
  pub room : length ps ≤ length ps' + 3
  pub data_kept : (q : ℕ) → IsData lab ps q → IsData lab' ps' q × SamePage q s.mem s'.mem

-- Over well-formed tables, with three free pages and attributes below 2^64, a round of `pagemap` at an
-- address whose descriptor has no access flag succeeds: the descriptor becomes the one for `pa` and
-- `attr`, no other address changes its descriptor, at most three pages are used, the tables stay
-- well formed and no page of the guest changes.
pub map_page-MappedPage :
    (me root va pa attr : ℕ) (lab : Labels) (ps : List ℕ) (s : Pmem)
    → IsSpace lab root s ps
    → 3 ≤ length ps
    → attr < 2 ^ 64
    → (bit_and (entry s.mem root va) pte_af == 0) ≡ true
    → (s' : Pmem) × (lab' : Labels) × (ps' : List ℕ) × (map_page me root va pa attr s ≡ ok s')
      × MappedPage lab lab' root ps ps' va (page_entry pa attr) s s'
unfolding map_page pagewalk prefix entry
map_page-MappedPage me root va pa attr lab ps s space enough lt unused =
    let (r, s1, lab', ps', ran, w) =
      walk-alloc me 3 0 root va lab root ps s space space.tables.at_root refl enough in
    let (t, at, addr) = w.leaf in
    let v : ℕ = page_entry pa attr in
    let tp = w.space.tables.page t 3 (prefix 3 va) at in
    let tn = tp.ne_null in
    let old : load64 s1.mem r ≡ entry s.mem root va =
      sym (find-entry_from 3 0 s1.mem root va r w.found (omega arith)) ∙ w.same va in
    let written =
      leaf-Written lab' root ps' t va v s1 w.space at (w.found ∙ addr) (page_entry-lt pa attr lt) in
    (
      record s1 { mem = store64 s1.mem (slot t (pidx 3 va)) v },
      lab',
      ps',
      rw (ran, old, unused) (ap (λ x. ok (record s1 { mem = store64 s1.mem x v })) addr),
      record {
        space = written.space;
        here = written.here;
        others = λ va' ne. written.others va' ne ∙ w.same va';
        room = w.room;
        data_kept = λ q d.
            let (d', same) = w.data_kept q d in
            (d', λ b lo hi. written.data_kept q d' b lo hi ∙ same b lo hi);
      },
    )

-- Over well-formed tables, with three free pages, a round of `pagemap` at an address whose descriptor
-- has the access flag panics.
map_page-used :
    (me root va pa attr : ℕ) (lab : Labels) (ps : List ℕ) (s : Pmem)
    → IsSpace lab root s ps
    → 3 ≤ length ps
    → (bit_and (entry s.mem root va) pte_af == 0) ≡ false
    → map_page me root va pa attr s ≡ panic
unfolding map_page pagewalk prefix entry
map_page-used me root va pa attr lab ps s space enough used =
    let (r, s1, lab', ps', ran, w) =
      walk-alloc me 3 0 root va lab root ps s space space.tables.at_root refl enough in
    let (t, at, addr) = w.leaf in
    let tp = w.space.tables.page t 3 (prefix 3 va) at in
    let tn = tp.ne_null in
    let old : load64 s1.mem r ≡ entry s.mem root va =
      sym (find-entry_from 3 0 s1.mem root va r w.found (omega arith)) ∙ w.same va in
    rw (ran, old, used)

-- Over well-formed tables `ipa2pa` is the address in the descriptor and the offset in the page. Where a level-3 table is there
-- but the page is not mapped it is the bare offset, which is the null of its callers only at offset 0.
pub ipa2pa_lem :
    (me root ipa : ℕ) (lab : Labels) (s : Pmem)
    → IsTables lab root s.mem
    → ipa2pa me root ipa s
      ≡ ok (
          if find 3 0 s.mem root ipa == 0
          then 0
          else pte_pa (entry s.mem root ipa) + ipa % page_size)
unfolding ipa2pa pagewalk entry
ipa2pa_lem me root ipa lab s tables =
    rw (walk-find me 3 0 root ipa s, bit_and-mask 12 ipa)
      (elim (Bool-cases (find 3 0 s.mem root ipa == 0)) [
        | inl null ↦ rw null
        | inr there ↦ rw (
          there,
          find-entry_from 3 0 s.mem root ipa (find 3 0 s.mem root ipa) refl
              (ne_of_== (find 3 0 s.mem root ipa) 0 there),
        )
      ])

-- Over well-formed tables, an address whose descriptor leads to the page `p`, neither a table nor free,
-- is unmapped by a round of `pageunmap`: `p` goes to the pool, the descriptor becomes 0, and no other address changes its descriptor.
pub unmap_page-entry :
    (me root va p : ℕ) (lab : Labels) (ps : List ℕ) (s : Pmem)
    → IsSpace lab root s ps
    → IsPage p
    → IsData lab ps p
    → pte_pa (entry s.mem root va) ≡ p
    → (s' : Pmem) × (unmap_page me root va s ≡ ok s')
      × IsSpace lab root s' (p ∷ ps)
      × (entry s'.mem root va ≡ 0)
      × ((va' : ℕ)
          → page_number va' ≢ page_number va
          → entry s'.mem root va' ≡ entry s.mem root va')
unfolding unmap_page pagewalk prefix entry
unmap_page-entry me root va p lab ps s space page d e =
    let r : ℕ = find 3 0 s.mem root va in
    let pn = page.ne_null in
    let some_entry : entry s.mem root va ≢ 0 = λ z. pn (sym e ∙ ap pte_pa z ∙ pte_pa_lem 0) in
    let there : r ≢ 0 = λ z.
      some_entry
        (find-zero lab root 3 0 s.mem root 0 va space.tables space.tables.at_root refl z) in
    let value : load64 s.mem r ≡ entry s.mem root va =
      sym (find-entry_from 3 0 s.mem root va r refl there) in
    let (t, at, addr) =
      find-leaf lab root 3 0 s.mem root va space.tables space.tables.at_root refl there in
    let (s1, freed, pool1, same) =
      kfree-page me p ps page (All-map (λ q ne eq. ne (sym eq)) ps d.not_free) space.pool in
    let slots = page-SameSlots space.tables p page.aligned d.not_table same in
    let space1 : IsSpace lab root s1 (p ∷ ps) = record {
      tables = frame-IsTables s1.mem space.tables slots;
      pool = pool1;
      free = (d.not_table, space.free);
    } in
    let kept = λ (va' : ℕ).
      frame-entry_from s1.mem space.tables slots 3 0 root 0 va' refl space.tables.at_root in
    let written =
      leaf-Written lab root (p ∷ ps) t va 0 s1 space1 at ((kept va).1 ∙ addr) (omega arith) in
    (
      record s1 { mem = store64 s1.mem (slot t (pidx 3 va)) 0 },
      rw (walk-find me 3 0 root va s, ==-false there, value, ==-false some_entry, e, freed)
          (ap (λ x. ok (record s1 { mem = store64 s1.mem x 0 })) addr),
      written.space,
      written.here,
      λ va' ne. written.others va' ne ∙ (kept va').0,
    )
