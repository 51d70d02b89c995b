-- ===== src/Mm/Copy/Back.antt =====
-- `copy_to_guest` and `copy_from_guest` one after the other.
use mvmm.Base.{ℕ, ◌+◌, ◌<◌, ◌≡◌, ok, ap, ◌∙◌, ◌%◌}
use mvmm.Memory.{Mem}
use mvmm.Kalloc.{Pmem, page_size}
use mvmm.Mm.{pte_pa, copy_to_guest, copy_from_guest}
use mvmm.Mm.Tables.{Labels}
use mvmm.Mm.Copy.{IsReachable, IsBuffer, SameTables}
use mvmm.Mm.Copy.Out.{OwnFrames, copy_to_guest-CopiedOut}
use mvmm.Mm.Copy.In.{copy_from_guest-CopiedIn}

-- What is reachable, and what is apart from it, as long as the tables say the same.
pub IsReachable-kept :
    (lab : Labels) (root ipa len : ℕ) (m m' : Mem)
    → IsReachable lab root ipa len m
    → SameTables lab root m m'
    → IsReachable lab root ipa len m'
IsReachable-kept lab root ipa len m m' r same = record {
  tables = same.tables;
  found = λ k lt. rw (same.finds (ipa + k)) (r.found k lt);
  present = λ k lt. rw (same.entries (ipa + k)) (r.present k lt);
  guest_page = λ k lt. rw (same.entries (ipa + k)) (r.guest_page k lt);
}

pub IsBuffer-kept :
    (lab : Labels) (root ipa len : ℕ) (m m' : Mem) (b : ℕ)
    → IsBuffer lab root ipa len m b
    → SameTables lab root m m'
    → IsBuffer lab root ipa len m' b
IsBuffer-kept lab root ipa len m m' b r same = record {
  not_table = r.not_table;
  apart = λ j k ltj ltk. rw (same.entries (ipa + k)) (r.apart j k ltj ltk);
}

-- What `copy_to_guest` wrote from one buffer, `copy_from_guest` reads back to another, byte for byte: both
-- calls succeed, for a mapped range with a physical page of its own for each guest page, and buffers
-- outside the tables and those pages.
pub copy_from_guest-copy_to_guest :
    (lab : Labels) (me root ipa source to len : ℕ) (s : Pmem)
    → IsReachable lab root ipa len s.mem
    → IsBuffer lab root ipa len s.mem source
    → IsBuffer lab root ipa len s.mem to
    → OwnFrames root ipa len s.mem
    → (m1 : Mem) × (m2 : Mem) × (copy_to_guest me root ipa source len s
        ≡ ok (record s { mem = m1 }))
      × (copy_from_guest me root to ipa len (record s { mem = m1 }) ≡ ok (record s { mem = m2 }))
      × ((k : ℕ) → k < len → m2 (to + k) ≡ s.mem (source + k))
copy_from_guest-copy_to_guest lab me root ipa source to len s r src dst own =
    let (m1, ran1, out) = copy_to_guest-CopiedOut lab me root ipa source len s r src own in
    let (m2, ran2, back) =
      copy_from_guest-CopiedIn lab me root to ipa len (record s { mem = m1 })
        (IsReachable-kept lab root ipa len s.mem m1 r out.same)
        (IsBuffer-kept lab root ipa len s.mem m1 to dst out.same) in
    (
      m1,
      m2,
      ran1,
      ran2,
      λ k lt.
          back.copied k lt
          ∙ ap (λ (x : ℕ). m1 (pte_pa x + (ipa + k) % page_size)) (out.same.entries (ipa + k))
          ∙ out.copied k lt,
    )
