-- ===== src/Tests/Copies.antt =====
-- Copies of two bytes at the guest address 0xfff, in the pages at 0x8000 and 0xb000.
use mvmm.Base.{ℕ, zero, suc, ◌+◌, ◌<◌, ◌≤◌, ◌≡◌, ◌≢◌, ok, arith, refl}
use mvmm.Memory.{Mem, load}
use mvmm.Mm.{pidx, is_table, pte_pa, copy_to_guest, copy_from_guest}
use mvmm.Mm.Tables.{entry, entry_from, find}
use mvmm.Mm.Copy.{frame, IsReachable, IsBuffer}
use mvmm.Mm.Copy.Out.{OwnFrames, CopiedOut, copy_to_guest-CopiedOut}
use mvmm.Mm.Copy.Back.{copy_from_guest-copy_to_guest}
use mvmm.Tests.Tables.{path_label, path_mem, path_state, path_state-IsSpace}

pub below_two {ℓ} : (P : ℕ → Type ℓ) → P 0 → P 1 → (k : ℕ) → k < 2 → P k
below_two P a b zero lt = a
below_two P a b (suc zero) lt = b
below_two P a b (suc (suc k)) lt = absurd (omega arith)

pub crossing-IsReachable : IsReachable path_label 0x1000 0xfff 2 path_mem
unfolding find entry entry_from is_table pte_pa load pidx
crossing-IsReachable = record {
  tables = path_state-IsSpace.tables;
  found = below_two (λ k. find 3 0 path_mem 0x1000 (0xfff + k) ≢ 0) (omega arith) (omega arith);
  present =
      below_two (λ k. pte_pa (entry path_mem 0x1000 (0xfff + k)) ≢ 0) (omega arith) (omega arith);
  guest_page = below_two _ refl refl;
}

-- The two pages.
pub first_frame : frame path_mem 0x1000 (0xfff + 0) ≡ 0x8000
unfolding entry entry_from is_table pte_pa load pidx
first_frame = refl

pub second_frame : frame path_mem 0x1000 (0xfff + 1) ≡ 0xb000
unfolding entry entry_from is_table pte_pa load pidx
second_frame = refl

frame_low : (k : ℕ) → k < 2 → frame path_mem 0x1000 (0xfff + k) < 0x20000
frame_low =
    below_two (λ k. frame path_mem 0x1000 (0xfff + k) < 0x20000) (omega (arith, first_frame))
      (omega (arith, second_frame))

pub high-IsBuffer :
    (b : ℕ) → 0x20000 ≤ b → b < 0x30000 → IsBuffer path_label 0x1000 0xfff 2 path_mem b
high-IsBuffer b lo hi = record {
  not_table = λ j lt. ground arith;
  apart = λ j k ltj ltk e. omega (arith, frame_low k ltk);
}

pub crossing-OwnFrames : OwnFrames 0x1000 0xfff 2 path_mem
crossing-OwnFrames zero zero ltk ltl ne e = ne refl
crossing-OwnFrames zero (suc zero) ltk ltl ne e = omega (arith, first_frame, second_frame)
crossing-OwnFrames (suc zero) zero ltk ltl ne e = omega (arith, first_frame, second_frame)
crossing-OwnFrames (suc zero) (suc zero) ltk ltl ne e = ne refl
crossing-OwnFrames (suc (suc k)) l ltk ltl ne e = omega arith
crossing-OwnFrames zero (suc (suc l)) ltk ltl ne e = omega arith
crossing-OwnFrames (suc zero) (suc (suc l)) ltk ltl ne e = omega arith

copy_to_guest-CopiedOut_example :
    (m' : Mem) × (copy_to_guest 0 0x1000 0xfff 0x20000 2 path_state
      ≡ ok (record path_state { mem = m' }))
    × CopiedOut path_label 0x1000 0xfff 0x20000 2 path_mem m'
copy_to_guest-CopiedOut_example =
    copy_to_guest-CopiedOut path_label 0 0x1000 0xfff 0x20000 2 path_state crossing-IsReachable
      (high-IsBuffer 0x20000 (omega arith) (omega arith)) crossing-OwnFrames

copy_from_guest-copy_to_guest_example :
    (m1 : Mem) × (m2 : Mem) × (copy_to_guest 0 0x1000 0xfff 0x20000 2 path_state
      ≡ ok (record path_state { mem = m1 }))
    × (copy_from_guest 0 0x1000 0x20010 0xfff 2 (record path_state { mem = m1 })
        ≡ ok (record path_state { mem = m2 }))
    × ((k : ℕ) → k < 2 → m2 (0x20010 + k) ≡ path_mem (0x20000 + k))
copy_from_guest-copy_to_guest_example =
    copy_from_guest-copy_to_guest path_label 0 0x1000 0xfff 0x20000 0x20010 2 path_state
      crossing-IsReachable (high-IsBuffer 0x20000 (omega arith) (omega arith))
      (high-IsBuffer 0x20010 (omega arith) (omega arith)) crossing-OwnFrames
