-- ===== src/Vm/Layout.antt =====
-- The whole memory of a new guest: below the image, the image, and above it.
use mvmm.Base.{
  ℕ, ◌+◌, ◌-◌, ◌*◌, ◌/◌, ◌%◌, ◌^◌, ◌≤◌, ◌≡◌, inr, bit_and, ◌==◌, List, length, ok, arith, refl, sym,
  ap, ◌∙◌, subst,
}
use mvmm.Kalloc.{Pmem, page_size}
use mvmm.Mm.{pte_af}
use mvmm.Mm.Tables.{Labels, entry}
use mvmm.Mm.Walk.{IsSpace}
use mvmm.Mm.Range.{page_at}
use mvmm.Vm.{Guest, rounds, ram_pages, image_pages, map_memory}
use mvmm.Vm.Grown.{Unused, Grown}
use mvmm.Vm.Ram.{Zeroed, ram_pages-Grown}
use mvmm.Vm.Image.{Loaded, IsImage, IsImage-kept, image_pages-Grown}
use mvmm.Vm.Ranges.{GuestMemory, Unused-kept, three_ranges}

-- What `map_memory` asks of the configuration and the pool.
pub record IsRoom (entrypoint nallocate : ℕ) (guest : Guest) (ps : List ℕ) : Type 0 where
  pub aligned : entrypoint % page_size ≡ 0
  pub whole : nallocate % page_size ≡ 0
  pub below : 0x40080000 ≤ entrypoint
  pub fits : guest.size + 0x80000 ≤ nallocate
  pub low : entrypoint + nallocate ≤ 2 ^ 48
  pub enough : 4 * (nallocate / page_size) ≤ length ps

map_memory-ranges :
    (me vttbr entrypoint nallocate ni nh p : ℕ) (guest : Guest) (s s1 s2 s3 : Pmem)
    → rounds 0 guest.size ≡ ni
    → ni * page_size ≡ p
    → rounds p ((nallocate + 2 ^ 64 - 0x80000) % 2 ^ 64) ≡ nh
    → ram_pages me 128 vttbr 0x40000000 0 s ≡ ok s1
    → image_pages me ni vttbr entrypoint guest 0 s1 ≡ ok s2
    → ram_pages me nh vttbr entrypoint p s2 ≡ ok s3
    → map_memory me vttbr entrypoint nallocate guest s ≡ ok s3
unfolding map_memory
map_memory-ranges me vttbr entrypoint nallocate ni nh p guest s s1 s2 s3 e e' e'' ran1 ran2 ran3 =
    rw (e, e', e'', ran1, ran2) ran3

-- The call returns, and its memory is as `GuestMemory` says: `total` pages, `ni` of them for the image.
abbrev pub AllMapped : (ℕ → ℕ) → ℕ → ℕ → ℕ → ℕ → ℕ → ℕ → Guest → Pmem → Type 0
AllMapped image total ni me root entrypoint nallocate guest s =
    (s' : Pmem) × (lab' : Labels) × (ps' low img high : List ℕ) × (map_memory me root entrypoint
        nallocate guest s
      ≡ ok s')
    × (length low ≡ 128)
    × (length img ≡ ni)
    × (length low + (length img + length high) ≡ total)
    × GuestMemory image lab' root ps' low img high entrypoint (entrypoint + ni * page_size)
        guest.size s'

module _ (image : ℕ → ℕ) (me root entrypoint nallocate total ni nh p : ℕ) (guest : Guest)
    (image_rounds : rounds 0 guest.size ≡ ni) (image_end : ni * page_size ≡ p)
    (rest_rounds : rounds p ((nallocate + 2 ^ 64 - 0x80000) % 2 ^ 64) ≡ nh)
    (sum : 128 + (ni + nh) ≡ total) (al : entrypoint % page_size ≡ 0)
    (below : 0x40080000 ≤ entrypoint) (low48 : entrypoint + (ni + nh) * page_size ≤ 2 ^ 48) where
  above_image :
      (lab lab1 lab2 : Labels) (ps ps1 ps2 low img : List ℕ) (s s1 s2 : Pmem)
      → 4 * total ≤ length ps
      → ram_pages me 128 root 0x40000000 0 s ≡ ok s1
      → image_pages me ni root entrypoint guest 0 s1 ≡ ok s2
      → length low ≡ 128
      → length img ≡ ni
      → Grown Zeroed 0 lab lab1 root ps ps1 low 0x40000000 s s1
      → Grown (Loaded image guest.size) 0 lab1 lab2 root ps1 ps2 img entrypoint s1 s2
      → Unused s2.mem root (entrypoint + p) nh
      → AllMapped image total ni me root entrypoint nallocate guest s
  above_image lab lab1 lab2 ps ps1 ps2 low img s s1 s2 enough ran1 ran2 len1 len2 g1 g2 free =
      let room1 = g1.room in
      let room2 = g2.room in
      let al' : (entrypoint + p) % page_size ≡ 0 = omega arith in
      let (s3, lab3, ps3, high, ran3, len3, g3) =
        ram_pages-Grown 0 me root nh entrypoint p (entrypoint + p) lab2 ps2 s2 refl g2.space
          (omega arith) al' (omega arith) free in
      (
        s3,
        lab3,
        ps3,
        low,
        img,
        high,
        map_memory-ranges me root entrypoint nallocate ni nh p guest s s1 s2 s3 image_rounds
            image_end rest_rounds ran1 ran2 ran3,
        len1,
        len2,
        omega arith,
        subst
            (λ (a : ℕ).
              GuestMemory image lab3 root ps3 low img high entrypoint (entrypoint + a) guest.size
                s3)
            (sym image_end)
            (three_ranges 128 ni nh len1 len2 len3 al al' (omega arith) (omega arith) (omega arith)
              g1 g2 g3),
      )

  from_image :
      (lab lab1 : Labels) (ps ps1 low : List ℕ) (s s1 : Pmem)
      → 4 * total ≤ length ps
      → ram_pages me 128 root 0x40000000 0 s ≡ ok s1
      → length low ≡ 128
      → Grown Zeroed 0 lab lab1 root ps ps1 low 0x40000000 s s1
      → Unused s1.mem root entrypoint (ni + nh)
      → IsImage image lab1 ps1 guest s1.mem
      → AllMapped image total ni me root entrypoint nallocate guest s
  from_image lab lab1 ps ps1 low s s1 enough ran1 len1 g1 free h =
      let room1 = g1.room in
      let (s2, lab2, ps2, img, ran2, len2, g2) =
        image_pages-Grown image 0 me root ni entrypoint 0 entrypoint guest lab1 ps1 s1 refl
          (omega arith) g1.space (omega arith) al (omega arith) (λ k lt. free k (omega arith)) h in
      above_image lab lab1 lab2 ps ps1 ps2 low img s s1 s2 enough ran1 ran2 len1 len2 g1 g2 (
        Unused-kept g2 (entrypoint + p) nh ni len2 (omega arith) al (omega arith) (omega arith)
          (inr (omega arith))
          (λ k lt.
            ap (λ (x : ℕ). bit_and (entry s1.mem root x) pte_af == 0)
              (let at : page_at (entrypoint + p) k ≡ page_at entrypoint (ni + k) = omega arith in
                at)
            ∙ free (ni + k) (omega arith)))

  from_low :
      (lab : Labels) (ps : List ℕ) (s : Pmem)
      → 4 * total ≤ length ps
      → IsSpace lab root s ps
      → Unused s.mem root 0x40000000 128
      → Unused s.mem root entrypoint (ni + nh)
      → IsImage image lab ps guest s.mem
      → AllMapped image total ni me root entrypoint nallocate guest s
  from_low lab ps s enough space free_low free h =
      let (s1, lab1, ps1, low, ran1, len1, g1) =
        ram_pages-Grown 0 me root 128 0x40000000 0 0x40000000 lab ps s (omega arith) space
          (omega arith) (omega arith) (omega arith) free_low in
      from_image lab lab1 ps ps1 low s s1 enough ran1 len1 g1
        (Unused-kept g1 entrypoint (ni + nh) 128 len1 al (omega arith) (omega arith) (omega arith)
          (inr (omega arith)) free)
        (IsImage-kept image guest s.mem s1.mem g1.data_kept h)

-- Over well-formed tables without a page of the guest's ranges in use, with four free pages for each of
-- its pages, an image that fits, in pages that are no tables and not free, and the entry point aligned
-- and above the first 512 KB, the loops of `create_vm` give the guest all of its memory: 512 KB of cleared
-- pages at 0x40000000, the image at the entry point with zeros after its end, and cleared pages up to
-- `nallocate` in all. Each is a page of its own, different from all others and no table or free page.
pub map_memory-GuestMemory :
    (image : ℕ → ℕ) (me root entrypoint nallocate : ℕ) (guest : Guest) (lab : Labels) (ps : List ℕ)
    (s : Pmem)
    → IsSpace lab root s ps
    → IsRoom entrypoint nallocate guest ps
    → IsImage image lab ps guest s.mem
    → Unused s.mem root 0x40000000 128
    → Unused s.mem root entrypoint (nallocate / page_size - 128)
    → AllMapped image
        (nallocate / page_size)
        (rounds 0 guest.size)
        me
        root
        entrypoint
        nallocate
        guest
        s
map_memory-GuestMemory image me root entrypoint nallocate guest lab ps s space r h free_low free =
    let aligned = r.aligned in
    let whole = r.whole in
    let below = r.below in
    let fits = r.fits in
    let low = r.low in
    let ni : ℕ = rounds 0 guest.size in
    let nh : ℕ = nallocate / page_size - 128 - ni in
    from_low image me root entrypoint nallocate (nallocate / page_size) ni nh (ni * page_size) guest
      refl refl (omega arith) (omega arith) aligned below (omega arith) lab ps s r.enough space
      free_low (λ k lt. free k (omega arith)) h
