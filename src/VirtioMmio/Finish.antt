-- ===== src/VirtioMmio/Finish.antt =====
-- The end of a request: what the device wrote goes back to the guest's own pages.
use mvmm.Base.{
  ℕ, suc, ◌+◌, ◌%◌, ◌<◌, ◌≤◌, ◌≡◌, ◌≢◌, ◌==◌, true, false, List, ◌∷◌, All, All-map, ok, arith, refl,
  sym, ap, ◌∙◌, ltb-true, ==-true, write_at,
}
use mvmm.Kalloc.{page_size}
use mvmm.Kalloc.Pool.{IsPage, kfree-page}
use mvmm.Mm.{pte_pa}
use mvmm.Mm.Tables.{Labels}
use mvmm.Mm.Walk.{IsSpace, IsData}
use mvmm.Mm.Copy.{IsReachable, SameTables, place, frame-aligned}
use mvmm.Mm.Copy.Out.{OwnFrames, copy_to_guest-CopiedOut}
use mvmm.Mm.Copy.Space.{ClearOf, page-SameTables, page-IsBuffer, kept-IsSpace, guest-pages}
use mvmm.VirtioMmio.{VtDesc, Vtdev, num, change_desc, finish_chain}

-- Descriptor `id`, the last of its chain, stands for a buffer that the device has in the page `real`.
pub record IsBounced (lab : Labels) (root id real : ℕ) (ps : List ℕ) (d : Vtdev) : Type 0 where
  pub in_ring : id < num
  pub across : (d.ring id).across_page ≡ true
  pub last : (d.ring id).has_next ≡ false
  pub at_real : (d.ring id).real_addr ≡ real
  pub short : (d.ring id).len ≤ page_size
  pub space : IsSpace lab root d.pmem ps
  pub page : IsPage real
  pub real_data : IsData lab ps real
  pub reach : IsReachable lab root (d.ring id).ipa (d.ring id).len d.pmem.mem
  pub own : OwnFrames root (d.ring id).ipa (d.ring id).len d.pmem.mem
  pub clear : ClearOf root (d.ring id).ipa (d.ring id).len d.pmem.mem real
  pub not_free : All (λ p. ClearOf root (d.ring id).ipa (d.ring id).len d.pmem.mem p) ps

-- The guest has the bytes, and the page is free again.
pub record Returned (lab : Labels) (root id real : ℕ) (ps : List ℕ) (d d' : Vtdev) : Type 0 where
  pub contents :
      (k : ℕ)
      → k < (d.ring id).len
      → d'.pmem.mem (place d'.pmem.mem root ((d.ring id).ipa + k)) ≡ d.pmem.mem (real + k)
  pub here : d'.ring id ≡ record (d.ring id) { across_page = false }
  pub others : (k : ℕ) → k ≢ id → d'.ring k ≡ d.ring k
  pub space : IsSpace lab root d'.pmem (real ∷ ps)

-- For a request of one descriptor (the flag for a next one is not set), which is one of the NUM that the
-- code keeps, was given a page of the device, for a length of at most that page, and whose buffer in the
-- guest is in mapped pages, each of its own, none of them free, a table or the device's page, the end of
-- the request copies what the device wrote to the guest's own pages, byte for byte over all pages of the buffer, gives the page back to the pool, and marks
-- the descriptor; the other entries and the guest's tables stay as they are.
pub finish_chain-Returned :
    (lab : Labels) (me root virtqueue fuel id real : ℕ) (ps : List ℕ) (d : Vtdev)
    → IsBounced lab root id real ps d
    → (d' : Vtdev) × (finish_chain me root virtqueue (suc fuel) id d ≡ ok d')
      × Returned lab root id real ps d d'
unfolding finish_chain change_desc
finish_chain-Returned lab me root virtqueue fuel id real ps d h =
    let e : VtDesc = d.ring id in
    let (m1, ran1, c) =
      copy_to_guest-CopiedOut lab me root e.ipa real e.len d.pmem h.reach
        (page-IsBuffer lab root e.ipa e.len real d.pmem.mem h.real_data.aligned
          h.real_data.not_table h.short h.clear)
        h.own in
    let space1 : IsSpace lab root (record d.pmem { mem = m1 }) ps =
      kept-IsSpace lab root d.pmem m1 ps h.space c.same (
        guest-pages root e.ipa e.len d.pmem.mem m1 ps d.pmem.freelist h.not_free c.others
          h.space.pool.chain) in
    let (s2, ran2, pool2, same2) =
      kfree-page me real ps h.page (All-map (λ q ne eq. ne (sym eq)) ps h.real_data.not_free)
        space1.pool in
    let tables2 : SameTables lab root m1 s2.mem =
      page-SameTables lab root real m1 s2.mem c.same.tables h.real_data.aligned
        h.real_data.not_table same2 in
    let self : (id == id) ≡ true = ==-true refl in
    (
      record d { ring = write_at d.ring id (record e { across_page = false }); pmem = s2 },
      rw (ltb-true h.in_ring, h.across, h.at_real, ran1, ran2, h.last) refl,
      record {
        contents = λ k lt.
            let a : ℕ = e.ipa + k in
            let off = h.clear k lt in
            let al = h.real_data.aligned in
            ap (λ (x : ℕ). s2.mem (pte_pa x + a % page_size)) (tables2.entries a ∙ c.same.entries a)
            ∙ same2 (place d.pmem.mem root a) (omega (arith, frame-aligned d.pmem.mem root a))
            ∙ c.copied k lt;
        here = ground arith;
        others = λ k ne. ground arith;
        space = record {
          tables = tables2.tables;
          pool = pool2;
          free = (h.real_data.not_table, h.space.free);
        };
      },
    )
