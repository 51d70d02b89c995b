-- ===== src/Vm/Ranges.antt =====
-- Ranges of the guest's memory, and what is kept of one when another is added.
use mvmm.Base.{
  ℕ, suc, ◌+◌, ◌*◌, ◌%◌, ◌^◌, ◌<◌, ◌≤◌, ◌≡◌, ◌≢◌, ◌⊎◌, inl, bit_and, ◌==◌, List, [], ◌∷◌, ◌++◌,
  length, All, All-map, arith, refl, sym, ap, ◌∙◌,
}
use mvmm.Memory.{Mem}
use mvmm.Kalloc.{Pmem, page_size}
use mvmm.Mm.{pte_af}
use mvmm.Mm.Tables.{Labels, page_number, entry}
use mvmm.Mm.Walk.{IsSpace, IsData, SamePage}
use mvmm.Mm.Leaf.{page_number_lem}
use mvmm.Mm.Range.{page_at, shift, start}
use mvmm.Vm.Grown.{Content, Stable, Distinct, Mapped, Filled, Unused, Grown}
use mvmm.Vm.Ram.{Zeroed, Zeroed-Stable}
use mvmm.Vm.Image.{Loaded, Loaded-Stable}

-- One range ends before the other starts.
abbrev pub Apart : ℕ → ℕ → ℕ → ℕ → Type 0
Apart va n va' n' = (va + n * page_size ≤ va') ⊎ (va' + n' * page_size ≤ va)

-- The pages of two ranges that are apart have different numbers.
page_number-ne :
    (va n va' n' k l : ℕ)
    → va % page_size ≡ 0
    → va' % page_size ≡ 0
    → va + n * page_size ≤ 2 ^ 48
    → va' + n' * page_size ≤ 2 ^ 48
    → Apart va n va' n'
    → k < n
    → l < n'
    → page_number (page_at va k) ≢ page_number (page_at va' l)
page_number-ne va n va' n' k l al al' low low' apart hk hl e =
    omega (arith, page_number_lem (page_at va k), page_number_lem (page_at va' l))

Mapped-kept :
    (m m' : Mem) (root va : ℕ) (pages : List ℕ)
    → ((k : ℕ) → k < length pages → entry m' root (page_at va k) ≡ entry m root (page_at va k))
    → Mapped m root va pages
    → Mapped m' root va pages
Mapped-kept m m' root va [] same h = tt
Mapped-kept m m' root va (p ∷ pages) same (here, rest) = (
  ap (λ (x : ℕ). entry m' root x) (start va)
      ∙ same 0 (omega arith)
      ∙ ap (λ (x : ℕ). entry m root x) (sym (start va))
      ∙ here,
  Mapped-kept m m' root (va + page_size) pages
      (λ k lt.
        ap (λ (x : ℕ). entry m' root x) (shift va k)
        ∙ same (suc k) (omega arith)
        ∙ ap (λ (x : ℕ). entry m root x) (sym (shift va k)))
      rest,
)

Filled-kept :
    (C : Content) (i : ℕ) (m m' : Mem) (pages : List ℕ)
    → Stable C
    → All (λ p. SamePage p m m') pages
    → Filled C i m pages
    → Filled C i m' pages
Filled-kept C i m m' [] stable same h = tt
Filled-kept C i m m' (p ∷ pages) stable (here, same) (c, h) =
    (stable i p m m' here c, Filled-kept C (suc i) m m' pages stable same h)

All-append : (P : ℕ → Type 0) (xs ys : List ℕ) → All P xs → All P ys → All P (xs ++ ys)
All-append P [] ys h k = k
All-append P (x ∷ xs) ys h k = (h.0, All-append P xs ys h.1 k)

-- Distinct pages followed by distinct ones that are none of them.
Distinct-append :
    (xs ys : List ℕ)
    → Distinct xs
    → Distinct ys
    → All (λ x. All (λ y. x ≢ y) ys) xs
    → Distinct (xs ++ ys)
Distinct-append [] ys h k apart = k
Distinct-append (x ∷ xs) ys h k apart = (
  All-append (λ q. q ≢ x) xs ys h.0
      (All-map {P = λ y. x ≢ y} {Q = λ y. y ≢ x} (λ y ne e. ne (sym e)) ys apart.0),
  Distinct-append xs ys h.1 k apart.1,
)

apart_both :
    (xs ys zs : List ℕ)
    → All (λ x. All (λ y. x ≢ y) ys) xs
    → All (λ x. All (λ y. x ≢ y) zs) xs
    → All (λ x. All (λ y. x ≢ y) (ys ++ zs)) xs
apart_both [] ys zs h k = tt
apart_both (x ∷ xs) ys zs h k = (All-append (λ y. x ≢ y) ys zs h.0 k.0, apart_both xs ys zs h.1 k.1)

-- The memory so far, of the ranges that are mapped, when another range is added.
module _ {C : Content} {i : ℕ} {lab lab' : Labels} {root : ℕ} {ps ps' new : List ℕ} {va : ℕ}
    {s s' : Pmem} (g : Grown C i lab lab' root ps ps' new va s s') where
  own-kept :
      (pages : List ℕ) → All (λ p. IsData lab ps p) pages → All (λ p. IsData lab' ps' p) pages
  own-kept pages h =
      All-map {P = λ p. IsData lab ps p} {Q = λ p. IsData lab' ps' p} (λ p d. (g.data_kept p d).0)
        pages h

  contents-kept :
      (pages : List ℕ) → All (λ p. IsData lab ps p) pages → All (λ p. SamePage p s.mem s'.mem) pages
  contents-kept pages h =
      All-map {P = λ p. IsData lab ps p} {Q = λ p. SamePage p s.mem s'.mem}
        (λ p d. (g.data_kept p d).1) pages h

  new_apart :
      (pages : List ℕ) → All (λ p. IsData lab ps p) pages → All (λ x. All (λ y. x ≢ y) new) pages
  new_apart pages h =
      All-map {P = λ p. IsData lab ps p} {Q = λ x. All (λ y. x ≢ y) new} (λ p d. g.apart p d) pages
        h

  module _ (base n count : ℕ) (len : length new ≡ count) (al : base % page_size ≡ 0)
      (al' : va % page_size ≡ 0) (low : base + n * page_size ≤ 2 ^ 48)
      (low' : va + count * page_size ≤ 2 ^ 48) (apart : Apart base n va count) where
    pub entry-kept :
        (k : ℕ) → k < n → entry s'.mem root (page_at base k) ≡ entry s.mem root (page_at base k)
    entry-kept k lt =
        g.others (page_at base k)
          (λ l hl. page_number-ne base n va count k l al al' low low' apart lt (omega arith))

    pub Unused-kept : Unused s.mem root base n → Unused s'.mem root base n
    Unused-kept h k lt = ap (λ (x : ℕ). bit_and x pte_af == 0) (entry-kept k lt) ∙ h k lt

-- The guest's memory: every page is mapped to a page of its own, which is no table and not free.
pub record GuestMemory (image : ℕ → ℕ) (lab : Labels) (root : ℕ) (ps low img high : List ℕ)
    (entrypoint above size : ℕ) (s : Pmem) : Type 0 where
  pub space : IsSpace lab root s ps
  pub at_low : Mapped s.mem root 0x40000000 low
  pub at_image : Mapped s.mem root entrypoint img
  pub at_high : Mapped s.mem root above high
  pub zero_low : Filled Zeroed 0 s.mem low
  pub loaded : Filled (Loaded image size) 0 s.mem img
  pub zero_high : Filled Zeroed 0 s.mem high
  pub own : All (λ p. IsData lab ps p) (low ++ (img ++ high))
  pub distinct : Distinct (low ++ (img ++ high))

-- Three ranges, one after the other.
module _ {image : ℕ → ℕ} {size : ℕ} {lab lab1 lab2 lab3 : Labels} {root : ℕ}
    {ps ps1 ps2 ps3 low img high : List ℕ} {entrypoint above : ℕ} {s s1 s2 s3 : Pmem} (nl ni nh : ℕ)
    (len_low : length low ≡ nl) (len_img : length img ≡ ni) (len_high : length high ≡ nh)
    (al : entrypoint % page_size ≡ 0) (al' : above % page_size ≡ 0)
    (below : 0x40000000 + nl * page_size ≤ entrypoint) (next : entrypoint + ni * page_size ≤ above)
    (room : above + nh * page_size ≤ 2 ^ 48)
    (g1 : Grown Zeroed 0 lab lab1 root ps ps1 low 0x40000000 s s1)
    (g2 : Grown (Loaded image size) 0 lab1 lab2 root ps1 ps2 img entrypoint s1 s2)
    (g3 : Grown Zeroed 0 lab2 lab3 root ps2 ps3 high above s2 s3) where
  pub three_ranges : GuestMemory image lab3 root ps3 low img high entrypoint above size s3
  three_ranges =
      let low2 = own-kept g2 low g1.own in
      let low_img : Distinct (img ++ high) =
        Distinct-append img high g2.distinct g3.distinct (new_apart g3 img g2.own) in
      record {
        space = g3.space;
        at_low =
            Mapped-kept s2.mem s3.mem root 0x40000000 low
              (λ k lt.
                entry-kept g3 0x40000000 nl nh len_high refl al' (omega arith) room
                  (inl (omega arith)) k (omega arith))
              (Mapped-kept s1.mem s2.mem root 0x40000000 low
                (λ k lt.
                  entry-kept g2 0x40000000 nl ni len_img refl al (omega arith) (omega arith)
                    (inl below) k (omega arith))
                g1.mapped);
        at_image =
            Mapped-kept s2.mem s3.mem root entrypoint img
              (λ k lt.
                entry-kept g3 entrypoint ni nh len_high al al' (omega arith) room (inl next) k
                  (omega arith))
              g2.mapped;
        at_high = g3.mapped;
        zero_low =
            Filled-kept Zeroed 0 s2.mem s3.mem low Zeroed-Stable (contents-kept g3 low low2) (
              Filled-kept Zeroed 0 s1.mem s2.mem low Zeroed-Stable (contents-kept g2 low g1.own)
                g1.filled);
        loaded =
            Filled-kept (Loaded image size) 0 s2.mem s3.mem img (Loaded-Stable image size)
              (contents-kept g3 img g2.own) g2.filled;
        zero_high = g3.filled;
        own =
            All-append (λ p. IsData lab3 ps3 p) low (img ++ high) (own-kept g3 low low2)
              (All-append (λ p. IsData lab3 ps3 p) img high (own-kept g3 img g2.own) g3.own);
        distinct =
            Distinct-append low (img ++ high) g1.distinct low_img
              (apart_both low img high (new_apart g2 low g1.own) (new_apart g3 low low2));
      }
