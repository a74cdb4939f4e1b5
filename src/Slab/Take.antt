-- ===== src/Slab/Take.antt =====
-- slab_alloc of kernel/mem/slab.c where a slab has free objects.
use advanced_operating_syste.Slab.Trio.{
  places, SameElsewhere, SameElsewhere-trans, push-Trio, turn-Trio, drop-Trio, Trio,
}
use advanced_operating_syste.LinkedList.Walk.{is_empty_false, is_empty_true}
use advanced_operating_syste.Slab.State.{
  PageOps, pure, on_links, ◌>>◌, Slabs, partial, full, objects, info_node, obj_header,
}
use advanced_operating_syste.Slab.{slab_alloc, take_object, decremented}
use advanced_operating_syste.Prelude.{
  true, refl, Bool, ap, false, if◌then◌else◌, ◌-◌, ◌==◌, ◌∙◌, List, Option, [], arith, length, some,
  suc, ℕ, ◌+◌, ◌<◌, ◌^◌, ◌∷◌, ◌≡◌,
}
use advanced_operating_syste.LinkedList.Chain.{IsRing}
use advanced_operating_syste.LinkedList.Store.{Links, null}
use advanced_operating_syste.LinkedList.{list_del, list_add, list_is_empty}
use advanced_operating_syste.Buddy.State.{update}

-- The two lists of slabs, where a slab with the free objects `os` stands at the front of one.
abbrev pub partials : List ℕ → ℕ → List ℕ → List ℕ
partials [] n ps = ps
partials (o ∷ os) n ps = n ∷ ps

abbrev pub fulls : List ℕ → ℕ → List ℕ → List ℕ
fulls [] n fs = n ∷ fs
fulls (o ∷ os) n fs = fs

-- The object `o` is taken from the slab at `info`, which has `os` left.
abbrev pub Takes :
    {St : Type 0} → Option (ℕ × Slabs St) → Slabs St → ℕ → ℕ → ℕ → List ℕ → List ℕ → List ℕ → Type 0
Takes run s slab info o os ps fs =
    (g : Links) × (run
      ≡ some (
        o + obj_header,
        record s { links = g; free_count = update s.free_count info (length os) },
      ))
    × Trio g (partial slab) (full slab) (objects info) (partials os (info_node info) ps)
        (fulls os (info_node info) fs) os
    × SameElsewhere s.links g
        (places (partial slab) (full slab) (objects info) (info_node info ∷ ps) fs (o ∷ os))

decremented_lem : (n : ℕ) → n < 2 ^ 64 → decremented (suc n) ≡ n
decremented_lem n i = omega (arith, i)

module _ {St : Type 0} (s : Slabs St) (slab info o : ℕ) (os ps fs : List ℕ)
    (r : Trio s.links (partial slab) (full slab) (objects info) (info_node info ∷ ps) fs (o ∷ os))
    (n : s.free_count info ≡ suc (length os)) (i : length os < 2 ^ 64) where
  taken_free :
      (g : Links) × (list_del o s.links ≡ some (tt, g))
      × Trio g (partial slab) (full slab) (objects info) (info_node info ∷ ps) fs os
      × IsRing g o []
      × SameElsewhere s.links g
          (places (partial slab) (full slab) (objects info) (info_node info ∷ ps) fs (o ∷ os))
  taken_free =
      let h : Links = s.links in
      let lists : List ℕ = info_node info ∷ ps in
      let r' =
        turn-Trio h (full slab) (objects info) (partial slab) fs (o ∷ os) lists
          (turn-Trio h (partial slab) (full slab) (objects info) lists fs (o ∷ os) r) in
      let (g, ran, q, alone, same) =
        drop-Trio h (objects info) (partial slab) (full slab) o [] os lists fs r' in
      (
        g,
        ran,
        turn-Trio g (objects info) (partial slab) (full slab) os lists fs q,
        alone,
        λ p e. same p (omega (arith, e)),
      )

  -- slab_alloc up to its last test.
  take_reads :
      (g : Links) (b : Bool)
      → list_del o s.links ≡ some (tt, g)
      → list_is_empty (objects info) g ≡ some (b, g)
      → take_object slab s
        ≡ (if b
              then (do
                on_links (list_del (info_node info))
                on_links (list_add (full slab) (info_node info))
                pure (o + obj_header))
              else pure (o + obj_header))
            (record s { links = g; free_count = update s.free_count info (length os) })
  unfolding take_object
  take_reads g b ran e =
      let c : (slab == null) ≡ false = ground (arith, r.first.nonnull) in
      let first : s.links.next slab ≡ info_node info = r.first.chain.0 in
      let back : info_node info - 8 ≡ info = omega arith in
      let z : (objects info == null) ≡ false = ground arith in
      let head : s.links.next (objects info) ≡ o = r.third.chain.0 in
      let less : decremented (s.free_count info) ≡ length os =
        ap decremented n ∙ decremented_lem (length os) i in
      simp (c, first, back, z, head, ran, less, e) refl

-- A slab without free objects goes from the front of the partial slabs to that of the full ones.
filled_slab :
    (h : Links) (slab info : ℕ) (ps fs : List ℕ)
    → Trio h (partial slab) (full slab) (objects info) (info_node info ∷ ps) fs []
    → (g : Links) × (k : Links) × (list_del (info_node info) h ≡ some (tt, g))
      × (list_add (full slab) (info_node info) g ≡ some (tt, k))
      × Trio k (partial slab) (full slab) (objects info) ps (info_node info ∷ fs) []
      × SameElsewhere h k
          (places (partial slab) (full slab) (objects info) (info_node info ∷ ps) fs [])
filled_slab h slab info ps fs r =
    let node : ℕ = info_node info in
    let (g, ran, q, _, same) =
      drop-Trio h (partial slab) (full slab) (objects info) node [] ps fs [] r in
    let q' = turn-Trio g (partial slab) (full slab) (objects info) ps fs [] q in
    let (k, added, w, same') =
      push-Trio g (full slab) (objects info) (partial slab) node fs [] ps q' (omega arith)
        (ground (arith, r.apart node)) in
    (
      g,
      k,
      ran,
      added,
      turn-Trio k (objects info) (partial slab) (full slab) [] ps (node ∷ fs)
          (turn-Trio k (full slab) (objects info) (partial slab) (node ∷ fs) [] ps w),
      SameElsewhere-trans h g k (places (partial slab) (full slab) (objects info) (node ∷ ps) fs [])
          (places (full slab) (objects info) (partial slab) (node ∷ fs) [] ps)
          (places (partial slab) (full slab) (objects info) (node ∷ ps) fs []) same same'
          (λ p e. (e, omega (arith, e))),
    )

take_object-Takes :
    {St : Type 0} (s : Slabs St) (slab info o : ℕ) (os ps fs : List ℕ)
    → Trio s.links (partial slab) (full slab) (objects info) (info_node info ∷ ps) fs (o ∷ os)
    → s.free_count info ≡ suc (length os)
    → length os < 2 ^ 64
    → Takes (take_object slab s) s slab info o os ps fs
take_object-Takes s slab info o [] ps fs r n i =
    let (g, ran, q, _, same) = taken_free s slab info o [] ps fs r n i in
    let (k, m, dropped, added, w, same') = filled_slab g slab info ps fs q in
    let reads =
      take_reads s slab info o [] ps fs r n i g true ran (is_empty_true g (objects info) q.third) in
    (
      m,
      reads ∙ simp (dropped, added) refl,
      w,
      SameElsewhere-trans s.links g m
          (places (partial slab) (full slab) (objects info) (info_node info ∷ ps) fs (o ∷ []))
          (places (partial slab) (full slab) (objects info) (info_node info ∷ ps) fs [])
          (places (partial slab) (full slab) (objects info) (info_node info ∷ ps) fs (o ∷ [])) same
          same' (λ p e. (e, omega (arith, e))),
    )
take_object-Takes s slab info o (x ∷ os) ps fs r n i =
    let (g, ran, q, _, same) = taken_free s slab info o (x ∷ os) ps fs r n i in
    (
      g,
      take_reads s slab info o (x ∷ os) ps fs r n i g false ran
          (is_empty_false g (objects info) x os q.third),
      q,
      same,
    )

-- Where the first slab on the partial list has a free object, counts its free objects right and
-- has less than 2 ^ 64 left, and no node stands twice in the lists, slab_alloc does not panic and
-- returns the address behind the header of the first one. The slab keeps the other objects and
-- counts them, and stands at the front of the partial slabs, or of the full ones when no object is
-- left. No other field changes, that of a list node included which is in none of the three lists, and
-- the lists stay well linked.
pub slab_alloc-Takes :
    {St : Type 0} (ops : PageOps St) (s : Slabs St) (slab info o : ℕ) (os ps fs : List ℕ)
    → Trio s.links (partial slab) (full slab) (objects info) (info_node info ∷ ps) fs (o ∷ os)
    → s.free_count info ≡ suc (length os)
    → length os < 2 ^ 64
    → Takes (slab_alloc ops slab s) s slab info o os ps fs
unfolding slab_alloc
slab_alloc-Takes ops s slab info o os ps fs r n i =
    let some_left = is_empty_false s.links (partial slab) (info_node info) ps r.first in
    let (g, ran, q, same) = take_object-Takes s slab info o os ps fs r n i in
    (g, simp (some_left, ran) refl, q, same)
