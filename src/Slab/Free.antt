-- ===== src/Slab/Free.antt =====
-- slab_free of kernel/mem/slab.c.
use advanced_operating_syste.Slab.Held.{
  freed_nodes, held, slab_left, same_nodes, object_added, freed_full, make_partial_lem,
  freed_partial, held_full, held_partial, rest_partial,
}
use advanced_operating_syste.Slab.Trio.{SameElsewhere-trans, SameElsewhere, Trio}
use advanced_operating_syste.Slab.{object_room, make_partial, slab_free, slab_free_chunk}
use advanced_operating_syste.Prelude.{
  [], ◌==◌, false, refl, Bool, List, Option, arith, count, if◌then◌else◌, leb, length, some, suc,
  true, ℕ, ◌%◌, ◌+◌, ◌-◌, ◌<◌, ◌^◌, ◌∷◌, ◌≡◌, ◌≢◌,
}
use advanced_operating_syste.LinkedList.{list_del, list_add}
use advanced_operating_syste.LinkedList.Store.{Links, null}
use advanced_operating_syste.Buddy.State.{update}
use advanced_operating_syste.Slab.State.{
  Slabs, PageOps, partial, full, objects, info_node, obj_header,
}

-- The page of the slab goes back to where the pages come from.
abbrev pub Releases : {St : Type 0} → PageOps St → ℕ → St → St → Type 0
Releases {St} ops va pg t =
    (page : ℕ) × (back : St) × (ops.page_lookup ops.kernel_pml4 va pg ≡ some (some page, back))
    × (ops.page_free page back ≡ some (tt, t))

-- Whether all objects of the slab are free, with `n` free ones.
abbrev pub all_free : {St : Type 0} → Slabs St → ℕ → ℕ → Bool
all_free s slab n = leb (s.count slab) n

-- The object `o` is free again, and counted; `whole` says that the page goes back.
abbrev pub Frees :
    {St : Type 0}
    → Option (Unit {0} × Slabs St)
    → Slabs St
    → ℕ
    → ℕ
    → ℕ
    → List ℕ
    → List ℕ
    → List ℕ
    → List ℕ
    → St
    → St
    → Bool
    → Type 0
Frees run s slab info o os xs ys other pg t whole =
    (g : Links) × (run
      ≡ some (
        tt,
        record s {
          pages = if whole then t else pg;
          links = g;
          free_count = update s.free_count info (suc (length os));
        },
      ))
    × Trio g (partial slab) (full slab) (objects info)
        (if whole
          then rest_partial os xs ys other
          else freed_partial os (info_node info) xs ys other)
        (freed_full os xs ys other) (o ∷ os)
    × SameElsewhere s.links g (λ p. count p (o ∷ []) + held slab info xs ys other os p)

-- The pages once the object is cleared.
abbrev pub wiped : {St : Type 0} → PageOps St → Slabs St → ℕ → ℕ → St
wiped ops s slab o = ops.clear (o + obj_header) (object_room (s.obj_size slab)) s.pages

module _ {St : Type 0} (ops : PageOps St) (s : Slabs St) (slab info o : ℕ) (os xs ys other : List ℕ)
    (t : St)
    (r : Trio s.links
      (partial slab)
      (full slab)
      (objects info)
      (held_partial os (info_node info) xs ys other)
      (held_full os (info_node info) xs ys other)
      os)
    (o0 : o ≢ null)
    (out : count o (partial slab ∷ held_partial os (info_node info) xs ys other)
        + count o (full slab ∷ held_full os (info_node info) xs ys other)
        + count o (objects info ∷ os)
      ≡ 0)
    (n : s.free_count info ≡ length os) (i : suc (length os) < 2 ^ 64) (own : s.info_of o ≡ info)
    (of : s.slab_of info ≡ slab) where
  -- The list operations of the call, one after the other.
  lists :
      (g : Links) × (k : Links) × (m : Links) × (make_partial slab info
          (record s { pages = wiped ops s slab o })
        ≡ some (tt, record s { pages = wiped ops s slab o; links = g }))
      × (list_add (objects info) o g ≡ some (tt, k))
      × Trio k
          (partial slab)
          (full slab)
          (objects info)
          (freed_partial os (info_node info) xs ys other)
          (freed_full os xs ys other)
          (o ∷ os)
      × (list_del (info_node info) k ≡ some (tt, m))
      × Trio m
          (partial slab)
          (full slab)
          (objects info)
          (rest_partial os xs ys other)
          (freed_full os xs ys other)
          (o ∷ os)
      × SameElsewhere s.links k (λ p. count p (o ∷ []) + held slab info xs ys other os p)
      × SameElsewhere s.links m (λ p. count p (o ∷ []) + held slab info xs ys other os p)
  lists =
      let (g, made, q, same) =
        make_partial_lem slab info xs ys other (record s { pages = wiped ops s slab o }) os r in
      let (k, added, w, same') =
        object_added slab info xs ys other g o os q o0
          (omega (arith, out, same_nodes o os (info_node info) xs ys other)) in
      let (m, left, v, same'') = slab_left slab info xs ys other k o os w in
      let all = λ (p : ℕ). count p (o ∷ []) + held slab info xs ys other os p in
      let kept =
        SameElsewhere-trans s.links g k (held slab info xs ys other os)
          (freed_nodes slab info xs ys other o os) all same same'
          (λ p e.
            (omega (arith, e), omega (arith, e, same_nodes p os (info_node info) xs ys other))) in
      let last =
        SameElsewhere-trans s.links k m all (freed_nodes slab info xs ys other o os) all kept same''
          (λ p e. (e, omega (arith, e, same_nodes p os (info_node info) xs ys other))) in
      (g, k, m, made, added, w, left, v, kept, last)

  freed :
      (whole : Bool)
      → all_free s slab (suc (length os)) ≡ whole
      → (whole ≡ true → Releases ops (info - s.info_off slab) (wiped ops s slab o) t)
      → Frees
          (slab_free ops (o + obj_header) s)
          s
          slab
          info
          o
          os
          xs
          ys
          other
          (wiped ops s slab o)
          t
          whole
  unfolding slab_free slab_free_chunk
  freed true e back =
      let at : o + obj_header - obj_header ≡ o = omega arith in
      let more : (s.free_count info + 1) % 2 ^ 64 ≡ suc (length os) = omega (arith, n, i) in
      let self : (info == info) ≡ true = ground arith in
      let (g, k, m, made, added, _, left, v, _, last) = lists in
      let (page, b, found, gone) = back refl in
      (m, simp (at, own, of, made, added, more, self, e, left, found, gone) refl, v, last)
  freed false e back =
      let at : o + obj_header - obj_header ≡ o = omega arith in
      let more : (s.free_count info + 1) % 2 ^ 64 ≡ suc (length os) = omega (arith, n, i) in
      let self : (info == info) ≡ true = ground arith in
      let (g, k, m, made, added, w, _, _, kept, _) = lists in
      (k, simp (at, own, of, made, added, more, self, e) refl, w, kept)

  -- slab_free of an object `o`, outside the lists, whose header names the slab at `info`, which
  -- counts its free objects right: it does not panic, clears the object, puts it in front of the free
  -- ones of the slab and counts it. A slab without free objects goes from its place in the list of full
  -- slabs to the front of the partial ones; the others stay. When all objects are free then, the
  -- slab leaves the list, and its page is given back. No other field changes, that of a list node
  -- included which is in none of the three lists. A slab is on the full list when it has no free object
  -- and on the partial one otherwise, and no node stands twice in the lists. In that last case
  -- page_lookup finds the page of the slab and page_free takes it: both are hypotheses.
  pub slab_free-Frees :
      (all_free s slab (suc (length os)) ≡ true
        → Releases ops (info - s.info_off slab) (wiped ops s slab o) t)
      → Frees
          (slab_free ops (o + obj_header) s)
          s
          slab
          info
          o
          os
          xs
          ys
          other
          (wiped ops s slab o)
          t
          (all_free s slab (suc (length os)))
  slab_free-Frees back = freed (all_free s slab (suc (length os))) refl back
