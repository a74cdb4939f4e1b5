-- ===== src/Slab/Held.antt =====
-- The list operations of slab_free of kernel/mem/slab.c.
use advanced_operating_syste.Slab.Trio.{
  SameElsewhere-trans, SameElsewhere, places, push-Trio, drop-Trio, turn-Trio, Trio,
}
use advanced_operating_syste.LinkedList.Walk.{is_empty_false, is_empty_true}
use advanced_operating_syste.Prelude.{
  List, [], arith, count, count-append, refl, some, ℕ, ◌++◌, ◌+◌, ◌∷◌, ◌≡◌, ◌≢◌,
}
use advanced_operating_syste.LinkedList.Store.{Links, null}
use advanced_operating_syste.LinkedList.{list_del, list_add}
use advanced_operating_syste.Slab.State.{Slabs, partial, full, objects, info_node}
use advanced_operating_syste.Slab.{make_partial}

-- The lists of slabs before the call: a slab with the free objects `os` stands between `xs` and `ys`, on the
-- full list when there are none; `other` is the other list.
abbrev pub held_partial : List ℕ → ℕ → List ℕ → List ℕ → List ℕ → List ℕ
held_partial [] n xs ys other = other
held_partial (o ∷ os) n xs ys other = xs ++ n ∷ ys

abbrev pub held_full : List ℕ → ℕ → List ℕ → List ℕ → List ℕ → List ℕ
held_full [] n xs ys other = xs ++ n ∷ ys
held_full (o ∷ os) n xs ys other = other

-- Afterwards it has a free object, and is a partial slab.
abbrev pub freed_partial : List ℕ → ℕ → List ℕ → List ℕ → List ℕ → List ℕ
freed_partial [] n xs ys other = n ∷ other
freed_partial (o ∷ os) n xs ys other = xs ++ n ∷ ys

abbrev pub freed_full : List ℕ → List ℕ → List ℕ → List ℕ → List ℕ
freed_full [] xs ys other = xs ++ ys
freed_full (o ∷ os) xs ys other = other

-- The partial slabs without it.
abbrev pub rest_partial : List ℕ → List ℕ → List ℕ → List ℕ → List ℕ
rest_partial [] xs ys other = other
rest_partial (o ∷ os) xs ys other = xs ++ ys

pub same_nodes :
    (p : ℕ) (os : List ℕ) (n : ℕ) (xs ys other : List ℕ)
    → count p (freed_partial os n xs ys other) + count p (freed_full os xs ys other)
      ≡ count p (held_partial os n xs ys other) + count p (held_full os n xs ys other)
same_nodes p [] n xs ys other = omega (arith, count-append p xs (n ∷ ys), count-append p xs ys)
same_nodes p (o ∷ os) n xs ys other = refl

module _ (slab info : ℕ) (xs ys other : List ℕ) where
  -- The nodes of the lists while the slab is held, and once the object is free.
  abbrev pub held : List ℕ → ℕ → ℕ
  held os =
      places (partial slab) (full slab) (objects info)
        (held_partial os (info_node info) xs ys other) (held_full os (info_node info) xs ys other)
        os

  abbrev pub freed_nodes : ℕ → List ℕ → ℕ → ℕ
  freed_nodes o os =
      places (partial slab) (full slab) (objects info)
        (freed_partial os (info_node info) xs ys other) (freed_full os xs ys other) (o ∷ os)

  -- The slab becomes a partial one.
  pub make_partial_lem :
      {St : Type 0} (s : Slabs St) (os : List ℕ)
      → Trio s.links
          (partial slab)
          (full slab)
          (objects info)
          (held_partial os (info_node info) xs ys other)
          (held_full os (info_node info) xs ys other)
          os
      → (g : Links) × (make_partial slab info s ≡ some (tt, record s { links = g }))
        × Trio g
            (partial slab)
            (full slab)
            (objects info)
            (freed_partial os (info_node info) xs ys other)
            (freed_full os xs ys other)
            os
        × SameElsewhere s.links g (held os)
  unfolding make_partial
  make_partial_lem s [] r =
      let h : Links = s.links in
      let node : ℕ = info_node info in
      let r' = turn-Trio h (partial slab) (full slab) (objects info) other (xs ++ node ∷ ys) [] r in
      let (g, dropped, q, _, same) =
        drop-Trio h (full slab) (objects info) (partial slab) node xs ys [] other r' in
      let q' =
        turn-Trio g (objects info) (partial slab) (full slab) [] other (xs ++ ys)
          (turn-Trio g (full slab) (objects info) (partial slab) (xs ++ ys) [] other q) in
      let (k, added, w, same') =
        push-Trio g (partial slab) (full slab) (objects info) node other (xs ++ ys) [] q'
          (omega arith)
          (ground
            (arith, r.apart node, count-append node xs (node ∷ ys), count-append node xs ys)) in
      (
        k,
        simp (is_empty_true h (objects info) r.third, dropped, added) refl,
        w,
        SameElsewhere-trans h g k
            (places (full slab) (objects info) (partial slab) (xs ++ node ∷ ys) [] other)
            (places (partial slab) (full slab) (objects info) (node ∷ other) (xs ++ ys) [])
            (held []) same same'
            (λ p e. (
              omega (arith, e),
              omega (arith, e, count-append p xs (node ∷ ys), count-append p xs ys),
            )),
      )
  make_partial_lem s (o ∷ os) r = (
    s.links,
    simp (is_empty_false s.links (objects info) o os r.third) refl,
    r,
    λ p e. (refl, refl),
  )

  -- The object goes to the front of the free ones.
  pub object_added :
      (g : Links) (o : ℕ) (os : List ℕ)
      → Trio g
          (partial slab)
          (full slab)
          (objects info)
          (freed_partial os (info_node info) xs ys other)
          (freed_full os xs ys other)
          os
      → o ≢ null
      → count o (partial slab ∷ freed_partial os (info_node info) xs ys other)
          + count o (full slab ∷ freed_full os xs ys other)
          + count o (objects info ∷ os)
        ≡ 0
      → (k : Links) × (list_add (objects info) o g ≡ some (tt, k))
        × Trio k
            (partial slab)
            (full slab)
            (objects info)
            (freed_partial os (info_node info) xs ys other)
            (freed_full os xs ys other)
            (o ∷ os)
        × SameElsewhere g k (freed_nodes o os)
  object_added g o os r o0 out =
      let ps : List ℕ = freed_partial os (info_node info) xs ys other in
      let fs : List ℕ = freed_full os xs ys other in
      let r' =
        turn-Trio g (full slab) (objects info) (partial slab) fs os ps
          (turn-Trio g (partial slab) (full slab) (objects info) ps fs os r) in
      let (k, added, q, same) =
        push-Trio g (objects info) (partial slab) (full slab) o os ps fs r' o0
          (omega (arith, out)) in
      (
        k,
        added,
        turn-Trio k (objects info) (partial slab) (full slab) (o ∷ os) ps fs q,
        λ p e. same p (omega (arith, e)),
      )

  -- The slab leaves the partial ones.
  pub slab_left :
      (g : Links) (o : ℕ) (os : List ℕ)
      → Trio g
          (partial slab)
          (full slab)
          (objects info)
          (freed_partial os (info_node info) xs ys other)
          (freed_full os xs ys other)
          (o ∷ os)
      → (k : Links) × (list_del (info_node info) g ≡ some (tt, k))
        × Trio k
            (partial slab)
            (full slab)
            (objects info)
            (rest_partial os xs ys other)
            (freed_full os xs ys other)
            (o ∷ os)
        × SameElsewhere g k (freed_nodes o os)
  slab_left g o [] r =
      let (k, ran, q, _, same) =
        drop-Trio g (partial slab) (full slab) (objects info) (info_node info) [] other (xs ++ ys)
          (o ∷ []) r in
      (k, ran, q, same)
  slab_left g o (x ∷ os) r =
      let (k, ran, q, _, same) =
        drop-Trio g (partial slab) (full slab) (objects info) (info_node info) xs ys other
          (o ∷ x ∷ os) r in
      (k, ran, q, same)
