-- ===== src/LinkedList/Delete.antt =====
-- list_del, list_pop and list_pop_tail of lib/list.c, and list_is_empty, list_head, list_tail,
-- list_next and list_prev of include/list.h.
use mathlib.Core.List.{append-nil}
use advanced_operating_syste.Prelude.{
  ℕ, ◌<◌, ◌≡◌, ◌≢◌, sym, subst, Option, some, List, [], ◌∷◌, ◌++◌, arith, count, count-append,
}
use advanced_operating_syste.LinkedList.{list_del, list_pop, list_pop_tail}
use advanced_operating_syste.LinkedList.Store.{Links, null, update}
use advanced_operating_syste.LinkedList.Chain.{
  IsRing, SameOutside, bend_end, Chain-split, count-prev, rotate,
}

-- The store that `list_del` leaves behind.
abbrev pub deleted : ℕ → Links → Links
deleted node h = record {
  next = update (update h.next (h.prev node) (h.next node)) node node;
  prev = update (update h.prev (h.next node) (h.prev node)) node node;
}

pub list_del_lem :
    (node : ℕ) (h : Links)
    → node ≢ null
    → h.next node ≢ null
    → h.prev node ≢ null
    → list_del node h ≡ some (tt, deleted node h)
unfolding list_del
list_del_lem node h e n p = ground arith

-- What taking `node` out of the ring of `head` promises: no panic, the result `a`, the ring `ys` of
-- the other nodes, a `node` linked to itself, and no node outside the ring touched.
abbrev pub Deletes :
    {A : Type 0} → Option (A × Links) → A → Links → ℕ → ℕ → List ℕ → List ℕ → Type 0
Deletes run a h head node xs ys =
    (g : Links) × (run ≡ some (a, g))
    × IsRing g head ys
    × IsRing g node []
    × SameOutside (head ∷ xs) h g

-- Seen from the node itself.
del-IsRing :
    (h : Links) (node z : ℕ) (zs : List ℕ)
    → IsRing h node (z ∷ zs)
    → Deletes (list_del node h) tt h z node (node ∷ zs) zs
del-IsRing h node z zs r = (
  deleted node h,
  list_del_lem node h (ground (arith, r.nonnull)) (ground (arith, r.nonnull))
      (ground (arith, r.nonnull, at_prev)),
  record {
    chain =
        bend_end h (deleted node h) z node z zs r.chain.2 (λ p. omega (arith, r.distinct p))
          (ground (arith, at_prev, r.distinct node)) (ground (arith, r.distinct node))
          (λ p i n. ground (arith, r.distinct p)) (λ p i. ground (arith, r.distinct p));
    distinct = λ p. omega (arith, r.distinct p);
    nonnull = omega (arith, r.nonnull);
  },
  record {
    chain = (ground arith, ground arith);
    distinct = λ p. ground arith;
    nonnull = omega (arith, r.nonnull);
  },
  λ p o. (ground (arith, at_prev), ground arith),
)
  where
    at_prev : 0 < count (h.prev node) (z ∷ zs)
    at_prev = count-prev h z node zs r.chain.2

module _ (h : Links) (head node : ℕ) where
  -- `list_del` of any node of a ring takes that node out, keeps the order of the others and leaves
  -- the node linked to itself; it does not panic, and changes no node outside the ring.
  pub list_del-IsRing :
      (xs ys : List ℕ)
      → IsRing h head (xs ++ node ∷ ys)
      → Deletes (list_del node h) tt h head node (xs ++ node ∷ ys) (xs ++ ys)
  list_del-IsRing xs [] r =
      let (g, ran, ring, alone, same) = del-IsRing h node head xs (rotate h head xs node [] r) in
      (
        g,
        ran,
        subst (IsRing g head) (sym (append-nil xs)) ring,
        alone,
        λ p o. same p (omega (arith, o, count-append p xs (node ∷ []))),
      )
  list_del-IsRing xs (y ∷ ys) r =
      let (g, ran, ring, alone, same) =
        del-IsRing h node y (ys ++ head ∷ xs) (rotate h head xs node (y ∷ ys) r) in
      (
        g,
        ran,
        rotate g y ys head xs ring,
        alone,
        λ p o.
            same p
              (omega (arith, o, count-append p xs (node ∷ y ∷ ys), count-append p ys (head ∷ xs))),
      )

-- `list_del` of a node that is linked to itself only changes nothing: deleting twice is harmless.
pub list_del_self :
    (h : Links) (node : ℕ)
    → IsRing h node []
    → (g : Links) × (list_del node h ≡ some (tt, g))
      × ((p : ℕ) → (g.next p ≡ h.next p) × (g.prev p ≡ h.prev p))
list_del_self h node r = (
  deleted node h,
  list_del_lem node h (ground (arith, r.nonnull)) (ground (arith, r.nonnull))
      (ground (arith, r.nonnull)),
  λ p. (ground arith, ground arith),
)

module _ (h : Links) (head : ℕ) where
  -- On a ring that ends in `node`, `list_pop` is `list_del` of that node.
  pub list_pop-list_del :
      (node : ℕ) (xs : List ℕ) (g : Links)
      → IsRing h head (xs ++ node ∷ [])
      → list_del node h ≡ some (tt, g)
      → list_pop head h ≡ some (node, g)
  unfolding list_pop
  list_pop-list_del node xs g r ran =
      let last : h.prev head ≡ node = (Chain-split h head head xs node [] r.chain).1.1 in
      let apart : node ≢ head =
        λ e. ground (arith, r.distinct node, count-append node xs (node ∷ [])) in
      let real : head ≢ null = ground (arith, r.nonnull) in ground (arith, ran)

  -- `list_pop` takes the last node of a ring, the one that `list_add` put there first.
  pub list_pop-IsRing :
      (node : ℕ) (xs : List ℕ)
      → IsRing h head (xs ++ node ∷ [])
      → Deletes (list_pop head h) node h head node (xs ++ node ∷ []) xs
  list_pop-IsRing node xs r =
      let (g, ran, ring, alone, same) = list_del-IsRing h head node xs [] r in
      (
        g,
        list_pop-list_del node xs g r ran,
        subst (IsRing g head) (append-nil xs) ring,
        alone,
        same,
      )

  -- `list_pop_tail` takes the first node of a ring, the one that `list_add` put there last.
  pub list_pop_tail-IsRing :
      (node : ℕ) (xs : List ℕ)
      → IsRing h head (node ∷ xs)
      → Deletes (list_pop_tail head h) node h head node (node ∷ xs) xs
  unfolding list_pop_tail
  list_pop_tail-IsRing node xs r =
      let (g, ran, ring, alone, same) = list_del-IsRing h head node [] xs r in
      let apart : node ≢ head = λ e. ground (arith, r.distinct node) in
      let real : head ≢ null = ground (arith, r.nonnull) in
      (g, ground (arith, ran), ring, alone, same)

  -- On an empty ring both pops return NULL and leave the store as it is.
  pub pop_empty :
      IsRing h head []
      → (list_pop head h ≡ some (null, h)) × (list_pop_tail head h ≡ some (null, h))
  unfolding list_pop list_pop_tail
  pop_empty r = (ground (arith, r.nonnull), ground (arith, r.nonnull))
