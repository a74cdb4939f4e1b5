-- ===== src/LinkedList/Insert.antt =====
-- list_init, list_insert_after, list_insert_before, list_add and list_add_tail of lib/list.c.
use mathlib.Core.List.{append_assoc}
use advanced_operating_syste.Prelude.{
  ℕ, ◌≤◌, ◌<◌, ◌≡◌, ◌≢◌, subst, Option, some, List, [], ◌∷◌, ◌++◌, arith, count, count-append,
}
use advanced_operating_syste.LinkedList.{
  list_init, list_insert_after, list_insert_before, list_add, list_add_tail,
}
use advanced_operating_syste.LinkedList.Store.{Links, null, update}
use advanced_operating_syste.LinkedList.Chain.{
  Chain, IsRing, SameOutside, Chain-append, frame, bend_end, count-prev, count-next, rotate,
}

-- The stores that the functions leave behind.
abbrev pub inited : ℕ → Links → Links
inited head h = record { next = update h.next head head; prev = update h.prev head head }

abbrev pub inserted_after : ℕ → ℕ → Links → Links
inserted_after after new h = record {
  next = update (update h.next new (h.next after)) after new;
  prev = update (update h.prev new after) (h.next after) new;
}

abbrev pub inserted_before : ℕ → ℕ → Links → Links
inserted_before before new h = record {
  next = update (update h.next new before) (h.prev before) new;
  prev = update (update h.prev new (h.prev before)) before new;
}

pub list_init_lem :
    (head : ℕ) (h : Links) → head ≢ null → list_init head h ≡ some (tt, inited head h)
unfolding list_init
list_init_lem head h e = ground arith

pub list_insert_after_lem :
    (after new : ℕ) (h : Links)
    → after ≢ null
    → new ≢ null
    → new ≢ after
    → h.next after ≢ null
    → list_insert_after after new h ≡ some (tt, inserted_after after new h)
unfolding list_insert_after
list_insert_after_lem after new h a n d f = ground arith

pub list_insert_before_lem :
    (before new : ℕ) (h : Links)
    → before ≢ null
    → new ≢ null
    → new ≢ before
    → h.prev before ≢ null
    → list_insert_before before new h ≡ some (tt, inserted_before before new h)
unfolding list_insert_before
list_insert_before_lem before new h a n d f = ground arith

-- `new` is a node outside the ring.
pub record IsFresh (new head : ℕ) (xs : List ℕ) : Type 0 where
  pub ne_null : new ≢ null
  pub outside : count new (head ∷ xs) ≡ 0

module _ (h : Links) (head new : ℕ) where
  after-Chain :
      (xs : List ℕ)
      → Chain h head xs head
      → ((p : ℕ) → count p (head ∷ xs) ≤ 1)
      → count new (head ∷ xs) ≡ 0
      → Chain (inserted_after head new h) head (new ∷ xs) head
  after-Chain [] c d o = ground arith
  after-Chain (x ∷ xs) c d o = (
    ground arith,
    ground (arith, d x),
    (
      ground arith,
      ground arith,
      frame h (inserted_after head new h) x head xs c.2 (λ p i. ground (arith, d p, d head))
          (λ p i. ground (arith, d p, d x)),
    ),
  )

  before-Chain :
      (xs : List ℕ)
      → Chain h head xs head
      → ((p : ℕ) → count p (head ∷ xs) ≤ 1)
      → count new (head ∷ xs) ≡ 0
      → Chain (inserted_before head new h) head (xs ++ new ∷ []) head
  before-Chain xs c d o =
      Chain-append g head head xs new []
        (bend_end h g head head new xs c d (ground arith) (ground arith) (λ p i n. ground arith)
          (λ p i. ground (arith, d head)))
        (ground (arith, count-prev h head head xs c), ground arith)
    where
      g : Links
      g = inserted_before head new h

-- What an insertion of `new` into a ring promises: no panic, the ring `ys`, and no other node
-- touched.
abbrev pub Inserts : Option (Unit {0} × Links) → Links → ℕ → ℕ → List ℕ → List ℕ → Type 0
Inserts run h head new xs ys =
    (g : Links) × (run ≡ some (tt, g)) × IsRing g head ys × SameOutside (new ∷ head ∷ xs) h g

module _ (h : Links) (head new : ℕ) (xs : List ℕ) (r : IsRing h head xs)
    (f : IsFresh new head xs) where
  at_next : 0 < count (h.next head) (head ∷ xs)
  at_next = count-next h head head xs r.chain

  at_prev : 0 < count (h.prev head) (head ∷ xs)
  at_prev = count-prev h head head xs r.chain

  pub add-IsRing : Inserts (list_insert_after head new h) h head new xs (new ∷ xs)
  add-IsRing = (
    inserted_after head new h,
    list_insert_after_lem head new h (ground (arith, r.nonnull)) f.ne_null (ground arith)
        (ground (arith, at_next, r.nonnull)),
    record {
      chain = after-Chain h head new xs r.chain r.distinct f.outside;
      distinct = λ p. ground (arith, r.distinct p);
      nonnull = ground arith;
    },
    λ p o. (ground (arith), ground (arith, at_next)),
  )

  pub add_tail-IsRing : Inserts (list_insert_before head new h) h head new xs (xs ++ new ∷ [])
  add_tail-IsRing = (
    inserted_before head new h,
    list_insert_before_lem head new h (ground (arith, r.nonnull)) f.ne_null (ground arith)
        (ground (arith, at_prev, r.nonnull)),
    record {
      chain = before-Chain h head new xs r.chain r.distinct f.outside;
      distinct = λ p. ground (arith, r.distinct p, count-append p xs (new ∷ []));
      nonnull = ground (arith, count-append null xs (new ∷ []));
    },
    λ p o. (ground (arith, at_prev), ground (arith)),
  )

module _ (h : Links) (head : ℕ) where
  -- `list_init` makes the node an empty ring, whatever it held before, and touches no other node.
  pub list_init-IsRing :
      head ≢ null
      → (g : Links) × (list_init head h ≡ some (tt, g))
        × IsRing g head []
        × SameOutside (head ∷ []) h g
  list_init-IsRing e = (
    inited head h,
    list_init_lem head h e,
    record {
      chain = (ground arith, ground arith);
      distinct = λ p. ground arith;
      nonnull = ground arith;
    },
    λ p o. (ground arith, ground arith),
  )

module _ (h : Links) (head : ℕ) where
  -- `list_add` of a fresh node to a ring puts it in front of all others; it does not panic, and
  -- changes no node but the new one and those of the ring.
  pub list_add-IsRing :
      (new : ℕ) (xs : List ℕ)
      → IsRing h head xs
      → IsFresh new head xs
      → Inserts (list_add head new h) h head new xs (new ∷ xs)
  unfolding list_add
  list_add-IsRing new xs r f = add-IsRing h head new xs r f

  -- `list_add_tail` of a fresh node to a ring puts it behind all others; it does not panic, and
  -- changes no node but the new one and those of the ring.
  pub list_add_tail-IsRing :
      (new : ℕ) (xs : List ℕ)
      → IsRing h head xs
      → IsFresh new head xs
      → Inserts (list_add_tail head new h) h head new xs (xs ++ new ∷ [])
  unfolding list_add_tail
  list_add_tail-IsRing new xs r f = add_tail-IsRing h head new xs r f

  -- `list_insert_after` at any node `at` of a ring puts a fresh node right behind `at`; it does not
  -- panic, and changes no node but the new one and those of the ring.
  pub list_insert_after-IsRing :
      (at new : ℕ) (xs ys : List ℕ)
      → IsRing h head (xs ++ at ∷ ys)
      → IsFresh new head (xs ++ at ∷ ys)
      → Inserts (list_insert_after at new h) h head new (xs ++ at ∷ ys) (xs ++ at ∷ new ∷ ys)
  list_insert_after-IsRing at new xs ys r f =
      let turned = rotate h head xs at ys r in
      let around = λ (p : ℕ). count-append p xs (at ∷ ys) in
      let back = λ (p : ℕ). count-append p ys (head ∷ xs) in
      let fresh : IsFresh new at (ys ++ head ∷ xs) = record {
        ne_null = f.ne_null;
        outside = omega (arith, f.outside, around new, back new);
      } in
      let (g, ran, ring, same) = add-IsRing h at new (ys ++ head ∷ xs) turned fresh in
      (
        g,
        ran,
        rotate g at (new ∷ ys) head xs ring,
        λ p o. same p (omega (arith, o, around p, back p)),
      )

  -- `list_insert_before` at any node `at` of a ring puts a fresh node right before `at`; it does not
  -- panic, and changes no node but the new one and those of the ring.
  pub list_insert_before-IsRing :
      (at new : ℕ) (xs ys : List ℕ)
      → IsRing h head (xs ++ at ∷ ys)
      → IsFresh new head (xs ++ at ∷ ys)
      → Inserts (list_insert_before at new h) h head new (xs ++ at ∷ ys) (xs ++ new ∷ at ∷ ys)
  list_insert_before-IsRing at new xs ys r f =
      let turned = rotate h head xs at ys r in
      let around = λ (p : ℕ). count-append p xs (at ∷ ys) in
      let back = λ (p : ℕ). count-append p ys (head ∷ xs) in
      let fresh : IsFresh new at (ys ++ head ∷ xs) = record {
        ne_null = f.ne_null;
        outside = omega (arith, f.outside, around new, back new);
      } in
      let (g, ran, ring, same) = add_tail-IsRing h at new (ys ++ head ∷ xs) turned fresh in
      let same_list : (ys ++ head ∷ xs) ++ new ∷ [] ≡ ys ++ head ∷ (xs ++ new ∷ []) =
        append_assoc ys (head ∷ xs) (new ∷ []) in
      let seen = subst (IsRing g at) same_list ring in
      (
        g,
        ran,
        subst (IsRing g head) (append_assoc xs (new ∷ []) (at ∷ ys))
            (rotate g at ys head (xs ++ new ∷ []) seen),
        λ p o. same p (omega (arith, o, around p, back p)),
      )
