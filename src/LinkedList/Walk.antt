-- ===== src/LinkedList/Walk.antt =====
-- The loops list_foreach and list_foreach_rev of include/list.h, and its tests on a ring.
use advanced_operating_syste.Prelude.{
  false, true, refl, ◌≢◌, ◌++◌, ℕ, zero, suc, ◌<◌, ◌≡◌, some, List, [], ◌∷◌, arith, count, ◌==◌,
  length, length-append, count-append, subst, sym, ap, ◌∙◌,
}
use advanced_operating_syste.LinkedList.Chain.{Chain-append, Chain-split, Chain, IsRing}
use advanced_operating_syste.LinkedList.{
  list_head, list_foreach_rev, list_is_empty, list_next, list_foreach,
}
use mathlib.Core.List.{reverse-cons, reverse}
use advanced_operating_syste.LinkedList.Store.{Links, null}

foreach-Chain :
    (h : Links) (head a : ℕ) (xs : List ℕ) (fuel : ℕ)
    → Chain h a xs head
    → count head xs ≡ 0
    → count null xs ≡ 0
    → length xs < fuel
    → list_foreach fuel head (h.next a) h ≡ some xs
unfolding list_foreach
foreach-Chain h head a [] zero c d n f = elim f [ ]
foreach-Chain h head a [] (suc fuel) c d n f = ground arith
foreach-Chain h head a (x ∷ xs) zero c d n f = elim f [ ]
foreach-Chain h head a (x ∷ xs) (suc fuel) c d n f =
    ground (arith, foreach-Chain h head x xs fuel c.2)

-- `list_foreach` over a ring, with more fuel than nodes, visits exactly its nodes, in order, and
-- ends.
pub list_foreach-IsRing :
    (h : Links) (head : ℕ) (xs : List ℕ) (fuel : ℕ)
    → IsRing h head xs
    → length xs < fuel
    → list_foreach fuel head (h.next head) h ≡ some xs
list_foreach-IsRing h head xs fuel r f =
    foreach-Chain h head head xs fuel r.chain (ground (arith, r.distinct head))
      (ground (arith, r.nonnull)) f

-- The same store read from the other side.
abbrev mirror : Links → Links
mirror h = record { next = h.prev; prev = h.next }

mirror-Chain :
    (h : Links) (a b : ℕ) (xs : List ℕ) → Chain h a xs b → Chain (mirror h) b (reverse xs) a
mirror-Chain h a b [] c = (c.1, c.0)
mirror-Chain h a b (x ∷ xs) c =
    subst (λ ys. Chain (mirror h) b ys a) (sym (reverse-cons x xs))
      (Chain-append (mirror h) b a (reverse xs) x [] (mirror-Chain h x b xs c.2) (c.1, c.0))

count-reverse : (p : ℕ) (xs : List ℕ) → count p (reverse xs) ≡ count p xs
count-reverse p [] = refl
count-reverse p (x ∷ xs) = omega (
  arith,
  ap (count p) (reverse-cons x xs),
  count-append p (reverse xs) (x ∷ []),
  count-reverse p xs,
)

length-reverse : (xs : List ℕ) → length (reverse xs) ≡ length xs
length-reverse [] = refl
length-reverse (x ∷ xs) =
    omega
      (arith, ap length (reverse-cons x xs), length-append (reverse xs) (x ∷ []), length-reverse xs)

mirror-IsRing :
    (h : Links) (head : ℕ) (xs : List ℕ) → IsRing h head xs → IsRing (mirror h) head (reverse xs)
mirror-IsRing h head xs r = record {
  chain = mirror-Chain h head head xs r.chain;
  distinct = λ p. omega (arith, r.distinct p, count-reverse p xs);
  nonnull = omega (arith, r.nonnull, count-reverse null xs);
}

foreach_rev-mirror :
    (fuel head node : ℕ) (h : Links)
    → list_foreach_rev fuel head node h ≡ list_foreach fuel head node (mirror h)
unfolding list_foreach list_foreach_rev
foreach_rev-mirror zero head node h = refl
foreach_rev-mirror (suc fuel) head node h = rw (foreach_rev-mirror fuel head (h.prev node) h)

-- `list_foreach_rev` over a ring, with more fuel than nodes, visits exactly its nodes, in the
-- opposite order, and ends.
pub list_foreach_rev-IsRing :
    (h : Links) (head : ℕ) (xs : List ℕ) (fuel : ℕ)
    → IsRing h head xs
    → length xs < fuel
    → list_foreach_rev fuel head (h.prev head) h ≡ some (reverse xs)
list_foreach_rev-IsRing h head xs fuel r f =
    foreach_rev-mirror fuel head (h.prev head) h
    ∙ list_foreach-IsRing (mirror h) head (reverse xs) fuel (mirror-IsRing h head xs r)
        (omega (arith, length-reverse xs))

-- The first node of a list, NULL if there is none.
abbrev pub first : List ℕ → ℕ
first [] = null
first (x ∷ xs) = x

next_or_null :
    (h : Links) (head : ℕ) (xs : List ℕ) (a : ℕ)
    → Chain h a xs head
    → count head xs ≡ 0
    → a ≢ null
    → list_next head a h ≡ some (first xs, h)
unfolding list_next
next_or_null h head [] a c d e = ground arith
next_or_null h head (x ∷ xs) a c d e = ground arith

-- `list_next` steps from a node of a ring to the one behind it, and gives NULL at the end.
pub list_next-IsRing :
    (h : Links) (head node : ℕ) (xs ys : List ℕ)
    → IsRing h head (xs ++ node ∷ ys)
    → list_next head node h ≡ some (first ys, h)
list_next-IsRing h head node xs ys r =
    next_or_null h head ys node (Chain-split h head head xs node ys r.chain).1
      (ground (arith, r.distinct head, count-append head xs (node ∷ ys)))
      (ground (arith, r.nonnull, count-append null xs (node ∷ ys)))

-- On a ring, `list_is_empty` tells whether there are no nodes, and `list_head` gives the first node
-- or NULL.
pub list_head-IsRing :
    (h : Links) (head : ℕ) (xs : List ℕ)
    → IsRing h head xs
    → (list_is_empty head h ≡ some (first xs == null, h)) × (list_head head h ≡ some (first xs, h))
unfolding list_is_empty list_head
list_head-IsRing h head [] r = (ground (arith, r.nonnull), ground (arith, r.nonnull))
list_head-IsRing h head (x ∷ xs) r =
    (ground (arith, r.nonnull, r.distinct head), ground (arith, r.nonnull, r.distinct head))

-- list_is_empty of a ring.
pub is_empty_true : (h : Links) (a : ℕ) → IsRing h a [] → list_is_empty a h ≡ some (true, h)
unfolding list_is_empty
is_empty_true h a r = ground (arith, r.nonnull, r.chain.0)

pub is_empty_false :
    (h : Links) (a x : ℕ) (xs : List ℕ) → IsRing h a (x ∷ xs) → list_is_empty a h ≡ some (false, h)
unfolding list_is_empty
is_empty_false h a x xs r =
    let apart : x ≢ a = λ e. ground (arith, r.distinct x) in ground (arith, r.nonnull, r.chain.0)
