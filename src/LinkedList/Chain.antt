-- ===== src/LinkedList/Chain.antt =====
-- Chains and rings of nodes, and how they survive writes elsewhere. No code: the vocabulary in
-- which the functions of lib/list.c are specified.
use advanced_operating_syste.Prelude.{
  ℕ, ◌≤◌, ◌<◌, ◌≡◌, ◌≢◌, List, [], ◌∷◌, ◌++◌, arith, count, count-append,
}
use advanced_operating_syste.LinkedList.Store.{Links, null}

-- From `a` the nodes `xs` lead to `b`, and back.
abbrev pub Chain : Links → ℕ → List ℕ → ℕ → Type 0
Chain h a [] b = (h.next a ≡ b) × (h.prev b ≡ a)
Chain h a (x ∷ xs) b = (h.next a ≡ x) × (h.prev x ≡ a) × Chain h x xs b

-- The nodes `xs` hang on `head` in this order; all of them are different, and none is NULL.
pub record IsRing (h : Links) (head : ℕ) (xs : List ℕ) : Type 0 where
  pub chain : Chain h head xs head
  pub distinct : (p : ℕ) → count p (head ∷ xs) ≤ 1
  pub nonnull : count null (head ∷ xs) ≡ 0

-- `g` agrees with `h` on both fields of every node that is not in `xs`.
abbrev pub SameOutside : List ℕ → Links → Links → Type 0
SameOutside xs h g = (p : ℕ) → count p xs ≡ 0 → (g.next p ≡ h.next p) × (g.prev p ≡ h.prev p)

module _ (h : Links) where
  pub Chain-append :
      (a b : ℕ) (xs : List ℕ) (n : ℕ) (ys : List ℕ)
      → Chain h a xs n
      → Chain h n ys b
      → Chain h a (xs ++ n ∷ ys) b
  Chain-append a b [] n ys c d = (c.0, c.1, d)
  Chain-append a b (x ∷ xs) n ys c d = (c.0, c.1, Chain-append x b xs n ys c.2 d)

  pub Chain-split :
      (a b : ℕ) (xs : List ℕ) (n : ℕ) (ys : List ℕ)
      → Chain h a (xs ++ n ∷ ys) b
      → Chain h a xs n × Chain h n ys b
  Chain-split a b [] n ys c = ((c.0, c.1), c.2)
  Chain-split a b (x ∷ xs) n ys c = let r = Chain-split x b xs n ys c.2 in ((c.0, c.1, r.0), r.1)

  -- The node before the end is the start or a node of the chain.
  pub count-prev : (a b : ℕ) (xs : List ℕ) → Chain h a xs b → 0 < count (h.prev b) (a ∷ xs)
  count-prev a b [] c = ground arith
  count-prev a b (x ∷ xs) c = omega (arith, count-prev x b xs c.2)

  pub count-next : (a b : ℕ) (xs : List ℕ) → Chain h a xs b → 0 < count (h.next a) (b ∷ xs)
  count-next a b [] c = ground arith
  count-next a b (x ∷ xs) c = ground arith

module _ (h g : Links) where
  pub frame :
      (a b : ℕ) (xs : List ℕ)
      → Chain h a xs b
      → ((p : ℕ) → 0 < count p (a ∷ xs) → g.next p ≡ h.next p)
      → ((p : ℕ) → 0 < count p (b ∷ xs) → g.prev p ≡ h.prev p)
      → Chain g a xs b
  frame a b [] c same_next same_prev = ground (arith, same_next a, same_prev b)
  frame a b (x ∷ xs) c same_next same_prev = (
    ground (arith, same_next a),
    ground (arith, same_prev x),
    frame x b xs c.2 (λ p i. same_next p (omega arith)) (λ p i. same_prev p (omega arith)),
  )

  -- A chain whose last link is bent from `n` to `m`.
  pub bend_end :
      (a n m : ℕ) (xs : List ℕ)
      → Chain h a xs n
      → ((p : ℕ) → count p (a ∷ xs) ≤ 1)
      → g.next (h.prev n) ≡ m
      → g.prev m ≡ h.prev n
      → ((p : ℕ) → 0 < count p (a ∷ xs) → p ≢ h.prev n → g.next p ≡ h.next p)
      → ((p : ℕ) → 0 < count p xs → g.prev p ≡ h.prev p)
      → Chain g a xs m
  bend_end a n m [] c d e f same_next same_prev = ground arith
  bend_end a n m (x ∷ xs) c d e f same_next same_prev = (
    ground (arith, same_next a, count-prev h x n xs c.2, d a),
    ground (arith, same_prev x),
    bend_end x n m xs c.2 (λ p. omega (arith, d p)) e f (λ p i. same_next p (omega arith))
        (λ p i. same_prev p (omega arith)),
  )

-- A ring may be entered at any of its nodes.
pub rotate :
    (h : Links) (head : ℕ) (xs : List ℕ) (n : ℕ) (ys : List ℕ)
    → IsRing h head (xs ++ n ∷ ys)
    → IsRing h n (ys ++ head ∷ xs)
rotate h head xs n ys r =
    let c = Chain-split h head head xs n ys r.chain in
    record {
      chain = Chain-append h n n ys head xs c.1 c.0;
      distinct = λ p.
          omega (arith, r.distinct p, count-append p xs (n ∷ ys), count-append p ys (head ∷ xs));
      nonnull =
          omega (arith, r.nonnull, count-append null xs (n ∷ ys), count-append null ys (head ∷ xs));
    }

-- A ring survives writes that spare its nodes.
pub frame-IsRing :
    (h g : Links) (head : ℕ) (xs zs : List ℕ)
    → IsRing h head xs
    → SameOutside zs h g
    → ((p : ℕ) → 0 < count p (head ∷ xs) → count p zs ≡ 0)
    → IsRing g head xs
frame-IsRing h g head xs zs r same apart = record {
  chain =
      frame h g head head xs r.chain (λ p i. (same p (apart p i)).0)
        (λ p i. (same p (apart p i)).1);
  distinct = r.distinct;
  nonnull = r.nonnull;
}
