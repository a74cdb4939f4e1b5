-- ===== src/Slab/Trio.antt =====
-- Three rings in one store that share no node: the partial slabs, the full slabs and the free objects of
-- one slab. No code: the lists of kernel/mem/slab.c between calls.
use advanced_operating_syste.Prelude.{
  ◌∙◌, List, [], arith, count, count-append, some, ℕ, ◌++◌, ◌+◌, ◌∷◌, ◌≡◌, ◌≢◌, ◌≤◌,
}
use advanced_operating_syste.LinkedList.Chain.{frame-IsRing, IsRing}
use advanced_operating_syste.LinkedList.Delete.{list_del-IsRing}
use advanced_operating_syste.LinkedList.Insert.{list_add-IsRing}
use advanced_operating_syste.LinkedList.{list_del, list_add}
use advanced_operating_syste.LinkedList.Store.{Links, null}

pub record Trio (h : Links) (a b c : ℕ) (xs ys zs : List ℕ) : Type 0 where
  pub first : IsRing h a xs
  pub second : IsRing h b ys
  pub third : IsRing h c zs
  pub apart : (p : ℕ) → count p (a ∷ xs) + count p (b ∷ ys) + count p (c ∷ zs) ≤ 1

-- How often a node stands in the three rings, their heads included.
abbrev pub places : ℕ → ℕ → ℕ → List ℕ → List ℕ → List ℕ → ℕ → ℕ
places a b c xs ys zs p = count p (a ∷ xs) + count p (b ∷ ys) + count p (c ∷ zs)

-- `g` agrees with `h` on both fields of every node that has no place.
abbrev pub SameElsewhere : Links → Links → (ℕ → ℕ) → Type 0
SameElsewhere h g places_of =
    (p : ℕ) → places_of p ≡ 0 → (g.next p ≡ h.next p) × (g.prev p ≡ h.prev p)

pub SameElsewhere-trans :
    (h g k : Links) (t u v : ℕ → ℕ)
    → SameElsewhere h g t
    → SameElsewhere g k u
    → ((p : ℕ) → v p ≡ 0 → (t p ≡ 0) × (u p ≡ 0))
    → SameElsewhere h k v
SameElsewhere-trans h g k t u v i j w p e =
    let (x, y) = w p e in let (a, b) = i p x in let (c, d) = j p y in (c ∙ a, d ∙ b)

pub turn-Trio :
    (h : Links) (a b c : ℕ) (xs ys zs : List ℕ) → Trio h a b c xs ys zs → Trio h b c a ys zs xs
turn-Trio h a b c xs ys zs r = record {
  first = r.second;
  second = r.third;
  third = r.first;
  apart = λ p. omega (arith, r.apart p);
}

-- A node leaves the first ring.
pub drop-Trio :
    (h : Links) (a b c n : ℕ) (xs ys fs os : List ℕ)
    → Trio h a b c (xs ++ n ∷ ys) fs os
    → (g : Links) × (list_del n h ≡ some (tt, g))
      × Trio g a b c (xs ++ ys) fs os
      × IsRing g n []
      × SameElsewhere h g (places a b c (xs ++ n ∷ ys) fs os)
drop-Trio h a b c n xs ys fs os r =
    let (g, ran, ring, alone, same) = list_del-IsRing h a n xs ys r.first in
    let parts = λ (p : ℕ). count-append p xs (n ∷ ys) in
    (
      g,
      ran,
      record {
        first = ring;
        second =
            frame-IsRing h g b fs (a ∷ xs ++ n ∷ ys) r.second same
              (λ p i. omega (arith, i, r.apart p));
        third =
            frame-IsRing h g c os (a ∷ xs ++ n ∷ ys) r.third same
              (λ p i. omega (arith, i, r.apart p));
        apart = λ p. omega (arith, r.apart p, parts p, count-append p xs ys);
      },
      alone,
      λ p e. same p (omega (arith, e)),
    )

-- A node that stands in none of the rings goes to the front of the first.
pub push-Trio :
    (h : Links) (a b c n : ℕ) (xs ys zs : List ℕ)
    → Trio h a b c xs ys zs
    → n ≢ null
    → ((count n (a ∷ xs) + count n (b ∷ ys) + count n (c ∷ zs)) ≡ 0)
    → (g : Links) × (list_add a n h ≡ some (tt, g))
      × Trio g a b c (n ∷ xs) ys zs
      × SameElsewhere h g (places a b c (n ∷ xs) ys zs)
push-Trio h a b c n xs ys zs r n0 out =
    let (g, ran, ring, same) =
      list_add-IsRing h a n xs r.first record { ne_null = n0; outside = omega (arith, out) } in
    (
      g,
      ran,
      record {
        first = ring;
        second =
            frame-IsRing h g b ys (n ∷ a ∷ xs) r.second same
              (λ p i. ground (arith, i, r.apart p, out));
        third =
            frame-IsRing h g c zs (n ∷ a ∷ xs) r.third same
              (λ p i. ground (arith, i, r.apart p, out));
        apart = λ p. ground (arith, r.apart p, out);
      },
      λ p e. same p (omega (arith, e)),
    )
