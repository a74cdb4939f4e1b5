-- ===== src/Sched/Transfer.antt =====
-- Tasks that go from one run queue to another.
use advanced_operating_syste.LinkedList.Insert.{list_add_tail-IsRing, IsFresh}
use advanced_operating_syste.LinkedList.Chain.{frame-IsRing, IsRing}
use advanced_operating_syste.LinkedList.Delete.{list_pop_tail-IsRing}
use advanced_operating_syste.Sched.{queue_add_task, queue_pop_task}
use advanced_operating_syste.LinkedList.Store.{Links}
use advanced_operating_syste.Prelude.{
  List, [], arith, count, count-append, some, ◌++◌, ◌+◌, ◌∷◌, ◌≡◌, ◌≤◌, ℕ,
}

-- Two queues that share no task.
pub record Apart (h : Links) (a b : ℕ) (xs ys : List ℕ) : Type 0 where
  pub first : IsRing h a xs
  pub second : IsRing h b ys
  pub apart : (p : ℕ) → count p (a ∷ xs) + count p (b ∷ ys) ≤ 1

pub swap-Apart : (h : Links) (a b : ℕ) (xs ys : List ℕ) → Apart h a b xs ys → Apart h b a ys xs
swap-Apart h a b xs ys r = record {
  first = r.second;
  second = r.first;
  apart = λ p. omega (arith, r.apart p);
}

-- What holds once the first task of `a` stands at the end of `b`.
abbrev Moved : ℕ → (ℕ → ℕ) → Links → ℕ → ℕ → ℕ → List ℕ → List ℕ → Type 0
Moved fuel jiffies h a b x xs ys =
    (g : Links) × (k : Links) × (queue_pop_task a h ≡ some (x, g))
    × (queue_add_task fuel jiffies b x g ≡ some (tt, k))
    × Apart k a b xs (ys ++ x ∷ [])

pub pop_add-Moved :
    (fuel : ℕ) (jiffies : ℕ → ℕ) (h : Links) (a b x : ℕ) (xs ys : List ℕ)
    → Apart h a b (x ∷ xs) ys
    → Moved fuel jiffies h a b x xs ys
unfolding queue_pop_task queue_add_task
pop_add-Moved fuel jiffies h a b x xs ys r =
    let (g, popped, ring_a, alone, same) = list_pop_tail-IsRing h a x xs r.first in
    let ring_b =
      frame-IsRing h g b ys (a ∷ x ∷ xs) r.second same (λ p i. omega (arith, i, r.apart p)) in
    let fresh : IsFresh x b ys = record {
      ne_null = ground (arith, r.first.nonnull);
      outside = ground (arith, r.apart x);
    } in
    let (k, added, ring_b', same') = list_add_tail-IsRing g b x ys ring_b fresh in
    let ring_a' =
      frame-IsRing g k a xs (x ∷ b ∷ ys) ring_a same' (λ p i. omega (arith, i, r.apart p)) in
    (
      g,
      k,
      popped,
      added,
      record {
        first = ring_a';
        second = ring_b';
        apart = λ p. omega (arith, r.apart p, count-append p ys (x ∷ []));
      },
    )
