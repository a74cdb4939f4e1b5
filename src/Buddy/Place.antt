-- ===== src/Buddy/Place.antt =====
-- Putting a chunk on its free list, as buddy.c does with list_add.
use advanced_operating_syste.Buddy.Invariant.{
  free_in-update, span, free_in, IsBuddy, IsChunk, IsApart, IsHeld,
}
use advanced_operating_syste.Prelude.{
  Option, Bool-cases, List, arith, count, inl, inr, some, true, ℕ, ◌+◌, ◌<◌, ◌==◌, ◌^◌, ◌∷◌, ◌≡◌,
  ◌≤◌, ◌⊎◌,
}
use advanced_operating_syste.Buddy.Rings.{list_add-Rings, Quiet}
use advanced_operating_syste.Buddy.Hold.{relinked}
use advanced_operating_syste.Buddy.State.{pp_node, free_list, update_self, update, Pages}
use advanced_operating_syste.LinkedList.{list_add}
use advanced_operating_syste.LinkedList.Store.{Links}

module _ (s : Pages) (lists : ℕ → List ℕ) (p k : ℕ) where
  -- A page of the list that grew by `p`.
  pub new_cases :
      (q j : ℕ)
      → 0 < count q (update lists k (p ∷ lists k) j)
      → ((q ≡ p) × (j ≡ k)) ⊎ (0 < count q (lists j))
  new_cases q j i = elim (Bool-cases (k == j)) [
    | inl e ↦ elim (Bool-cases (p == q)) [
      | inl here ↦ inl (ground arith)
      | inr there ↦ inr (ground arith)
    ]
    | inr n ↦ inr (rw n at i)
  ]

  new-IsChunk :
      IsHeld s lists p k
      → (q j : ℕ) → j < 10
      → 0 < count q (update lists k (p ∷ lists k) j)
      → IsChunk s q j
  new-IsChunk v q j jb i = elim (new_cases q j i) [
    | inl e ↦ rw (e.0, e.1) v.held
    | inr old ↦ v.lists_in_order.chunk q j jb old
  ]

  -- A chunk that is apart from the old ones and from `p`.
  IsApart-new :
      (q j : ℕ)
      → IsApart lists q j
      → (p < q → p + 2 ^ k ≤ q)
      → (q < p → q + 2 ^ j ≤ p)
      → IsApart (update lists k (p ∷ lists k)) q j
  IsApart-new q j a low high = record {
    before = λ x i b c l. elim (new_cases x i c) [
      | inl e ↦ rw (e.0, e.1) (low (omega (arith, e.0)))
      | inr old ↦ a.before x i b old l
    ];
    behind = λ x i b c l. elim (new_cases x i c) [
      | inl e ↦ rw (e.0) (high (omega (arith, e.0)))
      | inr old ↦ a.behind x i b old l
    ];
  }

  new-IsApart :
      IsHeld s lists p k
      → (q j : ℕ) → j < 10
      → 0 < count q (update lists k (p ∷ lists k) j)
      → IsApart (update lists k (p ∷ lists k)) q j
  new-IsApart v q j jb i = elim (new_cases q j i) [
    | inl e ↦
        rw (e.0, e.1)
          (IsApart-new p k v.held_apart (λ l. absurd (omega arith)) (λ l. absurd (omega arith)))
    | inr old ↦
        IsApart-new q j (v.lists_in_order.apart q j jb old) (v.held_apart.behind q j jb old)
          (v.held_apart.before q j jb old)
  ]

  new_listed :
      IsHeld s lists p k
      → (q : ℕ) → s.pp_free q ≡ true
      → (s.pp_order q < 10) × (0 < count q (update lists k (p ∷ lists k) (s.pp_order q)))
  new_listed v q f = elim (Bool-cases (p == q)) [
    | inl e ↦
        let same : q ≡ p = ground arith in
        rw (same, v.held.order, update_self lists k (p ∷ lists k)) (v.order_lt, ground arith)
    | inr n ↦
        let l = v.listed q (ground arith) f in
        (
          l.0,
          elim (Bool-cases (k == s.pp_order q)) [
            | inl e ↦ rw e (ground (arith, l.1))
            | inr ne ↦ rw ne l.1
          ],
        )
  ]

  -- On the list of its order.
  pub place :
      IsHeld s lists p k
      → (g : Links) × (list_add (free_list k) (pp_node p) s.links ≡ some (tt, g))
        × IsBuddy (relinked s g) (update lists k (p ∷ lists k))
        × ((w : Option ℕ) → free_in (update lists k (p ∷ lists k)) w ≡ free_in lists w + span k p w)
        × Quiet s.links g
  place v =
      let (g, ran, rings, quiet) =
        list_add-Rings s.links lists k p v.lists_in_order.rings v.order_lt v.unlisted in
      (
        g,
        ran,
        record {
          lists_in_order = record {
            rings = rings;
            chunk = λ q j jb i.
                let c = new-IsChunk v q j jb i in
                record { free = c.free; order = c.order; aligned = c.aligned; within = c.within };
            apart = new-IsApart v;
          };
          listed = new_listed v;
        },
        λ w. omega (arith, free_in-update k lists (p ∷ lists k) w v.order_lt),
        quiet,
      )
