-- ===== src/Buddy/Join.antt =====
-- One round of buddy_merge of kernel/mem/buddy.c, run on the lists.
use advanced_operating_syste.Buddy.Invariant.{
  span_double, free_in, span, IsFreeLists, IsBuddy, IsHeld,
}
use advanced_operating_syste.Buddy.Place.{place}
use advanced_operating_syste.Prelude.{
  Option, List, arith, count, if◌then◌else◌, inl, inr, refl, some, suc, sym, true, ℕ, ◌%◌, ◌+◌, ◌<◌,
  ◌==◌, ◌^◌, ◌∙◌, ◌∷◌, ◌≡◌, ◌≢◌, ◌⊎◌,
}
use advanced_operating_syste.LinkedList.{list_del}
use advanced_operating_syste.LinkedList.Store.{Links}
use advanced_operating_syste.Buddy.{merge_once}
use advanced_operating_syste.Buddy.State.{Pages, update, update_self, pp_node}
use advanced_operating_syste.Buddy.Rings.{Quiet}
use advanced_operating_syste.Buddy.Hold.{relinked}
use advanced_operating_syste.Buddy.Split.{SameData}
use advanced_operating_syste.Buddy.Remove.{Place, weight, IsWithout, list_del-Removes}
use advanced_operating_syste.Buddy.Merge.{
  IsPair, IsWithoutPair, IsWithout-pair, IsNearly, merged, merged-IsHeld,
}

-- What a merge promises: no panic, a chunk of order `k` at `lhs` on its list, the free lists in
-- order, no free page lost, and nothing but the lists touched.
abbrev pub Joins : Option (Unit {0} × Pages) → Pages → ℕ → ℕ → (Option ℕ → ℕ) → Type 0
Joins run s lhs k total =
    (t : Pages) × (run ≡ some (tt, t))
    × (new : ℕ → List ℕ) × IsBuddy t new
    × (0 < count lhs (new k))
    × ((x : Option ℕ) → total x ≡ free_in new x)
    × SameData s t

-- The place of `p` once another page has left the lists.
Place-left :
    (lists mid : ℕ → List ℕ) (b p k : ℕ) (at : Place lists p k)
    → IsWithout lists mid b
    → p ≢ b
    → (now : Place mid p k) × ((x : Option ℕ) → weight mid p k now x ≡ weight lists p k at x)
Place-left lists mid b p k (inl (kb, i)) w n =
    (inl (kb, ground (arith, w.others p k kb n)), λ x. refl)
Place-left lists mid b p k (inr unlisted) w n =
    (inr (λ j jb. w.others p j jb n ∙ unlisted j jb), λ x. refl)

module _ (s : Pages) (lists : ℕ → List ℕ) (p b k : ℕ) (total : Option ℕ → ℕ)
    (v : IsNearly s lists p k total) where
  -- Both chunks leave the lists, the buddy first.
  remove_both :
      k < 10
      → 0 < count b (lists k)
      → p ≢ b
      → (g₁ g : Links) × (new : ℕ → List ℕ) × (list_del (pp_node b) s.links ≡ some (tt, g₁))
        × (list_del (pp_node p) g₁ ≡ some (tt, g))
        × IsFreeLists (relinked s g) new
        × IsWithoutPair lists new p b
        × IsWithoutPair lists new b p
        × ((x : Option ℕ) → total x ≡ free_in new x + span k p x + span k b x)
        × Quiet s.links g
  remove_both kb i n =
      let (g₁, mid, ran₁, o₁, w₁, e₁, quiet₁) =
        list_del-Removes s lists b k v.lists_in_order (inl (kb, i)) in
      let (now, same) = Place-left lists mid b p k v.at w₁ n in
      let (g, new, ran, o, w, e, quiet) = list_del-Removes (relinked s g₁) mid p k o₁ now in
      let (one, other) = IsWithout-pair lists mid new b p w₁ w (λ x. n (sym x)) in
      (
        g₁,
        g,
        new,
        ran₁,
        ran,
        o,
        other,
        one,
        λ x. omega (arith, e₁ x, e x, same x, v.total_eq x),
        λ a x heads. (
          (quiet a x heads).0 ∙ (quiet₁ a x heads).0,
          (quiet a x heads).1 ∙ (quiet₁ a x heads).1,
        ),
      )

  -- One round, where `lhs` is the left one of the two chunks and `rhs` the right one.
  module _ (lhs rhs : ℕ) (pair : IsPair s lists lhs rhs k) where
    pub merge_once-Joins :
        0 < count b (lists k)
        → p ≢ b
        → ((p ≡ lhs) × (b ≡ rhs)) ⊎ ((p ≡ rhs) × (b ≡ lhs))
        → Joins (merge_once p b lhs s) s lhs (suc k) total
    unfolding merge_once
    merge_once-Joins i n sides =
        let (g₁, g, new, ran₁, ran, o, w, w', e, quiet) =
          remove_both (omega (arith, pair.order_lt)) i n in
        let away : IsWithoutPair lists new lhs rhs = elim sides [
          | inl x ↦ rw (← x.0, ← x.1) w
          | inr x ↦ rw (← x.0, ← x.1) w'
        ] in
        let held : IsHeld (merged s g lhs rhs k) new lhs (suc k) =
          merged-IsHeld s lists lhs rhs k pair g new away o (λ q x y f.
            v.listed q (elim sides [ inl z ↦ (λ h. x (h ∙ z.0)) | inr z ↦ (λ h. y (h ∙ z.0)) ])
              f) in
        let (g₂, ran₂, done, e₂, quiet₂) = place (merged s g lhs rhs k) new lhs (suc k) held in
        let freed : (if b == lhs then p else b) ≡ rhs = ground arith in
        let order : s.pp_order lhs ≡ k = pair.left.order in
        let up : (k + 1) % 128 ≡ suc k = omega (arith, pair.order_lt) in
        let self : (lhs == lhs) ≡ true = ground arith in
        let both : (x : Option ℕ)
            → span k p x + span k b x ≡ span k lhs x + span k (lhs + 2 ^ k) x =
          λ x.
            rw (← pair.next_to)
              (elim sides [ inl z ↦ rw (z.0, z.1) refl | inr z ↦ rw (z.0, z.1) (omega arith) ]) in
        (
          relinked (merged s g lhs rhs k) g₂,
          rw (ran₁, ran, freed, order, self, up, ran₂) refl,
          update new (suc k) (lhs ∷ new (suc k)),
          done,
          rw (update_self new (suc k) (lhs ∷ new (suc k))) (ground arith),
          λ x. omega (arith, e x, e₂ x, span_double k lhs x, both x),
          record {
            npages = refl;
            pp_ref = refl;
            pp_zero = refl;
            memory = refl;
            quiet = λ a x heads. (
              (quiet₂ a x heads).0 ∙ (quiet a x heads).0,
              (quiet₂ a x heads).1 ∙ (quiet a x heads).1,
            );
          },
        )
