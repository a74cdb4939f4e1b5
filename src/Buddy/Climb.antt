-- ===== src/Buddy/Climb.antt =====
-- buddy_merge of kernel/mem/buddy.c: merging upwards, order by order.
use advanced_operating_syste.Buddy.Partner.{
  join_left, buddy_left, join_right, buddy_right, order_above_le, order_above-lower,
  order_above_top, order_above, buddy_page, has_buddy, some_empty, Merges,
}
use advanced_operating_syste.Prelude.{
  if◌then◌else◌, Bool-cases, zero, List, Option, arith, count, false, inl, inr, none, refl, some,
  subst, suc, true, ℕ, ◌%◌, ◌+◌, ◌-◌, ◌<◌, ◌==◌, ◌^◌, ◌≡◌, ◌≤◌,
}
use advanced_operating_syste.Buddy.Invariant.{free_in, IsBuddy, pow_two_pos}
use advanced_operating_syste.Buddy.Pair.{halves, double}
use advanced_operating_syste.Buddy.Split.{SameData-refl, SameData-trans, SameData}
use advanced_operating_syste.Buddy.Hold.{on_list, IsAvailable}
use advanced_operating_syste.Buddy.State.{pure, ◌>>=◌, and_then, Pages, free_list}
use advanced_operating_syste.Buddy.Merge.{IsAvailable-IsNearly}
use advanced_operating_syste.Buddy.{buddy_merge, merge_once, buddy_of, buddy_on_right}
use advanced_operating_syste.LinkedList.{list_is_empty}
use advanced_operating_syste.Buddy.Join.{Joins}

-- After a round the merge goes on with the larger chunk; whatever it returns, it returns NULL.
go_on :
    (fuel : ℕ) (s : Pages) (p lhs k : ℕ) (total : Option ℕ → ℕ) (round : Option (Unit {0} × Pages))
    → Joins round s lhs (suc k) total
    → suc k < 10
    → ((t : Pages) (lists : ℕ → List ℕ)
        → IsBuddy t lists
        → 0 < count lhs (lists (suc k))
        → ((x : Option ℕ) → total x ≡ free_in lists x)
        → SameData s t
        → Merges (buddy_merge fuel lhs t) t lhs (suc k) total)
    → has_buddy s p k ≡ true
    → (lhs ≤ p) × (p + 2 ^ k ≤ lhs + 2 ^ suc k)
    → Merges (and_then round (λ _. buddy_merge fuel lhs >>= λ merged. pure none)) s p k total
go_on fuel s p lhs k total round (t, ran, new, w, i, e, same) b next has (left, right) =
    let up : order_above k ≡ suc k = order_above-lower k (omega (arith, b)) in
    let least : suc k ≤ order_above (suc k) = order_above_le (suc k) in
    elim (next t new w i e same) [
      | inl (stays, _, _) ↦ inr (
        inr has,
        t,
        new,
        rw (ran, stays) refl,
        w,
        e,
        same,
        rw up (lhs, suc k, b, omega arith, i, left, right),
      )
      | inr (_, u, lists, climbs, w', e', same', (q, j, jb, l, c, before, behind)) ↦ inr (
        inr has,
        u,
        lists,
        rw (ran, climbs) refl,
        w',
        e',
        SameData-trans s t u same same',
        rw up (
          q,
          j,
          jb,
          omega (arith, l, least),
          c,
          omega (arith, before, left),
          omega (arith, behind, right),
        ),
      )
    ]

-- A chunk of the highest order is on its list.
abbrev pub IsTop : Pages → ℕ → ℕ → (Option ℕ → ℕ) → Type 0
IsTop s p k total =
    k ≡ 9
    → (lists : ℕ → List ℕ) × IsBuddy s lists
      × (0 < count p (lists 9))
      × ((x : Option ℕ) → total x ≡ free_in lists x)

-- A round with the buddy `b`, which ends here unless the two chunks can be joined.
with_buddy :
    (fuel : ℕ) (s : Pages) (p k : ℕ) (total : Option ℕ → ℕ) (b lhs : ℕ)
    → s.pp_order p ≡ k
    → s.pp_free p ≡ true
    → k < 9
    → list_is_empty (free_list k) s.links ≡ some (false, s.links)
    → buddy_of p k s ≡ some (b, s)
    → (if buddy_on_right p k then p else b) ≡ lhs
    → (s.pp_free b ≡ true → s.pp_order b ≡ k → Joins (merge_once p b lhs s) s lhs (suc k) total)
    → ((t : Pages) (lists : ℕ → List ℕ)
        → IsBuddy t lists
        → 0 < count lhs (lists (suc k))
        → ((x : Option ℕ) → total x ≡ free_in lists x)
        → SameData s t
        → Merges (buddy_merge fuel lhs t) t lhs (suc k) total)
    → buddy_page p k ≡ b
    → (lhs ≤ p) × (p + 2 ^ k ≤ lhs + 2 ^ suc k)
    → Merges (buddy_merge (suc fuel) p s) s p k total
unfolding buddy_merge
with_buddy fuel s p k total b lhs order free kb some_there buddy side join next other_half sides =
    let lower : (k == 9) ≡ false = ground arith in
    elim (Bool-cases (s.pp_free b)) [
      | inr used ↦
          inl
            (rw (order, lower, some_there, buddy, free, used) refl, kb, rw (other_half, used) refl)
      | inl idle ↦ elim (Bool-cases (k == s.pp_order b)) [
        | inr other ↦ inl (
          rw (order, lower, some_there, buddy, free, idle, other) refl,
          kb,
          rw (other_half, idle) (ground (arith, other)),
        )
        | inl equal ↦
            rw (order, lower, some_there, buddy, free, idle, equal, side)
              (go_on fuel s p lhs k total (merge_once p b lhs s) (join idle (ground arith))
                (omega arith) next (rw (other_half, idle) (ground (arith, equal))) sides)
      ]
    ]

pub buddy_merge-Merges :
    (fuel : ℕ) (s : Pages) (p k : ℕ) (total : Option ℕ → ℕ)
    → IsAvailable s p k total
    → s.npages % 512 ≡ 0
    → k < 10
    → 10 ≤ fuel + k
    → IsTop s p k total
    → Merges (buddy_merge fuel p s) s p k total
unfolding buddy_merge
buddy_merge-Merges zero s p k total a whole b f top = absurd (omega arith)
buddy_merge-Merges (suc fuel) s p k total a whole b f top =
    let (lists, v) = IsAvailable-IsNearly s p k total a in
    let order : s.pp_order p ≡ k = v.mine.order in
    let free : s.pp_free p ≡ true = v.mine.free in
    let inside : p < s.npages = omega (arith, v.mine.within, pow_two_pos k) in
    let (empty, tested, lone) = some_empty s lists p k total v b in
    let climb : (lhs : ℕ)
        → k < 9
        → (t : Pages) (new : ℕ → List ℕ) → IsBuddy t new
        → 0 < count lhs (new (suc k))
        → ((x : Option ℕ) → total x ≡ free_in new x)
        → SameData s t
        → Merges (buddy_merge fuel lhs t) t lhs (suc k) total =
      λ lhs kb t new w i e same.
        buddy_merge-Merges fuel t lhs (suc k) total (on_list new w (omega arith) i e)
          (rw same.npages whole) (omega arith) (omega arith)
          (λ x. (new, w, subst (λ n. 0 < count lhs (new n)) x i, e)) in
    elim (Bool-cases (k == 9)) [
      | inl highest ↦
          let nine : k ≡ 9 = ground arith in
          let (all, w, i, e) = top nine in
          let least : order_above k ≤ 9 = order_above_top k nine in
          inr (
            inl nine,
            s,
            all,
            rw (order, highest) refl,
            w,
            e,
            SameData-refl s,
            (p, 9, omega arith, least, i, omega arith, rw nine (omega arith)),
          )
      | inr lower ↦
          let kb : k < 9 = ground arith in
          elim (Bool-cases empty) [
            | inl none_there ↦ inl (rw (order, lower, tested, none_there) refl, kb, lone none_there)
            | inr some_there ↦
                let here : list_is_empty (free_list k) s.links ≡ some (false, s.links) =
                  rw some_there at tested in
                let (d, half) = halves p k v.mine.aligned.0 v.mine.aligned.1 in
                elim half [
                  | inl (e, side) ↦
                      with_buddy fuel s p k total (p + 2 ^ k) p order free kb here
                        (buddy_right s p k kb whole d e inside side) (rw side refl)
                        (join_right s lists p k total v d e (omega arith)) (climb p kb)
                        (rw side refl) (omega arith, omega (arith, double k))
                  | inr (e, side) ↦
                      with_buddy fuel s p k total (p - 2 ^ k) (p - 2 ^ k) order free kb here
                        (buddy_left s p k kb whole (omega (arith, e)) inside side) (rw side refl)
                        (join_left s lists p k total v d e (omega arith)) (climb (p - 2 ^ k) kb)
                        (rw side refl) (omega arith, omega (arith, e, double k))
                ]
          ]
    ]
