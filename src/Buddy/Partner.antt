-- ===== src/Buddy/Partner.antt =====
-- The buddy of a chunk in buddy_merge of kernel/mem/buddy.c, and one round of merging with it.
use advanced_operating_syste.Prelude.{
  [], ◌∷◌, ◌&&◌, if◌then◌else◌, Bool-cases, Bool, List, Option, arith, count, false, inl, inr, leb,
  ltb, none, refl, some, subst, suc, sym, true, ℕ, ◌%◌, ◌*◌, ◌+◌, ◌-◌, ◌<◌, ◌==◌, ◌^◌, ◌≡◌, ◌≢◌,
  ◌≤◌, ◌⊎◌,
}
use advanced_operating_syste.Buddy.Invariant.{free_in, IsBuddy, pow_two_pos}
use advanced_operating_syste.Buddy.Pair.{halves, double, pair_within, page_index_lem}
use advanced_operating_syste.Buddy.Split.{SameData}
use advanced_operating_syste.Buddy.State.{Pages, free_list}
use advanced_operating_syste.Buddy.Merge.{IsPair, IsNearly}
use advanced_operating_syste.Buddy.{merge_once, buddy_of, buddy_on_right}
use advanced_operating_syste.LinkedList.{list_is_empty}
use advanced_operating_syste.LinkedList.Store.{null}
use advanced_operating_syste.LinkedList.Walk.{list_head-IsRing, first}
use advanced_operating_syste.Buddy.Rings.{nodes}
use advanced_operating_syste.Buddy.Join.{Joins, merge_once-Joins}

-- The other half of the chunk of the next order.
abbrev pub buddy_page : ℕ → ℕ → ℕ
buddy_page p k = if buddy_on_right p k then p + 2 ^ k else p - 2 ^ k

-- Whether that is a free chunk.
abbrev pub has_buddy : Pages → ℕ → ℕ → Bool
has_buddy s p k = s.pp_free (buddy_page p k) && s.pp_order (buddy_page p k) == k

-- The `2 ^ k` pages from `p` on lie in one chunk on a list of the order `least` or above.
abbrev pub IsInside : (ℕ → List ℕ) → ℕ → ℕ → ℕ → Type 0
IsInside lists p k least =
    (q : ℕ) × (j : ℕ) × (j < 10)
    × (least ≤ j)
    × (0 < count q (lists j))
    × (q ≤ p)
    × (p + 2 ^ k ≤ q + 2 ^ j)

-- The order a merged chunk has at least.
pub order_above : ℕ → ℕ
order_above k = if k == 9 then k else suc k

pub order_above-lower : (k : ℕ) → k < 9 → order_above k ≡ suc k
unfolding order_above
order_above-lower k h = ground arith

pub order_above_top : (k : ℕ) → k ≡ 9 → order_above k ≤ 9
unfolding order_above
order_above_top k h = ground arith

pub order_above_le : (k : ℕ) → k ≤ order_above k
unfolding order_above
order_above_le k = ground arith

-- What buddy_merge of `p` promises: no panic. Below the highest order and without a free buddy it
-- returns `p` and changes nothing; otherwise it returns NULL, the free lists hold what they held
-- with the chunk, and the chunk is part of a larger one on a list, or itself on the last list.
abbrev pub Merges : Option (Option ℕ × Pages) → Pages → ℕ → ℕ → (Option ℕ → ℕ) → Type 0
Merges run s p k total =
    ((run ≡ some (some p, s)) × (k < 9) × (has_buddy s p k ≡ false))
    ⊎ (((k ≡ 9) ⊎ (has_buddy s p k ≡ true))
        × (t : Pages) × (lists : ℕ → List ℕ) × (run ≡ some (none, t))
        × IsBuddy t lists
        × ((x : Option ℕ) → total x ≡ free_in lists x)
        × SameData s t
        × IsInside lists p k (order_above k))

module _ (s : Pages) (p k : ℕ) (k_lt : k < 9) (whole : s.npages % 512 ≡ 0) where
  pub buddy_right :
      (d : ℕ)
      → p ≡ d * 2 ^ suc k
      → p < s.npages
      → buddy_on_right p k ≡ true
      → buddy_of p k s ≡ some (p + 2 ^ k, s)
  unfolding buddy_of
  buddy_right d e l side =
      let room = pair_within p k d s.npages whole k_lt e l in
      let inside : ltb (p + 2 ^ k) s.npages ≡ true =
        ground (arith, room, double k, pow_two_pos k) in
      rw (side, page_index_lem p, inside) refl

  pub buddy_left :
      2 ^ k ≤ p → p < s.npages → buddy_on_right p k ≡ false → buddy_of p k s ≡ some (p - 2 ^ k, s)
  unfolding buddy_of
  buddy_left e l side =
      let above : leb (2 ^ k) p ≡ true = ground arith in
      let inside : ltb (p - 2 ^ k) s.npages ≡ true = ground arith in
      rw (side, page_index_lem p, above, inside) refl

pub buddy_ne : (p k c : ℕ) → p ≡ c * 2 ^ k → buddy_page p k ≢ p
buddy_ne p k c aligned same =
    let (d, half) = halves p k c aligned in
    elim half [
      | inl (e, side) ↦
          let there : buddy_page p k ≡ p + 2 ^ k = rw side refl in
          omega (arith, same, there, pow_two_pos k)
      | inr (e, side) ↦
          let there : buddy_page p k ≡ p - 2 ^ k = rw side refl in
          omega (arith, same, there, e, pow_two_pos k)
    ]

nothing_there : (q : ℕ) (xs : List ℕ) → (first (nodes xs) == null) ≡ true → count q xs ≡ 0
nothing_there q [] e = refl
nothing_there q (x ∷ xs) e = absurd (ground (arith, e))

module _ (s : Pages) (lists : ℕ → List ℕ) (p k : ℕ) (total : Option ℕ → ℕ)
    (v : IsNearly s lists p k total) where
  -- A free page of order `k` other than `p` is on the list of that order.
  listed_buddy :
      (b : ℕ) → b ≢ p → s.pp_free b ≡ true → s.pp_order b ≡ k → (k < 10) × (0 < count b (lists k))
  listed_buddy b n f e =
      let l = v.listed b n f in subst (λ i. (i < 10) × (0 < count b (lists i))) e l

  right-IsPair :
      (d : ℕ)
      → p ≡ d * 2 ^ suc k
      → suc k < 10
      → 0 < count (p + 2 ^ k) (lists k)
      → IsPair s lists p (p + 2 ^ k) k
  right-IsPair d e b i = record {
    left = v.mine;
    right = v.lists_in_order.chunk (p + 2 ^ k) k (omega arith) i;
    next_to = refl;
    aligned = (d, e);
    left_apart = v.apart;
    right_apart = v.lists_in_order.apart (p + 2 ^ k) k (omega arith) i;
    order_lt = b;
  }

  left-IsPair :
      (d : ℕ)
      → p ≡ d * 2 ^ suc k + 2 ^ k
      → suc k < 10
      → 0 < count (p - 2 ^ k) (lists k)
      → IsPair s lists (p - 2 ^ k) p k
  left-IsPair d e b i = record {
    left = v.lists_in_order.chunk (p - 2 ^ k) k (omega arith) i;
    right = v.mine;
    next_to = omega arith;
    aligned = (d, omega arith);
    left_apart = v.lists_in_order.apart (p - 2 ^ k) k (omega arith) i;
    right_apart = v.apart;
    order_lt = b;
  }

  -- The round, on either side.
  pub join_right :
      (d : ℕ)
      → p ≡ d * 2 ^ suc k
      → suc k < 10
      → s.pp_free (p + 2 ^ k) ≡ true
      → s.pp_order (p + 2 ^ k) ≡ k
      → Joins (merge_once p (p + 2 ^ k) p s) s p (suc k) total
  join_right d e b f o =
      let apart : p ≢ p + 2 ^ k = λ x. omega (arith, x, pow_two_pos k) in
      let i = (listed_buddy (p + 2 ^ k) (λ x. apart (sym x)) f o).1 in
      merge_once-Joins s lists p (p + 2 ^ k) k total v p (p + 2 ^ k) (right-IsPair d e b i) i apart
        (inl (refl, refl))

  pub join_left :
      (d : ℕ)
      → p ≡ d * 2 ^ suc k + 2 ^ k
      → suc k < 10
      → s.pp_free (p - 2 ^ k) ≡ true
      → s.pp_order (p - 2 ^ k) ≡ k
      → Joins (merge_once p (p - 2 ^ k) (p - 2 ^ k) s) s (p - 2 ^ k) (suc k) total
  join_left d e b f o =
      let apart : p ≢ p - 2 ^ k = λ x. omega (arith, x, e, pow_two_pos k) in
      let i = (listed_buddy (p - 2 ^ k) (λ x. apart (sym x)) f o).1 in
      merge_once-Joins s lists p (p - 2 ^ k) k total v (p - 2 ^ k) p (left-IsPair d e b i) i apart
        (inr (refl, refl))

  -- An empty list of the order has no buddy on it.
  pub some_empty :
      k < 10
      → (b : Bool) × (list_is_empty (free_list k) s.links ≡ some (b, s.links))
        × (b ≡ true → has_buddy s p k ≡ false)
  some_empty b = (
    first (nodes (lists k)) == null,
    (list_head-IsRing s.links (free_list k) (nodes (lists k)) (v.lists_in_order.rings.ring k b)).0,
    λ e. elim (Bool-cases (has_buddy s p k)) [
      | inr lone ↦ lone
      | inl has ↦
          let listed =
            listed_buddy (buddy_page p k) (buddy_ne p k v.mine.aligned.0 v.mine.aligned.1)
              (ground (arith, has)) (ground (arith, has)) in
          absurd (omega (arith, listed.1, nothing_there (buddy_page p k) (lists k) e))
    ],
  )
