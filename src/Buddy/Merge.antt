-- ===== src/Buddy/Merge.antt =====
-- One round of buddy_merge of kernel/mem/buddy.c: two free buddies become one chunk.
use advanced_operating_syste.Buddy.Invariant.{
  span, free_in, IsChunk, IsApart, IsFreeLists, IsHeld, pow_two_pos,
}
use advanced_operating_syste.Prelude.{
  Option, Bool-cases, List, arith, count, false, inl, inr, suc, true, ℕ, ◌*◌, ◌+◌, ◌<◌, ◌==◌, ◌^◌,
  ◌∙◌, ◌≡◌, ◌≢◌,
}
use advanced_operating_syste.LinkedList.Store.{Links}
use advanced_operating_syste.Buddy.State.{Pages, update, update_self}
use advanced_operating_syste.Buddy.Hold.{relinked, IsAvailable, on_list, off_list}
use advanced_operating_syste.Buddy.Remove.{Place, weight, IsWithout}
use advanced_operating_syste.Buddy.Pair.{double}

-- Two neighbouring free chunks of order `k`, of which the left one may head a chunk of the next.
pub record IsPair (s : Pages) (lists : ℕ → List ℕ) (lhs rhs k : ℕ) : Type 0 where
  pub left : IsChunk s lhs k
  pub right : IsChunk s rhs k
  pub next_to : rhs ≡ lhs + 2 ^ k
  pub aligned : (d : ℕ) × (lhs ≡ d * 2 ^ suc k)
  pub left_apart : IsApart lists lhs k
  pub right_apart : IsApart lists rhs k
  pub order_lt : suc k < 10

-- The lists in `new` are those in `lists` without the two chunks.
pub record IsWithoutPair (lists new : ℕ → List ℕ) (lhs rhs : ℕ) : Type 0 where
  pub others : (q j : ℕ) → j < 10 → q ≢ lhs → q ≢ rhs → count q (new j) ≡ count q (lists j)
  pub left_gone : (j : ℕ) → j < 10 → count lhs (new j) ≡ 0
  pub right_gone : (j : ℕ) → j < 10 → count rhs (new j) ≡ 0

abbrev pub merged : Pages → Links → ℕ → ℕ → ℕ → Pages
merged s g lhs rhs k = record s {
  links = g;
  pp_free = update s.pp_free rhs false;
  pp_order = update s.pp_order lhs (suc k);
}

module _ (s : Pages) (lists : ℕ → List ℕ) (lhs rhs k : ℕ) (pair : IsPair s lists lhs rhs k)
    (g : Links) (new : ℕ → List ℕ) (w : IsWithoutPair lists new lhs rhs) where
  was_listed :
      (q j : ℕ) → j < 10 → 0 < count q (new j) → (0 < count q (lists j)) × (q ≢ lhs) × (q ≢ rhs)
  was_listed q j b i = elim (Bool-cases (lhs == q)) [
    | inl e ↦ absurd (ground (arith, w.left_gone j b))
    | inr n ↦ elim (Bool-cases (rhs == q)) [
      | inl e ↦ absurd (ground (arith, w.right_gone j b))
      | inr m ↦ (ground (arith, w.others q j b), ground arith, ground arith)
    ]
  ]

  pair-IsApart : IsApart new lhs (suc k)
  pair-IsApart = record {
    before = λ q j b i l. pair.left_apart.before q j b (was_listed q j b i).0 l;
    behind = λ q j b i l.
        let (old, n, m) = was_listed q j b i in
        ground (
          arith,
          pair.left_apart.behind q j b old,
          pair.right_apart.behind q j b old,
          pair.right_apart.before q j b old,
          pair.next_to,
          double k,
          pow_two_pos j,
        );
  }

  pub merged-IsHeld :
      IsFreeLists (relinked s g) new
      → ((q : ℕ)
          → q ≢ lhs
          → q ≢ rhs
          → s.pp_free q ≡ true
          → (s.pp_order q < 10) × (0 < count q (lists (s.pp_order q))))
      → IsHeld (merged s g lhs rhs k) new lhs (suc k)
  merged-IsHeld o listed = record {
    lists_in_order = record {
      rings = o.rings;
      chunk = λ q j jb i.
          let (old, n, m) = was_listed q j jb i in
          let c = o.chunk q j jb i in
          record {
            free = ground (arith, c.free);
            order = ground (arith, c.order);
            aligned = c.aligned;
            within = c.within;
          };
      apart = o.apart;
    };
    order_lt = pair.order_lt;
    held = record {
      free = ground (arith, pair.left.free, pair.next_to, pow_two_pos k);
      order = update_self s.pp_order lhs (suc k);
      aligned = pair.aligned;
      within = omega (arith, pair.right.within, pair.next_to, double k);
    };
    unlisted = w.left_gone;
    held_apart = pair-IsApart;
    listed = λ q n f.
        let m : q ≢ rhs = ground arith in
        let l = listed q n m (ground arith) in
        ground (arith, l.0, l.1, w.others q (s.pp_order q) l.0);
  }

-- Removing one page after the other.
pub IsWithout-pair :
    (lists mid new : ℕ → List ℕ) (a b : ℕ)
    → IsWithout lists mid a
    → IsWithout mid new b
    → a ≢ b
    → IsWithoutPair lists new a b × IsWithoutPair lists new b a
IsWithout-pair lists mid new a b u v n =
    let away : (j : ℕ) → j < 10 → count a (new j) ≡ 0 = λ j jb. v.others a j jb n ∙ u.gone j jb in
    (
      record {
        others = λ q j jb x y. v.others q j jb y ∙ u.others q j jb x;
        left_gone = away;
        right_gone = v.gone;
      },
      record {
        others = λ q j jb x y. v.others q j jb x ∙ u.others q j jb y;
        left_gone = v.gone;
        right_gone = away;
      },
    )

-- The chunk at `p` is free; it is on its list or on none, and all else is in order.
pub record IsNearly (s : Pages) (lists : ℕ → List ℕ) (p k : ℕ) (total : Option ℕ → ℕ) : Type 0 where
  pub lists_in_order : IsFreeLists s lists
  pub at : Place lists p k
  pub mine : IsChunk s p k
  pub apart : IsApart lists p k
  pub listed :
      (q : ℕ)
      → q ≢ p
      → s.pp_free q ≡ true
      → (s.pp_order q < 10) × (0 < count q (lists (s.pp_order q)))
  pub total_eq : (w : Option ℕ) → total w + weight lists p k at w ≡ free_in lists w + span k p w

pub IsAvailable-IsNearly :
    (s : Pages) (p k : ℕ) (total : Option ℕ → ℕ)
    → IsAvailable s p k total
    → (lists : ℕ → List ℕ) × IsNearly s lists p k total
IsAvailable-IsNearly s p k total (on_list lists v b i e) = (
  lists,
  record {
    lists_in_order = v.lists_in_order;
    at = inl (b, i);
    mine = v.lists_in_order.chunk p k b i;
    apart = v.lists_in_order.apart p k b i;
    listed = λ q n f. v.listed q f;
    total_eq = λ w. omega (arith, e w);
  },
)
IsAvailable-IsNearly s p k total (off_list lists v e) = (
  lists,
  record {
    lists_in_order = v.lists_in_order;
    at = inr v.unlisted;
    mine = v.held;
    apart = v.held_apart;
    listed = v.listed;
    total_eq = λ w. omega (arith, e w);
  },
)
