-- ===== src/Rbtree/Tests.antt =====
-- Runs of the tree of lib/rbtree.c, and its theorem at a concrete tree.
use advanced_operating_syste.Prelude.{
  Option, [], arith, false, if◌then◌else◌, none, not, refl, some, suc, true, zero, ℕ, ◌&&◌, ◌==◌,
  ◌∷◌, ◌≡◌,
}
use advanced_operating_syste.Rbtree.Balance.{rb_balance-IsRedBlack, Balances}
use advanced_operating_syste.Prelude.Int.{pos}
use advanced_operating_syste.LinkedList.Store.{null}
use advanced_operating_syste.Rbtree.Store.{Nodes}
use advanced_operating_syste.Rbtree.Tree.{Tree, leaf, branch, frame}
use advanced_operating_syste.Rbtree.{rb_balance, rb_first, rb_next, rb_prev, rb_last}
use advanced_operating_syste.Rbtree.Remove.{rb_remove, rb_replace}

-- The root 30 has the red child 10 on the left, and 20 hangs on the right of that.
abbrev bent : Nodes
bent = record {
  root = 30;
  parent = λ p. if p == 20 then 10 else (if p == 10 then 30 else 0);
  child = λ d p. if (p == 30) && not d then 10 else (if (p == 10) && d then 20 else 0);
  is_red = λ p. p == 10;
}

-- The nodes as a tree, read off a store from `p` on; fuel bounds the depth.
abbrev tree_of : ℕ → Nodes → ℕ → Tree
tree_of zero s p = leaf
tree_of (suc fuel) s p =
    let l = tree_of fuel s (s.child false p) in
    let r = tree_of fuel s (s.child true p) in if p == null then leaf else branch (s.is_red p) l p r

abbrev tree_after : {A : Type 0} → Option (A × Nodes) → Option Tree
tree_after none = none
tree_after (some (a, s)) = some (tree_of 5 s s.root)

abbrev tree_root : Tree → ℕ
tree_root leaf = null
tree_root (branch red l x r) = x

-- The tree as nodes with parent pointers: the parent and the side of each, and its color.
abbrev link : ℕ → Tree → Nodes → Nodes
link par leaf s = s
link par (branch red l x r) s =
    let low = link x l (link x r s) in
    record {
      root = low.root;
      parent = λ p. if p == x then par else low.parent p;
      child = λ d p. if p == x then (if d then tree_root r else tree_root l) else low.child d p;
      is_red = λ p. if p == x then red else low.is_red p;
    }

balanced_run :
    tree_after (rb_balance 3 20 bent)
    ≡ some (branch false (branch true leaf 10 leaf) 20 (branch true leaf 30 leaf))
unfolding rb_balance
balanced_run = refl

rb_balance_example :
    Balances
      (rb_balance 3 20 bent)
      (pos 0)
      (branch false (branch true leaf 10 (branch false leaf 20 leaf)) 30 leaf)
rb_balance_example =
    rb_balance-IsRedBlack bent 10 20 false leaf leaf
      (frame true true 10 leaf ∷ frame false false 30 leaf ∷ []) 0 3
      (refl, omega arith, refl, refl, refl, refl)
      (refl, omega arith, refl, refl, refl, (refl, omega arith, refl, refl, refl, (refl, refl)))
      (λ q. ground arith) refl refl (refl, refl, (refl, refl, refl)) (omega arith)

-- Six nodes, red-black.
abbrev six : Tree
six =
    branch false (branch false (branch true leaf 1 leaf) 2 (branch true leaf 3 leaf)) 4
      (branch false (branch true leaf 5 leaf) 6 leaf)

abbrev empty : Nodes
empty = record { root = 4; parent = λ p. null; child = λ d p. null; is_red = λ p. false }

abbrev answer : Option (ℕ × Nodes) → Option ℕ
answer none = none
answer (some (p, s)) = some p

walk_run :
    (answer (rb_first 5 (link null six empty)) ≡ some 1)
    × (answer (rb_next 5 3 (link null six empty)) ≡ some 4)
    × (answer (rb_prev 5 1 (link null six empty)) ≡ some 0)
    × (answer (rb_last 5 (link null six empty)) ≡ some 6)
unfolding rb_first rb_next rb_prev rb_last
walk_run = (refl, refl, refl, refl)

-- Removing the root reads through NULL.
remove_root_run : rb_remove 9 4 (link null six empty) ≡ none
unfolding rb_remove
remove_root_run = refl

-- A black leaf is taken out and nothing is turned: three nodes, then two black ones below each other.
remove_leaf_run :
    tree_after (
      rb_remove 9 1
        (link null (branch false (branch false leaf 1 leaf) 4 (branch false leaf 5 leaf)) empty))
    ≡ some (branch false leaf 4 (branch false leaf 5 leaf))
unfolding rb_remove
remove_leaf_run = refl

replace_run :
    tree_after (rb_replace 4 7 (link null six empty))
    ≡ some (
        branch false
          (branch false (branch true leaf 1 leaf) 2 (branch true leaf 3 leaf))
          7
          (branch false (branch true leaf 5 leaf) 6 leaf))
unfolding rb_replace
replace_run = refl
