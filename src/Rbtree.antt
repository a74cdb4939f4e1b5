-- ===== src/Rbtree.antt =====
-- lib/rbtree.c: the red-black tree that the areas of a task hang on, function by function.
pub mod Store
pub mod Tree
pub mod Rotate
pub mod Turn
pub mod Colors
pub mod Mend
pub mod Lined
pub mod Bent
pub mod Straighten
pub mod Round
pub mod Plug
pub mod Loop
pub mod Rounds
pub mod Balance
pub mod Remove
mod Tests
use advanced_operating_syste.Prelude.Int.{pos, negsuc, ℤ}
use advanced_operating_syste.LinkedList.Store.{null}
use advanced_operating_syste.Rbtree.Store.{
  Op, pure, ◌>>=◌, ◌>>◌, parent_of, child_of, red_of, root_of, and_then, set_parent, set_child,
  set_red, set_root, set_parent_if,
}
use advanced_operating_syste.Prelude.{
  ℕ, zero, suc, Bool, true, false, not, Option, none, some, ◌==◌, ◌&&◌, ◌||◌, if◌then◌else◌,
}

-- `parent->child[parent->child[RB_RIGHT] == node] = child`, or the root where there is no parent.
abbrev pub replace_child : ℕ → ℕ → ℕ → Op (Unit {0})
replace_child parent node child =
    if parent == null
    then set_root child
    else do right ← child_of true parent; set_child (right == node) parent child

unfoldable pub rotate_node : ℕ → Bool → Op (Unit {0})
rotate_node node dir = do
  parent ← parent_of node
  child ← child_of (not dir) node
  inner ← child_of dir child
  set_child (not dir) node inner
  set_parent_if inner node
  set_child dir child node
  set_parent child parent
  replace_child parent node child
  set_parent node child

-- The loop of get_outermost; fuel bounds the depth.
unfoldable pub outermost_loop : ℕ → ℕ → Bool → Op ℕ
outermost_loop zero node dir = λ s. none
outermost_loop (suc fuel) node dir = do
  child ← child_of dir node
  λ s. elim (child == null) [ true ↦ some (node, s) | false ↦ outermost_loop fuel child dir s ]

unfoldable pub get_outermost : ℕ → ℕ → Bool → Op ℕ
unfolding outermost_loop
get_outermost fuel node dir = if node == null then pure null else outermost_loop fuel node dir

-- The loop of get_closest.
unfoldable pub climb : ℕ → ℕ → Bool → Op ℕ
climb zero node dir = λ s. none
climb (suc fuel) node dir = do
  parent ← parent_of node
  λ s. elim (parent == null) [
    | true ↦ some (null, s)
    | false ↦ elim (s.child dir parent == node) [
      | true ↦ climb fuel parent dir s
      | false ↦ some (parent, s)
    ]
  ]

unfoldable pub get_closest : ℕ → ℕ → Bool → Op ℕ
unfolding get_outermost climb
get_closest fuel node dir = if node == null then pure null else do
  child ← child_of dir node
  if child == null then climb fuel node dir else get_outermost fuel child (not dir)

unfoldable pub rb_first : ℕ → Op ℕ
unfolding get_outermost
rb_first fuel = do node ← root_of; get_outermost fuel node false

unfoldable pub rb_last : ℕ → Op ℕ
unfolding get_outermost
rb_last fuel = do node ← root_of; get_outermost fuel node true

unfoldable pub rb_next : ℕ → ℕ → Op ℕ
unfolding get_closest
rb_next fuel node = get_closest fuel node true

unfoldable pub rb_prev : ℕ → ℕ → Op ℕ
unfolding get_closest
rb_prev fuel node = get_closest fuel node false

-- `p && p->color == RB_RED`.
abbrev pub is_red_node : ℕ → Op Bool
is_red_node p = if p == null then pure false else red_of p

-- The first branch of the loop of rb_balance, where the uncle is red.
abbrev pub recolor : ℕ → ℕ → ℕ → Op (Unit {0})
recolor parent uncle grandparent = do
  set_red false parent
  set_red false uncle
  set_red true grandparent

-- `if (parent->child[dir] == node)`: the new node and parent.
abbrev pub straighten : ℕ → ℕ → Bool → Op (ℕ × ℕ)
straighten node parent dir = do
  inner ← child_of dir parent
  if inner == node
      then (do rotate_node parent (not dir); above ← parent_of parent; pure (parent, above))
      else pure (node, parent)

-- The second branch.
abbrev pub rotate_up : ℕ → Bool → ℕ × ℕ → Op ℕ
rotate_up grandparent dir (node, parent) = do
  set_red false parent
  set_red true grandparent
  rotate_node grandparent dir
  pure node

-- A round of the loop at a red parent: the node where it goes on.
unfoldable pub balance_round : ℕ → ℕ → Op ℕ
unfolding rotate_node
balance_round node parent = do
  grandparent ← parent_of parent
  left ← child_of false grandparent
  uncle ← child_of (left == parent) grandparent
  red ← is_red_node uncle
  if red then (do recolor parent uncle grandparent; pure grandparent) else (do
    pair ← straighten node parent (left == parent)
    rotate_up grandparent (left == parent) pair)

-- The loop of rb_balance; fuel bounds the rounds.
unfoldable pub balance_loop : ℕ → ℕ → Op (Unit {0})
balance_loop zero node = λ s. none
balance_loop (suc fuel) node = do
  parent ← parent_of node
  red ← is_red_node parent
  λ s. elim red [
    | true ↦ and_then (balance_round node parent s) (λ next. balance_loop fuel next)
    | false ↦ some (tt, s)
  ]

unfoldable pub rb_balance : ℕ → ℕ → Op ℤ
unfolding balance_round balance_loop
rb_balance fuel node = if node == null then pure (negsuc 0) else do
  set_red true node
  balance_loop fuel node
  root ← root_of
  set_red false root
  pure (pos 0)
