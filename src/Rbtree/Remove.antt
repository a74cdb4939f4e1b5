-- ===== src/Rbtree/Remove.antt =====
-- Taking nodes out of the tree: do_remove, rb_remove and rb_replace of lib/rbtree.c, rb_init and
-- rb_node_init of include/rbtree.h.
use advanced_operating_syste.Prelude.{
  Bool, false, if◌then◌else◌, none, not, some, suc, true, zero, ℕ, ◌&&◌, ◌==◌, ◌||◌,
}
use advanced_operating_syste.Prelude.Int.{pos, negsuc, ℤ}
use advanced_operating_syste.LinkedList.Store.{null}
use advanced_operating_syste.Rbtree.{replace_child, get_outermost, rotate_node, is_red_node}
use advanced_operating_syste.Rbtree.Store.{
  Op, pure, ◌>>=◌, ◌>>◌, parent_of, child_of, red_of, root_of, and_then, set_parent, set_child,
  set_red, set_root, set_parent_if,
}

rb_init : Op (Unit {0})
rb_init = set_root null

-- `memset(node, 0, sizeof *node)`.
abbrev rb_node_init : ℕ → Op (Unit {0})
rb_node_init node = do
  set_parent node null
  set_child false node null
  set_child true node null
  set_red false node

-- The children of `node` become those of the node that takes its place.
abbrev move_children : ℕ → ℕ → Op (Unit {0})
move_children node child = do
  left ← child_of false node
  set_child false child left
  moved ← child_of false node
  set_parent_if moved child
  right ← child_of true node
  set_child true child right
  moved ← child_of true node
  set_parent_if moved child

-- Fuel bounds the recursion and the depth of the tree.
unfoldable do_remove : ℕ → ℕ → Op ℤ
unfolding get_outermost
do_remove zero node = λ s. none
do_remove (suc fuel) node = if node == null then pure (negsuc 0) else do
  parent ← parent_of node
  left ← child_of false node
  right ← child_of true node
  child ← λ s. elim (not (left == null) && not (right == null)) [
    | true ↦ and_then (get_outermost fuel left true s) (λ next t.
        and_then (do_remove fuel next t) (λ answer. move_children node next >> pure next))
    | false ↦ child_of (left == null) node s
  ]
  replace_child parent node child
  set_parent_if child parent
  rb_node_init node
  pure (pos 0)

-- `!p->child[dir] || p->child[dir]->color == RB_BLACK`.
abbrev black_child : Bool → ℕ → Op Bool
black_child dir p = do child ← child_of dir p; red ← is_red_node child; pure (not red)

-- The first `if` of the loop of rb_remove: the new sibling.
abbrev red_sibling : ℕ → ℕ → Bool → ℕ → Op ℕ
red_sibling node parent dir sibling = do
  red ← red_of sibling
  if red
      then (do
        set_red true parent
        set_red false sibling
        rotate_node parent (not dir)
        above ← parent_of node
        child_of dir above)
      else pure sibling

-- The last `if` of the loop: the new sibling.
abbrev near_red : ℕ → Bool → ℕ → Op ℕ
near_red node dir sibling = do
  far ← black_child dir sibling
  if far
      then (do
        set_red true sibling
        near ← child_of (not dir) sibling
        set_red false near
        parent ← parent_of node
        rotate_node parent dir
        above ← parent_of node
        child_of dir above)
      else pure sibling

-- The end of the loop.
abbrev turn_sibling : ℕ → Bool → ℕ → Op ℕ
turn_sibling node dir sibling = do
  parent ← parent_of node
  red ← red_of parent
  set_red red sibling
  set_red false parent
  far ← child_of dir sibling
  set_red false far
  rotate_node parent (not dir)
  root_of

-- A round of the loop of rb_remove: whether it goes on, and at which node.
unfoldable remove_round : ℕ → ℕ → Op (Bool × ℕ)
unfolding rotate_node
remove_round node parent = do
  left ← child_of false parent
  sibling ← child_of (left == node) parent
  if sibling == null then pure (false, node) else do
    sibling ← red_sibling node parent (left == node) sibling
    near ← black_child (not (left == node)) sibling
    far ← black_child (left == node) sibling
    if near && far
        then (do set_red true sibling; above ← parent_of node; pure (true, above))
        else (do
          sibling ← near_red node (left == node) sibling
          root ← turn_sibling node (left == node) sibling
          pure (true, root))

-- The loop of rb_remove; fuel bounds the rounds.
unfoldable remove_loop : ℕ → ℕ → Op ℕ
unfolding remove_round
remove_loop zero node = λ s. none
remove_loop (suc fuel) node = do
  parent ← parent_of node
  λ s. elim (parent == null) [
    | true ↦ some (node, s)
    | false ↦ and_then (remove_round node parent s) (λ (goes_on, next) t. elim goes_on [
      | true ↦ remove_loop fuel next t
      | false ↦ some (next, t)
    ])
  ]

unfoldable pub rb_remove : ℕ → ℕ → Op ℤ
unfolding do_remove remove_loop
rb_remove fuel node = if node == null then pure (negsuc 0) else do
  left ← child_of false node
  child ← child_of (left == null) node
  other ← child_of (not (left == null)) node
  answer ← do_remove fuel node
  if (child == null) && (other == null) then pure (pos 0) else do
    red ← red_of node
    if red then pure (pos 0) else do
      red ← red_of child
      if red then (do set_red false child; pure (pos 0)) else do
        last ← remove_loop fuel child
        if last == null then pure (pos 0) else do set_red false last; pure (pos 0)

-- `*new_node = *node`.
abbrev copy_node : ℕ → ℕ → Op (Unit {0})
copy_node node new_node = do
  parent ← parent_of node
  left ← child_of false node
  right ← child_of true node
  red ← red_of node
  set_parent new_node parent
  set_child false new_node left
  set_child true new_node right
  set_red red new_node

unfoldable pub rb_replace : ℕ → ℕ → Op ℤ
rb_replace node new_node = if (node == null) || (new_node == null) then pure (negsuc 0) else do
  parent ← parent_of node
  replace_child parent node new_node
  left ← child_of false node
  set_parent_if left new_node
  right ← child_of true node
  set_parent_if right new_node
  copy_node node new_node
  pure (pos 0)
