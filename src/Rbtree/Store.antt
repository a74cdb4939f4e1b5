-- ===== src/Rbtree/Store.antt =====
-- The store that lib/rbtree.c works on: the fields of every struct rb_node and the root of the tree
-- (include/rbtree.h). A pointer is a number and NULL is 0; the direction is RB_RIGHT for true; `none` is an
-- access through NULL.
use advanced_operating_syste.LinkedList.Store.{null, update}
use advanced_operating_syste.Prelude.{
  ℕ, Bool, true, false, not, Option, none, some, ◌==◌, ◌&&◌, if◌then◌else◌,
}

pub record Nodes : Type 0 where
  pub root : ℕ
  pub parent : ℕ → ℕ
  pub child : Bool → ℕ → ℕ
  pub is_red : ℕ → Bool

abbrev pub same_dir : Bool → Bool → Bool
same_dir true dir = dir
same_dir false dir = not dir

abbrev pub update_child : (Bool → ℕ → ℕ) → Bool → ℕ → ℕ → Bool → ℕ → ℕ
update_child f dir p v d q = if q == p && same_dir d dir then v else f d q

abbrev pub update_red : (ℕ → Bool) → ℕ → Bool → ℕ → Bool
update_red f p v q = if q == p then v else f q

-- A computation over the store.
abbrev pub Op : Type 0 → Type 0
Op A = Nodes → Option (A × Nodes)

abbrev pub pure : {A : Type 0} → A → Op A
pure a s = some (a, s)

abbrev pub and_then : {A B : Type 0} → Option (A × Nodes) → (A → Op B) → Option (B × Nodes)
and_then none f = none
and_then (some (a, s)) f = f a s

infixl 5 ◌>>=◌ ◌>>◌
abbrev pub ◌>>=◌ : {A B : Type 0} → Op A → (A → Op B) → Op B
m >>= f = λ s. and_then (m s) f

abbrev pub ◌>>◌ : {B : Type 0} → Op (Unit {0}) → Op B → Op B
m >> k = m >>= λ _. k

-- The fields, read and written.
abbrev pub parent_of : ℕ → Op ℕ
parent_of p s = if p == null then none else some (s.parent p, s)

abbrev pub child_of : Bool → ℕ → Op ℕ
child_of dir p s = if p == null then none else some (s.child dir p, s)

abbrev pub red_of : ℕ → Op Bool
red_of p s = if p == null then none else some (s.is_red p, s)

abbrev pub root_of : Op ℕ
root_of s = some (s.root, s)

abbrev pub set_parent : ℕ → ℕ → Op (Unit {0})
set_parent p v s = if p == null then none else some (tt, record s { parent = update s.parent p v })

abbrev pub set_child : Bool → ℕ → ℕ → Op (Unit {0})
set_child dir p v s =
    if p == null then none else some (tt, record s { child = update_child s.child dir p v })

abbrev pub set_red : Bool → ℕ → Op (Unit {0})
set_red red p s =
    if p == null then none else some (tt, record s { is_red = update_red s.is_red p red })

abbrev pub set_root : ℕ → Op (Unit {0})
set_root p s = some (tt, record s { root = p })

-- `if (p) p->parent = v;`
abbrev pub set_parent_if : ℕ → ℕ → Op (Unit {0})
set_parent_if p v s = if p == null then some (tt, s) else set_parent p v s
