-- ===== src/Rbtree/Lined.antt =====
-- The nodes of a round of rb_balance of lib/rbtree.c in line, away from the uncle.
use advanced_operating_syste.Rbtree.Tree.{
  IsDistinct, count-node_at, IsContext, IsLinked, inorder, node_at, Tree, Frame,
}
use advanced_operating_syste.Rbtree.Colors.{IsRedBlack}
use advanced_operating_syste.Prelude.{
  Bool, List, Option, [], arith, count, false, not, one_if, refl, some, sym, true, ℕ, ◌+◌, ◌∙◌, ◌∷◌,
  ◌≡◌,
}
use advanced_operating_syste.Rbtree.Store.{Nodes}

pub same_above :
    (s k : Nodes) (par par' a b : ℕ) (fs : List Frame)
    → IsContext s par a fs
    → IsContext k par' b fs
    → par' ≡ par
same_above s k par par' a b [] c d = d.1 ∙ sym c.1
same_above s k par par' a b (f ∷ fs) c d = d.0 ∙ sym c.0

pub not-not : (d : Bool) → not (not d) ≡ d
not-not true = refl
not-not false = refl

-- A red node `p` with the red subtree `t` on the same side as itself, away from the uncle.
abbrev pub lined : Bool → Tree → ℕ → Tree → ℕ → Tree → Tree
lined e uncle g sibling p t = node_at e false uncle g (node_at e true sibling p t)

pub count-lined :
    (q : ℕ) (e : Bool) (uncle : Tree) (g : ℕ) (sibling : Tree) (p : ℕ) (t : Tree)
    → count q (inorder (lined e uncle g sibling p t))
      ≡ one_if g q
        + count q (inorder uncle)
        + (one_if p q + count q (inorder sibling) + count q (inorder t))
count-lined q e uncle g sibling p t = omega (
  arith,
  count-node_at q e false uncle g (node_at e true sibling p t),
  count-node_at q e true sibling p t,
)

-- The nodes in line, as the subtrees of a red-black tree.
abbrev pub Straightens :
    Option ((ℕ × ℕ) × Nodes) → ℕ → ℕ → Bool → Tree → List Frame → Tree → ℕ → Type 0
Straightens run par g e uncle fs before h =
    (n : ℕ) × (p : ℕ) × (k : Nodes) × (side : Bool) × (l : Tree) × (r : Tree) × (sibling : Tree)
    × (run ≡ some ((n, p), k))
    × IsLinked k par g (lined e uncle g sibling p (node_at side true l n r))
    × IsContext k par g fs
    × IsDistinct (lined e uncle g sibling p (node_at side true l n r)) fs
    × (inorder before ≡ inorder (lined e uncle g sibling p (node_at side true l n r)))
    × IsRedBlack true l h
    × IsRedBlack true r h
    × IsRedBlack true sibling h
