-- ===== src/Rbtree/Plug.antt =====
-- A subtree and what stands around it, read as one tree. No code: lemmas for lib/rbtree.c.
use advanced_operating_syste.Rbtree.Tree.{
  count-node_at, node_at-IsLinked, IsContext, nodes_around, plug, IsDistinct, IsLinked, inorder,
  node_at, Tree, Frame, frame_node, frame_side, frame_red, frame_sibling,
}
use advanced_operating_syste.Rbtree.Store.{Nodes}
use advanced_operating_syste.Prelude.{
  List, [], arith, count, count-append, refl, subst, sym, ℕ, ◌+◌, ◌∙◌, ◌∷◌, ◌≡◌,
}
use advanced_operating_syste.LinkedList.Store.{null}

-- One node up.
abbrev pub above_tree : Tree → Frame → Tree
above_tree t f = node_at (frame_side f) (frame_red f) t (frame_node f) (frame_sibling f)

pub climb-IsLinked :
    (s : Nodes) (par a : ℕ) (t : Tree) (f : Frame) (fs : List Frame)
    → IsLinked s par a t
    → IsContext s par a (f ∷ fs)
    → IsLinked s (s.parent (frame_node f)) (frame_node f) (above_tree t f)
climb-IsLinked s par a t f fs lk (p, n, c, k, sib, up) =
    node_at-IsLinked s (s.parent (frame_node f)) (frame_side f) (frame_red f) t (frame_node f)
      (frame_sibling f) n refl k
      (subst (λ b. IsLinked s (frame_node f) b t) (sym c) (subst (λ q. IsLinked s q a t) p lk)) sib

pub count-above :
    (q : ℕ) (t : Tree) (f : Frame) (fs : List Frame)
    → count q (inorder (above_tree t f)) + count q (nodes_around fs)
      ≡ count q (inorder t) + count q (nodes_around (f ∷ fs))
count-above q t f fs = omega (
  arith,
  count-node_at q (frame_side f) (frame_red f) t (frame_node f) (frame_sibling f),
  count-append q (inorder (frame_sibling f)) (nodes_around fs),
)

pub above-IsDistinct :
    (t : Tree) (f : Frame) (fs : List Frame)
    → IsDistinct t (f ∷ fs)
    → IsDistinct (above_tree t f) fs
above-IsDistinct t f fs u q = omega (arith, u q, count-above q t f fs)

pub plug-IsLinked :
    (s : Nodes) (par a : ℕ) (t : Tree) (fs : List Frame)
    → IsLinked s par a t
    → IsContext s par a fs
    → IsLinked s null s.root (plug t fs)
plug-IsLinked s par a t [] lk (e, p) =
    subst (λ b. IsLinked s null b t) (sym e) (subst (λ q. IsLinked s q a t) p lk)
plug-IsLinked s par a t (f ∷ fs) lk c =
    plug-IsLinked s (s.parent (frame_node f)) (frame_node f) (above_tree t f) fs
      (climb-IsLinked s par a t f fs lk c) c.5

pub count-plug :
    (q : ℕ) (t : Tree) (fs : List Frame)
    → count q (inorder (plug t fs)) ≡ count q (inorder t) + count q (nodes_around fs)
count-plug q t [] = ground arith
count-plug q t (f ∷ fs) = count-plug q (above_tree t f) fs ∙ count-above q t f fs
