-- ===== src/Rbtree/Straighten.antt =====
-- The rotation at the parent in rb_balance of lib/rbtree.c.
use advanced_operating_syste.Rbtree.Bent.{bent_done}
use advanced_operating_syste.Rbtree.Lined.{count-lined, not-not, Straightens, lined}
use advanced_operating_syste.Rbtree.Tree.{
  nodes_around, IsLinked-node_at, IsDistinct, count-node_at, IsContext, IsLinked, inorder, node_at,
  Tree, frame, Frame,
}
use advanced_operating_syste.Rbtree.{straighten}
use advanced_operating_syste.Rbtree.Colors.{flip, IsRedBlack}
use advanced_operating_syste.Rbtree.Rotate.{same_dir-not, neq}
use advanced_operating_syste.Prelude.{
  count-append, subst, Bool, List, arith, count, false, not, one_if_self, refl, sym, true, ℕ, ◌==◌,
  ◌∙◌, ◌∷◌, ◌≡◌,
}
use advanced_operating_syste.Rbtree.Turn.{rotate_node-Turns}
use advanced_operating_syste.Rbtree.Mend.{on_side}
use advanced_operating_syste.Rbtree.Store.{Nodes}
use advanced_operating_syste.LinkedList.Store.{null}

-- Nothing to do where the nodes are in line.
outer :
    (s : Nodes) (n p g par : ℕ) (e side : Bool) (uncle sibling l r : Tree) (fs : List Frame) (h : ℕ)
    → IsLinked s par g (lined e uncle g sibling p (node_at side true l n r))
    → IsContext s par g fs
    → IsDistinct (lined e uncle g sibling p (node_at side true l n r)) fs
    → IsRedBlack true l h
    → IsRedBlack true r h
    → IsRedBlack true sibling h
    → Straightens
        (straighten n p e s)
        par
        g
        e
        uncle
        fs
        (lined e uncle g sibling p (node_at side true l n r))
        h
outer s n p g par e side uncle sibling l r fs h lk c u rl rr rs =
    let t : Tree = node_at side true l n r in
    let (_, _, _, _, _, tp) =
      IsLinked-node_at s par g e false uncle g (node_at e true sibling p t) lk in
    let (_, p0, _, _, ts, tt') = IsLinked-node_at s g (s.child (not e) g) e true sibling p t tp in
    let (en, n0, _, _, _, _) = IsLinked-node_at s p (s.child (not e) p) side true l n r tt' in
    let away : count n (inorder sibling) ≡ 0 = omega (
      arith,
      u n,
      count-lined n e uncle g sibling p t,
      count-node_at n side true l n r,
      one_if_self n,
    ) in
    let straight : (s.child e p == n) ≡ false =
      on_side s p n (not e) e sibling en
        (subst (λ d. IsLinked s p (s.child d p) sibling) (sym (not-not e)) ts) n0 away
      ∙ (same_dir-not e).0 in
    let pb : (p == null) ≡ false = neq p null p0 in
    (n, p, s, side, l, r, sibling, simp (pb, straight) refl, lk, c, u, refl, rl, rr, rs)

-- The rotation brings the nodes in line.
inner :
    (s : Nodes) (n p g par : ℕ) (e : Bool) (uncle sibling x y : Tree) (fs : List Frame) (h : ℕ)
    → IsLinked s par g
        (node_at e false uncle g (node_at e true (node_at (not e) true x n y) p sibling))
    → IsContext s par g fs
    → IsDistinct
        (node_at e false uncle g (node_at e true (node_at (not e) true x n y) p sibling))
        fs
    → IsRedBlack true x h
    → IsRedBlack true y h
    → IsRedBlack true sibling h
    → Straightens
        (straighten n p e s)
        par
        g
        e
        uncle
        fs
        (node_at e false uncle g (node_at e true (node_at (not e) true x n y) p sibling))
        h
inner s n p g par e uncle sibling x y fs h lk c u rx ry rs =
    let t : Tree = node_at (not e) true x n y in
    let above : List Frame = frame (not e) false g uncle ∷ fs in
    let (eg, g0, pg, kg, tu, tp) =
      IsLinked-node_at s par g e false uncle g (node_at e true t p sibling) lk in
    let (ep, p0, _, _, tt', _) = IsLinked-node_at s g (s.child (not e) g) e true t p sibling tp in
    let (en, _, _, _, _, _) = IsLinked-node_at s p (s.child e p) (not e) true x n y tt' in
    let bent : IsLinked s g p (node_at (not e) true sibling p t) =
      subst (λ a. IsLinked s g a (node_at (not e) true sibling p t)) ep
        (subst (IsLinked s g (s.child (not e) g)) (sym (flip e true sibling p t)) tp) in
    let around : IsContext s g p above = (
      refl,
      g0,
      ep,
      kg,
      subst (λ d. IsLinked s g (s.child d g) uncle) (sym (not-not e)) tu,
      subst (λ a. IsContext s a g fs) (sym pg) c,
    ) in
    let apart : IsDistinct (node_at (not e) true sibling p t) above = λ q. omega (
      arith,
      u q,
      count-node_at q e false uncle g (node_at e true t p sibling),
      count-node_at q e true t p sibling,
      count-node_at q (not e) true sibling p t,
      count-append q (inorder uncle) (nodes_around fs),
    ) in
    let (k, run, low, (_, g0', eg', kg', tu', up), _) =
      rotate_node-Turns s p n g (not e) true true sibling x y above bent around apart in
    bent_done s k n p g par e uncle sibling x y fs h lk c u rx ry rs run low
      (refl, g0', eg', kg', tu', up)

-- Both cases of `if (parent->child[dir] == node)`: the node and its parent are in line afterwards.
pub straighten-Straightens :
    (s : Nodes) (n p g par : ℕ) (up down side : Bool) (uncle sibling l r : Tree) (fs : List Frame)
    (h : ℕ)
    → IsLinked s par g
        (node_at up false (node_at down true (node_at side true l n r) p sibling) g uncle)
    → IsContext s par g fs
    → IsDistinct
        (node_at up false (node_at down true (node_at side true l n r) p sibling) g uncle)
        fs
    → IsRedBlack true l h
    → IsRedBlack true r h
    → IsRedBlack true sibling h
    → Straightens
        (straighten n p (not up) s)
        par
        g
        (not up)
        uncle
        fs
        (node_at up false (node_at down true (node_at side true l n r) p sibling) g uncle)
        h
straighten-Straightens s n p g par true true side uncle sibling l r fs h lk c u rl rr rs =
    outer s n p g par false side uncle sibling l r fs h lk c u rl rr rs
straighten-Straightens s n p g par false false side uncle sibling l r fs h lk c u rl rr rs =
    outer s n p g par true side uncle sibling l r fs h lk c u rl rr rs
straighten-Straightens s n p g par true false true uncle sibling l r fs h lk c u rl rr rs =
    inner s n p g par false uncle sibling l r fs h lk c u rl rr rs
straighten-Straightens s n p g par true false false uncle sibling l r fs h lk c u rl rr rs =
    inner s n p g par false uncle sibling r l fs h lk c u rr rl rs
straighten-Straightens s n p g par false true true uncle sibling l r fs h lk c u rl rr rs =
    inner s n p g par true uncle sibling r l fs h lk c u rr rl rs
straighten-Straightens s n p g par false true false uncle sibling l r fs h lk c u rl rr rs =
    inner s n p g par true uncle sibling l r fs h lk c u rl rr rs
