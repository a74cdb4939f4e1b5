-- ===== src/Rbtree/Bent.antt =====
-- What the rotation at the parent in rb_balance of lib/rbtree.c leaves behind.
use advanced_operating_syste.Rbtree.Lined.{count-lined, not-not, same_above, Straightens, lined}
use advanced_operating_syste.Rbtree.Tree.{
  node_at-IsLinked, IsLinked-node_at, IsDistinct, count-node_at, IsContext, IsLinked, inorder,
  node_at, Tree, frame, Frame,
}
use advanced_operating_syste.Rbtree.{rotate_node, straighten}
use advanced_operating_syste.Rbtree.Colors.{turned-inorder, flip, IsRedBlack}
use advanced_operating_syste.Rbtree.Rotate.{neq}
use advanced_operating_syste.Prelude.{
  ap, ◌++◌, subst, Bool, List, arith, false, not, refl, some, sym, true, ℕ, ◌==◌, ◌∷◌, ◌≡◌,
}
use advanced_operating_syste.Rbtree.Store.{Nodes}
use advanced_operating_syste.LinkedList.Store.{null}

-- The nodes in order, before and after the rotation at the parent.
pub bent-inorder :
    (e : Bool) (uncle : Tree) (g : ℕ) (sibling : Tree) (p : ℕ) (x : Tree) (n : ℕ) (y : Tree)
    → inorder (node_at e false uncle g (node_at e true (node_at (not e) true x n y) p sibling))
      ≡ inorder (lined e uncle g y n (node_at (not e) true sibling p x))
bent-inorder true uncle g sibling p x n y =
    ap (λ l. l ++ g ∷ inorder uncle) (turned-inorder false true true true true sibling x y p n)
bent-inorder false uncle g sibling p x n y =
    ap (λ l. inorder uncle ++ g ∷ l) (turned-inorder true true true true true sibling x y p n)

-- What the rotation at the parent has left behind, read as nodes in line.
pub bent_done :
    (s k : Nodes) (n p g par : ℕ) (e : Bool) (uncle sibling x y : Tree) (fs : List Frame) (h : ℕ)
    → IsLinked s par g
        (node_at e false uncle g (node_at e true (node_at (not e) true x n y) p sibling))
    → IsContext s par g fs
    → IsDistinct
        (node_at e false uncle g (node_at e true (node_at (not e) true x n y) p sibling))
        fs
    → IsRedBlack true x h
    → IsRedBlack true y h
    → IsRedBlack true sibling h
    → rotate_node p (not e) s ≡ some (tt, k)
    → IsLinked k g n (node_at (not e) true (node_at (not e) true sibling p x) n y)
    → IsContext k g n (frame (not e) false g uncle ∷ fs)
    → Straightens
        (straighten n p e s)
        par
        g
        e
        uncle
        fs
        (node_at e false uncle g (node_at e true (node_at (not e) true x n y) p sibling))
        h
bent_done s k n p g par e uncle sibling x y fs h lk c u rx ry rs run low (_, g0, eg, kg, tu, up) =
    let t : Tree = node_at (not e) true x n y in
    let (_, _, _, _, _, tp) =
      IsLinked-node_at s par g e false uncle g (node_at e true t p sibling) lk in
    let (_, p0, _, _, tt', _) = IsLinked-node_at s g (s.child (not e) g) e true t p sibling tp in
    let (en, _, _, _, _, _) = IsLinked-node_at s p (s.child e p) (not e) true x n y tt' in
    let t' : Tree = node_at (not e) true sibling p x in
    let (_, _, _, _, under, _) = IsLinked-node_at k g n (not e) true t' n y low in
    let (_, _, pn, _, _, _) =
      IsLinked-node_at k n (k.child (not e) n) (not e) true sibling p x under in
    let turned : IsLinked k g (k.child (not e) g) (node_at e true y n t') =
      subst (λ a. IsLinked k g a (node_at e true y n t')) (sym eg)
        (subst (IsLinked k g n) (flip e true t' n y) low) in
    let pb : (p == null) ≡ false = neq p null p0 in
    let here : (s.child e p == n) ≡ true = ground (arith, en) in
    let par' = same_above s k par (k.parent g) g g fs c up in
    (
      p,
      n,
      k,
      not e,
      sibling,
      x,
      y,
      simp (pb, here, run, pn) refl,
      node_at-IsLinked k par e false uncle g (node_at e true y n t') g0 par' kg
          (subst (λ d. IsLinked k g (k.child d g) uncle) (not-not e) tu) turned,
      subst (λ a. IsContext k a g fs) par' up,
      (λ q. omega (
        arith,
        u q,
        count-node_at q e false uncle g (node_at e true t p sibling),
        count-node_at q e true t p sibling,
        count-node_at q (not e) true x n y,
        count-lined q e uncle g y n t',
        count-node_at q (not e) true sibling p x,
      )),
      bent-inorder e uncle g sibling p x n y,
      rs,
      rx,
      ry,
    )
