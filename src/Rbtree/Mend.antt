-- ===== src/Rbtree/Mend.antt =====
-- The steps of a round of rb_balance of lib/rbtree.c: colors, tests and rotations in a linked tree.
use advanced_operating_syste.Rbtree.Tree.{
  frame-IsContext, node_at-IsLinked, frame-IsLinked, root_in, IsLinked-node_at, count-node_at, Tree,
  leaf, branch, Frame, SameAt, IsLinked, IsContext, node_at, IsDistinct, nodes_around, inorder,
}
use advanced_operating_syste.Rbtree.Turn.{rotate_node-Turns}
use advanced_operating_syste.Rbtree.Rotate.{neq}
use advanced_operating_syste.Rbtree.Store.{same_dir, Nodes, update_red}
use advanced_operating_syste.Prelude.{
  Option, arith, count, one_if, one_if_self, refl, some, subst, sym, ◌+◌, ◌<◌, ◌==◌, ◌∙◌, ◌≡◌, ◌≢◌,
  ◌≤◌, ℕ, Bool, true, false, not, List,
}
use advanced_operating_syste.LinkedList.Store.{null}
use advanced_operating_syste.Rbtree.{rotate_up, is_red_node}

-- Other colors.
abbrev pub painted : Nodes → (ℕ → Bool) → Nodes
painted s color = record s { is_red = color }

pub painted-SameAt :
    (s : Nodes) (color : ℕ → Bool) (p : ℕ) → color p ≡ s.is_red p → SameAt s (painted s color) p
painted-SameAt s color p e = record { parent = refl; child = λ d. refl; is_red = e }

abbrev pub root_red : Tree → Bool
root_red leaf = false
root_red (branch red l x r) = red

pub is_red_node-root_red :
    (s : Nodes) (par a : ℕ) (t : Tree) → IsLinked s par a t → is_red_node a s ≡ some (root_red t, s)
is_red_node-root_red s par a leaf e = rw e refl
is_red_node-root_red s par a (branch red l x r) (e, n, p, c, ls, rs) =
    let real : (x == null) ≡ false = neq x null n in simp (e, real, c) refl

-- A node tells the side of its parent on which it hangs.
pub on_side :
    (s : Nodes) (p n : ℕ) (side dir : Bool) (sibling : Tree)
    → s.child side p ≡ n
    → IsLinked s p (s.child (not side) p) sibling
    → n ≢ null
    → count n (inorder sibling) ≡ 0
    → (s.child dir p == n) ≡ same_dir dir side
on_side s p n true true sibling e l n0 o = ground arith
on_side s p n false false sibling e l n0 o = ground arith
on_side s p n true false sibling e l n0 o = neq (s.child false p) n (λ h.
    let real : s.child false p ≢ null = λ z. n0 (sym h ∙ z) in
    ground (arith, root_in s p (s.child false p) sibling l real))
on_side s p n false true sibling e l n0 o = neq (s.child true p) n (λ h.
    let real : s.child true p ≢ null = λ z. n0 (sym h ∙ z) in
    ground (arith, root_in s p (s.child true p) sibling l real))

-- The rotation at the grandparent `g`: the subtree `t` of the red node `p` is on the side away from
-- the uncle, and the grandparent has the red node below it.
abbrev pub RotatesUp :
    Option (ℕ × Nodes) → ℕ → ℕ → ℕ → ℕ → Bool → Tree → Tree → Tree → List Frame → Type 0
RotatesUp run node p g par e uncle sibling t fs =
    (k : Nodes) × (run ≡ some (node, k))
    × IsLinked k par p (node_at e false (node_at e true uncle g sibling) p t)
    × IsContext k par p fs

module _ (s : Nodes) (node p g par : ℕ) (e : Bool) (uncle sibling t : Tree) (fs : List Frame)
    (h : IsLinked s par g (node_at e false uncle g (node_at e true sibling p t)))
    (c : IsContext s par g fs)
    (u : IsDistinct (node_at e false uncle g (node_at e true sibling p t)) fs) where
  abbrev colors : ℕ → Bool
  colors = update_red (update_red s.is_red p false) g true

  once_each :
      (q : ℕ)
      → one_if g q
          + count q (inorder uncle)
          + (one_if p q + count q (inorder sibling) + count q (inorder t))
          + count q (nodes_around fs)
        ≤ 1
  once_each q = omega (
    arith,
    u q,
    count-node_at q e false uncle g (node_at e true sibling p t),
    count-node_at q e true sibling p t,
  )

  kept :
      (q : ℕ)
      → 0
        < count q (inorder uncle)
          + count q (inorder sibling)
          + count q (inorder t)
          + count q (nodes_around fs)
      → SameAt s (painted s colors) q
  kept q i =
      let qg : q ≢ g = λ z. ground (arith, i, once_each q, one_if_self g) in
      let qp : q ≢ p = λ z. ground (arith, i, once_each q, one_if_self p) in
      painted-SameAt s colors q (rw (neq q g qg, neq q p qp) refl)

  -- The colors are set before the rotation.
  painted-IsLinked :
      IsLinked (painted s colors) par g (node_at e true uncle g (node_at e false sibling p t))
  painted-IsLinked =
      let (_, g0, pg, kg, tu, tp) =
        IsLinked-node_at s par g e false uncle g (node_at e true sibling p t) h in
      let (ep, p0, pp, kp, ts, tt') =
        IsLinked-node_at s g (s.child (not e) g) e true sibling p t tp in
      let gp : p ≢ g = λ z. ground (arith, once_each g, one_if_self g) in
      let k : Nodes = painted s colors in
      let gg : k.is_red g ≡ true = ground arith in
      let gp : k.is_red p ≡ false = rw (neq p g gp) (ground arith) in
      node_at-IsLinked k par e true uncle g (node_at e false sibling p t) g0 pg gg
        (frame-IsLinked s k g (s.child e g) uncle (λ q i. kept q (omega (arith, i))) tu)
        (subst (λ a. IsLinked k g a (node_at e false sibling p t)) (sym ep)
          (node_at-IsLinked k g e false sibling p t p0 pp gp
            (frame-IsLinked s k p (s.child e p) sibling (λ q i. kept q (omega (arith, i))) ts)
            (frame-IsLinked s k p (s.child (not e) p) t (λ q i. kept q (omega (arith, i))) tt')))

  painted-IsDistinct : IsDistinct (node_at e true uncle g (node_at e false sibling p t)) fs
  painted-IsDistinct q = omega (
    arith,
    once_each q,
    count-node_at q e true uncle g (node_at e false sibling p t),
    count-node_at q e false sibling p t,
  )

  pub rotate_up-RotatesUp : RotatesUp (rotate_up g e (node, p) s) node p g par e uncle sibling t fs
  rotate_up-RotatesUp =
      let (_, g0, _, _, _, tp) =
        IsLinked-node_at s par g e false uncle g (node_at e true sibling p t) h in
      let (_, p0, _, _, _, _) = IsLinked-node_at s g (s.child (not e) g) e true sibling p t tp in
      let (k, run, l, up, _) =
        rotate_node-Turns (painted s colors) g p par e true false uncle sibling t fs
          painted-IsLinked
          (frame-IsContext s (painted s colors) par g fs (λ q i. kept q (omega (arith, i))) refl c)
          painted-IsDistinct in
      let pb : (p == null) ≡ false = neq p null p0 in
      let gb : (g == null) ≡ false = neq g null g0 in (k, simp (pb, gb, run) refl, l, up)
