-- ===== src/Rbtree/Round.antt =====
-- The two branches of the loop of rb_balance of lib/rbtree.c.
use advanced_operating_syste.Rbtree.Tree.{
  frame-IsContext, frame-IsLinked, SameAt, node_at-IsLinked, nodes_around, IsDistinct, IsContext,
  IsLinked-node_at, branch, count-node_at, Frame, IsLinked, inorder, node_at, Tree,
}
use advanced_operating_syste.Rbtree.Mend.{
  painted-SameAt, is_red_node-root_red, on_side, painted, root_red,
}
use advanced_operating_syste.Rbtree.Store.{update_red, Nodes}
use advanced_operating_syste.Rbtree.Rotate.{neq}
use advanced_operating_syste.Prelude.{
  Bool, List, arith, count, count-append, false, not, one_if, one_if_self, refl, some, subst, sym,
  true, ℕ, ◌+◌, ◌<◌, ◌==◌, ◌∷◌, ◌≡◌, ◌≢◌, ◌≤◌,
}
use advanced_operating_syste.LinkedList.Store.{null}
use advanced_operating_syste.Rbtree.Store.{and_then}
use advanced_operating_syste.Rbtree.{balance_round, is_red_node, straighten, rotate_up}

-- The parent `p` of a node and the uncle below the grandparent `g`.
abbrev pub relatives : Bool → Bool → Tree → ℕ → Tree → ℕ → Tree → Tree
relatives up down t p sibling g uncle = node_at up false (node_at down true t p sibling) g uncle

pub count-relatives :
    (q : ℕ) (up down : Bool) (t : Tree) (p : ℕ) (sibling : Tree) (g : ℕ) (uncle : Tree)
    → count q (inorder (relatives up down t p sibling g uncle))
      ≡ one_if g q
        + (one_if p q + count q (inorder t) + count q (inorder sibling))
        + count q (inorder uncle)
count-relatives q up down t p sibling g uncle = omega (
  arith,
  count-node_at q up false (node_at down true t p sibling) g uncle,
  count-node_at q down true t p sibling,
)

-- What the loop reads before it branches.
abbrev Reads : Nodes → ℕ → ℕ → Bool → Bool → Type 0
Reads s p g up red =
    ((p == null) ≡ false)
    × (s.parent p ≡ g)
    × ((g == null) ≡ false)
    × ((s.child false g == p) ≡ not up)
    × (is_red_node (s.child (not up) g) s ≡ some (red, s))

reads :
    (s : Nodes) (p g par : ℕ) (up down : Bool) (t sibling uncle : Tree)
    → IsLinked s par g (relatives up down t p sibling g uncle)
    → count p (inorder uncle) ≡ 0
    → Reads s p g up (root_red uncle)
reads s p g par up down t sibling uncle lk away =
    let (_, g0, _, _, tp, tu) =
      IsLinked-node_at s par g up false (node_at down true t p sibling) g uncle lk in
    let (ep, p0, pp, _, _, _) = IsLinked-node_at s g (s.child up g) down true t p sibling tp in
    (
      neq p null p0,
      pp,
      neq g null g0,
      on_side s g p up false uncle ep tu p0 away,
      is_red_node-root_red s g (s.child (not up) g) uncle tu,
    )

-- A black uncle, or none.
pub turn_round :
    (s : Nodes) (n p g par : ℕ) (up down : Bool) (t sibling uncle : Tree)
    → IsLinked s par g (relatives up down t p sibling g uncle)
    → count p (inorder uncle) ≡ 0
    → root_red uncle ≡ false
    → balance_round n p s ≡ and_then (straighten n p (not up) s) (λ pair. rotate_up g (not up) pair)
unfolding balance_round
turn_round s n p g par up down t sibling uncle lk away black =
    let (pb, pp, gb, left, red) = reads s p g par up down t sibling uncle lk away in
    simp (pb, pp, gb, left, red, black) refl

module _ (s : Nodes) (n p g u par : ℕ) (up down : Bool) (t sibling l r : Tree) (fs : List Frame)
    (lk : IsLinked s par g (relatives up down t p sibling g (branch true l u r)))
    (c : IsContext s par g fs)
    (d : IsDistinct (relatives up down t p sibling g (branch true l u r)) fs) where
  abbrev colors : ℕ → Bool
  colors = update_red (update_red (update_red s.is_red p false) u false) g true

  once_each :
      (q : ℕ)
      → one_if g q
          + (one_if p q + count q (inorder t) + count q (inorder sibling))
          + (one_if u q + count q (inorder l) + count q (inorder r))
          + count q (nodes_around fs)
        ≤ 1
  once_each q = omega (
    arith,
    d q,
    count-relatives q up down t p sibling g (branch true l u r),
    count-append q (inorder l) (u ∷ inorder r),
  )

  kept :
      (q : ℕ)
      → 0
        < count q (inorder t)
          + count q (inorder sibling)
          + (count q (inorder l) + count q (inorder r))
          + count q (nodes_around fs)
      → SameAt s (painted s colors) q
  kept q i =
      let qg : q ≢ g = λ z. ground (arith, i, once_each q, one_if_self g) in
      let qp : q ≢ p = λ z. ground (arith, i, once_each q, one_if_self p) in
      let qu : q ≢ u = λ z. ground (arith, i, once_each q, one_if_self u) in
      painted-SameAt s colors q (rw (neq q g qg, neq q p qp, neq q u qu) refl)

  -- A red uncle: the three nodes get the other color, and the loop goes on at the grandparent.
  pub recolor_round :
      (balance_round n p s ≡ some (g, painted s colors))
      × IsLinked
          (painted s colors)
          par
          g
          (node_at up true (node_at down false t p sibling) g (branch false l u r))
      × IsContext (painted s colors) par g fs
  unfolding balance_round
  recolor_round =
      let k : Nodes = painted s colors in
      let uncle : Tree = branch true l u r in
      let (pb, pp, gb, left, _) =
        reads s p g par up down t sibling uncle lk
          (omega (arith, once_each p, one_if_self p, count-append p (inorder l) (u ∷ inorder r))) in
      let (_, g0, pg, _, tp, tu) =
        IsLinked-node_at s par g up false (node_at down true t p sibling) g uncle lk in
      let (ep, p0, _, _, tt', ts) = IsLinked-node_at s g (s.child up g) down true t p sibling tp in
      let (eu, u0, pu, ku, tl, tr) = tu in
      let gp : p ≢ g = λ z. ground (arith, once_each g, one_if_self g) in
      let gu : u ≢ g = λ z. ground (arith, once_each g, one_if_self g) in
      let pu' : p ≢ u = λ z. ground (arith, once_each u, one_if_self u) in
      let ub : (u == null) ≡ false = neq u null u0 in
      let gk : k.is_red g ≡ true = ground arith in
      let pk : k.is_red p ≡ false = rw (neq p g gp, neq p u pu') (ground arith) in
      let uk : k.is_red u ≡ false = rw (neq u g gu) (ground arith) in
      (
        simp (pb, pp, gb, left, eu, ub, ku) refl,
        node_at-IsLinked k par up true (node_at down false t p sibling) g (branch false l u r) g0 pg
            gk
            (subst (λ a. IsLinked k g a (node_at down false t p sibling)) (sym ep)
              (node_at-IsLinked k g down false t p sibling p0 pp pk
                (frame-IsLinked s k p (s.child down p) t (λ q i. kept q (omega (arith, i))) tt')
                (frame-IsLinked s k p (s.child (not down) p) sibling
                  (λ q i. kept q (omega (arith, i))) ts)))
            (
              eu,
              u0,
              pu,
              uk,
              frame-IsLinked s k u (s.child false u) l (λ q i. kept q (omega (arith, i))) tl,
              frame-IsLinked s k u (s.child true u) r (λ q i. kept q (omega (arith, i))) tr,
            ),
        frame-IsContext s k par g fs (λ q i. kept q (omega (arith, i))) refl c,
      )
