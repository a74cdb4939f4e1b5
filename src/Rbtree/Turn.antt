-- ===== src/Rbtree/Turn.antt =====
-- A rotation in a linked tree.
use advanced_operating_syste.Rbtree.Tree.{
  frame_side, frame_sibling, frame_node, node_at-IsLinked, reparent-IsLinked, parent_in,
  IsLinked-node_at, frame-IsContext, frame-IsLinked, root_in, count-node_at, Tree, Frame, SameAt,
  IsLinked, IsContext, node_at, IsDistinct, nodes_around, inorder,
}
use advanced_operating_syste.Rbtree.Rotate.{
  at_b, at_c, at_n, rotate_node-rotated, far_away, at_par, neq, rotated,
}
use advanced_operating_syste.Rbtree.{rotate_node}
use advanced_operating_syste.Prelude.{
  one_if_self, count-append, refl, subst, sym, ◌==◌, ◌∙◌, Option, arith, count, one_if, some, ◌+◌,
  ◌<◌, ◌≡◌, ◌≢◌, ◌≤◌, ℕ, Bool, true, false, not, List, [], ◌∷◌,
}
use advanced_operating_syste.LinkedList.Store.{null}
use advanced_operating_syste.Rbtree.Store.{Nodes}

side_is :
    (s : Nodes) (x n : ℕ) (side : Bool) (sibling : Tree)
    → s.child side x ≡ n
    → IsLinked s x (s.child (not side) x) sibling
    → n ≢ null
    → count n (inorder sibling) ≡ 0
    → (s.child true x == n) ≡ side
side_is s x n true sibling e l n0 o = ground arith
side_is s x n false sibling e l n0 o = neq (s.child true x) n (λ h.
    let real : s.child true x ≢ null = λ z. n0 (sym h ∙ z) in
    ground (arith, root_in s x (s.child true x) sibling l real))

-- The context of a rotated tree, whose parent is the first node of it.
turned_frame :
    (s : Nodes) (n c b : ℕ) (d : Bool) (f : Frame) (fs : List Frame)
    → n ≢ null
    → n ≢ c
    → count n (nodes_around (f ∷ fs)) ≡ 0
    → count c (nodes_around (f ∷ fs)) ≡ 0
    → (b ≢ null → count b (nodes_around (f ∷ fs)) ≡ 0)
    → ((p : ℕ) → count p (nodes_around (f ∷ fs)) ≤ 1)
    → IsContext s (frame_node f) n (f ∷ fs)
    → IsContext
        (rotated s n c b (frame_node f) d (s.child true (frame_node f) == n))
        (frame_node f)
        c
        (f ∷ fs)
turned_frame s n c b d f fs n0 nc on oc ob once (p, x0, ch, k, sib, up) =
    let x : ℕ = (frame_node f) in
    let side : Bool = s.child true x == n in
    let parts = λ (q : ℕ). count-append q (inorder (frame_sibling f)) (nodes_around fs) in
    let xn : x ≢ n = λ e. ground (arith, on) in
    let xc : x ≢ c = λ e. ground (arith, oc) in
    let xb : b ≢ null → b ≢ x = λ z e. ground (arith, ob z) in
    let here =
      side_is s x n (frame_side f) (frame_sibling f) ch sib n0 (omega (arith, on, parts n)) in
    let (par, hung, kept) = at_par s n c b x d side nc xn xc x0 xb in
    let g : Nodes = rotated s n c b x d side in
    let away : (q : ℕ)
        → 0 < count q (inorder (frame_sibling f)) + count q (nodes_around fs)
        → SameAt s g q =
      λ q i.
        far_away s n c b x d side nc xn xc q (λ e. ground (arith, on, parts n))
          (λ e. ground (arith, oc, parts c)) (λ z e. ground (arith, ob z, parts b))
          (λ z e. ground (arith, once x, parts x)) in
    (
      refl,
      x0,
      subst (λ h. g.child h x ≡ c) here hung,
      k,
      subst (λ a. IsLinked g x a (frame_sibling f))
          (sym (subst (λ h. g.child (not h) x ≡ s.child (not h) x) here kept))
          (frame-IsLinked s g x (s.child (not (frame_side f)) x) (frame_sibling f)
            (λ q i. away q (omega (arith, i))) sib),
      subst (λ a. IsContext g a x fs) (sym par)
          (frame-IsContext s g (s.parent x) x fs (λ q i. away q (omega (arith, i)))
            (ground (arith, x0)) up),
    )

turned-IsContext :
    (s : Nodes) (n c b par : ℕ) (d : Bool) (fs : List Frame)
    → n ≢ null
    → n ≢ c
    → count n (nodes_around fs) ≡ 0
    → count c (nodes_around fs) ≡ 0
    → (b ≢ null → count b (nodes_around fs) ≡ 0)
    → ((p : ℕ) → count p (nodes_around fs) ≤ 1)
    → IsContext s par n fs
    → IsContext (rotated s n c b par d (s.child true par == n)) par c fs
turned-IsContext s n c b par d [] n0 nc on oc ob once (e, p) = (ground arith, p)
turned-IsContext s n c b par d (f ∷ fs) n0 nc on oc ob once (p, x0, ch, k, sib, up) =
    subst (λ q. IsContext (rotated s n c b q d (s.child true q == n)) q c (f ∷ fs)) (sym p)
      (turned_frame s n c b d f fs n0 nc on oc ob once (refl, x0, ch, k, sib, up))

-- What a rotation makes of the tree at `n`.
abbrev pub Turns :
    Option (Unit {0} × Nodes)
    → Nodes
    → ℕ
    → ℕ
    → Bool
    → Bool
    → Bool
    → Tree
    → Tree
    → Tree
    → ℕ
    → List Frame
    → Type 0
Turns run s n c d cn cc near inner far par fs =
    (g : Nodes) × (run ≡ some (tt, g))
    × IsLinked g par c (node_at d cc (node_at d cn near n inner) c far)
    × IsContext g par c fs
    × ((p : ℕ) → g.is_red p ≡ s.is_red p)

module _ (s : Nodes) (n c par : ℕ) (d cn cc : Bool) (near inner far : Tree) (fs : List Frame)
    (t : IsLinked s par n (node_at d cn near n (node_at d cc inner c far)))
    (k : IsContext s par n fs)
    (u : IsDistinct (node_at d cn near n (node_at d cc inner c far)) fs) where
  once :
      (p : ℕ)
      → one_if n p
          + count p (inorder near)
          + (one_if c p + count p (inorder inner) + count p (inorder far))
          + count p (nodes_around fs)
        ≤ 1
  once p = omega (
    arith,
    u p,
    count-node_at p d cn near n (node_at d cc inner c far),
    count-node_at p d cc inner c far,
  )

  once_around : (p : ℕ) → count p (nodes_around fs) ≤ 1
  once_around p = omega (arith, once p)

  -- rotate_node turns the two nodes round and keeps the trees below and the nodes above them; it does
  -- not panic and changes no color.
  pub rotate_node-Turns : Turns (rotate_node n d s) s n c d cn cc near inner far par fs
  rotate_node-Turns =
      let (e, n0, pn, kn, tn, tc) =
        IsLinked-node_at s par n d cn near n (node_at d cc inner c far) t in
      let (ec, c0, pc, kc, ti, tf) = IsLinked-node_at s n (s.child (not d) n) d cc inner c far tc in
      let b : ℕ = s.child d c in
      let side : Bool = s.child true par == n in
      let nc : n ≢ c = λ z. ground (arith, once n, one_if_self n) in
      let on : count n (nodes_around fs) ≡ 0 = omega (arith, once n, one_if_self n) in
      let oc : count c (nodes_around fs) ≡ 0 = omega (arith, once c, one_if_self c) in
      let ib = root_in s c b inner ti in
      let ip = parent_in s par n fs k in
      let par_n : par ≢ n = λ z. ground (arith, ip, n0, on) in
      let par_c : par ≢ c = λ z. ground (arith, ip, c0, oc) in
      let bn : b ≢ null → b ≢ n = λ z w. ground (arith, ib z, once n, one_if_self n) in
      let bc : b ≢ null → b ≢ c = λ z w. ground (arith, ib z, once c, one_if_self c) in
      let bp : b ≢ null → par ≢ null → b ≢ par = λ z y w. ground (arith, ib z, ip y, once b) in
      let g : Nodes = rotated s n c b par d side in
      let ran = rotate_node-rotated s n c b par d side n0 c0 pn ec refl par_n par_c refl in
      let away = far_away s n c b par d side nc par_n par_c in
      let (npar, nfar, nnear) = at_n s n c b par d side nc par_n par_c in
      let (cpar, cnear, cfar) = at_c s n c b par d side nc par_n par_c in
      let near' =
        frame-IsLinked s g n (s.child d n) near
          (λ q i.
            away q (λ z. ground (arith, i, once n, one_if_self n))
              (λ z. ground (arith, i, once c, one_if_self c))
              (λ y z. ground (arith, i, ib y, once b)) (λ y z. ground (arith, i, ip y, once par)))
          tn in
      let far' =
        frame-IsLinked s g c (s.child (not d) c) far
          (λ q i.
            away q (λ z. ground (arith, i, once n, one_if_self n))
              (λ z. ground (arith, i, once c, one_if_self c))
              (λ y z. ground (arith, i, ib y, once b)) (λ y z. ground (arith, i, ip y, once par)))
          tf in
      let inner' =
        reparent-IsLinked s g c n b inner ti (λ q. omega (arith, once q))
          (λ z. at_b s n c b par d side nc par_n par_c z (bn z) (bc z) (bp z)) (λ z. refl)
          (λ q i w.
            away q (λ z. ground (arith, i, once n, one_if_self n))
              (λ z. ground (arith, i, once c, one_if_self c)) (λ y. w)
              (λ y z. ground (arith, i, ip y, once par))) in
      let below =
        node_at-IsLinked g c d cn near n inner n0 npar kn
          (subst (λ a. IsLinked g n a near) (sym nnear) near')
          (subst (λ a. IsLinked g n a inner) (sym nfar) inner') in
      (
        g,
        ran,
        node_at-IsLinked g par d cc (node_at d cn near n inner) c far c0 cpar kc
            (subst (λ a. IsLinked g c a (node_at d cn near n inner)) (sym cnear) below)
            (subst (λ a. IsLinked g c a far) (sym cfar) far'),
        turned-IsContext s n c b par d fs n0 nc on oc (λ z. ground (arith, ib z, once b))
            once_around k,
        λ p. refl,
      )
