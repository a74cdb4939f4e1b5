-- ===== src/Rbtree/Rounds.antt =====
-- All rounds of the loop of rb_balance of lib/rbtree.c.
use advanced_operating_syste.Rbtree.Colors.{
  plug-inorder, below_black, node_at-IsRedBlack, IsAround, IsRedBlack,
}
use advanced_operating_syste.Rbtree.Loop.{
  loop_go, black_anywhere, turn_mend, reds-IsRedBlack, black_mend, blacken-IsRedBlack, loop_stop,
  Mends,
}
use advanced_operating_syste.Rbtree.Tree.{
  nodes_around, IsLinked-node_at, IsDistinct, node_at, IsContext, IsLinked, inorder, Tree, leaf,
  branch, frame, Frame, frame_node, frame_red,
}
use advanced_operating_syste.Rbtree.Round.{recolor_round, relatives}
use advanced_operating_syste.Prelude.{
  count, subst, sym, ◌+◌, ◌≤◌, Bool, List, [], ap, arith, false, length, refl, some, suc, true,
  zero, ℕ, ◌<◌, ◌==◌, ◌∙◌, ◌∷◌, ◌≡◌,
}
use advanced_operating_syste.Rbtree.Plug.{
  above-IsDistinct, above_tree, climb-IsLinked, plug-IsLinked,
}
use advanced_operating_syste.Rbtree.Mend.{root_red}
use advanced_operating_syste.Rbtree.Rotate.{neq}
use advanced_operating_syste.LinkedList.Store.{null}
use advanced_operating_syste.Rbtree.Store.{and_then, Nodes}
use advanced_operating_syste.Rbtree.{balance_loop, is_red_node}

-- A new color leaves the order.
recolored-inorder :
    (up down : Bool) (t : Tree) (p : ℕ) (sibling : Tree) (g : ℕ) (l r : Tree) (u : ℕ)
    → inorder (node_at up true (node_at down false t p sibling) g (branch false l u r))
      ≡ inorder (relatives up down t p sibling g (branch true l u r))
recolored-inorder true true t p sibling g l r u = refl
recolored-inorder true false t p sibling g l r u = refl
recolored-inorder false true t p sibling g l r u = refl
recolored-inorder false false t p sibling g l r u = refl

-- The parent of a node, read through its context.
parent_red :
    (s : Nodes) (par n : ℕ) (t : Tree) (f : Frame) (fs : List Frame)
    → IsContext s par n (f ∷ fs)
    → s.parent n ≡ par
    → (s.parent n ≡ frame_node f) × (is_red_node (frame_node f) s ≡ some (frame_red f, s))
parent_red s par n t f fs (e, p0, _, k, _, _) pn =
    let pb : (frame_node f == null) ≡ false = neq (frame_node f) null p0 in
    (pn ∙ e, simp (pb, k) refl)

-- The parent is red and the grandparent black: the tree at the grandparent.
abbrev TwoUp : Nodes → ℕ → ℕ → Tree → Bool → ℕ → Tree → Bool → ℕ → Tree → List Frame → Type 0
TwoUp s par n t down p sibling up g uncle fs =
    IsLinked s (s.parent g) g (relatives up down t p sibling g uncle)
    × IsContext s (s.parent g) g fs
    × IsDistinct (relatives up down t p sibling g uncle) fs
    × (s.parent n ≡ p)
    × (is_red_node p s ≡ some (true, s))

two_up :
    (s : Nodes) (par n : ℕ) (t : Tree) (down : Bool) (p : ℕ) (sibling : Tree) (up : Bool) (g : ℕ)
    (uncle : Tree) (fs : List Frame)
    → IsLinked s par n t
    → IsContext s par n (frame down true p sibling ∷ frame up false g uncle ∷ fs)
    → IsDistinct t (frame down true p sibling ∷ frame up false g uncle ∷ fs)
    → s.parent n ≡ par
    → TwoUp s par n t down p sibling up g uncle fs
two_up s par n t down p sibling up g uncle fs lk c u pn =
    let first : Frame = frame down true p sibling in
    let second : Frame = frame up false g uncle in
    let (pn', red) = parent_red s par n t first (second ∷ fs) c pn in
    (
      climb-IsLinked s (s.parent p) p (above_tree t first) second fs
          (climb-IsLinked s par n t first (second ∷ fs) lk c) c.5,
      c.5.5,
      above-IsDistinct (above_tree t first) second fs (above-IsDistinct t first (second ∷ fs) u),
      pn',
      red,
    )

turn_mend_above :
    (s : Nodes) (par n f : ℕ) (down up side : Bool) (l r : Tree) (p : ℕ) (sibling : Tree) (g : ℕ)
    (uncle : Tree) (fs : List Frame) (h : ℕ)
    → IsLinked s par n (node_at side true l n r)
    → IsContext s par n (frame down true p sibling ∷ frame up false g uncle ∷ fs)
    → IsDistinct (node_at side true l n r) (frame down true p sibling ∷ frame up false g uncle ∷ fs)
    → IsRedBlack true l h
    → IsRedBlack true r h
    → IsAround false (frame down true p sibling ∷ frame up false g uncle ∷ fs) h
    → root_red uncle ≡ false
    → Mends
        (balance_loop (suc (suc f)) n s)
        (node_at side true l n r)
        (frame down true p sibling ∷ frame up false g uncle ∷ fs)
turn_mend_above s par n f down up side l r p sibling g uncle fs h lk c u rl rr (_, rs, (_, ru, a))
      black =
    let t : Tree = node_at side true l n r in
    let (_, n0, pn, _, _, _) = IsLinked-node_at s par n side true l n r lk in
    let (lk', c', u', pn', red) = two_up s par n t down p sibling up g uncle fs lk c u pn in
    turn_mend s (s.parent g) n p g f up down side l r sibling uncle fs h lk' c' u' rl rr rs
      (black_anywhere uncle h black ru) black a n0 pn' red

pub balance_loop-Mends :
    (fs : List Frame) (s : Nodes) (par n : ℕ) (side : Bool) (l r : Tree) (h f : ℕ)
    → IsLinked s par n (node_at side true l n r)
    → IsContext s par n fs
    → IsDistinct (node_at side true l n r) fs
    → IsRedBlack true l h
    → IsRedBlack true r h
    → IsAround false fs h
    → length fs < f
    → Mends (balance_loop f n s) (node_at side true l n r) fs
balance_loop-Mends fs s par n side l r h zero lk c u rl rr a i = absurd (omega (arith, i))
balance_loop-Mends [] s par n side l r h (suc f) lk (e, p) u rl rr a i =
    let t : Tree = node_at side true l n r in
    let (_, n0, pn, _, _, _) = IsLinked-node_at s par n side true l n r lk in
    (
      s,
      t,
      suc h,
      loop_stop f n s n0 (let np : s.parent n ≡ null = pn ∙ p in simp np refl),
      plug-IsLinked s par n t [] lk (e, p),
      blacken-IsRedBlack side l n r h rl rr,
      refl,
    )
balance_loop-Mends (frame sd false p sib ∷ fs) s par n side l r h (suc f) lk c u rl rr a i =
    let t : Tree = node_at side true l n r in
    let (_, n0, pn, _, _, _) = IsLinked-node_at s par n side true l n r lk in
    let (pn', red) = parent_red s par n t (frame sd false p sib) fs c pn in
    black_mend s par n f t (frame sd false p sib ∷ fs) h n0 (ap (λ q. is_red_node q s) pn' ∙ red) t
      n par lk c (reds-IsRedBlack side l n r h rl rr) a refl
balance_loop-Mends (frame sd true p sib ∷ []) s par n side l r h (suc f) lk c u rl rr (_, _, a) i =
    cc a
balance_loop-Mends (frame sd true p sib ∷ frame sd2 true g unc ∷ fs) s par n side l r h (suc f) lk c
      u rl rr (_, _, (a, _, _)) i =
    cc a
balance_loop-Mends (frame sd true p sib ∷ frame sd2 false g unc ∷ fs) s par n side l r h (suc zero)
      lk c u rl rr a i =
    absurd (omega (arith, i))
balance_loop-Mends (frame sd true p sib ∷ frame sd2 false g leaf ∷ fs) s par n side l r h
      (suc (suc f)) lk c u rl rr a i =
    turn_mend_above s par n f sd sd2 side l r p sib g leaf fs h lk c u rl rr a refl
balance_loop-Mends (frame sd true p sib ∷ frame sd2 false g (branch false ul x ur) ∷ fs) s par n
      side l r h (suc (suc f)) lk c u rl rr a i =
    turn_mend_above s par n f sd sd2 side l r p sib g (branch false ul x ur) fs h lk c u rl rr a
      refl
balance_loop-Mends (frame sd true p sib ∷ frame sd2 false g (branch true ul x ur) ∷ fs) s par n side
      l r h (suc (suc f)) lk c u rl rr (_, rs, (_, (_, rul, rur), a)) i =
    let t : Tree = node_at side true l n r in
    let (_, n0, pn, _, _, _) = IsLinked-node_at s par n side true l n r lk in
    let (lk', c', u', pn', red) =
      two_up s par n t sd p sib sd2 g (branch true ul x ur) fs lk c u pn in
    let (round, lk'', c'') = recolor_round s n p g x (s.parent g) sd2 sd t sib ul ur fs lk' c' u' in
    let new = recolored-inorder sd2 sd t p sib g ul ur x in
    let (k, top, m, run, lkt, rbt, o) =
      balance_loop-Mends fs _ (s.parent g) g sd2 (node_at sd false t p sib) (branch false ul x ur)
        (suc h) (suc f) lk'' c''
        (λ q. subst (λ z. count q z + count q (nodes_around fs) ≤ 1) (sym new) (u' q))
        (node_at-IsRedBlack true sd false t p sib h refl (reds-IsRedBlack side l n r h rl rr)
          (below_black sib h rs))
        (h, refl, below_black ul h rul, below_black ur h rur) a (omega (arith, i)) in
    (
      k,
      top,
      m,
      loop_go (suc f) n p s n0 pn' red
          ∙ (ap (λ q. and_then q (λ next. balance_loop (suc f) next)) round ∙ run),
      lkt,
      rbt,
      o
          ∙ plug-inorder fs (node_at sd2 true (node_at sd false t p sib) g (branch false ul x ur))
              (relatives sd2 sd t p sib g (branch true ul x ur)) new,
    )
