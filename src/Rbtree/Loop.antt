-- ===== src/Rbtree/Loop.antt =====
-- The loop of rb_balance of lib/rbtree.c.
use advanced_operating_syste.Rbtree.Colors.{
  turned-inorder, plug-inorder, blacken_black, plug-IsRedBlack, IsAround, below_black,
  node_at-IsRedBlack, red_above, blacken, IsRedBlack,
}
use advanced_operating_syste.Rbtree.{rotate_up, balance_loop, is_red_node, balance_round}
use advanced_operating_syste.Rbtree.Round.{turn_round, count-relatives, relatives}
use advanced_operating_syste.Rbtree.Tree.{
  leaf, IsLinked-node_at, IsDistinct, branch, plug, inorder, IsContext, node_at, IsLinked, Tree,
  Frame,
}
use advanced_operating_syste.Rbtree.Mend.{rotate_up-RotatesUp, root_red}
use advanced_operating_syste.Rbtree.Straighten.{straighten-Straightens}
use advanced_operating_syste.Prelude.{
  ap, arith, count, not, one_if_self, ◌∙◌, Bool, List, Option, false, refl, some, subst, suc, sym,
  true, ℕ, ◌==◌, ◌≡◌, ◌≢◌,
}
use advanced_operating_syste.Rbtree.Plug.{plug-IsLinked}
use advanced_operating_syste.Rbtree.Rotate.{neq}
use advanced_operating_syste.LinkedList.Store.{null}
use advanced_operating_syste.Rbtree.Store.{and_then, Nodes}

pub loop_stop :
    (f n : ℕ) (s : Nodes)
    → n ≢ null
    → is_red_node (s.parent n) s ≡ some (false, s)
    → balance_loop (suc f) n s ≡ some (tt, s)
unfolding balance_loop
loop_stop f n s n0 e = let nb : (n == null) ≡ false = neq n null n0 in simp (nb, e) refl

pub loop_go :
    (f n p : ℕ) (s : Nodes)
    → n ≢ null
    → s.parent n ≡ p
    → is_red_node p s ≡ some (true, s)
    → balance_loop (suc f) n s ≡ and_then (balance_round n p s) (λ next. balance_loop f next)
unfolding balance_loop
loop_go f n p s n0 ep e = let nb : (n == null) ≡ false = neq n null n0 in simp (nb, ep, e) refl

-- What the loop leaves behind: the same nodes in order, red-black but for the color of the root.
abbrev pub Mends : Option (Unit {0} × Nodes) → Tree → List Frame → Type 0
Mends run t fs =
    (g : Nodes) × (top : Tree) × (k : ℕ) × (run ≡ some (tt, g))
    × IsLinked g null g.root top
    × IsRedBlack true (blacken top) k
    × (inorder top ≡ inorder (plug t fs))

pub reds-IsRedBlack :
    (side : Bool) (l : Tree) (n : ℕ) (r : Tree) (h : ℕ)
    → IsRedBlack true l h
    → IsRedBlack true r h
    → IsRedBlack false (node_at side true l n r) h
reds-IsRedBlack side l n r h rl rr = node_at-IsRedBlack false side true l n r h refl rl rr

pub blacken-IsRedBlack :
    (side : Bool) (l : Tree) (n : ℕ) (r : Tree) (h : ℕ)
    → IsRedBlack true l h
    → IsRedBlack true r h
    → IsRedBlack true (blacken (node_at side true l n r)) (suc h)
blacken-IsRedBlack true l n r h rl rr = (h, refl, below_black r h rr, below_black l h rl)
blacken-IsRedBlack false l n r h rl rr = (h, refl, below_black l h rl, below_black r h rr)

-- The loop stops below a black node.
pub black_mend :
    (s : Nodes) (par n f : ℕ) (t : Tree) (fs : List Frame) (h : ℕ)
    → n ≢ null
    → is_red_node (s.parent n) s ≡ some (false, s)
    → (inside : Tree) (at around : ℕ) → IsLinked s around at inside
    → IsContext s around at fs
    → IsRedBlack (red_above fs) inside h
    → IsAround false fs h
    → inorder inside ≡ inorder t
    → Mends (balance_loop (suc f) n s) t fs
black_mend s par n f t fs h n0 e inside at around lk c rb a o =
    let (k, top) = plug-IsRedBlack fs false inside h a rb in
    (
      s,
      plug inside fs,
      k,
      loop_stop f n s n0 e,
      plug-IsLinked s around at inside fs lk c,
      subst (λ x. IsRedBlack true x k) (sym (blacken_black (plug inside fs) k top)) top,
      plug-inorder fs inside t o,
    )

pub black_anywhere :
    (t : Tree) (h : ℕ) → root_red t ≡ false → IsRedBlack false t h → IsRedBlack true t h
black_anywhere leaf h e r = r
black_anywhere (branch true l x r) h e rb = cc e
black_anywhere (branch false l x r) h e rb = rb

-- The round with a black uncle is the last one.
pub turn_mend :
    (s : Nodes) (par n p g f : ℕ) (up down side : Bool) (l r sibling uncle : Tree) (fs : List Frame)
    (h : ℕ)
    → IsLinked s par g (relatives up down (node_at side true l n r) p sibling g uncle)
    → IsContext s par g fs
    → IsDistinct (relatives up down (node_at side true l n r) p sibling g uncle) fs
    → IsRedBlack true l h
    → IsRedBlack true r h
    → IsRedBlack true sibling h
    → IsRedBlack true uncle h
    → root_red uncle ≡ false
    → IsAround false fs (suc h)
    → n ≢ null
    → s.parent n ≡ p
    → is_red_node p s ≡ some (true, s)
    → Mends
        (balance_loop (suc (suc f)) n s)
        (relatives up down (node_at side true l n r) p sibling g uncle)
        fs
turn_mend s par n p g f up down side l r sibling uncle fs h lk c u rl rr rs ru black a n0 ep red =
    let (n', p', k, side', l', r', sibling', ran, lk', c', u', o', rl', rr', rs') =
      straighten-Straightens s n p g par up down side uncle sibling l r fs h lk c u rl rr rs in
    let t' : Tree = node_at side' true l' n' r' in
    let e : Bool = not up in
    let (k', turned, lk'', c'') =
      rotate_up-RotatesUp k n' p' g par e uncle sibling' t' fs lk' c' u' in
    let beside : Tree = node_at e true uncle g sibling' in
    let (_, p0', _, black', _, under) = IsLinked-node_at k' par p' e false beside p' t' lk'' in
    let (_, n0', pn', _, _, _) =
      IsLinked-node_at k' p' (k'.child (not e) p') side' true l' n' r' under in
    let away : count p (inorder uncle) ≡ 0 = omega (
      arith,
      u p,
      count-relatives p up down (node_at side true l n r) p sibling g uncle,
      one_if_self p,
    ) in
    let round : balance_round n p s ≡ some (n', k') =
      turn_round s n p g par up down (node_at side true l n r) sibling uncle lk away black
      ∙ (ap (λ m. and_then m (λ pair. rotate_up g e pair)) ran ∙ turned) in
    let pb : (p' == null) ≡ false = neq p' null p0' in
    let last : is_red_node (k'.parent n') k' ≡ some (false, k') = simp (pn', pb, black') refl in
    let loop : balance_loop (suc (suc f)) n s ≡ balance_loop (suc f) n' k' =
      loop_go (suc f) n p s n0 ep red
      ∙ ap (λ m. and_then m (λ next. balance_loop (suc f) next)) round in
    subst (λ m. Mends m (relatives up down (node_at side true l n r) p sibling g uncle) fs)
      (sym loop)
      (black_mend k' par n' f (relatives up down (node_at side true l n r) p sibling g uncle) fs
        (suc h) n0' last (node_at e false beside p' t') p' par lk'' c''
        (node_at-IsRedBlack (red_above fs) e false beside p' t' h (ground arith)
          (node_at-IsRedBlack false e true uncle g sibling' h refl ru rs')
          (reds-IsRedBlack side' l' n' r' h rl' rr'))
        a (sym (o' ∙ turned-inorder e false true false true uncle sibling' t' g p')))
