-- ===== src/Rbtree/Balance.antt =====
-- rb_balance of lib/rbtree.c as a whole.
use advanced_operating_syste.Rbtree.Plug.{count-plug}
use advanced_operating_syste.Rbtree.Colors.{plug-inorder, IsAround, blacken, IsRedBlack}
use advanced_operating_syste.Rbtree.Rounds.{balance_loop-Mends}
use advanced_operating_syste.Rbtree.Tree.{
  frame-IsContext, plug, IsDistinct, frame-IsLinked, IsContext, inorder, IsLinked, SameAt, Tree,
  leaf, branch, Frame,
}
use advanced_operating_syste.Rbtree.Store.{pure, set_red, and_then, Nodes, update_red}
use advanced_operating_syste.Rbtree.Rotate.{neq}
use advanced_operating_syste.Rbtree.Mend.{painted-SameAt, painted}
use advanced_operating_syste.Prelude.{
  Bool, List, Option, ap, arith, count, count-append, false, length, one_if_self, refl, some, subst,
  sym, true, ℕ, ◌<◌, ◌==◌, ◌∙◌, ◌∷◌, ◌≡◌, ◌≢◌, ◌≤◌,
}
use advanced_operating_syste.Prelude.Int.{pos, ℤ}
use advanced_operating_syste.LinkedList.Store.{null}
use advanced_operating_syste.Rbtree.{rb_balance}

-- The node at the root of a tree gets a color.
abbrev dyed : Nodes → ℕ → Bool → Nodes
dyed s x red = painted s (update_red s.is_red x red)

dyed-SameAt : (s : Nodes) (x : ℕ) (red : Bool) (q : ℕ) → q ≢ x → SameAt s (dyed s x red) q
dyed-SameAt s x red q h = painted-SameAt s (update_red s.is_red x red) q (rw (neq q x h) refl)

dyed-IsLinked :
    (s : Nodes) (par a : ℕ) (red now : Bool) (l : Tree) (x : ℕ) (r : Tree)
    → IsLinked s par a (branch red l x r)
    → count x (inorder (branch red l x r)) ≤ 1
    → IsLinked (dyed s x now) par a (branch now l x r)
dyed-IsLinked s par a red now l x r (e, n, p, c, lhs, rhs) once =
    let one = count-append x (inorder l) (x ∷ inorder r) in
    let outl : (q : ℕ) → 0 < count q (inorder l) → q ≢ x =
      λ q i z. ground (arith, once, one, one_if_self x) in
    let outr : (q : ℕ) → 0 < count q (inorder r) → q ≢ x =
      λ q i z. ground (arith, once, one, one_if_self x) in
    let k : Nodes = dyed s x now in
    (
      e,
      n,
      p,
      ground arith,
      frame-IsLinked s k x (s.child false x) l (λ q i. dyed-SameAt s x now q (outl q i)) lhs,
      frame-IsLinked s k x (s.child true x) r (λ q i. dyed-SameAt s x now q (outr q i)) rhs,
    )

-- rb_balance returns `answer`, and leaves a red-black tree on the nodes of `t` in their order.
abbrev pub Balances : Option (ℤ × Nodes) → ℤ → Tree → Type 0
Balances run answer t =
    (g : Nodes) × (top : Tree) × (k : ℕ) × (run ≡ some (answer, g))
    × IsLinked g null g.root top
    × IsRedBlack true top k
    × (inorder top ≡ inorder t)

-- `root->color = RB_BLACK;`
root_black :
    (g : Nodes) (t top : Tree) (k : ℕ) (n : ℕ)
    → IsLinked g null g.root top
    → IsRedBlack true (blacken top) k
    → inorder top ≡ inorder t
    → ((q : ℕ) → count q (inorder t) ≤ 1)
    → 0 < count n (inorder t)
    → Balances (and_then (set_red false g.root g) (λ _. pure (pos 0))) (pos 0) t
root_black g t leaf k n lk rb o once i = absurd (omega (arith, i, ap (count n) o))
root_black g t (branch red l x r) k n lk rb o once i =
    let rb0 : (g.root == null) ≡ false = neq g.root null (λ z. lk.1 (sym lk.0 ∙ z)) in
    let once' : count x (inorder (branch red l x r)) ≤ 1 =
      subst (λ z. count x z ≤ 1) (sym o) (once x) in
    (
      dyed g g.root false,
      branch false l x r,
      k,
      simp rb0 refl,
      subst (λ y. IsLinked (dyed g y false) null g.root (branch false l x r)) (sym lk.0)
          (dyed-IsLinked g null g.root red false l x r lk once'),
      rb,
      o,
    )

-- rb_balance does not panic, ends and returns 0, where the node hangs in a linked tree between two
-- subtrees that are red-black below it, and the tree around is red-black, with as many black nodes on every
-- way down. The whole is red-black afterwards, on the same nodes in the same order. The fuel is above
-- the number of nodes over the node, and a node does not stand twice in the tree.
pub rb_balance-IsRedBlack :
    (s : Nodes) (par n : ℕ) (red : Bool) (l r : Tree) (fs : List Frame) (h fuel : ℕ)
    → IsLinked s par n (branch red l n r)
    → IsContext s par n fs
    → IsDistinct (branch red l n r) fs
    → IsRedBlack true l h
    → IsRedBlack true r h
    → IsAround false fs h
    → length fs < fuel
    → Balances (rb_balance fuel n s) (pos 0) (plug (branch red l n r) fs)
unfolding rb_balance
rb_balance-IsRedBlack s par n red l r fs h fuel lk c u rl rr a i =
    let nb : (n == null) ≡ false = neq n null lk.1 in
    let one = count-append n (inorder l) (n ∷ inorder r) in
    let t : Tree = branch red l n r in
    let lk' = dyed-IsLinked s par n red true l n r lk (omega (arith, u n)) in
    let c' =
      frame-IsContext s (dyed s n true) par n fs
        (λ q j. dyed-SameAt s n true q (λ z. ground (arith, u n, one, one_if_self n))) refl c in
    let (g, top, k, run, lkt, rbt, o) =
      balance_loop-Mends fs (dyed s n true) par n false l r h fuel lk' c' u rl rr a i in
    let o' : inorder top ≡ inorder (plug t fs) = o ∙ plug-inorder fs (branch true l n r) t refl in
    let (g', top', k', run', lk'', rb'', o'') =
      root_black g (plug t fs) top k n lkt rbt o' (λ q. omega (arith, u q, count-plug q t fs))
        (omega (arith, count-plug n t fs, one, one_if_self n)) in
    (g', top', k', simp (nb, run, run') refl, lk'', rb'', o'')
