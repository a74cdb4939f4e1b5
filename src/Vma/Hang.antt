-- ===== src/Vma/Hang.antt =====
-- The link of a new node in insert_vma, kernel/vma/insert.c.
use advanced_operating_syste.Buddy.State.{update}
use advanced_operating_syste.Prelude.{
  Bool, List, [], arith, count, count-append, false, not, one_if_self, refl, subst, sym, true, ℕ,
  ◌+◌, ◌<◌, ◌==◌, ◌∷◌, ◌≡◌, ◌≢◌, ◌≤◌,
}
use advanced_operating_syste.LinkedList.Store.{null}
use advanced_operating_syste.Vma.Space.{hung}
use advanced_operating_syste.Vma.Descent.{top_node, top_side}
use advanced_operating_syste.Rbtree.Store.{Nodes, update_child}
use advanced_operating_syste.Rbtree.Tree.{
  leaf, branch, Frame, frame_node, frame_side, frame_sibling, inorder, nodes_around, IsLinked,
  IsContext, SameAt, frame-IsLinked, frame-IsContext,
}
use advanced_operating_syste.Rbtree.Rotate.{same_dir_self, same_dir-not, neq}

-- Below a parent.
abbrev linked : Nodes → ℕ → ℕ → Bool → Nodes
linked s n x d = record s { child = update_child s.child d x n; parent = update s.parent n x }

hung-linked : (s : Nodes) (n x : ℕ) (d : Bool) → x ≢ null → hung s n x d ≡ linked s n x d
hung-linked s n x d x0 = let xb : (x == null) ≡ false = neq x null x0 in rw xb refl

linked-SameAt :
    (s : Nodes) (n x : ℕ) (d : Bool) (q : ℕ) → q ≢ n → q ≢ x → SameAt s (linked s n x d) q
linked-SameAt s n x d q qn qx = record {
  parent = ground arith;
  child = λ dir. ground arith;
  is_red = refl;
}

linked-IsContext :
    (s : Nodes) (n : ℕ) (f : Frame) (gs : List Frame)
    → ((p : ℕ) → count p (nodes_around (f ∷ gs)) ≤ 1)
    → count n (nodes_around (f ∷ gs)) ≡ 0
    → n ≢ frame_node f
    → IsContext s (frame_node f) null (f ∷ gs)
    → IsContext (linked s n (frame_node f) (frame_side f)) (frame_node f) n (f ∷ gs)
linked-IsContext s n f gs u o nx (_, x0, _, k, sib, up) =
    let x : ℕ = frame_node f in
    let g : Nodes = linked s n x (frame_side f) in
    let parts = λ (q : ℕ). count-append q (inorder (frame_sibling f)) (nodes_around gs) in
    let away : (q : ℕ)
        → 0 < count q (inorder (frame_sibling f)) + count q (nodes_around gs)
        → SameAt s g q =
      λ q i.
        linked-SameAt s n x (frame_side f) q (λ e. ground (arith, i, o, parts n))
          (λ e. ground (arith, i, u x, parts x, one_if_self x)) in
    let other : g.child (not (frame_side f)) x ≡ s.child (not (frame_side f)) x =
      ground (arith, same_dir-not (frame_side f)) in
    let above : g.parent x ≡ s.parent x = ground arith in
    (
      refl,
      x0,
      ground (arith, same_dir_self (frame_side f)),
      k,
      subst (λ b. IsLinked g x b (frame_sibling f)) (sym other)
          (frame-IsLinked s g x (s.child (not (frame_side f)) x) (frame_sibling f)
            (λ q i. away q (omega (arith, i))) sib),
      subst (λ b. IsContext g b x gs) (sym above)
          (frame-IsContext s g (s.parent x) x gs (λ q i. away q (omega (arith, i))) refl up),
    )

-- The new node below the node where the descent has ended.
pub hung-IsContext :
    (s : Nodes) (n : ℕ) (gs : List Frame)
    → ((p : ℕ) → count p (nodes_around gs) ≤ 1)
    → count n (nodes_around gs) ≡ 0
    → n ≢ null
    → ((d : Bool) → s.child d n ≡ null)
    → s.parent n ≡ null
    → IsContext s (top_node gs) null gs
    → IsContext (hung s n (top_node gs) (top_side gs)) (top_node gs) n gs
      × IsLinked
          (hung s n (top_node gs) (top_side gs))
          (top_node gs)
          n
          (branch (s.is_red n) leaf n leaf)
hung-IsContext s n [] u o n0 kids up c = ((refl, refl), (refl, n0, up, refl, kids false, kids true))
hung-IsContext s n (f ∷ gs) u o n0 kids up c =
    let x : ℕ = frame_node f in
    let nx : n ≢ x = λ e. ground (arith, o) in
    let g : Nodes = linked s n x (frame_side f) in
    let same = sym (hung-linked s n x (frame_side f) c.1) in
    (
      subst (λ k. IsContext k x n (f ∷ gs)) same (linked-IsContext s n f gs u o nx c),
      subst (λ k. IsLinked k x n (branch (s.is_red n) leaf n leaf)) same
          (
            refl,
            n0,
            ground arith,
            refl,
            (let b : (n == x) ≡ false = neq n x nx in rw b (kids false)),
            (let b : (n == x) ≡ false = neq n x nx in rw b (kids true)),
          ),
    )
