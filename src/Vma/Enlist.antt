-- ===== src/Vma/Enlist.antt =====
-- The sorted list of insert_vma, kernel/vma/insert.c.
use advanced_operating_syste.Prelude.{
  Bool, List, [], ap, false, refl, some, subst, sym, true, ℕ, ◌++◌, ◌==◌, ◌∙◌, ◌∷◌, ◌≡◌, ◌≢◌,
}
use mathlib.Core.List.{append_assoc, append-nil}
use advanced_operating_syste.LinkedList.Store.{Links, null}
use advanced_operating_syste.LinkedList.Chain.{IsRing}
use advanced_operating_syste.LinkedList.Insert.{
  IsFresh, add-IsRing, list_insert_after-IsRing, list_insert_before-IsRing,
}
use advanced_operating_syste.Vma.Space.{vm_mmap, insert_sorted}
use advanced_operating_syste.Vma.Descent.{top_node, top_side}
use advanced_operating_syste.Rbtree.Rotate.{neq}
use advanced_operating_syste.Rbtree.Tree.{Tree, leaf, branch, Frame, frame, inorder, plug}

-- The list nodes of areas.
abbrev pub mmaps : List ℕ → List ℕ
mmaps [] = []
mmaps (x ∷ xs) = vm_mmap x ∷ mmaps xs

mmaps-append : (xs ys : List ℕ) → mmaps (xs ++ ys) ≡ mmaps xs ++ mmaps ys
mmaps-append [] ys = refl
mmaps-append (x ∷ xs) ys = ap (λ l. vm_mmap x ∷ l) (mmaps-append xs ys)

-- What stands before and behind a subtree in the order of the whole.
around_tree :
    (fs : List Frame)
    → (xs : List ℕ) × (ys : List ℕ) × ((t : Tree) → inorder (plug t fs) ≡ xs ++ (inorder t ++ ys))
around_tree [] = ([], [], λ t. sym (append-nil (inorder t)))
around_tree (frame true c x sibling ∷ fs) =
    let (xs, ys, h) = around_tree fs in
    let ss : List ℕ = inorder sibling in
    (
      xs ++ (ss ++ x ∷ []),
      ys,
      λ t.
          h (branch c sibling x t)
          ∙ (ap (λ l. xs ++ l)
                (append_assoc ss (x ∷ inorder t) ys
                  ∙ sym (append_assoc ss (x ∷ []) (inorder t ++ ys)))
              ∙ sym (append_assoc xs (ss ++ x ∷ []) (inorder t ++ ys))),
    )
around_tree (frame false c x sibling ∷ fs) =
    let (xs, ys, h) = around_tree fs in
    (
      xs,
      x ∷ (inorder sibling ++ ys),
      λ t.
          h (branch c t x sibling)
          ∙ ap (λ l. xs ++ l) (append_assoc (inorder t) (x ∷ inorder sibling) ys),
    )

-- The node on top is a node.
abbrev pub IsReal : List Frame → Type 0
IsReal [] = Unit {0}
IsReal (frame side c x sibling ∷ fs) = x ≢ null

-- The list gets the new area at its place in the order of the tree.
pub insert_sorted-IsRing :
    (h : Links) (head n : ℕ) (red : Bool) (gs : List Frame)
    → IsReal gs
    → IsRing h head (mmaps (inorder (plug leaf gs)))
    → IsFresh (vm_mmap n) head (mmaps (inorder (plug leaf gs)))
    → (g : Links) × (insert_sorted head n (top_node gs) (top_side gs) h ≡ some (tt, g))
      × IsRing g head (mmaps (inorder (plug (branch red leaf n leaf) gs)))
insert_sorted-IsRing h head n red [] x0 r f =
    let (g, ran, ring, _) = add-IsRing h head (vm_mmap n) [] r f in (g, ran, ring)
insert_sorted-IsRing h head n red (frame true c x sibling ∷ fs) x0 r f =
    let (xs, ys, e) = around_tree fs in
    let ss : List ℕ = inorder sibling in
    let ws : List ℕ = xs ++ ss in
    let before : inorder (plug (branch c sibling x leaf) fs) ≡ ws ++ x ∷ ys =
      e (branch c sibling x leaf)
      ∙ (ap (λ l. xs ++ l) (append_assoc ss (x ∷ []) ys) ∙ sym (append_assoc xs ss (x ∷ ys))) in
    let after : inorder (plug (branch c sibling x (branch red leaf n leaf)) fs) ≡ ws ++ x ∷ n ∷ ys =
      e (branch c sibling x (branch red leaf n leaf))
      ∙ (ap (λ l. xs ++ l) (append_assoc ss (x ∷ n ∷ []) ys)
          ∙ sym (append_assoc xs ss (x ∷ n ∷ ys))) in
    let old = ap mmaps before ∙ mmaps-append ws (x ∷ ys) in
    let new = ap mmaps after ∙ mmaps-append ws (x ∷ n ∷ ys) in
    let (g, ran, ring, _) =
      list_insert_after-IsRing h head (vm_mmap x) (vm_mmap n) (mmaps ws) (mmaps ys)
        (subst (IsRing h head) old r) (subst (IsFresh (vm_mmap n) head) old f) in
    let b : (x == null) ≡ false = neq x null x0 in
    (g, rw b ran, subst (IsRing g head) (sym new) ring)
insert_sorted-IsRing h head n red (frame false c x sibling ∷ fs) x0 r f =
    let (xs, ys, e) = around_tree fs in
    let zs : List ℕ = inorder sibling ++ ys in
    let old = ap mmaps (e (branch c leaf x sibling)) ∙ mmaps-append xs (x ∷ zs) in
    let new =
      ap mmaps (e (branch c (branch red leaf n leaf) x sibling)) ∙ mmaps-append xs (n ∷ x ∷ zs) in
    let (g, ran, ring, _) =
      list_insert_before-IsRing h head (vm_mmap x) (vm_mmap n) (mmaps xs) (mmaps zs)
        (subst (IsRing h head) old r) (subst (IsFresh (vm_mmap n) head) old f) in
    let b : (x == null) ≡ false = neq x null x0 in
    (g, rw b ran, subst (IsRing g head) (sym new) ring)
