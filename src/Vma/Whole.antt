-- ===== src/Vma/Whole.antt =====
-- insert_vma of kernel/vma/insert.c as a whole.
use advanced_operating_syste.Vma.Space.{hung, areas, Space, insert_vma, vm_mmap}
use advanced_operating_syste.Rbtree.Plug.{count-plug}
use advanced_operating_syste.Vma.Sorted.{IsPassed, IsOrdered, put-IsOrdered}
use advanced_operating_syste.Rbtree.Colors.{IsAround, IsRedBlack}
use advanced_operating_syste.Vma.{find_place}
use advanced_operating_syste.Prelude.{
  Bool, List, Option, [], ap, arith, count, false, inl, inr, length, one_if, refl, some, subst, sym,
  true, ℕ, ◌+◌, ◌<◌, ◌∙◌, ◌∷◌, ◌≡◌, ◌≢◌, ◌≤◌, ◌⊎◌,
}
use advanced_operating_syste.Prelude.Int.{pos, negsuc, ℤ}
use advanced_operating_syste.LinkedList.Store.{null}
use advanced_operating_syste.LinkedList.Chain.{IsRing}
use advanced_operating_syste.LinkedList.Insert.{IsFresh}
use advanced_operating_syste.Vma.Descent.{top_node, top_side, find_place-Descends}
use advanced_operating_syste.Vma.Hang.{hung-IsContext}
use advanced_operating_syste.Vma.Enlist.{mmaps, IsReal, insert_sorted-IsRing}
use advanced_operating_syste.Rbtree.Store.{Nodes}
use advanced_operating_syste.Rbtree.Balance.{rb_balance-IsRedBlack}
use advanced_operating_syste.Rbtree.Tree.{
  Tree, leaf, branch, Frame, frame, inorder, plug, IsLinked, IsContext,
}

-- The areas of a task between calls: a red-black tree in the order of the addresses, and the same areas in
-- the list. They lie between `lo` and `hi`.
pub record IsSpace (s : Space) (task_mmap lo hi : ℕ) (t : Tree) (h : ℕ) : Type 0 where
  pub linked : IsLinked s.nodes null s.nodes.root t
  pub red_black : IsRedBlack true t h
  pub once : (p : ℕ) → count p (inorder t) ≤ 1
  pub ordered : IsOrdered s lo hi (inorder t)
  pub listed : IsRing s.links task_mmap (mmaps (inorder t))

-- An area that is not linked yet, as rb_node_init left its node.
pub record IsNew (s : Space) (task_mmap lo hi n : ℕ) (t : Tree) : Type 0 where
  pub ne_null : n ≢ null
  pub outside : count n (inorder t) ≡ 0
  pub no_children : (d : Bool) → s.nodes.child d n ≡ null
  pub no_parent : s.nodes.parent n ≡ null
  pub unlisted : IsFresh (vm_mmap n) task_mmap (mmaps (inorder t))
  pub above : lo ≤ s.vm_base n
  pub not_empty : s.vm_base n < s.vm_end n
  pub below : s.vm_end n ≤ hi

-- What insert_vma promises.
abbrev pub Inserts : Option (ℤ × Space) → Space → ℕ → ℕ → ℕ → ℕ → Tree → Type 0
Inserts run s task_mmap lo hi n t =
    ((run ≡ some (negsuc 0, s))
      × ((x : ℕ) × (0 < count x (inorder t))
          × (s.vm_base n < s.vm_end x)
          × (s.vm_base x < s.vm_end n)))
    ⊎ ((u : Space) × (top : Tree) × (k : ℕ) × (run ≡ some (pos 0, u))
        × IsSpace u task_mmap lo hi top k
        × ((p : ℕ) → count p (inorder top) ≡ one_if n p + count p (inorder t))
        × (u.vm_base ≡ s.vm_base)
        × (u.vm_end ≡ s.vm_end))

context-IsReal : (s : Nodes) (a : ℕ) (gs : List Frame) → IsContext s (top_node gs) a gs → IsReal gs
context-IsReal s a [] c = tt
context-IsReal s a (frame side red x sibling ∷ fs) c = c.1

module _ (fuel : ℕ) (s : Space) (task_mmap lo hi n : ℕ) (t : Tree) (h : ℕ)
    (v : IsSpace s task_mmap lo hi t h) (w : IsNew s task_mmap lo hi n t)
    (b : length (inorder t) < fuel) where
  -- From the leaf on where the descent has ended.
  inserted :
      (gs : List Frame)
      → find_place fuel (areas s) (s.vm_base n) (s.vm_end n) s.nodes.root null false
        ≡ some (some (top_node gs, top_side gs))
      → IsContext s.nodes (top_node gs) null gs
      → plug leaf gs ≡ t
      → IsAround false gs 0
      → IsPassed s (s.vm_base n) (s.vm_end n) gs
      → length gs ≤ length (inorder t)
      → Inserts (insert_vma fuel task_mmap n s) s task_mmap lo hi n t
  unfolding insert_vma
  inserted gs found c same a p len =
      let red : Bool = s.nodes.is_red n in
      let hits = λ (q : ℕ). ap (λ x. count q (inorder x)) (sym same) ∙ count-plug q leaf gs in
      let (c', lk) =
        hung-IsContext s.nodes n gs (λ q. omega (arith, v.once q, hits q))
          (omega (arith, w.outside, hits n)) w.ne_null w.no_children w.no_parent c in
      let (g, top, k, balanced, linked, rb, order) =
        rb_balance-IsRedBlack (hung s.nodes n (top_node gs) (top_side gs)) (top_node gs) n red leaf
          leaf gs 0 fuel lk c' (λ q. ground (arith, v.once q, hits q, w.outside, hits n)) refl refl
          a (omega (arith, len, b)) in
      let (m, listed, ring) =
        insert_sorted-IsRing s.links task_mmap n red gs (context-IsReal s.nodes null gs c)
          (subst (λ x. IsRing s.links task_mmap (mmaps (inorder x))) (sym same) v.listed)
          (subst (λ x. IsFresh (vm_mmap n) task_mmap (mmaps (inorder x))) (sym same) w.unlisted) in
      let sorted =
        put-IsOrdered s lo hi red n gs
          (subst (λ x. IsOrdered s lo hi (inorder x)) (sym same) v.ordered) w.above w.not_empty
          w.below p in
      let all : (q : ℕ) → count q (inorder top) ≡ one_if n q + count q (inorder t) =
        λ q. omega (arith, ap (count q) order, count-plug q (branch red leaf n leaf) gs, hits q) in
      inr (
        record s { nodes = g; links = m },
        top,
        k,
        simp (found, balanced, listed) refl,
        record {
          linked = linked;
          red_black = rb;
          once = λ q. ground (arith, all q, v.once q, w.outside);
          ordered = subst (IsOrdered s lo hi) (sym order) sorted;
          listed = subst (λ l. IsRing m task_mmap (mmaps l)) (sym order) ring;
        },
        all,
        refl,
        refl,
      )

  -- insert_vma of a new area, not empty and within the bounds, with more fuel than areas, ends without a
  -- panic. It returns -1 and changes nothing when an area of the task overlaps the new one. Otherwise it
  -- returns 0, and the new area and the old ones stand in a red-black tree in the order of their
  -- addresses, where no two overlap, and in the same order in the list.
  pub insert_vma-Inserts : Inserts (insert_vma fuel task_mmap n s) s task_mmap lo hi n t
  unfolding insert_vma
  insert_vma-Inserts =
      elim (find_place-Descends s (s.vm_base n) (s.vm_end n) fuel t s.nodes.root null [] h v.linked
        (refl, refl) v.red_black refl tt b) [
          | inl (found, over) ↦ inl (simp found refl, over)
          | inr (gs, found, c, same, a, p, len) ↦ inserted gs found c same a p (omega (arith, len))
        ]
