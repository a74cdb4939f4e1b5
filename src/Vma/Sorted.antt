-- ===== src/Vma/Sorted.antt =====
-- The order of the areas in the balanced tree of insert_vma, kernel/vma/insert.c.
use advanced_operating_syste.Prelude.{Bool, List, [], false, true, ℕ, ◌++◌, ◌<◌, ◌∷◌, ◌≤◌}
use advanced_operating_syste.Vma.Space.{Space}
use advanced_operating_syste.Rbtree.Tree.{Tree, leaf, branch, Frame, frame, inorder, plug}

-- Areas that are not empty and do not meet, between `lo` and `hi`, from the lowest address on.
abbrev pub IsOrdered : Space → ℕ → ℕ → List ℕ → Type 0
IsOrdered s lo hi [] = lo ≤ hi
IsOrdered s lo hi (x ∷ xs) =
    (lo ≤ s.vm_base x) × (s.vm_base x < s.vm_end x) × IsOrdered s (s.vm_end x) hi xs

module _ (s : Space) where
  split-IsOrdered :
      (lo hi : ℕ) (xs : List ℕ) (x : ℕ) (ys : List ℕ)
      → IsOrdered s lo hi (xs ++ x ∷ ys)
      → IsOrdered s lo (s.vm_base x) xs
        × (s.vm_base x < s.vm_end x)
        × IsOrdered s (s.vm_end x) hi ys
  split-IsOrdered lo hi [] x ys o = o
  split-IsOrdered lo hi (y ∷ xs) x ys (a, b, c) =
      let (d, e, f) = split-IsOrdered (s.vm_end y) hi xs x ys c in ((a, b, d), e, f)

  join-IsOrdered :
      (lo hi : ℕ) (xs : List ℕ) (x : ℕ) (ys : List ℕ)
      → IsOrdered s lo (s.vm_base x) xs
      → s.vm_base x < s.vm_end x
      → IsOrdered s (s.vm_end x) hi ys
      → IsOrdered s lo hi (xs ++ x ∷ ys)
  join-IsOrdered lo hi [] x ys a b c = (a, b, c)
  join-IsOrdered lo hi (y ∷ xs) x ys (a, a', d) b c =
      (a, a', join-IsOrdered (s.vm_end y) hi xs x ys d b c)

-- The bounds that the nodes above leave to a subtree.
abbrev pub lo_of : Space → ℕ → List Frame → ℕ
lo_of s lo [] = lo
lo_of s lo (frame true c x sibling ∷ fs) = s.vm_end x
lo_of s lo (frame false c x sibling ∷ fs) = lo_of s lo fs

abbrev pub hi_of : Space → ℕ → List Frame → ℕ
hi_of s hi [] = hi
hi_of s hi (frame true c x sibling ∷ fs) = hi_of s hi fs
hi_of s hi (frame false c x sibling ∷ fs) = s.vm_base x

abbrev Outer : Space → ℕ → ℕ → List Frame → Type 0
Outer s lo hi [] = Unit {0}
Outer s lo hi (frame true c x sibling ∷ fs) =
    IsOrdered s (lo_of s lo fs) (s.vm_base x) (inorder sibling)
    × (s.vm_base x < s.vm_end x)
    × Outer s lo hi fs
Outer s lo hi (frame false c x sibling ∷ fs) =
    (s.vm_base x < s.vm_end x)
    × IsOrdered s (s.vm_end x) (hi_of s hi fs) (inorder sibling)
    × Outer s lo hi fs

-- The new area is on the right side of all nodes above.
abbrev pub IsPassed : Space → ℕ → ℕ → List Frame → Type 0
IsPassed s base end [] = Unit {0}
IsPassed s base end (frame true c x sibling ∷ fs) = (s.vm_end x ≤ base) × IsPassed s base end fs
IsPassed s base end (frame false c x sibling ∷ fs) = (end ≤ s.vm_base x) × IsPassed s base end fs

module _ (s : Space) (lo hi : ℕ) where
  inside_out :
      (fs : List Frame) (t : Tree)
      → IsOrdered s lo hi (inorder (plug t fs))
      → IsOrdered s (lo_of s lo fs) (hi_of s hi fs) (inorder t) × Outer s lo hi fs
  inside_out [] t o = (o, tt)
  inside_out (frame true c x sibling ∷ fs) t o =
      let (p, q) = inside_out fs (branch c sibling x t) o in
      let (a, b, d) =
        split-IsOrdered s (lo_of s lo fs) (hi_of s hi fs) (inorder sibling) x (inorder t) p in
      (d, (a, b, q))
  inside_out (frame false c x sibling ∷ fs) t o =
      let (p, q) = inside_out fs (branch c t x sibling) o in
      let (a, b, d) =
        split-IsOrdered s (lo_of s lo fs) (hi_of s hi fs) (inorder t) x (inorder sibling) p in
      (a, (b, d, q))

  outside_in :
      (fs : List Frame) (t : Tree)
      → IsOrdered s (lo_of s lo fs) (hi_of s hi fs) (inorder t)
      → Outer s lo hi fs
      → IsOrdered s lo hi (inorder (plug t fs))
  outside_in [] t o q = o
  outside_in (frame true c x sibling ∷ fs) t o (a, b, q) =
      outside_in fs (branch c sibling x t)
        (join-IsOrdered s (lo_of s lo fs) (hi_of s hi fs) (inorder sibling) x (inorder t) a b o) q
  outside_in (frame false c x sibling ∷ fs) t o (b, d, q) =
      outside_in fs (branch c t x sibling)
        (join-IsOrdered s (lo_of s lo fs) (hi_of s hi fs) (inorder t) x (inorder sibling) o b d) q

  above_lo :
      (base end : ℕ) (fs : List Frame) → lo ≤ base → IsPassed s base end fs → lo_of s lo fs ≤ base
  above_lo base end [] l p = l
  above_lo base end (frame true c x sibling ∷ fs) l p = p.0
  above_lo base end (frame false c x sibling ∷ fs) l p = above_lo base end fs l p.1

  below_hi :
      (base end : ℕ) (fs : List Frame) → end ≤ hi → IsPassed s base end fs → end ≤ hi_of s hi fs
  below_hi base end [] l p = l
  below_hi base end (frame true c x sibling ∷ fs) l p = below_hi base end fs l p.1
  below_hi base end (frame false c x sibling ∷ fs) l p = p.0

  pub put-IsOrdered :
      (red : Bool) (n : ℕ) (fs : List Frame)
      → IsOrdered s lo hi (inorder (plug leaf fs))
      → lo ≤ s.vm_base n
      → s.vm_base n < s.vm_end n
      → s.vm_end n ≤ hi
      → IsPassed s (s.vm_base n) (s.vm_end n) fs
      → IsOrdered s lo hi (inorder (plug (branch red leaf n leaf) fs))
  put-IsOrdered red n fs o l b e p =
      let (_, out) = inside_out fs leaf o in
      outside_in fs (branch red leaf n leaf)
        (above_lo (s.vm_base n) (s.vm_end n) fs l p, b, below_hi (s.vm_base n) (s.vm_end n) fs e p)
        out
