-- ===== src/Vma/Tree.antt =====
-- Search trees of disjoint areas, and their nodes in order.
use advanced_operating_syste.Prelude.{
  arith, count, count-append, refl, List, [], false, true, ℕ, ◌++◌, ◌+◌, ◌<◌, ◌∷◌, ◌≡◌, ◌≢◌, ◌≤◌,
}
use advanced_operating_syste.LinkedList.Store.{null}
use advanced_operating_syste.Vma.{Areas}

pub data Tree : Type 0 where
  leaf : Tree
  branch : Tree → ℕ → Tree → Tree

abbrev pub inorder : Tree → List ℕ
inorder leaf = []
inorder (branch l x r) = inorder l ++ x ∷ inorder r

abbrev pub size : Tree → ℕ
size leaf = 0
size (branch l x r) = size l + size r + 1

-- The nodes from `a` on hang together as `t`.
abbrev pub IsTree : Areas → ℕ → Tree → Type 0
IsTree s a leaf = a ≡ null
IsTree s a (branch l x r) =
    (a ≡ x) × (x ≢ null) × IsTree s (s.child false x) l × IsTree s (s.child true x) r

-- Areas that are not empty, do not meet, and stand between `lo` and `hi` in the order of addresses.
abbrev pub IsSearch : Areas → ℕ → ℕ → Tree → Type 0
IsSearch s lo hi leaf = lo ≤ hi
IsSearch s lo hi (branch l x r) =
    (s.vm_base x < s.vm_end x) × IsSearch s lo (s.vm_base x) l × IsSearch s (s.vm_end x) hi r

pub IsSearch-le : (s : Areas) (lo hi : ℕ) (t : Tree) → IsSearch s lo hi t → lo ≤ hi
IsSearch-le s lo hi leaf h = h
IsSearch-le s lo hi (branch l x r) (n, f, g) =
    omega (arith, n, IsSearch-le s lo (s.vm_base x) l f, IsSearch-le s (s.vm_end x) hi r g)

pub IsTree-null : (s : Areas) (a : ℕ) (t : Tree) → IsTree s a t → count null (inorder t) ≡ 0
IsTree-null s a leaf h = refl
IsTree-null s a (branch l x r) (e, n, lhs, rhs) = ground (
  arith,
  count-append null (inorder l) (x ∷ inorder r),
  IsTree-null s (s.child false x) l lhs,
  IsTree-null s (s.child true x) r rhs,
)
