-- ===== src/Vma/Place.antt =====
-- The descent of insert_vma of kernel/vma/insert.c: how a new leaf hangs in the tree.
use advanced_operating_syste.Vma.{set_child, Areas}
use advanced_operating_syste.Vma.Owner.{IsSearch-within}
use advanced_operating_syste.Vma.Tree.{IsTree, IsSearch, inorder, Tree, leaf, branch}
use advanced_operating_syste.LinkedList.Store.{null}
use advanced_operating_syste.Prelude.{
  Bool, Bool-cases, [], ap, arith, count, count-append, false, if◌then◌else◌, inl, inr, leb, refl,
  true, ℕ, ◌<◌, ◌==◌, ◌∷◌, ◌≡◌, ◌≢◌, ◌≤◌, ◌⊎◌,
}

-- The tree with `new`, an area that starts at `base`.
abbrev pub put : Areas → ℕ → ℕ → Tree → Tree
put s base new leaf = branch leaf new leaf
put s base new (branch l x r) =
    if leb (s.vm_end x) base then branch l x (put s base new r) else branch (put s base new l) x r

-- A node of one side of a branch is not on the other.
module _ (s : Areas) (lo hi : ℕ) (l : Tree) (x : ℕ) (r : Tree)
    (order : IsSearch s lo hi (branch l x r)) where
  left_clear : (q : ℕ) → (q ≡ x) ⊎ (0 < count q (inorder r)) → count q (inorder l) ≡ 0
  left_clear q at = elim (Bool-cases (count q (inorder l) == 0)) [
    | inl gone ↦ ground arith
    | inr met ↦
        let w = IsSearch-within s lo (s.vm_base x) l q order.1 (ground arith) in
        elim at [
          | inl e ↦ absurd (omega (arith, w.1, w.2, ap s.vm_base e))
          | inr i ↦
              let v = IsSearch-within s (s.vm_end x) hi r q order.2 i in
              absurd (omega (arith, w.1, w.2, v.0, order.0))
        ]
  ]

  right_clear : (q : ℕ) → (q ≡ x) ⊎ (0 < count q (inorder l)) → count q (inorder r) ≡ 0
  right_clear q at = elim (Bool-cases (count q (inorder r) == 0)) [
    | inl gone ↦ ground arith
    | inr met ↦
        let w = IsSearch-within s (s.vm_end x) hi r q order.2 (ground arith) in
        elim at [
          | inl e ↦ absurd (omega (arith, w.0, order.0, ap s.vm_base e))
          | inr i ↦
              let v = IsSearch-within s lo (s.vm_base x) l q order.1 i in
              absurd (omega (arith, v.1, v.2, w.0, order.0))
        ]
  ]

-- A link from a node outside the tree does not show in it.
frame-IsTree :
    (s : Areas) (q : ℕ) (d : Bool) (new a : ℕ) (t : Tree)
    → count q (inorder t) ≡ 0
    → IsTree s a t
    → IsTree (set_child s q d new) a t
frame-IsTree s q d new a leaf out h = h
frame-IsTree s q d new a (branch l x r) out (e, n, lhs, rhs) =
    let split = count-append q (inorder l) (x ∷ inorder r) in
    let other : (x == q) ≡ false = ground (arith, split, out) in
    rw other (
      e,
      n,
      frame-IsTree s q d new (s.child false x) l (ground (arith, split, out)) lhs,
      frame-IsTree s q d new (s.child true x) r (ground (arith, split, out)) rhs,
    )

-- A node that is in no tree and has no children.
pub record IsLoose (s : Areas) (new : ℕ) (t : Tree) : Type 0 where
  pub ne_null : new ≢ null
  pub outside : count new (inorder t) ≡ 0
  pub no_children : (d : Bool) → s.child d new ≡ null

-- Where the descent from `parent` on the side `dir` ends: right there when the tree is empty, at a
-- node of the tree otherwise, and then the link makes the larger tree.
abbrev pub Spot : Areas → ℕ → ℕ → ℕ → Tree → ℕ → Bool → ℕ → Bool → Type 0
Spot s base new a leaf parent dir q d = (q ≡ parent) × (d ≡ dir)
Spot s base new a (branch l x r) parent dir q d =
    (0 < count q (inorder (branch l x r)))
    × IsTree (set_child s q d new) a (put s base new (branch l x r))

module _ (s : Areas) (base new a lo hi : ℕ) (l : Tree) (x : ℕ) (r : Tree)
    (order : IsSearch s lo hi (branch l x r)) (tree : IsTree s a (branch l x r))
    (loose : IsLoose s new (branch l x r)) where
  new_leaf : (q : ℕ) (d : Bool) → q ≢ new → IsTree (set_child s q d new) new (branch leaf new leaf)
  new_leaf q d n =
      let other : (new == q) ≡ false = ground arith in
      (refl, loose.ne_null, rw other (loose.no_children false), rw other (loose.no_children true))

  new_ne : x ≢ new
  new_ne e = ground (arith, loose.outside, count-append new (inorder l) (x ∷ inorder r), e)

  self_eq : (x == x) ≡ true
  self_eq = ground arith

  pub Spot-right :
      (q : ℕ) (d : Bool) (sub : Tree)
      → r ≡ sub
      → s.vm_end x ≤ base
      → Spot s base new (s.child true x) sub x true q d
      → Spot s base new a (branch l x sub) a true q d
  Spot-right q d leaf same above (e, f) =
      let right : leb (s.vm_end x) base ≡ true = ground arith in
      rw (e, f)
        (
          ground (arith, count-append x (inorder l) (x ∷ [])),
          rw (right, self_eq)
              (
                tree.0,
                tree.1,
                frame-IsTree s x true new (s.child false x) l
                    (left_clear s lo hi l x r order x (inl refl)) tree.2,
                new_leaf x true new_ne,
              ),
        )
  Spot-right q d (branch l' y r') same above (i, linked) =
      let right : leb (s.vm_end x) base ≡ true = ground arith in
      let j : 0 < count q (inorder r) = rw same i in
      let clear = right_clear s lo hi l x r order x (inl refl) in
      let other : (x == q) ≡ false = elim (Bool-cases (x == q)) [
        | inl e ↦ absurd (ground (arith, j, clear))
        | inr n ↦ n
      ] in
      (
        ground (arith, count-append q (inorder l) (x ∷ inorder (branch l' y r')), i),
        rw (right, other)
            (
              tree.0,
              tree.1,
              frame-IsTree s q d new (s.child false x) l (left_clear s lo hi l x r order q (inr j))
                  tree.2,
              linked,
            ),
      )

  pub Spot-left :
      (q : ℕ) (d : Bool) (sub : Tree)
      → l ≡ sub
      → leb (s.vm_end x) base ≡ false
      → Spot s base new (s.child false x) sub x false q d
      → Spot s base new a (branch sub x r) a false q d
  Spot-left q d leaf same below (e, f) =
      rw (e, f)
        (
          ground arith,
          rw (below, self_eq)
              (
                tree.0,
                tree.1,
                new_leaf x false new_ne,
                frame-IsTree s x false new (s.child true x) r
                    (right_clear s lo hi l x r order x (inl refl)) tree.3,
              ),
        )
  Spot-left q d (branch l' y r') same below (i, linked) =
      let j : 0 < count q (inorder l) = rw same i in
      let clear = left_clear s lo hi l x r order x (inl refl) in
      let other : (x == q) ≡ false = elim (Bool-cases (x == q)) [
        | inl e ↦ absurd (ground (arith, j, clear))
        | inr n ↦ n
      ] in
      (
        ground (arith, count-append q (inorder (branch l' y r')) (x ∷ inorder r), i),
        rw (below, other)
            (
              tree.0,
              tree.1,
              linked,
              frame-IsTree s q d new (s.child true x) r (right_clear s lo hi l x r order q (inr j))
                  tree.3,
            ),
      )
