-- ===== src/Vma/Order.antt =====
-- The order of the areas in the tree of kernel/vma/insert.c: which areas the descent passes by, and
-- where the new one stands.
use advanced_operating_syste.Vma.Owner.{IsSearch-within}
use advanced_operating_syste.Vma.Place.{put}
use advanced_operating_syste.Vma.Tree.{IsSearch, inorder, Tree, leaf, branch}
use advanced_operating_syste.Vma.{Areas}
use advanced_operating_syste.Prelude.{
  Bool-cases, List, [], arith, count, count-append, inl, inr, leb, refl, sym, ℕ, ◌++◌, ◌<◌, ◌==◌,
  ◌∷◌, ◌≡◌, ◌≤◌, ◌⊎◌,
}
use mathlib.Core.List.{append_assoc}

-- The areas `x` and from `base` to `end` have no address in common.
abbrev pub IsClear : Areas → ℕ → ℕ → ℕ → Type 0
IsClear s base end x = (end ≤ s.vm_base x) ⊎ (s.vm_end x ≤ base)

-- An area of the tree that the new one overlaps.
abbrev pub Overlap : Areas → ℕ → ℕ → Tree → Type 0
Overlap s base end t =
    (x : ℕ) × (0 < count x (inorder t)) × (base < s.vm_end x) × (s.vm_base x < end)

abbrev pub AllClear : Areas → ℕ → ℕ → Tree → Type 0
AllClear s base end t = (x : ℕ) → 0 < count x (inorder t) → IsClear s base end x

module _ (s : Areas) (base end lo hi : ℕ) (l : Tree) (x : ℕ) (r : Tree)
    (order : IsSearch s lo hi (branch l x r)) where
  pub AllClear-right :
      s.vm_end x ≤ base → AllClear s base end r → AllClear s base end (branch l x r)
  AllClear-right above clear y i = elim (Bool-cases (x == y)) [
    | inl here ↦ let same : y ≡ x = ground arith in rw same (inr above)
    | inr there ↦ elim (Bool-cases (count y (inorder l) == 0)) [
      | inl none_left ↦ clear y (ground (arith, count-append y (inorder l) (x ∷ inorder r)))
      | inr some_left ↦
          let w = IsSearch-within s lo (s.vm_base x) l y order.1 (ground arith) in
          inr (omega (arith, w.2, order.0, above))
    ]
  ]

  pub AllClear-left : end ≤ s.vm_base x → AllClear s base end l → AllClear s base end (branch l x r)
  AllClear-left below clear y i = elim (Bool-cases (x == y)) [
    | inl here ↦ let same : y ≡ x = ground arith in rw same (inl below)
    | inr there ↦ elim (Bool-cases (count y (inorder l) == 0)) [
      | inr some_left ↦ clear y (ground arith)
      | inl none_left ↦
          let w =
            IsSearch-within s (s.vm_end x) hi r y order.2
              (ground (arith, count-append y (inorder l) (x ∷ inorder r))) in
          inl (omega (arith, w.0, order.0, below))
    ]
  ]

pub put-inorder :
    (s : Areas) (base new : ℕ) (t : Tree)
    → (ys zs : List ℕ) × (inorder t ≡ ys ++ zs) × (inorder (put s base new t) ≡ ys ++ new ∷ zs)
put-inorder s base new leaf = ([], [], refl, refl)
put-inorder s base new (branch l x r) = elim (Bool-cases (leb (s.vm_end x) base)) [
  | inl right ↦
      let (ys, zs, e, f) = put-inorder s base new r in
      (
        inorder l ++ x ∷ ys,
        zs,
        rw e (sym (append_assoc (inorder l) (x ∷ ys) zs)),
        rw (right, f) (sym (append_assoc (inorder l) (x ∷ ys) (new ∷ zs))),
      )
  | inr left ↦
      let (ys, zs, e, f) = put-inorder s base new l in
      (
        ys,
        zs ++ x ∷ inorder r,
        rw e (append_assoc ys zs (x ∷ inorder r)),
        rw (left, f) (append_assoc ys (new ∷ zs) (x ∷ inorder r)),
      )
]

module _ (s : Areas) (new : ℕ) where
  pub put-IsSearch :
      (lo hi : ℕ) (t : Tree)
      → IsSearch s lo hi t
      → lo ≤ s.vm_base new
      → s.vm_base new < s.vm_end new
      → s.vm_end new ≤ hi
      → AllClear s (s.vm_base new) (s.vm_end new) t
      → IsSearch s lo hi (put s (s.vm_base new) new t)
  put-IsSearch lo hi leaf h a w b clear = (w, a, b)
  put-IsSearch lo hi (branch l x r) (n, f, g) a w b clear =
      elim (Bool-cases (leb (s.vm_end x) (s.vm_base new))) [
        | inl right ↦ rw right (
          n,
          f,
          put-IsSearch (s.vm_end x) hi r g (ground arith) w b
              (λ y i. clear y (ground (arith, count-append y (inorder l) (x ∷ inorder r)))),
        )
        | inr left ↦ rw left (
          n,
          put-IsSearch lo (s.vm_base x) l f a w
              (elim (clear x (ground (arith, count-append x (inorder l) (x ∷ inorder r)))) [
                | inl before ↦ before
                | inr behind ↦ absurd (ground arith)
              ])
              (λ y i. clear y (ground (arith, count-append y (inorder l) (x ∷ inorder r)))),
          g,
        )
      ]
