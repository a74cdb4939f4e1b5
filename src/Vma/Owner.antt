-- ===== src/Vma/Owner.antt =====
-- task_find_vma of kernel/vma/find.c.
-- Which areas a search tree has.
use advanced_operating_syste.Vma.Tree.{
  IsSearch-le, IsTree-null, size, IsSearch, IsTree, inorder, Tree, leaf, branch,
}
use advanced_operating_syste.Prelude.{
  sym, ◌∙◌, Bool-cases, List, [], ap, arith, count, count-append, false, inl, inr, ltb, refl, some,
  true, ℕ, ◌<◌, ◌==◌, ◌∷◌, ◌≡◌, ◌≤◌, ◌⊎◌,
}
use advanced_operating_syste.Vma.Find.{
  find_vma-first_above, first_above-skip, first_above-append, first_above,
}
use advanced_operating_syste.LinkedList.Store.{null}
use advanced_operating_syste.Vma.{Areas, task_find_vma}

-- An area of the tree stands between its bounds.
pub IsSearch-within :
    (s : Areas) (lo hi : ℕ) (t : Tree) (x : ℕ)
    → IsSearch s lo hi t
    → 0 < count x (inorder t)
    → (lo ≤ s.vm_base x) × (s.vm_base x < s.vm_end x) × (s.vm_end x ≤ hi)
IsSearch-within s lo hi leaf x h i = absurd (omega arith)
IsSearch-within s lo hi (branch l y r) x (n, f, g) i =
    let below = IsSearch-le s lo (s.vm_base y) l f in
    let above = IsSearch-le s (s.vm_end y) hi r g in
    elim (Bool-cases (y == x)) [
      | inl here ↦ let same : x ≡ y = ground arith in rw same (omega arith, n, omega arith)
      | inr there ↦ elim (Bool-cases (count x (inorder l) == 0)) [
        | inl none_left ↦
            let w =
              IsSearch-within s (s.vm_end y) hi r x g
                (ground (arith, count-append x (inorder l) (y ∷ inorder r))) in
            (omega (arith, w.0, n, below), w.1, w.2)
        | inr some_left ↦
            let w = IsSearch-within s lo (s.vm_base y) l x f (ground arith) in
            (w.0, w.1, omega (arith, w.2, n, above))
      ]
    ]

module _ (s : Areas) (addr : ℕ) where
  -- The area that is found is in the list and ends above the address, or there was none.
  first_above-cases :
      (xs : List ℕ)
      → ((v : ℕ) × (first_above s addr null xs ≡ v) × (0 < count v xs) × (addr < s.vm_end v))
        ⊎ ((first_above s addr null xs ≡ null) × ((x : ℕ) → 0 < count x xs → s.vm_end x ≤ addr))
  first_above-cases [] = inr (refl, λ x i. absurd (omega arith))
  first_above-cases (y ∷ xs) = elim (Bool-cases (ltb addr (s.vm_end y))) [
    | inl hit ↦ inl (y, rw hit refl, ground arith, ground arith)
    | inr miss ↦ elim (first_above-cases xs) [
      | inl (v, e, i, l) ↦ inl (v, rw miss e, omega arith, l)
      | inr (e, all) ↦ inr (rw miss e, λ x i. ground (arith, all x))
    ]
  ]

  -- An area that contains the address is the first one above it.
  first_above-owner :
      (lo hi other : ℕ) (t : Tree) (x : ℕ)
      → IsSearch s lo hi t
      → 0 < count x (inorder t)
      → s.vm_base x ≤ addr
      → addr < s.vm_end x
      → first_above s addr other (inorder t) ≡ x
  first_above-owner lo hi other leaf x h i b e = absurd (omega arith)
  first_above-owner lo hi other (branch l y r) x (n, f, g) i b e =
      let split = first_above-append s addr other (inorder l) (y ∷ inorder r) in
      elim (Bool-cases (count x (inorder l) == 0)) [
        | inr some_left ↦ rw split (
            first_above-owner lo (s.vm_base y) (first_above s addr other (y ∷ inorder r)) l x f
              (ground arith) b e)
        | inl none_left ↦ elim (Bool-cases (y == x)) [
          | inl here ↦
              let same : y ≡ x = ground arith in
              let hit : ltb addr (s.vm_end x) ≡ true = ground arith in
              rw (split, same, hit)
                (first_above-skip s addr lo (s.vm_base y) x l f
                  (omega (arith, ap s.vm_base same, b)))
          | inr there ↦
              let right : 0 < count x (inorder r) =
                ground (arith, count-append x (inorder l) (y ∷ inorder r)) in
              let w = IsSearch-within s (s.vm_end y) hi r x g right in
              let miss : ltb addr (s.vm_end y) ≡ false = ground (arith, w.0, b) in
              rw (split, miss, first_above-owner (s.vm_end y) hi other r x g right b e)
                (first_above-skip s addr lo (s.vm_base y) x l f (omega (arith, n, w.0, b)))
        ]
      ]

-- The area of the tree that contains the address, or NULL and no area of the tree contains it.
abbrev pub Owns : Areas → Tree → ℕ → ℕ → Type 0
Owns s t addr v =
    ((0 < count v (inorder t)) × (s.vm_base v ≤ addr) × (addr < s.vm_end v))
    ⊎ ((v ≡ null) × ((x : ℕ) → 0 < count x (inorder t) → s.vm_base x ≤ addr → s.vm_end x ≤ addr))

-- In a search tree with fewer nodes than fuel, `task_find_vma` ends. It gives the area that contains
-- the address, and NULL exactly when no area of the tree contains it.
pub task_find_vma-Owns :
    (fuel : ℕ) (s : Areas) (t : Tree) (root addr lo hi : ℕ)
    → IsTree s root t
    → IsSearch s lo hi t
    → size t < fuel
    → (v : ℕ) × (task_find_vma fuel s root addr ≡ some v) × Owns s t addr v
unfolding task_find_vma
task_find_vma-Owns fuel s t root addr lo hi tree order b =
    let (at, way, ran) = find_vma-first_above fuel s t root addr lo hi tree order b in
    elim (first_above-cases s addr (inorder t)) [
      | inr (e, all) ↦ (null, rw (ran, e) refl, inr (refl, λ x i l. all x i))
      | inl (v, e, i, above) ↦
          let there : (v == null) ≡ false = ground (arith, IsTree-null s root t tree) in
          elim (Bool-cases (ltb addr (s.vm_base v))) [
            | inl gap ↦ (
              null,
              rw (ran, e, there, gap) refl,
              inr (
                refl,
                λ x j l. elim (Bool-cases (ltb addr (s.vm_end x))) [
                  | inl owns ↦
                      let same : v ≡ x =
                        sym e ∙ first_above-owner s addr lo hi null t x order j l (ground arith) in
                      absurd (ground (arith, ap s.vm_base same))
                  | inr ends ↦ ground arith
                ],
              ),
            )
            | inr in_it ↦ (v, rw (ran, e, there, in_it) refl, inl (i, ground arith, above))
          ]
    ]
