-- ===== src/Vma/Find.antt =====
-- find_vma and task_find_vma of kernel/vma/find.c.
use advanced_operating_syste.Vma.Tree.{
  IsSearch-le, leaf, branch, inorder, size, IsSearch, IsTree, Tree,
}
use advanced_operating_syste.LinkedList.Store.{null}
use advanced_operating_syste.Vma.{find_vma_loop, Areas, find_vma}
use advanced_operating_syste.Prelude.{
  Bool, Bool-cases, List, [], arith, false, if◌then◌else◌, inl, inr, leb, ltb, refl, some, suc,
  true, zero, ℕ, ◌++◌, ◌<◌, ◌==◌, ◌∷◌, ◌≡◌, ◌≤◌,
}

-- The first area in `xs` that ends above `addr`, `other` if there is none.
abbrev pub first_above : Areas → ℕ → ℕ → List ℕ → ℕ
first_above s addr other [] = other
first_above s addr other (x ∷ xs) = if ltb addr (s.vm_end x) then x else first_above s addr other xs

module _ (s : Areas) (addr : ℕ) where
  pub first_above-append :
      (other : ℕ) (xs ys : List ℕ)
      → first_above s addr other (xs ++ ys) ≡ first_above s addr (first_above s addr other ys) xs
  first_above-append other [] ys = refl
  first_above-append other (x ∷ xs) ys = ground (arith, first_above-append other xs ys)

  -- Areas that end before the address are passed over.
  pub first_above-skip :
      (lo hi other : ℕ) (t : Tree)
      → IsSearch s lo hi t
      → hi ≤ addr
      → first_above s addr other (inorder t) ≡ other
  first_above-skip lo hi other leaf h b = refl
  first_above-skip lo hi other (branch l x r) (n, f, g) b =
      let le : s.vm_end x ≤ hi = IsSearch-le s (s.vm_end x) hi r g in
      let missed : ltb addr (s.vm_end x) ≡ false = ground arith in
      rw
        (
          first_above-append other (inorder l) (x ∷ inorder r),
          missed,
          first_above-skip (s.vm_end x) hi other r g b,
        )
        (first_above-skip lo (s.vm_base x) other l f (omega (arith, n, le, b)))

  -- The loop gives the first area above the address.
  find_vma_loop-first_above :
      (fuel : ℕ) (t : Tree) (node parent vma : ℕ) (dir : Bool) (lo hi : ℕ)
      → IsTree s node t
      → IsSearch s lo hi t
      → size t < fuel
      → (at : ℕ) × (way : Bool) × (find_vma_loop fuel s addr node parent vma dir
          ≡ some (first_above s addr vma (inorder t), at, way))
  unfolding find_vma_loop
  find_vma_loop-first_above zero t node parent vma dir lo hi tree order b = absurd (omega arith)
  find_vma_loop-first_above (suc fuel) leaf node parent vma dir lo hi tree order b =
      (parent, dir, rw tree refl)
  find_vma_loop-first_above (suc fuel) (branch l x r) node parent vma dir lo hi (e, n, lhs, rhs)
        (w, f, g) b =
      let there : (x == null) ≡ false = ground arith in
      let split = first_above-append vma (inorder l) (x ∷ inorder r) in
      elim (Bool-cases (leb (s.vm_end x) addr)) [
        | inl above ↦
            let (at, way, ran) =
              find_vma_loop-first_above fuel r (s.child true x) x vma true (s.vm_end x) hi rhs g
                (omega arith) in
            let missed : ltb addr (s.vm_end x) ≡ false = ground arith in
            (
              at,
              way,
              rw
                  (
                    e,
                    there,
                    above,
                    split,
                    missed,
                    first_above-skip lo (s.vm_base x) (first_above s addr vma (inorder r)) l f
                        (ground arith),
                  )
                  ran,
            )
        | inr below ↦
            let hit : ltb addr (s.vm_end x) ≡ true = ground arith in
            elim (Bool-cases (leb (s.vm_base x) addr)) [
              | inl inside ↦ (
                x,
                false,
                rw
                    (
                      e,
                      there,
                      below,
                      inside,
                      split,
                      hit,
                      first_above-skip lo (s.vm_base x) x l f (ground arith),
                    )
                    refl,
              )
              | inr outside ↦
                  let (at, way, ran) =
                    find_vma_loop-first_above fuel l (s.child false x) x x false lo (s.vm_base x)
                      lhs f (omega arith) in
                  (at, way, rw (e, there, below, outside, split, hit) ran)
            ]
      ]

-- In a search tree with fewer nodes than fuel, `find_vma` ends and gives the first area in the order
-- of addresses that ends above the address, NULL if there is none.
pub find_vma-first_above :
    (fuel : ℕ) (s : Areas) (t : Tree) (root addr lo hi : ℕ)
    → IsTree s root t
    → IsSearch s lo hi t
    → size t < fuel
    → (at : ℕ) × (way : Bool) × (find_vma fuel s root addr
        ≡ some (first_above s addr null (inorder t), at, way))
unfolding find_vma
find_vma-first_above fuel s t root addr lo hi tree order b =
    find_vma_loop-first_above s addr fuel t root null null false lo hi tree order b
