-- ===== src/Vma/Insert.antt =====
-- insert_vma of kernel/vma/insert.c up to the balancing of the tree.
use advanced_operating_syste.Vma.Order.{
  put-IsSearch, AllClear, AllClear-left, AllClear-right, Overlap, put-inorder,
}
use advanced_operating_syste.Vma.{set_child, link_area, insert_area, find_place, Areas}
use advanced_operating_syste.Vma.Tree.{
  IsTree-null, size, IsSearch, IsTree, inorder, Tree, leaf, branch,
}
use advanced_operating_syste.LinkedList.Store.{null}
use advanced_operating_syste.Prelude.{
  Bool, Bool-cases, List, Option, [], arith, count-append, false, inl, inr, leb, ltb, none, refl,
  some, suc, true, zero, ℕ, ◌++◌, ◌<◌, ◌==◌, ◌∷◌, ◌≡◌, ◌≤◌, ◌⊎◌,
}
use advanced_operating_syste.Vma.Place.{Spot-left, Spot-right, IsLoose, put, Spot}

-- What the descent promises: it ends, at an overlap exactly when there is one.
abbrev Descends : Option (Option (ℕ × Bool)) → Areas → ℕ → ℕ → ℕ → ℕ → Tree → ℕ → Bool → Type 0
Descends run s base end new a t parent dir =
    ((run ≡ some none) × Overlap s base end t)
    ⊎ ((q : ℕ) × (d : Bool) × (run ≡ some (some (q, d)))
        × AllClear s base end t
        × Spot s base new a t parent dir q d)

module _ (s : Areas) (base end new : ℕ) (w : base < end) where
  find_place-Descends :
      (fuel : ℕ) (t : Tree) (a parent : ℕ) (dir : Bool) (lo hi : ℕ)
      → IsTree s a t
      → IsSearch s lo hi t
      → IsLoose s new t
      → size t < fuel
      → Descends (find_place fuel s base end a parent dir) s base end new a t parent dir
  unfolding find_place
  find_place-Descends zero t a parent dir lo hi tree order loose b = absurd (omega arith)
  find_place-Descends (suc fuel) leaf a parent dir lo hi tree order loose b =
      inr (parent, dir, rw tree refl, λ x i. absurd (omega arith), (refl, refl))
  find_place-Descends (suc fuel) (branch l x r) a parent dir lo hi tree order loose b =
      let there : (x == null) ≡ false = ground (arith, tree.1) in
      let e : a ≡ x = tree.0 in
      let split = λ (y : ℕ). count-append y (inorder l) (x ∷ inorder r) in
      elim (Bool-cases (leb (s.vm_end x) base)) [
        | inl right ↦
            elim (find_place-Descends fuel r (s.child true x) x true (s.vm_end x) hi tree.3 order.2
              (record {
                ne_null = loose.ne_null;
                outside = ground (arith, loose.outside, split new);
                no_children = loose.no_children;
              })
              (omega arith)) [
                | inl (ran, (y, i, o, o')) ↦
                    inl (rw (e, there, right) ran, (y, ground (arith, split y), o, o'))
                | inr (q, d, ran, clear, spot) ↦ inr (
                  q,
                  d,
                  rw (e, there, right) ran,
                  AllClear-right s base end lo hi l x r order (ground arith) clear,
                  Spot-right s base new a lo hi l x r order tree loose q d r refl (ground arith)
                      spot,
                )
              ]
        | inr left ↦ elim (Bool-cases (ltb (s.vm_base x) end)) [
          | inl overlaps ↦ inl (
            rw (e, there, left, overlaps) refl,
            (x, ground (arith, split x), ground arith, ground arith),
          )
          | inr before ↦
              elim (find_place-Descends fuel l (s.child false x) x false lo (s.vm_base x) tree.2
                order.1
                (record {
                  ne_null = loose.ne_null;
                  outside = ground (arith, loose.outside, split new);
                  no_children = loose.no_children;
                })
                (omega arith)) [
                  | inl (ran, (y, i, o, o')) ↦
                      inl (rw (e, there, left, before) ran, (y, ground (arith, split y), o, o'))
                  | inr (q, d, ran, clear, spot) ↦ inr (
                    q,
                    d,
                    rw (e, there, left, before) ran,
                    AllClear-left s base end lo hi l x r order (ground arith) clear,
                    Spot-left s base new a lo hi l x r order tree loose q d l refl left spot,
                  )
                ]
        ]
      ]

-- The areas `new` and those of the tree, in order, hang in the tree at the new root, which is
-- searchable, and the new area stands among the others without any change to their order.
abbrev pub IsGrown : Areas → Areas → ℕ → ℕ → ℕ → ℕ → Tree → Type 0
IsGrown s t root new lo hi old =
    (grown : Tree) × IsTree t root grown
    × IsSearch t lo hi grown
    × (ys : List ℕ) × (zs : List ℕ) × (inorder old ≡ ys ++ zs)
    × (inorder grown ≡ ys ++ new ∷ zs)
    × (t.vm_base ≡ s.vm_base)
    × (t.vm_end ≡ s.vm_end)

linked-IsGrown :
    (s : Areas) (root new lo hi : ℕ) (t : Tree) (q : ℕ) (d : Bool)
    → IsTree s root t
    → IsLoose s new t
    → IsSearch s lo hi (put s (s.vm_base new) new t)
    → Spot s (s.vm_base new) new root t null false q d
    → (u : Areas) × (top : ℕ) × (link_area s root new (some (some (q, d))) ≡ some (some (top, u)))
      × IsGrown s u top new lo hi t
linked-IsGrown s root new lo hi leaf q d tree loose order (e, f) = (
  s,
  new,
  rw e refl,
  (
    branch leaf new leaf,
    (refl, loose.ne_null, loose.no_children false, loose.no_children true),
    order,
    [],
    [],
    refl,
    refl,
    refl,
    refl,
  ),
)
linked-IsGrown s root new lo hi (branch l x r) q d tree loose order (i, grown) =
    let there : (q == null) ≡ false = ground (arith, i, IsTree-null s root (branch l x r) tree) in
    let (ys, zs, e, f) = put-inorder s (s.vm_base new) new (branch l x r) in
    (
      set_child s q d new,
      root,
      rw there refl,
      (put s (s.vm_base new) new (branch l x r), grown, order, ys, zs, e, f, refl, refl),
    )

-- For a new area that is not empty, within the bounds and not yet linked, in a search tree with
-- fewer nodes than fuel: `insert_vma`, before it balances the tree, gives -1 when an area of the
-- tree overlaps the new one. Otherwise no area of the tree overlaps it, and it links the new area
-- into the tree, which stays a search tree and has the new area among the others in their order.
pub insert_area-IsGrown :
    (fuel : ℕ) (s : Areas) (t : Tree) (root new lo hi : ℕ)
    → IsTree s root t
    → IsSearch s lo hi t
    → IsLoose s new t
    → lo ≤ s.vm_base new
    → s.vm_base new < s.vm_end new
    → s.vm_end new ≤ hi
    → size t < fuel
    → ((insert_area fuel s root new ≡ some none) × Overlap s (s.vm_base new) (s.vm_end new) t)
      ⊎ ((u : Areas) × (top : ℕ) × (insert_area fuel s root new ≡ some (some (top, u)))
          × AllClear s (s.vm_base new) (s.vm_end new) t
          × IsGrown s u top new lo hi t)
unfolding insert_area
insert_area-IsGrown fuel s t root new lo hi tree order loose a w b f =
    elim (find_place-Descends s (s.vm_base new) (s.vm_end new) new w fuel t root null false lo hi
      tree order loose f) [
        | inl (ran, overlap) ↦ inl (rw ran refl, overlap)
        | inr (q, d, ran, clear, spot) ↦
            let (u, top, links, grown) =
              linked-IsGrown s root new lo hi t q d tree loose
                (put-IsSearch s new lo hi t order a w b clear) spot in
            inr (u, top, rw ran links, clear, grown)
      ]
