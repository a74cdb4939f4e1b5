-- ===== src/Vma/Descent.antt =====
-- The descent of insert_vma of kernel/vma/insert.c in the balanced tree.
use advanced_operating_syste.Prelude.{
  Bool, Bool-cases, List, Option, [], arith, count, count-append, false, inl, inr, leb, length,
  length-append, ltb, none, one_if_self, refl, some, subst, suc, sym, true, zero, ℕ, ◌+◌, ◌<◌, ◌==◌,
  ◌∷◌, ◌≡◌, ◌≤◌, ◌⊎◌,
}
use advanced_operating_syste.LinkedList.Store.{null}
use advanced_operating_syste.Vma.{find_place}
use advanced_operating_syste.Vma.Space.{Space, areas}
use advanced_operating_syste.Vma.Sorted.{IsPassed}
use advanced_operating_syste.Rbtree.Store.{Nodes}
use advanced_operating_syste.Rbtree.Tree.{
  Tree, leaf, branch, Frame, frame, frame_node, frame_side, inorder, plug, IsLinked, IsContext,
}
use advanced_operating_syste.Rbtree.Colors.{IsRedBlack, IsAround, red_above, higher}

-- The node above, and the side of it.
abbrev pub top_node : List Frame → ℕ
top_node [] = null
top_node (f ∷ fs) = frame_node f

abbrev pub top_side : List Frame → Bool
top_side [] = false
top_side (f ∷ fs) = frame_side f

context_top : (s : Nodes) (par a : ℕ) (fs : List Frame) → IsContext s par a fs → par ≡ top_node fs
context_top s par a [] c = c.1
context_top s par a (f ∷ fs) c = c.0

red_around :
    (fs : List Frame) (h : ℕ) → red_above fs ≡ false → IsAround false fs h → IsAround true fs h
red_around [] h e a = cc e
red_around (f ∷ fs) h e (_, sibling, up) = (e, sibling, up)

-- One step down.
below :
    (c : Bool) (l : Tree) (x : ℕ) (r : Tree) (fs : List Frame) (h : ℕ)
    → IsRedBlack (red_above fs) (branch c l x r) h
    → IsAround false fs h
    → (k : ℕ) × IsRedBlack c l k × IsRedBlack c r k × IsAround c fs (higher c k)
below true l x r fs h (e, rl, rr) a = (h, rl, rr, red_around fs h e a)
below false l x r fs h (k, e, rl, rr) a = (k, rl, rr, subst (IsAround false fs) e a)

-- The descent ends at an overlap, or at the leaf where the new area belongs.
abbrev pub Descends : Option (Option (ℕ × Bool)) → Space → ℕ → ℕ → Tree → List Frame → Type 0
Descends run s base end t fs =
    ((run ≡ some none)
      × ((x : ℕ) × (0 < count x (inorder t)) × (base < s.vm_end x) × (s.vm_base x < end)))
    ⊎ ((gs : List Frame) × (run ≡ some (some (top_node gs, top_side gs)))
        × IsContext s.nodes (top_node gs) null gs
        × (plug leaf gs ≡ plug t fs)
        × IsAround false gs 0
        × IsPassed s base end gs
        × (length gs ≤ length fs + length (inorder t)))

module _ (s : Space) (base end : ℕ) where
  pub find_place-Descends :
      (fuel : ℕ) (t : Tree) (a par : ℕ) (fs : List Frame) (h : ℕ)
      → IsLinked s.nodes par a t
      → IsContext s.nodes par a fs
      → IsRedBlack (red_above fs) t h
      → IsAround false fs h
      → IsPassed s base end fs
      → length (inorder t) < fuel
      → Descends (find_place fuel (areas s) base end a par (top_side fs)) s base end t fs
  unfolding find_place
  find_place-Descends zero t a par fs h lk c rb ar p f = absurd (omega (arith, f))
  find_place-Descends (suc fuel) leaf a par fs h lk c rb ar p f =
      let e = context_top s.nodes par a fs c in
      inr (
        fs,
        rw (lk, e) refl,
        subst (λ q. IsContext s.nodes q null fs) e (subst (λ b. IsContext s.nodes par b fs) lk c),
        refl,
        subst (IsAround false fs) rb ar,
        p,
        omega arith,
      )
  find_place-Descends (suc fuel) (branch red l x r) a par fs h (e, n, up, k, lhs, rhs) c rb ar p f =
      let there : (x == null) ≡ false = ground (arith, n) in
      let size = length-append (inorder l) (x ∷ inorder r) in
      let split = count-append x (inorder l) (x ∷ inorder r) in
      let (m, rl, rr, around) = below red l x r fs h rb ar in
      let c' : IsContext s.nodes (s.nodes.parent x) x fs =
        subst (λ q. IsContext s.nodes q x fs) (sym up)
          (subst (λ b. IsContext s.nodes par b fs) e c) in
      elim (Bool-cases (leb (s.vm_end x) base)) [
        | inl right ↦
            elim (find_place-Descends fuel r (s.nodes.child true x) x (frame true red x l ∷ fs) m
              rhs (refl, n, refl, k, lhs, c') rr (refl, rl, around) (ground (arith, right), p)
              (omega (arith, f, size))) [
                | inl (ran, (y, i, o, o')) ↦ inl (
                  rw (e, there, right) ran,
                  (y, omega (arith, i, count-append y (inorder l) (x ∷ inorder r)), o, o'),
                )
                | inr (gs, ran, cg, same, ag, pg, len) ↦
                    inr (gs, rw (e, there, right) ran, cg, same, ag, pg, omega (arith, len, size))
              ]
        | inr left ↦ elim (Bool-cases (ltb (s.vm_base x) end)) [
          | inl overlaps ↦ inl (
            rw (e, there, left, overlaps) refl,
            (
              x,
              omega (arith, split, one_if_self x),
              ground (arith, left),
              ground (arith, overlaps),
            ),
          )
          | inr before ↦
              elim (find_place-Descends fuel l (s.nodes.child false x) x (frame false red x r ∷ fs)
                m lhs (refl, n, refl, k, rhs, c') rl (refl, rr, around) (ground (arith, before), p)
                (omega (arith, f, size))) [
                  | inl (ran, (y, i, o, o')) ↦ inl (
                    rw (e, there, left, before) ran,
                    (y, omega (arith, i, count-append y (inorder l) (x ∷ inorder r)), o, o'),
                  )
                  | inr (gs, ran, cg, same, ag, pg, len) ↦ inr (
                    gs,
                    rw (e, there, left, before) ran,
                    cg,
                    same,
                    ag,
                    pg,
                    omega (arith, len, size),
                  )
                ]
        ]
      ]
