-- ===== src/Buddy/Remove.antt =====
-- list_del of a page's node while several pages are off the lists, as in buddy_merge.
use advanced_operating_syste.Buddy.Invariant.{
  chunks-append, chunks, free_in, free_in-update, span, IsFreeLists, split_at,
}
use advanced_operating_syste.Prelude.{
  Option, Bool-cases, List, ap, arith, count, count-append, inl, inr, refl, some, ℕ, ◌++◌, ◌+◌, ◌<◌,
  ◌==◌, ◌∙◌, ◌∷◌, ◌≡◌, ◌≢◌, ◌≤◌, ◌⊎◌,
}
use advanced_operating_syste.LinkedList.{list_del}
use advanced_operating_syste.LinkedList.Store.{Links}
use advanced_operating_syste.LinkedList.Delete.{list_del_self}
use advanced_operating_syste.Buddy.State.{Pages, update, pp_node}
use advanced_operating_syste.Buddy.Rings.{Rings, Quiet, count-nodes, list_del-Rings}
use advanced_operating_syste.Buddy.Hold.{relinked, IsApart-mono, Rings-same}

-- On the list of order `k`, or on no list.
abbrev pub Place : (ℕ → List ℕ) → ℕ → ℕ → Type 0
Place lists p k = ((k < 10) × (0 < count p (lists k))) ⊎ ((j : ℕ) → j < 10 → count p (lists j) ≡ 0)

-- The pages that leave the lists.
abbrev pub weight : (lists : ℕ → List ℕ) (p k : ℕ) → Place lists p k → Option ℕ → ℕ
weight lists p k (inl listed) w = span k p w
weight lists p k (inr unlisted) w = 0

-- The lists in `new` are those in `lists` without `p`.
pub record IsWithout (lists new : ℕ → List ℕ) (p : ℕ) : Type 0 where
  pub others : (q j : ℕ) → j < 10 → q ≢ p → count q (new j) ≡ count q (lists j)
  pub gone : (j : ℕ) → j < 10 → count p (new j) ≡ 0

abbrev pub Removes : (s : Pages) (lists : ℕ → List ℕ) (p k : ℕ) → Place lists p k → Type 0
Removes s lists p k at =
    (g : Links) × (new : ℕ → List ℕ) × (list_del (pp_node p) s.links ≡ some (tt, g))
    × IsFreeLists (relinked s g) new
    × IsWithout lists new p
    × ((w : Option ℕ) → free_in lists w ≡ free_in new w + weight lists p k at w)
    × Quiet s.links g

-- A page of the shorter lists is one of the longer lists.
pub IsWithout-sub :
    (lists new : ℕ → List ℕ) (p : ℕ)
    → IsWithout lists new p
    → (q j : ℕ) → j < 10
    → 0 < count q (new j)
    → (0 < count q (lists j)) × (q ≢ p)
IsWithout-sub lists new p w q j b i = elim (Bool-cases (p == q)) [
  | inl e ↦ absurd (ground (arith, w.gone j b))
  | inr n ↦ (ground (arith, w.others q j b), ground arith)
]

module _ (s : Pages) (lists : ℕ → List ℕ) (p k : ℕ) (o : IsFreeLists s lists) where
  keep_rest :
      (g : Links) (new : ℕ → List ℕ)
      → Rings g new
      → IsWithout lists new p
      → IsFreeLists (relinked s g) new
  keep_rest g new rings w = record {
    rings = rings;
    chunk = λ q j jb i.
        let c = o.chunk q j jb (IsWithout-sub lists new p w q j jb i).0 in
        record { free = c.free; order = c.order; aligned = c.aligned; within = c.within };
    apart = λ q j jb i.
        IsApart-mono lists new q j (λ x y b l. (IsWithout-sub lists new p w x y b l).0)
          (o.apart q j jb (IsWithout-sub lists new p w q j jb i).0);
  }

  pub list_del-Removes : (at : Place lists p k) → Removes s lists p k at
  list_del-Removes (inl (b, i)) =
      let (ys, zs, e) = split_at p (lists k) i in
      let (g, ran, rings, quiet) = list_del-Rings s.links lists k p o.rings b ys zs e in
      let counted : (q : ℕ) → count q (lists k) ≡ count q ys + count q (p ∷ zs) =
        λ q. ap (count q) e ∙ count-append q ys (p ∷ zs) in
      let once : count p (lists k) ≤ 1 =
        omega (arith, (o.rings.ring k b).distinct (pp_node p), count-nodes p (lists k)) in
      let w : IsWithout lists (update lists k (ys ++ zs)) p = record {
        others = λ q j jb n. elim (Bool-cases (k == j)) [
          | inl here ↦ ground (arith, counted q, count-append q ys zs)
          | inr there ↦ rw there refl
        ];
        gone = λ j jb. elim (Bool-cases (k == j)) [
          | inl here ↦ rw here (ground (arith, counted p, count-append p ys zs, once))
          | inr there ↦ rw there (ground (arith, o.rings.once p j k jb b))
        ];
      } in
      (
        g,
        update lists k (ys ++ zs),
        ran,
        keep_rest g (update lists k (ys ++ zs)) rings w,
        w,
        λ x. omega (
          arith,
          free_in-update k lists (ys ++ zs) x b,
          ap (λ l. chunks k l x) e,
          chunks-append k ys zs x,
          chunks-append k ys (p ∷ zs) x,
        ),
        quiet,
      )
  list_del-Removes (inr unlisted) =
      let (g, ran, same) = list_del_self s.links (pp_node p) (o.rings.alone p unlisted) in
      let w : IsWithout lists lists p = record { others = λ q j b n. refl; gone = unlisted } in
      (
        g,
        lists,
        ran,
        keep_rest g lists (Rings-same s.links g lists o.rings same) w,
        w,
        λ x. omega arith,
        λ a other heads. same a,
      )
