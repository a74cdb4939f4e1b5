-- ===== src/Buddy/Hold.antt =====
-- Taking a chunk off its free list, as buddy.c does with list_del and list_pop.
use advanced_operating_syste.Buddy.Invariant.{
  chunks-append, chunks, free_in-update, span, free_in, IsApart, IsFreeLists, IsBuddy, IsHeld,
  split_at,
}
use advanced_operating_syste.Prelude.{
  Option, [], refl, Bool-cases, List, ap, arith, count, count-append, inl, inr, some, ℕ, ◌++◌, ◌+◌,
  ◌<◌, ◌==◌, ◌∙◌, ◌∷◌, ◌≡◌, ◌≢◌, ◌≤◌,
}
use advanced_operating_syste.Buddy.Rings.{count-nodes, Rings, Quiet, nodes, list_del-Rings}
use advanced_operating_syste.LinkedList.{list_del}
use advanced_operating_syste.LinkedList.Store.{Links}
use advanced_operating_syste.LinkedList.Chain.{frame-IsRing}
use advanced_operating_syste.LinkedList.Delete.{list_del_self}
use advanced_operating_syste.Buddy.State.{Pages, update, free_list, pp_node}

-- The state with other list nodes.
abbrev pub relinked : Pages → Links → Pages
relinked s g = record s { links = g }

-- Fewer chunks on the lists.
pub IsApart-mono :
    (lists new : ℕ → List ℕ) (p k : ℕ)
    → ((q j : ℕ) → j < 10 → 0 < count q (new j) → 0 < count q (lists j))
    → IsApart lists p k
    → IsApart new p k
IsApart-mono lists new p k sub a = record {
  before = λ q j b i l. a.before q j b (sub q j b i) l;
  behind = λ q j b i l. a.behind q j b (sub q j b i) l;
}

-- What list_del of the node of an available chunk promises.
abbrev pub Drops : Pages → ℕ → ℕ → (Option ℕ → ℕ) → Type 0
Drops s p k total =
    (g : Links) × (lists : ℕ → List ℕ) × (list_del (pp_node p) s.links ≡ some (tt, g))
    × IsHeld (relinked s g) lists p k
    × ((w : Option ℕ) → total w ≡ free_in lists w + span k p w)
    × Quiet s.links g

pub Rings-same :
    (h g : Links) (lists : ℕ → List ℕ)
    → Rings h lists
    → ((a : ℕ) → (g.next a ≡ h.next a) × (g.prev a ≡ h.prev a))
    → Rings g lists
Rings-same h g lists r same = record {
  ring = λ k b.
      frame-IsRing h g (free_list k) (nodes (lists k)) [] (r.ring k b) (λ a o. same a)
        (λ a i. refl);
  once = r.once;
  alone = λ q out. frame-IsRing h g (pp_node q) [] [] (r.alone q out) (λ a o. same a) (λ a i. refl);
}

module _ (s : Pages) (lists : ℕ → List ℕ) (p k : ℕ) where
  module _ (g : Links) (new : List ℕ) where
    off_IsHeld :
        IsBuddy s lists
        → k < 10
        → 0 < count p (lists k)
        → Rings g (update lists k new)
        → ((q : ℕ) → q ≢ p → count q new ≡ count q (lists k))
        → count p new ≡ 0
        → IsHeld (relinked s g) (update lists k new) p k
    off_IsHeld v b i rings others gone = record {
      lists_in_order = record {
        rings = rings;
        chunk = λ q j jb iq.
            let c = o.chunk q j jb (sub q j jb iq) in
            record { free = c.free; order = c.order; aligned = c.aligned; within = c.within };
        apart = λ q j jb iq.
            IsApart-mono lists (update lists k new) q j sub (o.apart q j jb (sub q j jb iq));
      };
      order_lt = b;
      held =
          let c = o.chunk p k b i in
          record { free = c.free; order = c.order; aligned = c.aligned; within = c.within };
      unlisted = λ j jb. elim (Bool-cases (k == j)) [
        | inl e ↦ rw e gone
        | inr n ↦ rw n (ground (arith, o.rings.once p j k jb b))
      ];
      held_apart = IsApart-mono lists (update lists k new) p k sub (o.apart p k b i);
      listed = λ q n f.
          let l = v.listed q f in
          (
            l.0,
            elim (Bool-cases (k == s.pp_order q)) [
              | inl e ↦ rw e (ground (arith, others q n, l.1))
              | inr ne ↦ rw ne l.1
            ],
          );
    }
      where
        o : IsFreeLists s lists
        o = v.lists_in_order

        sub : (q j : ℕ) → j < 10 → 0 < count q (update lists k new j) → 0 < count q (lists j)
        sub q j jb iq = elim (Bool-cases (k == j)) [
          | inl e ↦ ground (arith, others q, i)
          | inr n ↦ rw n at iq
        ]

  -- Off its list.
  pub drop_listed : IsBuddy s lists → k < 10 → 0 < count p (lists k) → Drops s p k (free_in lists)
  drop_listed v b i =
      let (ys, zs, e) = split_at p (lists k) i in
      let (g, ran, rings, quiet) =
        list_del-Rings s.links lists k p v.lists_in_order.rings b ys zs e in
      let counted : (q : ℕ) → count q (lists k) ≡ count q ys + count q (p ∷ zs) =
        λ q. ap (count q) e ∙ count-append q ys (p ∷ zs) in
      let once : count p (lists k) ≤ 1 =
        omega (
          arith,
          (v.lists_in_order.rings.ring k b).distinct (pp_node p),
          count-nodes p (lists k),
        ) in
      (
        g,
        update lists k (ys ++ zs),
        ran,
        off_IsHeld g (ys ++ zs) v b i rings (λ q n. ground (arith, counted q, count-append q ys zs))
            (ground (arith, counted p, count-append p ys zs, once)),
        λ w. omega (
          arith,
          free_in-update k lists (ys ++ zs) w b,
          ap (λ l. chunks k l w) e,
          chunks-append k ys zs w,
          chunks-append k ys (p ∷ zs) w,
        ),
        quiet,
      )

  -- Off no list: list_del changes nothing.
  drop_held : IsHeld s lists p k → Drops s p k (λ w. free_in lists w + span k p w)
  drop_held v =
      let o = v.lists_in_order in
      let (g, ran, same) = list_del_self s.links p' (o.rings.alone p v.unlisted) in
      (
        g,
        lists,
        ran,
        record {
          lists_in_order = record {
            rings = Rings-same s.links g lists o.rings same;
            chunk = λ q j jb iq.
                let c = o.chunk q j jb iq in
                record { free = c.free; order = c.order; aligned = c.aligned; within = c.within };
            apart = o.apart;
          };
          order_lt = v.order_lt;
          held =
              let c = v.held in
              record { free = c.free; order = c.order; aligned = c.aligned; within = c.within };
          unlisted = v.unlisted;
          held_apart = v.held_apart;
          listed = v.listed;
        },
        λ w. refl,
        λ a other heads. same a,
      )
    where
      p' : ℕ
      p' = pp_node p

-- A chunk that is marked free, on its list or on none; with `total`, what all free chunks hold.
pub data IsAvailable (s : Pages) (p k : ℕ) (total : Option ℕ → ℕ) : Type 0 where
  on_list :
      (lists : ℕ → List ℕ)
      → IsBuddy s lists
      → k < 10
      → 0 < count p (lists k)
      → ((w : Option ℕ) → total w ≡ free_in lists w)
      → IsAvailable s p k total
  off_list :
      (lists : ℕ → List ℕ)
      → IsHeld s lists p k
      → ((w : Option ℕ) → total w ≡ free_in lists w + span k p w)
      → IsAvailable s p k total

-- Whichever it is, list_del takes the chunk off its list, and panics in neither case.
pub list_del-Drops :
    (s : Pages) (p k : ℕ) (total : Option ℕ → ℕ) → IsAvailable s p k total → Drops s p k total
list_del-Drops s p k total (on_list lists v b i e) =
    let (g, new, ran, held, e', quiet) = drop_listed s lists p k v b i in
    (g, new, ran, held, (λ w. e w ∙ e' w), quiet)
list_del-Drops s p k total (off_list lists v e) =
    let (g, new, ran, held, e', quiet) = drop_held s lists p k v in
    (g, new, ran, held, (λ w. e w ∙ e' w), quiet)
