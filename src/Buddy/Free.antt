-- ===== src/Buddy/Free.antt =====
-- page_free of kernel/mem/buddy.c.
use advanced_operating_syste.Buddy.Partner.{
  order_above-lower, order_above, IsInside, buddy_ne, buddy_page, has_buddy,
}
use advanced_operating_syste.Buddy.Climb.{buddy_merge-Merges}
use advanced_operating_syste.Prelude.{
  refl, subst, suc, ◌∙◌, ◌≢◌, Bool-cases, List, Option, arith, count, false, inl, inr, some, sym,
  true, ℕ, ◌%◌, ◌+◌, ◌<◌, ◌==◌, ◌∷◌, ◌≡◌, ◌⊎◌,
}
use advanced_operating_syste.Buddy.Invariant.{span, free_in, IsHeld, IsBuddy}
use advanced_operating_syste.Buddy.Place.{place}
use advanced_operating_syste.Buddy.Idle.{
  zero_nodes_other, Quiet-zero_list, count-zero_nodes, Rings-kept, SwapOnly-zero_list, SwapOnly,
  remove_swap_page-Idles, zero_nodes, IsSwapRing,
}
use advanced_operating_syste.LinkedList.Insert.{list_add-IsRing}
use advanced_operating_syste.Buddy.Hold.{off_list}
use advanced_operating_syste.Buddy.State.{
  pp_node, free_list, pp_zero_node, update_self, update, zero_list, Pages,
}
use advanced_operating_syste.Buddy.Alloc.{IsAllocated}
use advanced_operating_syste.Buddy.Rings.{Rings}
use advanced_operating_syste.Buddy.{give_page, page_free}
use advanced_operating_syste.LinkedList.Chain.{IsRing}
use advanced_operating_syste.LinkedList.Store.{Links}

-- What `page_free` may touch beside the free lists: the page's swap node is in a ring of the swap
-- list, and its zero node is not yet on zero_list, which holds `zeros`.
pub record IsIdle (s : Pages) (p : ℕ) (zeros : List ℕ) : Type 0 where
  pub unused : s.pp_ref p ≡ 0
  pub swap : IsSwapRing s.links p
  pub zero_ring : IsRing s.links zero_list (zero_nodes zeros)
  pub not_there : count p zeros ≡ 0

abbrev freed : Pages → Links → ℕ → Pages
freed s g p = record s { links = g; pp_free = update s.pp_free p true }

module _ (s : Pages) (lists : ℕ → List ℕ) (p k : ℕ) (g : Links) where
  SwapOnly-Rings : Rings s.links lists → SwapOnly s.links g → Rings g lists
  SwapOnly-Rings r same =
      Rings-kept s.links g lists r
        (λ j b. same (free_list j) (λ x. omega arith) (λ q x. omega arith))
        (λ q. same (pp_node q) (λ x. omega arith) (λ i x. omega arith))

  -- Marked free, the chunk is held and may be put on its list.
  freed-IsHeld :
      IsBuddy s lists
      → IsAllocated s lists p k
      → k < 10
      → Rings g lists
      → IsHeld (freed s g p) lists p k
  freed-IsHeld v a b r = record {
    lists_in_order = record {
      rings = r;
      chunk = λ q j jb i.
          let c = v.lists_in_order.chunk q j jb i in
          record {
            free = ground (arith, c.free);
            order = c.order;
            aligned = c.aligned;
            within = c.within;
          };
      apart = v.lists_in_order.apart;
    };
    order_lt = b;
    held = record {
      free = update_self s.pp_free p true;
      order = a.order;
      aligned = a.aligned;
      within = a.within;
    };
    unlisted = a.unlisted;
    held_apart = a.apart;
    listed = λ q n f. v.listed q (ground arith);
  }

-- What happened to the page: with a free buddy, its chunk was merged, and it is part of a larger one on a list,
-- and `pp_zero` and zero_list are as before; otherwise it went to its list as it is, with `pp_zero` reset and its node first on
-- zero_list.
abbrev pub Returned : Pages → Pages → (ℕ → List ℕ) → ℕ → ℕ → List ℕ → Type 0
Returned s t lists p k zeros =
    ((k < 9)
      × (has_buddy s p k ≡ true)
      × IsInside lists p k (suc k)
      × (t.pp_zero ≡ s.pp_zero)
      × IsRing t.links zero_list (zero_nodes zeros))
    ⊎ (((k ≡ 9) ⊎ (has_buddy s p k ≡ false))
        × (0 < count p (lists k))
        × (t.pp_zero ≡ update s.pp_zero p false)
        × IsRing t.links zero_list (zero_nodes (p ∷ zeros)))

abbrev pub Frees : Option (Unit {0} × Pages) → Pages → ℕ → ℕ → List ℕ → (Option ℕ → ℕ) → Type 0
Frees run s p k zeros total =
    (t : Pages) × (lists : ℕ → List ℕ) × (run ≡ some (tt, t))
    × IsBuddy t lists
    × ((w : Option ℕ) → free_in lists w ≡ total w)
    × (t.npages ≡ s.npages)
    × (t.memory ≡ s.memory)
    × (t.pp_ref ≡ s.pp_ref)
    × Returned s t lists p k zeros

module _ (s : Pages) (lists : ℕ → List ℕ) (p k : ℕ) (zeros : List ℕ) where
  give_page-Frees :
      IsHeld s lists p k
      → IsRing s.links zero_list (zero_nodes zeros)
      → count p zeros ≡ 0
      → ((k ≡ 9) ⊎ (has_buddy s p k ≡ false))
      → Frees (give_page (some p) s) s p k zeros (λ w. free_in lists w + span k p w)
  unfolding give_page
  give_page-Frees v r fresh lone =
      let order : s.pp_order p ≡ k = v.held.order in
      let (g, ran, w, e, quiet) = place s lists p k v in
      let away : count (pp_zero_node p) (zero_list ∷ zero_nodes zeros) ≡ 0 =
        ground (arith, count-zero_nodes p zeros, fresh) in
      let (g₂, ran₂, ring, same) =
        list_add-IsRing g zero_list (pp_zero_node p) (zero_nodes zeros)
          (Quiet-zero_list s.links g zeros quiet r)
          (record { ne_null = omega arith; outside = away }) in
      let rings =
        Rings-kept g g₂ (update lists k (p ∷ lists k)) w.lists_in_order.rings
          (λ j b.
            same (free_list j)
              (ground (arith, zero_nodes_other (free_list j) zeros (λ q x. omega arith))))
          (λ q.
            same (pp_node q)
              (ground (arith, zero_nodes_other (pp_node q) zeros (λ i x. omega arith)))) in
      (
        record s { links = g₂; pp_zero = update s.pp_zero p false },
        update lists k (p ∷ lists k),
        rw (order, ran, ran₂) refl,
        record {
          lists_in_order = record {
            rings = rings;
            chunk = λ q j jb i.
                let c = w.lists_in_order.chunk q j jb i in
                record { free = c.free; order = c.order; aligned = c.aligned; within = c.within };
            apart = w.lists_in_order.apart;
          };
          listed = w.listed;
        },
        e,
        refl,
        refl,
        refl,
        inr (lone, rw (update_self lists k (p ∷ lists k)) (ground arith), refl, ring),
      )

-- The same of the state before the page was marked.
again :
    (s : Pages) (g : Links) (t : Pages) (new : ℕ → List ℕ) (p k : ℕ) (zeros : List ℕ)
    → has_buddy (freed s g p) p k ≡ has_buddy s p k
    → Returned (freed s g p) t new p k zeros
    → Returned s t new p k zeros
again s g t new p k zeros same (inl (l, has, o, z, r)) = inl (l, sym same ∙ has, o, z, r)
again s g t new p k zeros same (inr (inl nine, i, z, r)) = inr (inl nine, i, z, r)
again s g t new p k zeros same (inr (inr lone, i, z, r)) = inr (inr (sym same ∙ lone), i, z, r)

-- With the free lists in order, in an array of whole 512 page chunks: `page_free` of an allocated
-- chunk of order `k` below 10 with no references, whose swap node is on the swap list or alone and
-- whose zero node is not on zero_list, does not panic. The free lists stay in order and hold, page by
-- page, what they held and the chunk (`free_in`); no memory and no reference count changes. If `k` is
-- below 9 and the buddy heads a free chunk of order `k`, the chunk is then part of one of a higher
-- order on its list, and `pp_zero` and zero_list stay as they are. Otherwise it is on the list of its order, `pp_zero` is reset and the
-- page is first on zero_list.
pub page_free-Frees :
    (s : Pages) (lists : ℕ → List ℕ) (p k : ℕ) (zeros : List ℕ)
    → IsBuddy s lists
    → IsAllocated s lists p k
    → IsIdle s p zeros
    → k < 10
    → s.npages % 512 ≡ 0
    → Frees (page_free p s) s p k zeros (λ w. free_in lists w + span k p w)
unfolding page_free give_page
page_free-Frees s lists p k zeros v a idle b whole =
    let order : s.pp_order p ≡ k = a.order in
    let (g, ran, alone, same) = remove_swap_page-Idles s p idle.swap in
    let held =
      freed-IsHeld s lists p k g v a b (SwapOnly-Rings s lists p k g v.lists_in_order.rings same) in
    let zero_ring = SwapOnly-zero_list s.links g zeros same idle.zero_ring in
    let give = give_page-Frees (freed s g p) lists p k zeros held zero_ring idle.not_there in
    let away : buddy_page p k ≢ p = buddy_ne p k a.aligned.0 a.aligned.1 in
    let same_buddy : has_buddy (freed s g p) p k ≡ has_buddy s p k = ground (arith, away) in
    elim (Bool-cases (k == 9)) [
      | inl highest ↦
          let nine : k ≡ 9 = ground arith in
          let (t, new, gave, w, e, pages, memory, refs, returned) = give (inl nine) in
          (
            t,
            new,
            rw (idle.unused, ran, order, highest) gave,
            w,
            e,
            pages,
            memory,
            refs,
            again s g t new p k zeros same_buddy returned,
          )
      | inr lower ↦
          let up : order_above k ≡ suc k = order_above-lower k (ground (arith, lower, b)) in
          elim (buddy_merge-Merges 10 (freed s g p) p k (λ w. free_in lists w + span k p w)
            (off_list lists held (λ w. refl)) whole b (omega arith) (λ x. absurd (ground arith))) [
              | inl (stays, _, lone) ↦
                  let (t, new, gave, w, e, pages, memory, refs, returned) = give (inr lone) in
                  (
                    t,
                    new,
                    rw (idle.unused, ran, order, lower, stays) gave,
                    w,
                    e,
                    pages,
                    memory,
                    refs,
                    again s g t new p k zeros same_buddy returned,
                  )
              | inr (why, u, left, merges, w', e', kept, larger) ↦ (
                u,
                left,
                rw (idle.unused, ran, order, lower, merges) refl,
                w',
                (λ w. sym (e' w)),
                kept.npages,
                kept.memory,
                kept.pp_ref,
                inl (
                  ground (arith, lower),
                  elim why [
                    | inl x ↦ absurd (ground (arith, lower, x))
                    | inr x ↦ sym same_buddy ∙ x
                  ],
                  subst (IsInside left p k) up larger,
                  kept.pp_zero,
                  Quiet-zero_list g u.links zeros kept.quiet zero_ring,
                ),
              )
            ]
    ]
