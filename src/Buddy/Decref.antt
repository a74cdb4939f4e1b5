-- ===== src/Buddy/Decref.antt =====
-- page_decref of kernel/mem/buddy.c.
use advanced_operating_syste.Buddy.Invariant.{span, free_in, IsBuddy}
use advanced_operating_syste.Buddy.State.{update_self, zero_list, update, Pages}
use advanced_operating_syste.Buddy.Free.{page_free-Frees, Frees}
use advanced_operating_syste.Buddy.Idle.{zero_nodes, IsSwapRing}
use advanced_operating_syste.LinkedList.Chain.{IsRing}
use advanced_operating_syste.Buddy.Alloc.{IsAllocated}
use advanced_operating_syste.Buddy.{page_decref}
use advanced_operating_syste.Prelude.{
  Bool-cases, List, arith, count, false, inl, inr, refl, some, true, ℕ, ◌%◌, ◌+◌, ◌-◌, ◌<◌, ◌==◌,
  ◌^◌, ◌≡◌, ◌⊎◌,
}

-- The state with the reference count `ref` for `p`.
abbrev pub counted_down : Pages → ℕ → ℕ → Pages
counted_down s p ref = record s { pp_ref = update s.pp_ref p ref }

pub counted-IsBuddy :
    (s : Pages) (lists : ℕ → List ℕ) (p ref : ℕ)
    → IsBuddy s lists
    → IsBuddy (counted_down s p ref) lists
counted-IsBuddy s lists p ref v = record {
  lists_in_order = record {
    rings = v.lists_in_order.rings;
    chunk = λ q j jb i.
        let c = v.lists_in_order.chunk q j jb i in
        record { free = c.free; order = c.order; aligned = c.aligned; within = c.within };
    apart = v.lists_in_order.apart;
  };
  listed = v.listed;
}

-- With the free lists in order, in an array of whole 512 page chunks: `page_decref` of an allocated
-- chunk of order `k` below 10 with 1 to 65535 references, whose swap node is on the swap list or
-- alone and whose zero node is not on zero_list, does not panic. With more than one reference it
-- takes one off and does nothing else; with one it leaves none and gives the chunk back as `page_free`
-- does: the free lists stay in order and hold, page by page, what they held and the chunk, which is
-- part of one of a higher order if its buddy was free, and on the list of its order otherwise.
pub page_decref-Frees :
    (s : Pages) (lists : ℕ → List ℕ) (p k : ℕ) (zeros : List ℕ)
    → IsBuddy s lists
    → IsAllocated s lists p k
    → IsSwapRing s.links p
    → IsRing s.links zero_list (zero_nodes zeros)
    → count p zeros ≡ 0
    → k < 10
    → s.npages % 512 ≡ 0
    → 0 < s.pp_ref p
    → s.pp_ref p < 2 ^ 16
    → ((1 < s.pp_ref p)
        × (page_decref p s ≡ some (tt, record s { pp_ref = update s.pp_ref p (s.pp_ref p - 1) })))
      ⊎ ((s.pp_ref p ≡ 1)
          × Frees
              (page_decref p s)
              (counted_down s p 0)
              p
              k
              zeros
              (λ w. free_in lists w + span k p w))
unfolding page_decref
page_decref-Frees s lists p k zeros v a swap ring fresh b whole some_ref small =
    let self : (p == p) ≡ true = ground arith in
    let down : (s.pp_ref p + 65535) % 65536 ≡ s.pp_ref p - 1 = omega arith in
    elim (Bool-cases (s.pp_ref p == 1)) [
      | inr more ↦
          let left : (s.pp_ref p - 1 == 0) ≡ false = ground arith in
          inl (ground arith, rw (down, self, left) refl)
      | inl last ↦
          let zero_left : s.pp_ref p - 1 ≡ 0 = ground arith in
          let (t, new, gave, w, e, pages, memory, refs, returned) =
            page_free-Frees (counted_down s p 0) lists p k zeros (counted-IsBuddy s lists p 0 v)
              (record {
                used = a.used;
                order = a.order;
                aligned = a.aligned;
                within = a.within;
                unlisted = a.unlisted;
                apart = a.apart;
              })
              (record {
                unused = update_self s.pp_ref p 0;
                swap = swap;
                zero_ring = ring;
                not_there = fresh;
              })
              b whole in
          inr (
            ground arith,
            (t, new, rw (down, zero_left, self) gave, w, e, pages, memory, refs, returned),
          )
    ]
