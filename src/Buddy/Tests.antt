-- ===== src/Buddy/Tests.antt =====
-- Runs of the buddy allocator.
use advanced_operating_syste.LinkedList.Store.{Links}
use advanced_operating_syste.Buddy.Invariant.{free_in, span, free_pages, IsBuddy}
use advanced_operating_syste.Buddy.{
  page_decref, buddy_find, buddy_merge, buddy_of, buddy_split, give_page, merge_once, page_alloc,
  page_free, remove_swap_page, split_once, take_page,
}
use advanced_operating_syste.Buddy.Decref.{counted-IsBuddy, counted_down, page_decref-Frees}
use advanced_operating_syste.Prelude.{
  ◌-◌, ◌≢◌, ◌⊎◌, Bool-cases, List, [], arith, count, inl, inr, ◌*◌, ◌+◌, ◌<◌, ◌^◌, ◌∷◌, ◌≤◌, Bool,
  Option, false, if◌then◌else◌, refl, true, ℕ, ◌==◌, ◌≡◌, none, some,
}
use advanced_operating_syste.Buddy.Alloc.{Allocates, IsAllocated, page_alloc-Allocates}
use advanced_operating_syste.Buddy.Count.{count_total_free_pages, count_total_free_pages-free_pages}
use advanced_operating_syste.Buddy.Find.{Finds, buddy_find-Finds}
use advanced_operating_syste.Buddy.Free.{Frees, IsIdle, page_free-Frees}
use advanced_operating_syste.Buddy.Hold.{on_list}
use advanced_operating_syste.Buddy.Split.{Keeps, buddy_split-Keeps}
use advanced_operating_syste.Buddy.Rings.{Rings}
use advanced_operating_syste.Buddy.State.{
  pp_node, update, Op, Pages, free_list, on_links, ◌>>=◌, ◌>>◌,
}
use advanced_operating_syste.LinkedList.Walk.{first}
use advanced_operating_syste.LinkedList.{list_add, list_del, list_is_empty, list_pop}
use advanced_operating_syste.LinkedList.Insert.{inserted_after}

-- Nodes that are all linked to themselves.
abbrev self : Links
self = record { next = λ p. p; prev = λ p. p }

-- An array of 512 pages in which the chunk of order `k` at `page` is free and all else is in use.
abbrev one_free : ℕ → ℕ → Pages
one_free page k = record {
  links = inserted_after (free_list k) (pp_node page) self;
  npages = 512;
  pp_ref = λ p. 0;
  pp_order = λ p. if p == page then k else 8;
  pp_free = λ p. p == page;
  pp_zero = λ p. false;
  memory = λ a. 7;
}

abbrev one_list : ℕ → ℕ → ℕ → List ℕ
one_list page k = update (λ j. []) k (page ∷ [])

one_chunk : Pages
one_chunk = one_free 0 9

result : {A : Type 0} → A → Option (A × Pages) → A
result d none = d
result d (some (a, s)) = a

-- The upper halves go to the free lists, and the first page is handed out.
alloc_run : result 9 (page_alloc 0 one_chunk) ≡ 0
unfolding page_alloc one_chunk result buddy_find buddy_split split_once take_page list_pop list_del
    list_add list_is_empty
alloc_run = refl

alloc_twice : result 9 ((do first ← page_alloc 0; page_alloc 1) one_chunk) ≡ 1
unfolding alloc_run
alloc_twice = refl

free_list_of : ℕ → Op Bool
free_list_of k = on_links (list_is_empty (free_list k))

-- A page that is freed merges back all the way.
free_run : result true ((do a ← page_alloc 0; page_free a; free_list_of 9) one_chunk) ≡ false
unfolding alloc_run free_list_of page_free buddy_merge merge_once buddy_of give_page
    remove_swap_page
free_run = refl

module _ (page k : ℕ) (b : k < 10) (c : ℕ) (aligned : page ≡ c * 2 ^ k)
    (within : page + 2 ^ k ≤ 512) where
  one_free-Rings : Rings (one_free page k).links (one_list page k)
  one_free-Rings = record {
    ring = λ j jb. elim (Bool-cases (k == j)) [
      | inl e ↦
          let same : k ≡ j = ground arith in
          rw (e, ← same)
            (record {
              chain = (ground arith, ground arith, (ground arith, ground arith));
              distinct = λ p. ground arith;
              nonnull = ground arith;
            })
      | inr n ↦ rw n (record {
        chain = (ground arith, ground arith);
        distinct = λ p. ground arith;
        nonnull = ground arith;
      })
    ];
    once = λ p i j ib jb x y. ground arith;
    alone = λ p out. record {
      chain =
          (let away : p ≢ page = λ e. ground (arith, out k b, e) in (ground arith, ground arith));
      distinct = λ q. ground arith;
      nonnull = ground arith;
    };
  }

  one_place : (q j : ℕ) → 0 < count q (one_list page k j) → (q ≡ page) × (j ≡ k)
  one_place q j i = ground arith

  one_free-IsBuddy : IsBuddy (one_free page k) (one_list page k)
  one_free-IsBuddy = record {
    lists_in_order = record {
      rings = one_free-Rings;
      chunk = λ q j jb i.
          let (e, f) = one_place q j i in
          rw (e, f)
            (record {
              free = ground arith;
              order = ground arith;
              aligned = (c, aligned);
              within = within;
            });
      apart = λ q j jb i.
          let (e, f) = one_place q j i in
          record {
            before = λ x y yb o l. let (e', f') = one_place x y o in absurd (omega arith);
            behind = λ x y yb o l. let (e', f') = one_place x y o in absurd (omega arith);
          };
    };
    listed = λ q f. let e : q ≡ page = ground arith in rw e (ground arith, ground arith);
  }

one_chunk-IsBuddy : IsBuddy (one_free 0 9) (one_list 0 9)
one_chunk-IsBuddy = one_free-IsBuddy 0 9 (omega arith) 0 refl (omega arith)

half-IsBuddy : IsBuddy (one_free 256 8) (one_list 256 8)
half-IsBuddy = one_free-IsBuddy 256 8 (omega arith) 1 refl (omega arith)

-- The lower half of the array is in use, its upper half is free.
lower_half-IsAllocated : IsAllocated (one_free 256 8) (one_list 256 8) 0 8
lower_half-IsAllocated = record {
  used = refl;
  order = refl;
  aligned = (0, refl);
  within = omega arith;
  unlisted = λ j b. ground arith;
  apart = record { before = λ q j b i l. absurd (omega arith); behind = λ q j b i l. ground arith };
}

lower_half-IsIdle : IsIdle (one_free 256 8) 0 []
lower_half-IsIdle = record {
  unused = refl;
  swap = (
    [],
    record { chain = (refl, refl); distinct = λ p. ground arith; nonnull = refl },
    λ a i. absurd (omega arith),
  );
  zero_ring = record { chain = (refl, refl); distinct = λ p. ground arith; nonnull = refl };
  not_there = refl;
}

buddy_split_example :
    Keeps (buddy_split 10 0 2 (one_free 0 9)) 0 (one_free 0 9) 0 2 (free_in (one_list 0 9))
buddy_split_example =
    buddy_split-Keeps 10 (one_free 0 9) 0 9 2 (free_in (one_list 0 9))
      (on_list (one_list 0 9) one_chunk-IsBuddy (omega arith) (omega arith) (λ w. refl))
      (omega arith) (omega arith)

buddy_find_example : Finds (buddy_find 3 (one_free 0 9)) (one_free 0 9) (one_list 0 9) 3 3
buddy_find_example =
    buddy_find-Finds (one_free 0 9) (one_list 0 9) 3 one_chunk-IsBuddy (omega arith)

page_alloc_example :
    (((k : ℕ) → k < 10 → one_list 0 9 k ≡ []) × (page_alloc 1 (one_free 0 9) ≡ none))
    ⊎ Allocates (page_alloc 1 (one_free 0 9)) 1 (one_free 0 9) 0 (free_in (one_list 0 9))
page_alloc_example = page_alloc-Allocates 1 (one_free 0 9) (one_list 0 9) one_chunk-IsBuddy

page_free_example :
    Frees
      (page_free 0 (one_free 256 8))
      (one_free 256 8)
      0
      8
      []
      (λ w. free_in (one_list 256 8) w + span 8 0 w)
page_free_example =
    page_free-Frees (one_free 256 8) (one_list 256 8) 0 8 [] half-IsBuddy lower_half-IsAllocated
      lower_half-IsIdle (omega arith) refl

count_total_free_pages_example :
    count_total_free_pages 100 (one_free 0 9) ≡ some (free_pages (one_list 0 9))
unfolding free_in span
count_total_free_pages_example =
    count_total_free_pages-free_pages (one_free 0 9) (one_list 0 9) 100 one_chunk-IsBuddy
      (λ k b. ground arith) (omega arith)

-- The lower half has one reference.
abbrev one_ref : Pages
one_ref = counted_down (one_free 256 8) 0 1

one_ref-IsAllocated : IsAllocated one_ref (one_list 256 8) 0 8
one_ref-IsAllocated = record {
  used = lower_half-IsAllocated.used;
  order = lower_half-IsAllocated.order;
  aligned = lower_half-IsAllocated.aligned;
  within = lower_half-IsAllocated.within;
  unlisted = lower_half-IsAllocated.unlisted;
  apart = lower_half-IsAllocated.apart;
}

page_decref_example :
    ((1 < one_ref.pp_ref 0)
      × (page_decref 0 one_ref
          ≡ some (tt, record one_ref { pp_ref = update one_ref.pp_ref 0 (one_ref.pp_ref 0 - 1) })))
    ⊎ ((one_ref.pp_ref 0 ≡ 1)
        × Frees
            (page_decref 0 one_ref)
            (counted_down one_ref 0 0)
            0
            8
            []
            (λ w. free_in (one_list 256 8) w + span 8 0 w))
page_decref_example =
    page_decref-Frees one_ref (one_list 256 8) 0 8 []
      (counted-IsBuddy (one_free 256 8) (one_list 256 8) 0 1 half-IsBuddy) one_ref-IsAllocated
      lower_half-IsIdle.swap lower_half-IsIdle.zero_ring refl (omega arith) refl (omega arith)
      (omega arith)
