-- ===== src/Slab/Pages.antt =====
-- The pages that kernel/mem/slab.c asks for, from the buddy allocator and the page tables.
use advanced_operating_syste.Prelude.{Option, none, some, ℕ}
use advanced_operating_syste.Slab.State.{PageOps}
use advanced_operating_syste.Str.Move.{memset}
use advanced_operating_syste.Buddy.State.{Pages, page2kva}
use advanced_operating_syste.Buddy.{page_alloc, page_free}
use advanced_operating_syste.Paging.Lookup.{page_lookup, Found}

-- page_alloc never returns NULL: it panics instead.
abbrev allocated : Option (ℕ × Pages) → Option (Option ℕ × Pages)
allocated none = none
allocated (some (page, s)) = some (some page, s)

-- A lookup changes nothing.
abbrev looked_up : Pages → Option Found → Option (Option ℕ × Pages)
looked_up s none = none
looked_up s (some (page, store)) = some (page, s)

-- Fuel bounds the rounds of the walk.
unfoldable pub buddy_pages : ℕ → ℕ → PageOps Pages
unfolding page_alloc page_free page_lookup
buddy_pages fuel pml4 = record {
  page_alloc = λ alloc_flags s. allocated (page_alloc alloc_flags s);
  pp_ref = λ page s. some (s.pp_ref page, s);
  page2kva = page2kva;
  kernel_pml4 = pml4;
  page_lookup = λ table va s. looked_up s (page_lookup fuel table va none s);
  page_free = page_free;
  clear = λ addr n s. record s { memory = memset addr 0 n s.memory };
}
