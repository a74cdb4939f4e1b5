-- ===== src/Slab/Tests.antt =====
-- Runs of the slab allocator, and its theorems at concrete slabs.
use advanced_operating_syste.Buddy.{buddy_merge, give_page, remove_swap_page, page_free}
use advanced_operating_syste.Buddy.State.{Pages, kernel_vma}
use advanced_operating_syste.LinkedList.Store.{Links}
use advanced_operating_syste.Prelude.{
  false, ◌%◌, Option, [], arith, if◌then◌else◌, none, refl, some, true, ℕ, ◌*◌, ◌+◌, ◌-◌, ◌/◌, ◌==◌,
  ◌∷◌, ◌≡◌,
}
use advanced_operating_syste.Paging.{
  dir_step, pdir_walk_range, pdpt_walk_range, pml4_walk_range, pml4e_step, ptbl_walk_range,
  pte_step, walk_loop, walk_page_range,
}
use advanced_operating_syste.Paging.Lookup.{lookup_result, page_lookup}
use advanced_operating_syste.Paging.State.{load64}
use advanced_operating_syste.Slab.Free.{Releases, wiped, slab_free-Frees, Frees}
use advanced_operating_syste.Slab.Pages.{buddy_pages}
use advanced_operating_syste.Str.Memory.{Memory}
use advanced_operating_syste.Str.Move.{memset}
use advanced_operating_syste.Slab.Trio.{Trio}
use advanced_operating_syste.LinkedList.{list_init, list_is_empty, list_add, list_del}
use advanced_operating_syste.Slab.Take.{Takes, slab_alloc-Takes}
use advanced_operating_syste.Slab.State.{Slabs, PageOps, ◌>>=◌}
use advanced_operating_syste.Slab.{kmalloc, kmem_init, slab_alloc, slab_free}

-- An allocator that counts its pages: it has 9 of them.
abbrev counted_pages : PageOps ℕ
counted_pages = record {
  page_alloc = λ alloc_flags n. if n == 9 then some (none, n) else some (some (n + 1), n + 1);
  pp_ref = λ page n. some (0, n);
  page2kva = λ page n. some (4096 * page, n);
  kernel_pml4 = 0;
  page_lookup = λ table va n. some (some (va / 4096), n);
  page_free = λ page n. some (tt, n - 1);
  clear = λ va size n. n;
}

-- A slab at 1000 and its page with the footer at 2000.
abbrev slab_with : Links → ℕ → Slabs ℕ
slab_with h free = record {
  pages = 3;
  links = h;
  slabs = 1000;
  nslabs = 1;
  info_off = λ p. 1920;
  obj_size = λ p. 960;
  count = λ p. 2;
  slab_of = λ p. 1000;
  free_count = λ p. free;
  info_of = λ p. 2000;
}

-- The slab is partial, with the one free object 3100.
abbrev one_free : Links
one_free = record {
  next = λ p.
      if p == 1000
      then 2008
      else (if p == 2008
          then 1000
          else (if p == 2024 then 3100 else (if p == 3100 then 2024 else p)));
  prev = λ p.
      if p == 1000
      then 2008
      else (if p == 2008
          then 1000
          else (if p == 2024 then 3100 else (if p == 3100 then 2024 else p)));
}

one_free-Trio : Trio one_free 1000 1016 2024 (2008 ∷ []) [] (3100 ∷ [])
one_free-Trio = record {
  first = record {
    chain = (refl, refl, (refl, refl));
    distinct = λ p. ground arith;
    nonnull = refl;
  };
  second = record { chain = (refl, refl); distinct = λ p. ground arith; nonnull = refl };
  third = record {
    chain = (refl, refl, (refl, refl));
    distinct = λ p. ground arith;
    nonnull = refl;
  };
  apart = λ p. ground arith;
}

slab_alloc_example :
    Takes
      (slab_alloc counted_pages 1000 (slab_with one_free 1))
      (slab_with one_free 1)
      1000
      2000
      3100
      []
      []
      []
slab_alloc_example =
    slab_alloc-Takes counted_pages (slab_with one_free 1) 1000 2000 3100 [] [] [] one_free-Trio refl
      (omega arith)

-- Eight pages behind KERNEL_VMA: the tables in pages 0 to 3 map page 4, which is in use.
abbrev tables : Memory
tables a =
    let offset = a - kernel_vma in
    if offset % 4096 == (if offset / 4096 == 0 then 2048 else if offset / 4096 == 3 then 32 else 0)
    then 1
    else if offset % 4096
        == (if offset / 4096 == 0 then 2049 else if offset / 4096 == 3 then 33 else 1)
    then 16 * (offset / 4096 + 1)
    else 0

abbrev eight_pages : Pages
eight_pages = record {
  links = record { next = λ p. p; prev = λ p. p };
  npages = 8;
  pp_ref = λ p. 0;
  pp_order = λ p. 0;
  pp_free = λ p. false;
  pp_zero = λ p. false;
  memory = tables;
}

-- A slab at 1000 with two objects of 32 bytes in page 4: the one in front is in use, the one behind is free.
abbrev page_4 : ℕ
page_4 = kernel_vma + 4 * 4096

abbrev cut_links : Links
cut_links = record {
  next = λ p.
      if p == 1000
      then page_4 + 72
      else if p == page_4 + 72
      then 1000
      else if p == page_4 + 88
      then page_4 + 32
      else if p == page_4 + 32
      then page_4 + 88
      else p;
  prev = λ p.
      if p == 1000
      then page_4 + 72
      else if p == page_4 + 72
      then 1000
      else if p == page_4 + 88
      then page_4 + 32
      else if p == page_4 + 32
      then page_4 + 88
      else p;
}

abbrev cut_page_4 : Slabs Pages
cut_page_4 = record {
  pages = eight_pages;
  links = cut_links;
  slabs = 1000;
  nslabs = 1;
  info_off = λ p. 64;
  obj_size = λ p. 32;
  count = λ p. 2;
  slab_of = λ p. 1000;
  free_count = λ p. 1;
  info_of = λ p. page_4 + 64;
}

cut-Trio : Trio cut_links 1000 1016 (page_4 + 88) ((page_4 + 72) ∷ []) [] ((page_4 + 32) ∷ [])
cut-Trio = record {
  first = record {
    chain = (refl, refl, (refl, refl));
    distinct = λ p. ground arith;
    nonnull = refl;
  };
  second = record { chain = (refl, refl); distinct = λ p. ground arith; nonnull = refl };
  third = record {
    chain = (refl, refl, (refl, refl));
    distinct = λ p. ground arith;
    nonnull = refl;
  };
  apart = λ p. ground arith;
}

abbrev after_free : Option (Unit {0} × Pages) → Pages
after_free none = eight_pages
after_free (some (_, s)) = s

abbrev cleared : Pages
cleared = wiped (buddy_pages 9 kernel_vma) cut_page_4 1000 page_4

-- When the object in front is freed, page 4 is found through the tables and goes to its free list.
abbrev given_back : Pages
given_back = after_free (page_free 4 cleared)

cleared-Releases : Releases (buddy_pages 9 kernel_vma) page_4 cleared given_back
unfolding buddy_pages page_lookup page_free memset walk_page_range pml4_walk_range pdpt_walk_range
    pdir_walk_range ptbl_walk_range pml4e_step dir_step pte_step walk_loop lookup_result load64
    remove_swap_page list_is_empty buddy_merge give_page list_add
cleared-Releases = (4, cleared, refl, refl)

given_back_run : given_back.pp_free 4 ≡ true
unfolding cleared-Releases
given_back_run = refl

slab_free_example :
    Frees
      (slab_free (buddy_pages 9 kernel_vma) (page_4 + 24) cut_page_4)
      cut_page_4
      1000
      (page_4 + 64)
      page_4
      ((page_4 + 32) ∷ [])
      []
      []
      []
      cleared
      given_back
      true
slab_free_example =
    slab_free-Frees (buddy_pages 9 kernel_vma) cut_page_4 1000 (page_4 + 64) page_4
      ((page_4 + 32) ∷ []) [] [] [] given_back cut-Trio (omega arith) refl refl (omega arith) refl
      refl (λ e. cleared-Releases)

abbrev answer : {St : Type 0} → Option (ℕ × Slabs St) → Option ℕ
answer none = none
answer (some (p, s)) = some p

-- The first kmalloc of 100 bytes takes the last of 25 objects of 160 bytes of a new page, behind its header.
kmalloc_run :
    answer ((kmem_init >>= (λ r. kmalloc counted_pages 100)) (slab_with one_free 1))
    ≡ some (4096 * 4 + 24 * 160 + 24)
unfolding kmem_init kmalloc list_init list_is_empty list_add list_del
kmalloc_run = refl
