-- ===== src/Paging/Tests.antt =====
-- Runs of the page table walk, and its theorems at concrete tables.
use advanced_operating_syste.Paging.Frame.{found_at}
use advanced_operating_syste.Prelude.Int.{pos}
use advanced_operating_syste.Buddy.State.{Pages, kernel_vma, page_size}
use advanced_operating_syste.Paging.{
  dir_step, pdir_walk_range, pdpt_walk_range, pml4_walk_range, pml4e_step, ptbl_walk_range,
  pte_step, walk_loop, walk_page_range, walk_table,
}
use advanced_operating_syste.Paging.Lookup.{Found, lookup_result, page_lookup, translate}
use advanced_operating_syste.Paging.Ranges.{IsPartition, run_all, walk_table-run_all}
use advanced_operating_syste.Paging.State.{Reply, World, load64}
use advanced_operating_syste.Paging.Translate.{page_lookup-translate}
use advanced_operating_syste.Prelude.{
  List, Option, arith, false, if◌then◌else◌, none, refl, some, ℕ, ◌%◌, ◌*◌, ◌+◌, ◌-◌, ◌/◌, ◌==◌,
  ◌^◌, ◌≡◌,
}
use advanced_operating_syste.Str.Memory.{Memory, store}

-- Eight pages: the first entry of the tables in pages 0 to 3 leads to the next page, and the second
-- entry of the last table to page 5.
abbrev tables : Memory
tables a =
    let offset = a - kernel_vma in
    if offset == 12296
    then 1
    else if offset == 12297
    then 80
    else if offset % 4096 == 0
    then 1
    else if offset % 4096 == 1
    then 16 * (offset / 4096 + 1)
    else 0

abbrev mapped : Pages
mapped = record {
  links = record { next = λ p. p; prev = λ p. p };
  npages = 8;
  pp_ref = λ p. 0;
  pp_order = λ p. 0;
  pp_free = λ p. false;
  pp_zero = λ p. false;
  memory = tables;
}

page_of : Option Found → Option ℕ
page_of none = none
page_of (some (page, store)) = page

lookup_run : page_of (page_lookup 9 kernel_vma 0 none mapped) ≡ some 4
unfolding page_of page_lookup walk_page_range pml4_walk_range pdpt_walk_range pdir_walk_range
    ptbl_walk_range pml4e_step dir_step pte_step walk_loop lookup_result load64
lookup_run = refl

-- An address in the middle of page 4: the walk goes on to the page behind it, whose entry is the one
-- that is kept.
unaligned_run : page_of (page_lookup 9 kernel_vma 0x800 none mapped) ≡ some 5
unfolding lookup_run
unaligned_run = refl

page_lookup_example :
    page_lookup 9 kernel_vma 0 none mapped ≡ found_at mapped none (translate mapped kernel_vma 0)
page_lookup_example =
    page_lookup-translate 7 mapped kernel_vma 0 none (omega arith) (omega arith) (omega arith)

abbrev count_rounds : ℕ → ℕ → World ℕ → Reply ℕ
count_rounds x y w = some (pos 0, record w { udata = w.udata + 1 })

walk_table_example :
    (xs : List (ℕ × ℕ)) × IsPartition page_size 100 9000 xs
    × ((w : World ℕ) → walk_table 6 page_size count_rounds 100 9000 w ≡ run_all count_rounds xs w)
walk_table_example =
    walk_table-run_all 4 page_size (2 ^ 35) count_rounds 100 9000 (omega arith) refl (omega arith)
      (omega arith) (omega arith)
