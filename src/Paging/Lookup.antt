-- ===== src/Paging/Lookup.antt =====
-- kernel/mem/lookup.c: page_lookup. The walker's `udata` is `info.entry`, where 0 is NULL.
use advanced_operating_syste.Paging.{
  page_table_span, page_dir_span, walk_table, entry_of, next_base, pdpt_span, sign_extend,
  walk_page_range, Callback, Walker, walk_loop,
}
use advanced_operating_syste.Paging.State.{
  and_go_on, entry_at, is_huge, pa2page, page_addr, World, is_present, kaddr, load64, paddr, Reply,
  user_lim,
}
use advanced_operating_syste.Buddy.State.{page_size, Pages, kernel_vma}
use advanced_operating_syste.Prelude.Int.{negsuc, pos}
use advanced_operating_syste.Prelude.{
  Bool, Option, arith, false, if◌then◌else◌, leb, ltb, none, refl, some, suc, true, ℕ, ◌%◌, ◌&&◌,
  ◌+◌, ◌<◌, ◌==◌, ◌^◌, ◌≡◌, ◌≤◌,
}

unfoldable pub lookup_pte : Callback ℕ
lookup_pte entry base end w =
    if is_present (entry_at w entry)
    then some (pos 0, record w { udata = entry })
    else some (pos 0, w)

unfoldable pub lookup_pde : Callback ℕ
lookup_pde entry base end w = some (pos 0, w)

unfoldable pub lookup_walker : Walker ℕ
unfolding lookup_pte lookup_pde
lookup_walker = record {
  pte_callback = some lookup_pte;
  pde_callback = some lookup_pde;
  pdpte_callback = none;
  pml4e_callback = none;
  pte_unmap = none;
  pde_unmap = none;
  pdpte_unmap = none;
  pml4e_unmap = none;
  pt_hole_callback = none;
}

-- `none` is NULL, as a page and as `entry_store`, which else holds what it points to.
abbrev pub Found : Type 0
Found = Option ℕ × Option ℕ

abbrev pub found_page : Option ℕ → Option ℕ → Option Found
found_page none store = none
found_page (some page) store = some (some page, store)

-- The page behind an entry whose address is not stored: an address in the kernel's half is mapped
-- back by PADDR.
abbrev pub page_behind : ℕ → ℕ → Option ℕ
page_behind npages pa =
    if leb kernel_vma pa
    then elim (paddr pa) [ none ↦ none | some low ↦ pa2page npages low ]
    else pa2page npages pa

-- What page_lookup does with the entry that the walk stored.
unfoldable pub lookup_result : Pages → ℕ → Option ℕ → Option Found
lookup_result s entry store =
    let pa = sign_extend (page_addr (load64 s.memory entry)) in
    if entry == 0 then some (none, store) else elim store [
      | none ↦ found_page (page_behind s.npages pa) none
      | some old ↦
          if old == 0
          then found_page (page_behind s.npages pa) (some old)
          else found_page (pa2page s.npages pa) (some entry)
    ]

abbrev pub lookup_reply : Option ℕ → Reply ℕ → Option Found
lookup_reply store none = none
lookup_reply store (some (negsuc n, w)) = some (none, store)
lookup_reply store (some (pos n, w)) = lookup_result w.pages w.udata store

unfoldable pub page_lookup : ℕ → ℕ → ℕ → Option ℕ → Pages → Option Found
unfolding lookup_walker
page_lookup fuel pml4 va store s = lookup_reply store (
    walk_page_range fuel lookup_walker pml4 va ((va + page_size) % 2 ^ 64)
      (record { pages = s; udata = 0 }))

-- The translation of an address, level by level: `none` where KADDR panics, and else the address of
-- the entry of a present page, if there is one.
abbrev pub translate_pt : Pages → ℕ → ℕ → Option (Option ℕ)
translate_pt s table va =
    let entry = entry_of table page_size va in
    if is_present (load64 s.memory entry) then some (some entry) else some none

abbrev pub below_at : Option ℕ → (ℕ → Option (Option ℕ)) → Option (Option ℕ)
below_at none next = none
below_at (some table) next = next table

abbrev pub below : Pages → ℕ → (ℕ → Option (Option ℕ)) → Option (Option ℕ)
below s entry = below_at (kaddr s.npages (page_addr entry))

-- A level whose huge pages, if it has any, end the translation.
unfoldable pub translate_dir :
    Pages → Bool → ℕ → (ℕ → Option (Option ℕ)) → ℕ → ℕ → Option (Option ℕ)
translate_dir s huge span next table va =
    let entry = load64 s.memory (entry_of table span va) in
    if is_present entry
    then (if huge && is_huge entry then some none else below s entry next)
    else some none

unfoldable pub translate : Pages → ℕ → ℕ → Option (Option ℕ)
unfolding translate_dir
translate s pml4 va =
    translate_dir s false pdpt_span
      (λ pdpt.
        translate_dir s true page_dir_span
          (λ pdir. translate_dir s true page_table_span (λ ptbl. translate_pt s ptbl va) pdir va)
          pdpt va)
      pml4 va

-- One page is one round of a loop.
pub loop_once :
    {A : Type 0} (fuel span : ℕ) (body : ℕ → ℕ → World A → Reply A) (base end : ℕ) (w : World A)
    → base < end
    → end ≤ user_lim
    → next_base span base end ≡ end
    → walk_table (suc (suc fuel)) span body base end w
      ≡ and_go_on (body base end w) (λ w. some (pos 0, w))
unfolding walk_loop
loop_once fuel span body base end w l u e =
    let same : sign_extend base ≡ base = ground arith in
    let more : ltb base end ≡ true = ground arith in
    let stop : ltb end end ≡ false = ground arith in rw (same, more, e, stop) refl

-- Every span is a whole number of pages, so that its boundary is not inside the page.
pub next_in_page :
    (base end : ℕ)
    → base % 4096 ≡ 0
    → base < end
    → end ≤ base + 4095
    → base + 4096 ≤ user_lim
    → (next_base page_size base end ≡ end)
      × (next_base page_table_span base end ≡ end)
      × (next_base page_dir_span base end ≡ end)
      × (next_base pdpt_span base end ≡ end)
next_in_page base end a l h u = (ground arith, ground arith, ground arith, ground arith)
