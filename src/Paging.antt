-- ===== src/Paging.antt =====
-- kernel/mem/walk.c: the walk over the four levels of page tables, with the callbacks of struct
-- page_walker. A struct page_table pointer is the address of the table.
pub mod State
pub mod Lookup
pub mod Ranges
pub mod Frame
pub mod Translate
mod Tests
use advanced_operating_syste.Paging.State.{
  is_huge, entry_at, page_addr, is_present, kaddr, round_up, and_go_on, round_down, Reply, World,
  user_lim,
}
use advanced_operating_syste.Buddy.State.{kernel_vma, page_size}
use advanced_operating_syste.Prelude.Int.{pos}
use advanced_operating_syste.Prelude.{
  Option, if◌then◌else◌, ltb, none, some, suc, zero, ℕ, ◌%◌, ◌*◌, ◌+◌, ◌-◌, ◌/◌, ◌^◌, ◌||◌,
}

-- A callback gets the address of the entry, and the first and last address of the range.
abbrev pub Callback : Type 0 → Type 0
Callback A = ℕ → ℕ → ℕ → World A → Reply A

abbrev pub HoleCallback : Type 0 → Type 0
HoleCallback A = ℕ → ℕ → World A → Reply A

-- `none` is NULL; `udata` is a part of the state.
pub record Walker (A : Type 0) : Type 0 where
  pub pte_callback : Option (Callback A)
  pub pde_callback : Option (Callback A)
  pub pdpte_callback : Option (Callback A)
  pub pml4e_callback : Option (Callback A)
  pub pte_unmap : Option (Callback A)
  pub pde_unmap : Option (Callback A)
  pub pdpte_unmap : Option (Callback A)
  pub pml4e_unmap : Option (Callback A)
  pub pt_hole_callback : Option (HoleCallback A)

abbrev pub call : {A : Type 0} → Option (Callback A) → Callback A
call none entry base end w = some (pos 0, w)
call (some f) entry base end w = f entry base end w

abbrev pub call_hole : {A : Type 0} → Option (HoleCallback A) → HoleCallback A
call_hole none base end w = some (pos 0, w)
call_hole (some f) base end w = f base end w

-- `0xffff000000000000 | addr` sets the upper 16 bits.
abbrev pub sign_extend : ℕ → ℕ
sign_extend addr = if ltb addr user_lim then addr else addr % 2 ^ 48 + 0xffff000000000000

-- ptbl_end, pdir_end, pdpt_end and pml4_end: `addr | (span - 1)`, where `span` is a power of two.
abbrev pub boundary : ℕ → ℕ → ℕ
boundary span addr = addr - addr % span + (span - 1)

abbrev pub page_table_span : ℕ
page_table_span = 2 ^ 21

abbrev pub page_dir_span : ℕ
page_dir_span = 2 ^ 30

abbrev pub pdpt_span : ℕ
pdpt_span = 2 ^ 39

-- The `next` of a round.
abbrev pub next_base : ℕ → ℕ → ℕ → ℕ
next_base span addr end =
    let next = sign_extend ((boundary span addr + 1) % 2 ^ 64) in
    if ltb end next || ltb next addr then end else next

-- The loop that the four functions share; the body gets `addr` and the new `next`. The fuel bounds
-- the rounds.
unfoldable pub walk_loop :
    {A : Type 0} → ℕ → ℕ → (ℕ → ℕ → World A → Reply A) → ℕ → ℕ → ℕ → World A → Reply A
walk_loop zero span body addr next end w = none
walk_loop (suc fuel) span body addr next end w =
    let then_next = next_base span addr end in
    let rest =
      and_go_on (body addr then_next w) (walk_loop fuel span body then_next then_next end) in
    if ltb next end then rest else some (pos 0, w)

-- `next = base; for (addr = sign_extend(base); ...`
abbrev pub walk_table :
    {A : Type 0} → ℕ → ℕ → (ℕ → ℕ → World A → Reply A) → ℕ → ℕ → World A → Reply A
walk_table fuel span body base end = walk_loop fuel span body (sign_extend base) base end

-- The index of an address at a level, and the address of its entry: `&table->entries[idx]`.
abbrev pub entry_of : ℕ → ℕ → ℕ → ℕ
entry_of table span addr = table + 8 * (addr / span % 512)

-- The body of a round of ptbl_walk_range.
unfoldable pub pte_step : {A : Type 0} → Walker A → ℕ → ℕ → ℕ → World A → Reply A
pte_step walker ptbl addr next w =
    let entry = entry_of ptbl page_size addr in
    and_go_on (call walker.pte_callback entry addr (next - 1) w) (λ w.
      if is_present (entry_at w entry)
      then call walker.pte_unmap entry addr (next - 1) w
      else call_hole walker.pt_hole_callback addr (next - 1) w)

unfoldable pub ptbl_walk_range : {A : Type 0} → ℕ → Walker A → ℕ → ℕ → ℕ → World A → Reply A
ptbl_walk_range fuel walker ptbl = walk_table fuel page_size (pte_step walker ptbl)

-- `KADDR(PAGE_ADDR(*entry))` as the table of the next level's walk.
abbrev pub at_table : {A : Type 0} → Option ℕ → (ℕ → World A → Reply A) → World A → Reply A
at_table none f w = none
at_table (some table) f w = f table w

-- The walk below a present entry, and then the unmap callback.
abbrev pub descend :
    {A : Type 0}
    → (ℕ → ℕ → ℕ → World A → Reply A)
    → Option (Callback A)
    → ℕ
    → ℕ
    → ℕ
    → World A
    → Reply A
descend walk unmap entry addr next w =
    and_go_on
      (at_table (kaddr w.pages.npages (page_addr (entry_at w entry)))
        (λ table. walk table addr (next - 1)) w)
      (call unmap entry addr (next - 1))

-- The body of a round of pdir_walk_range and pdpt_walk_range: a huge page has no table below it.
unfoldable pub dir_step :
    {A : Type 0}
    → (ℕ → ℕ → ℕ → World A → Reply A)
    → Option (Callback A)
    → Option (Callback A)
    → Option (HoleCallback A)
    → ℕ
    → ℕ
    → ℕ
    → ℕ
    → World A
    → Reply A
dir_step walk callback unmap hole span table addr next w =
    let entry = entry_of table span addr in
    and_go_on (call callback entry addr (next - 1) w) (λ w.
      if is_present (entry_at w entry)
      then (if is_huge (entry_at w entry)
          then some (pos 0, w)
          else descend walk unmap entry addr next w)
      else call_hole hole addr (next - 1) w)

unfoldable pub pdir_walk_range : {A : Type 0} → ℕ → Walker A → ℕ → ℕ → ℕ → World A → Reply A
pdir_walk_range fuel walker pdir = walk_table fuel page_table_span (
    dir_step (ptbl_walk_range fuel walker) walker.pde_callback walker.pde_unmap
      walker.pt_hole_callback page_table_span pdir)

unfoldable pub pdpt_walk_range : {A : Type 0} → ℕ → Walker A → ℕ → ℕ → ℕ → World A → Reply A
pdpt_walk_range fuel walker pdpt = walk_table fuel page_dir_span (
    dir_step (pdir_walk_range fuel walker) walker.pdpte_callback walker.pdpte_unmap
      walker.pt_hole_callback page_dir_span pdpt)

-- The body of a round of pml4_walk_range, which has no huge pages.
unfoldable pub pml4e_step :
    {A : Type 0} → (ℕ → ℕ → ℕ → World A → Reply A) → Walker A → ℕ → ℕ → ℕ → World A → Reply A
pml4e_step walk walker pml4 addr next w =
    let entry = entry_of pml4 pdpt_span addr in
    and_go_on (call walker.pml4e_callback entry addr (next - 1) w) (λ w.
      if is_present (entry_at w entry)
      then descend walk walker.pml4e_unmap entry addr next w
      else call_hole walker.pt_hole_callback addr (next - 1) w)

unfoldable pub pml4_walk_range : {A : Type 0} → ℕ → Walker A → ℕ → ℕ → ℕ → World A → Reply A
pml4_walk_range fuel walker pml4 =
    walk_table fuel pdpt_span (pml4e_step (pdpt_walk_range fuel walker) walker pml4)

-- The end that the walk gets is the last address of the range.
unfoldable pub walk_page_range : {A : Type 0} → ℕ → Walker A → ℕ → ℕ → ℕ → World A → Reply A
walk_page_range fuel walker pml4 base end =
    pml4_walk_range fuel walker pml4 (round_down base page_size)
      ((round_up end page_size + (2 ^ 64 - 1)) % 2 ^ 64)

abbrev pub kernel_lim : ℕ
kernel_lim = 0xffffffffffffffff

walk_all_pages : {A : Type 0} → ℕ → Walker A → ℕ → World A → Reply A
walk_all_pages fuel walker pml4 = pml4_walk_range fuel walker pml4 0 kernel_lim

walk_user_pages : {A : Type 0} → ℕ → Walker A → ℕ → World A → Reply A
walk_user_pages fuel walker pml4 = pml4_walk_range fuel walker pml4 0 user_lim

walk_kernel_pages : {A : Type 0} → ℕ → Walker A → ℕ → World A → Reply A
walk_kernel_pages fuel walker pml4 = pml4_walk_range fuel walker pml4 kernel_vma kernel_lim
