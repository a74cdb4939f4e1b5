-- ===== src/Buddy.antt =====
-- kernel/mem/buddy.c: the buddy allocator, function by function, and remove_swap_page of
-- kernel/dev/swap_util.c.
pub mod State
pub mod Rings
pub mod Invariant
pub mod Hold
pub mod Place
pub mod Split
pub mod Find
pub mod Alloc
pub mod Remove
pub mod Pair
pub mod Merge
pub mod Join
pub mod Partner
pub mod Climb
pub mod Idle
pub mod Free
pub mod Decref
pub mod Count
mod Tests
use advanced_operating_syste.Prelude.{
  Bool, Option, false, if◌then◌else◌, leb, none, not, some, suc, true, zero, ℕ, ◌%◌, ◌&&◌, ◌*◌, ◌+◌,
  ◌-◌, ◌/◌, ◌==◌, ◌^◌,
}
use advanced_operating_syste.LinkedList.{list_del, list_add, list_pop, list_is_empty}
use advanced_operating_syste.LinkedList.Store.{Links, null}
use advanced_operating_syste.Str.Memory.{Memory}
use advanced_operating_syste.Str.Move.{memset}
use State.{
  Pages, Op, pure, panic, ◌>>=◌, ◌>>◌, on_links, get, assert_that, set_pp_order, set_pp_free,
  set_pp_ref, set_pp_zero, write_zeros, free_list, zero_list, pp_node, swap_node, pp_zero_node,
  page_from, page_at, buddy_max_order, page_size, page2pa, page_index, page2kva,
}

-- `1 << page->pp_order`.
abbrev pub block_size : ℕ → ℕ
block_size order = 2 ^ order

-- The body of the recursion of `buddy_split`: `lhs` gives its upper half to the next lower list.
unfoldable pub split_once : ℕ → Op (Unit {0})
split_once lhs = do
  order ← get (λ s. s.pp_order lhs)
  buddy ← page_at (page_index lhs + block_size order / 2)
  on_links (list_del (pp_node lhs))
  set_pp_order lhs ((order + 127) % 128)
  lower ← get (λ s. s.pp_order lhs)
  set_pp_order buddy lower
  set_pp_free buddy true
  on_links (list_add (free_list lower) (pp_node lhs))
  on_links (list_add (free_list lower) (pp_node buddy))

-- The fuel bounds the depth of the recursion.
unfoldable pub buddy_split : ℕ → ℕ → ℕ → Op ℕ
buddy_split zero lhs req_order = panic
buddy_split (suc fuel) lhs req_order = do
  order ← get (λ s. s.pp_order lhs)
  if order == req_order then pure lhs else do split_once lhs; buddy_split fuel lhs req_order

-- Whether the buddy is the right neighbour.
abbrev pub buddy_on_right : ℕ → ℕ → Bool
buddy_on_right page order = page_index page % (block_size order * 2) == 0

unfoldable pub buddy_of : ℕ → ℕ → Op ℕ
buddy_of page order =
    if buddy_on_right page order then page_at (page_index page + block_size order) else do
      assert_that (leb (block_size order) (page_index page))
      page_at (page_index page - block_size order)

-- `page` and its free `buddy` become one chunk, headed by `lhs`, on the next higher list.
unfoldable pub merge_once : ℕ → ℕ → ℕ → Op (Unit {0})
merge_once page buddy lhs = do
  on_links (list_del (pp_node buddy))
  on_links (list_del (pp_node page))
  set_pp_free (if buddy == lhs then page else buddy) false
  order ← get (λ s. s.pp_order lhs)
  set_pp_order lhs ((order + 1) % 128)
  higher ← get (λ s. s.pp_order lhs)
  on_links (list_add (free_list higher) (pp_node lhs))

-- `none` is NULL.
unfoldable pub buddy_merge : ℕ → ℕ → Op (Option ℕ)
buddy_merge zero page = panic
buddy_merge (suc fuel) page = do
  order ← get (λ s. s.pp_order page)
  if order == buddy_max_order - 1 then pure none else do
    empty ← on_links (list_is_empty (free_list order))
    if empty then pure (some page) else do
      buddy ← buddy_of page order
      page_free ← get (λ s. s.pp_free page)
      buddy_free ← get (λ s. s.pp_free buddy)
      buddy_order ← get (λ s. s.pp_order buddy)
      let lhs = if buddy_on_right page order then page else buddy
      if not (page_free && buddy_free && order == buddy_order)
          then pure (some page)
          else do merge_once page buddy lhs; merged ← buddy_merge fuel lhs; pure none

-- The loop of `buddy_find` over the orders above the requested one; the first number is the rounds
-- that are left.
unfoldable pub find_loop : ℕ → ℕ → ℕ → Op (Option ℕ)
find_loop zero order req_order = pure none
find_loop (suc rounds) order req_order = do
  empty ← on_links (list_is_empty (free_list order))
  if empty then find_loop rounds (order + 1) req_order else do
    page ← on_links (list_pop (free_list order))
    found ← buddy_split buddy_max_order (page_from page) req_order
    pure (some found)

unfoldable pub pop_page : ℕ → Op (Option ℕ)
pop_page order = do page ← on_links (list_pop (free_list order)); pure (some (page_from page))

unfoldable pub buddy_find : ℕ → Op (Option ℕ)
unfolding find_loop pop_page
buddy_find req_order = do
  empty ← on_links (list_is_empty (free_list req_order))
  if empty
      then find_loop (buddy_max_order - (req_order + 1)) (req_order + 1) req_order
      else pop_page req_order

-- `assert(page)`.
abbrev pub found_page : Option ℕ → Op ℕ
found_page none = panic
found_page (some page) = pure page

-- `alloc_flags & ALLOC_ZERO`.
abbrev pub alloc_zero : ℕ → Bool
alloc_zero alloc_flags = alloc_flags % 2 == 1

-- What `page_alloc` does with the page that it found. Locks are left out: the operations run one
-- after the other.
unfoldable pub take_page : ℕ → ℕ → Op ℕ
take_page alloc_flags page = do
  is_free ← get (λ s. s.pp_free page)
  assert_that is_free
  addr ← page2kva page
  zeroed ← get (λ s. s.pp_zero page)
  if alloc_zero alloc_flags && not zeroed then write_zeros addr page_size else pure tt
  set_pp_free page false
  on_links (list_del (pp_node page))
  pure page

unfoldable pub page_alloc : ℕ → Op ℕ
page_alloc alloc_flags = do
  found ← buddy_find 0
  page ← found_page found
  take_page alloc_flags page

-- kernel/dev/swap_util.c.
unfoldable pub remove_swap_page : ℕ → Op (Unit {0})
remove_swap_page page = do
  empty ← on_links (list_is_empty (swap_node page))
  if not empty then on_links (list_del (swap_node page)) else pure tt

-- What `page_free` does with the page that no merge has put on a list.
unfoldable pub give_page : Option ℕ → Op (Unit {0})
give_page none = pure tt
give_page (some pp) = do
  order ← get (λ s. s.pp_order pp)
  on_links (list_add (free_list order) (pp_node pp))
  set_pp_zero pp false
  on_links (list_add zero_list (pp_zero_node pp))

unfoldable pub page_free : ℕ → Op (Unit {0})
page_free pp = do
  ref ← get (λ s. s.pp_ref pp)
  assert_that (ref == 0)
  remove_swap_page pp
  set_pp_free pp true
  order ← get (λ s. s.pp_order pp)
  rest ← if order == buddy_max_order - 1 then pure (some pp) else buddy_merge buddy_max_order pp
  give_page rest

-- `pp_ref` is a uint16_t.
unfoldable pub page_decref : ℕ → Op (Unit {0})
page_decref pp = do
  ref ← get (λ s. s.pp_ref pp)
  set_pp_ref pp ((ref + 65535) % 65536)
  left ← get (λ s. s.pp_ref pp)
  if left == 0 then page_free pp else pure tt
