-- ===== src/Buddy/State.antt =====
-- The state of kernel/mem/buddy.c: the array `pages` of struct page_info (include/paging.h), its
-- length, the list nodes and the memory behind the pages. A struct page_info pointer is the page's
-- index. Panics, failed assertions and accesses outside the array end in `none`.
use advanced_operating_syste.Prelude.{
  arith, false, true, ◌≡◌, ◌≢◌, Bool, Option, if◌then◌else◌, leb, ltb, none, some, ℕ, ◌*◌, ◌+◌, ◌-◌,
  ◌/◌, ◌==◌,
}
use advanced_operating_syste.LinkedList.Store.{Links, M}
use advanced_operating_syste.Str.Memory.{Memory}
use advanced_operating_syste.Str.Move.{memset}

pub record Pages : Type 0 where
  pub links : Links
  pub npages : ℕ
  pub pp_ref : ℕ → ℕ
  pub pp_order : ℕ → ℕ
  pub pp_free : ℕ → Bool
  pub pp_zero : ℕ → Bool
  pub memory : Memory

-- Where the list nodes stand: the heads buddy_free_list[order], zero_list and swap.pages, and the
-- three nodes of each page.
abbrev pub free_list : ℕ → ℕ
free_list order = 1 + order

abbrev pub zero_list : ℕ
zero_list = 11

abbrev pub swap_pages : ℕ
swap_pages = 12

abbrev pub pp_node : ℕ → ℕ
pp_node page = 16 + 3 * page

abbrev pub swap_node : ℕ → ℕ
swap_node page = 17 + 3 * page

abbrev pub pp_zero_node : ℕ → ℕ
pp_zero_node page = 18 + 3 * page

-- The cast of a `pp_node` back to its page: the node is the first field.
abbrev pub page_from : ℕ → ℕ
page_from node = (node - 16) / 3

abbrev pub buddy_max_order : ℕ
buddy_max_order = 10

abbrev pub page_size : ℕ
page_size = 4096

abbrev pub kernel_vma : ℕ
kernel_vma = 0xffff800000000000

abbrev pub page2pa : ℕ → ℕ
page2pa page = page * page_size

-- PAGE_INDEX(page2pa(page)).
abbrev pub page_index : ℕ → ℕ
page_index page = page2pa page / page_size

abbrev pub Op : Type 0 → Type 0
Op A = Pages → Option (A × Pages)

abbrev pub pure : {A : Type 0} → A → Op A
pure a s = some (a, s)

abbrev pub panic : {A : Type 0} → Op A
panic s = none

abbrev pub and_then : {A B : Type 0} → Option (A × Pages) → (A → Op B) → Option (B × Pages)
and_then none f = none
and_then (some (a, s)) f = f a s

infixl 5 ◌>>=◌ ◌>>◌
abbrev pub ◌>>=◌ : {A B : Type 0} → Op A → (A → Op B) → Op B
m >>= f = λ s. and_then (m s) f

abbrev pub ◌>>◌ : {B : Type 0} → Op (Unit {0}) → Op B → Op B
m >> k = m >>= λ _. k

-- The result of an operation on the list nodes, put back into the state.
abbrev pub with_links : {A : Type 0} → Pages → Option (A × Links) → Option (A × Pages)
with_links s none = none
with_links s (some (a, h)) = some (a, record s { links = h })

abbrev pub on_links : {A : Type 0} → M A → Op A
on_links m s = with_links s (m s.links)

abbrev pub get : {A : Type 0} → (Pages → A) → Op A
get f s = some (f s, s)

abbrev pub assert_that : Bool → Op (Unit {0})
assert_that b s = if b then some (tt, s) else none

abbrev pub update {ℓ} : {A : Type ℓ} → (ℕ → A) → ℕ → A → ℕ → A
update f p v q = if p == q then v else f q

pub update_self {ℓ} : {A : Type ℓ} (f : ℕ → A) (p : ℕ) (v : A) → update f p v p ≡ v
update_self f p v = let e : (p == p) ≡ true = ground arith in rw e

pub update_ne {ℓ} : {A : Type ℓ} (f : ℕ → A) (p : ℕ) (v : A) (q : ℕ) → p ≢ q → update f p v q ≡ f q
update_ne f p v q n = let e : (p == q) ≡ false = ground arith in rw e

abbrev pub set_pp_ref : ℕ → ℕ → Op (Unit {0})
set_pp_ref p v s = some (tt, record s { pp_ref = update s.pp_ref p v })

abbrev pub set_pp_order : ℕ → ℕ → Op (Unit {0})
set_pp_order p v s = some (tt, record s { pp_order = update s.pp_order p v })

abbrev pub set_pp_free : ℕ → Bool → Op (Unit {0})
set_pp_free p v s = some (tt, record s { pp_free = update s.pp_free p v })

abbrev pub set_pp_zero : ℕ → Bool → Op (Unit {0})
set_pp_zero p v s = some (tt, record s { pp_zero = update s.pp_zero p v })

abbrev pub write_zeros : ℕ → ℕ → Op (Unit {0})
write_zeros addr n s = some (tt, record s { memory = memset addr 0 n s.memory })

-- `&pages[index]`.
abbrev pub page_at : ℕ → Op ℕ
page_at index s = if ltb index s.npages then some (index, s) else none

-- KADDR(page2pa(page)), which panics behind the last page.
abbrev pub page2kva : ℕ → Op ℕ
page2kva page s =
    if leb s.npages (page_index page) then none else some (page2pa page + kernel_vma, s)
