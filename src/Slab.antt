-- ===== src/Slab.antt =====
-- kernel/mem/slab.c and kernel/mem/kmem.c, function by function: objects of a few sizes, cut from pages.
pub mod State
pub mod Trio
pub mod Take
pub mod Held
pub mod Free
pub mod Pages
mod Tests
use advanced_operating_syste.Slab.State.{
  full, set_free_count, info_node, info_size, obj_header, objects, partial, set_info_of, set_nslabs,
  set_sizes, set_slab_of, slab_size, Op, pure, panic, and_then, ◌>>=◌, ◌>>◌, on_links, on_pages,
  get, set_pages, assert_that, PageOps, Slabs,
}
use advanced_operating_syste.Prelude.{
  count, ◌^◌, ℕ, zero, suc, Bool, true, false, Option, none, some, ◌==◌, ◌+◌, ◌-◌, ◌*◌, ◌/◌, ◌%◌,
  if◌then◌else◌, leb,
}
use advanced_operating_syste.Prelude.Int.{pos, negsuc, ℤ}
use advanced_operating_syste.LinkedList.Store.{null, next}
use advanced_operating_syste.LinkedList.{list_init, list_add, list_del, list_is_empty}
use advanced_operating_syste.Paging.State.{round_up}
use advanced_operating_syste.Buddy.State.{page_size}

abbrev pub slab_align : ℕ
slab_align = 32

-- ALLOC_ZERO.
abbrev alloc_zero_flag : ℕ
alloc_zero_flag = 1

-- The sizes for objects of `obj_size` bytes: the size with its header, and how many fit a page.
abbrev pub full_size : ℕ → ℕ
full_size obj_size = round_up ((obj_size + obj_header) % 2 ^ 64) 32

abbrev pub objects_per_page : ℕ → ℕ
objects_per_page size = (page_size - info_size) / size

unfoldable pub slab_setup : {St : Type 0} → ℕ → ℕ → Op St (Unit {0})
slab_setup slab obj_size = do
  let size = full_size obj_size
  set_sizes slab size (objects_per_page size) (size * objects_per_page size)
  on_links (list_init (full slab))
  on_links (list_init (partial slab))

-- The loop of slab_alloc_chunk from the object `i` on; the first number is the rounds left.
unfoldable pub add_objects : {St : Type 0} → ℕ → ℕ → ℕ → ℕ → ℕ → Op St (Unit {0})
add_objects zero slab info va i = pure tt
add_objects (suc rounds) slab info va i = do
  size ← get (λ s. s.obj_size slab)
  on_links (list_init (va + i * size))
  set_info_of (va + i * size) info
  on_links (list_add (objects info) (va + i * size))
  n ← get (λ s. s.free_count info)
  set_free_count info ((n + 1) % 2 ^ 64)
  add_objects rounds slab info va (i + 1)

-- `--info->free_count`.
abbrev pub decremented : ℕ → ℕ
decremented n = (n + (2 ^ 64 - 1)) % 2 ^ 64

-- slab_alloc behind its first `if`.
unfoldable pub take_object : {St : Type 0} → ℕ → Op St ℕ
take_object slab = do
  first ← on_links (next (partial slab))
  let info = first - 8
  obj ← on_links (next (objects info))
  on_links (list_del obj)
  n ← get (λ s. s.free_count info)
  set_free_count info (decremented n)
  empty ← on_links (list_is_empty (objects info))
  if empty
      then (do
        on_links (list_del (info_node info))
        on_links (list_add (full slab) (info_node info))
        pure (obj + obj_header))
      else pure (obj + obj_header)

-- `slab->obj_size - sizeof *obj`.
abbrev pub object_room : ℕ → ℕ
object_room size = (size + (2 ^ 64 - obj_header)) % 2 ^ 64

-- The first `if` on the lists of slab_free.
unfoldable pub make_partial : {St : Type 0} → ℕ → ℕ → Op St (Unit {0})
make_partial slab info = do
  empty ← on_links (list_is_empty (objects info))
  if empty
      then (do
        on_links (list_del (info_node info))
        on_links (list_add (partial slab) (info_node info)))
      else pure tt

module _ {St : Type 0} (os : PageOps St) where
  -- slab_alloc_chunk with its page.
  unfoldable pub cut_page : ℕ → ℕ → Op St ℤ
  unfolding add_objects
  cut_page slab page = do
    ref ← on_pages (os.pp_ref page)
    assert_that (ref == 0)
    va ← on_pages (os.page2kva page)
    off ← get (λ s. s.info_off slab)
    let info = va + off
    set_slab_of info slab
    on_links (list_init (info_node info))
    on_links (list_add (partial slab) (info_node info))
    on_links (list_init (objects info))
    set_free_count info 0
    count ← get (λ s. s.count slab)
    add_objects count slab info va 0
    n ← get (λ s. s.free_count info)
    assert_that (n == count)
    pure (pos 0)

  unfoldable pub slab_alloc_chunk : ℕ → Op St ℤ
  unfolding cut_page
  slab_alloc_chunk slab = do
    page ← on_pages (os.page_alloc alloc_zero_flag)
    elim page [ none ↦ pure (negsuc 0) | some page ↦ cut_page slab page ]

  unfoldable pub slab_free_chunk : ℕ → ℕ → Op St (Unit {0})
  slab_free_chunk slab info = do
    on_links (list_del (info_node info))
    off ← get (λ s. s.info_off slab)
    page ← on_pages (os.page_lookup os.kernel_pml4 (info - off))
    elim page [ none ↦ panic | some page ↦ on_pages (os.page_free page) ]

  -- `list_is_empty(&slab->partial) && slab_alloc_chunk(slab) < 0`.
  unfoldable pub refill_fails : ℕ → Op St Bool
  unfolding slab_alloc_chunk
  refill_fails slab = do
    empty ← on_links (list_is_empty (partial slab))
    if empty
        then (do ret ← slab_alloc_chunk slab; pure (elim ret [ pos n ↦ false | negsuc n ↦ true ]))
        else pure false

  unfoldable pub slab_alloc : ℕ → Op St ℕ
  unfolding refill_fails take_object
  slab_alloc slab = do failed ← refill_fails slab; if failed then pure null else take_object slab

  unfoldable pub slab_free : ℕ → Op St (Unit {0})
  unfolding make_partial slab_free_chunk
  slab_free p = do
    info ← get (λ s. s.info_of (p - obj_header))
    slab ← get (λ s. s.slab_of info)
    size ← get (λ s. s.obj_size slab)
    set_pages (os.clear p (object_room size))
    make_partial slab info
    on_links (list_add (objects info) (p - obj_header))
    n ← get (λ s. s.free_count info)
    set_free_count info ((n + 1) % 2 ^ 64)
    now ← get (λ s. s.free_count info)
    count ← get (λ s. s.count slab)
    if leb count now then slab_free_chunk slab info else pure tt

  unfoldable pub kmalloc : ℕ → Op St ℕ
  unfolding slab_alloc
  kmalloc size = if size == 0 then pure null else do
    let index = decremented (round_up size slab_align / slab_align)
    n ← get (λ s. s.nslabs)
    base ← get (λ s. s.slabs)
    if leb n index then pure null else slab_alloc (base + slab_size * index)

  unfoldable pub kfree : ℕ → Op St (Unit {0})
  unfolding slab_free
  kfree p = slab_free p

-- The loop of kmem_init; the first number is the rounds left.
unfoldable pub setup_slabs : {St : Type 0} → ℕ → ℕ → Op St (Unit {0})
unfolding slab_setup
setup_slabs zero i = pure tt
setup_slabs (suc rounds) i = do
  base ← get (λ s. s.slabs)
  slab_setup (base + slab_size * i) ((i + 1) * slab_align)
  setup_slabs rounds (i + 1)

unfoldable pub kmem_init : {St : Type 0} → Op St ℤ
unfolding setup_slabs
kmem_init = do set_nslabs 32; setup_slabs 32 0; pure (pos 0)

unfoldable pub kmem_init_mp : {St : Type 0} → Op St ℤ
unfolding kmem_init
kmem_init_mp = kmem_init
