-- ===== src/Slab/State.antt =====
-- The state of kernel/mem/slab.c and kernel/mem/kmem.c: the fields of the structs of
-- include/kernel/mem/slab.h by address, and the list nodes. A list node stands at the address of its
-- field. The pages come from an allocator that the slabs use by its functions only.
use advanced_operating_syste.LinkedList.Store.{Links, M}
use advanced_operating_syste.Prelude.{ℕ, Bool, Option, none, some, ◌+◌, if◌then◌else◌}
use advanced_operating_syste.Buddy.State.{update}

-- What the slabs ask of the memory behind them: page_alloc, page->pp_ref, page2kva, page_lookup in the
-- table kernel_pml4 without an entry store, page_free and memset with zeros. NULL is `none` inside.
pub record PageOps (St : Type 0) : Type 0 where
  pub page_alloc : ℕ → St → Option (Option ℕ × St)
  pub pp_ref : ℕ → St → Option (ℕ × St)
  pub page2kva : ℕ → St → Option (ℕ × St)
  pub kernel_pml4 : ℕ
  pub page_lookup : ℕ → ℕ → St → Option (Option ℕ × St)
  pub page_free : ℕ → St → Option (Unit {0} × St)
  pub clear : ℕ → ℕ → St → St

pub record Slabs (St : Type 0) : Type 0 where
  pub pages : St
  pub links : Links
  pub slabs : ℕ
  pub nslabs : ℕ
  pub info_off : ℕ → ℕ
  pub obj_size : ℕ → ℕ
  pub count : ℕ → ℕ
  pub slab_of : ℕ → ℕ
  pub free_count : ℕ → ℕ
  pub info_of : ℕ → ℕ

-- `&slab->partial` and `&slab->full`; `&info->node` and `&info->free_list`. `&obj->node` is `obj`.
abbrev pub partial : ℕ → ℕ
partial slab = slab

abbrev pub full : ℕ → ℕ
full slab = slab + 16

abbrev pub info_node : ℕ → ℕ
info_node info = info + 8

abbrev pub objects : ℕ → ℕ
objects info = info + 24

-- The sizes of struct slab, struct slab_info and struct slab_obj.
abbrev pub slab_size : ℕ
slab_size = 56

abbrev pub info_size : ℕ
info_size = 48

abbrev pub obj_header : ℕ
obj_header = 24

abbrev pub Op : Type 0 → Type 0 → Type 0
Op St A = Slabs St → Option (A × Slabs St)

abbrev pub pure : {St A : Type 0} → A → Op St A
pure a s = some (a, s)

abbrev pub panic : {St A : Type 0} → Op St A
panic s = none

abbrev pub and_then :
    {St A B : Type 0} → Option (A × Slabs St) → (A → Op St B) → Option (B × Slabs St)
and_then none f = none
and_then (some (a, s)) f = f a s

infixl 5 ◌>>=◌ ◌>>◌
abbrev pub ◌>>=◌ : {St A B : Type 0} → Op St A → (A → Op St B) → Op St B
m >>= f = λ s. and_then (m s) f

abbrev pub ◌>>◌ : {St B : Type 0} → Op St (Unit {0}) → Op St B → Op St B
m >> k = m >>= λ _. k

abbrev pub with_links : {St A : Type 0} → Slabs St → Option (A × Links) → Option (A × Slabs St)
with_links s none = none
with_links s (some (a, h)) = some (a, record s { links = h })

abbrev pub on_links : {St A : Type 0} → M A → Op St A
on_links m s = with_links s (m s.links)

abbrev pub with_pages : {St A : Type 0} → Slabs St → Option (A × St) → Option (A × Slabs St)
with_pages s none = none
with_pages s (some (a, t)) = some (a, record s { pages = t })

abbrev pub on_pages : {St A : Type 0} → (St → Option (A × St)) → Op St A
on_pages m s = with_pages s (m s.pages)

abbrev pub set_pages : {St : Type 0} → (St → St) → Op St (Unit {0})
set_pages f s = some (tt, record s { pages = f s.pages })

abbrev pub get : {St A : Type 0} → (Slabs St → A) → Op St A
get f s = some (f s, s)

abbrev pub assert_that : {St : Type 0} → Bool → Op St (Unit {0})
assert_that b s = if b then some (tt, s) else none

abbrev pub set_slab_of : {St : Type 0} → ℕ → ℕ → Op St (Unit {0})
set_slab_of info v s = some (tt, record s { slab_of = update s.slab_of info v })

abbrev pub set_free_count : {St : Type 0} → ℕ → ℕ → Op St (Unit {0})
set_free_count info v s = some (tt, record s { free_count = update s.free_count info v })

abbrev pub set_info_of : {St : Type 0} → ℕ → ℕ → Op St (Unit {0})
set_info_of obj v s = some (tt, record s { info_of = update s.info_of obj v })

abbrev pub set_sizes : {St : Type 0} → ℕ → ℕ → ℕ → ℕ → Op St (Unit {0})
set_sizes slab size count off s = some (
  tt,
  record s {
    obj_size = update s.obj_size slab size;
    count = update s.count slab count;
    info_off = update s.info_off slab off;
  },
)

abbrev pub set_nslabs : {St : Type 0} → ℕ → Op St (Unit {0})
set_nslabs n s = some (tt, record s { nslabs = n })
