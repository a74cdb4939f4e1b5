-- ===== src/Vma.antt =====
-- kernel/vma/find.c and the descent of insert_vma of kernel/vma/insert.c: the search tree of virtual
-- memory areas. A struct vma and the rb_node inside it are one number, as container_of goes from the
-- one to the other; 0 is NULL.
pub mod Tree
pub mod Find
pub mod Owner
pub mod Place
pub mod Order
pub mod Insert
pub mod Space
pub mod Sorted
pub mod Descent
pub mod Hang
pub mod Enlist
pub mod Whole
mod SpaceTests
mod Tests
use advanced_operating_syste.LinkedList.Store.{null}
use advanced_operating_syste.Prelude.{
  Bool, Option, false, if◌then◌else◌, leb, ltb, none, not, some, suc, true, zero, ℕ, ◌&&◌, ◌==◌,
}

-- What the tree code reads of the nodes. The direction is RB_RIGHT for true.
pub record Areas : Type 0 where
  pub vm_base : ℕ → ℕ
  pub vm_end : ℕ → ℕ
  pub child : Bool → ℕ → ℕ

-- The loop of `find_vma`, with the variables `node`, `parent`, `vma` and `dir`; the fuel bounds the
-- depth of the descent. The result is `vma`, `parent` and `dir`.
unfoldable pub find_vma_loop : ℕ → Areas → ℕ → ℕ → ℕ → ℕ → Bool → Option (ℕ × ℕ × Bool)
find_vma_loop zero s addr node parent vma dir = none
find_vma_loop (suc fuel) s addr node parent vma dir =
    let right = leb (s.vm_end node) addr in
    let found = if right then vma else node in
    let rest = find_vma_loop fuel s addr (s.child right node) node found right in
    if node == null
    then some (vma, parent, dir)
    else if not right && leb (s.vm_base node) addr
    then some (node, node, false)
    else rest

unfoldable pub find_vma : ℕ → Areas → ℕ → ℕ → Option (ℕ × ℕ × Bool)
unfolding find_vma_loop
find_vma fuel s root addr = find_vma_loop fuel s addr root null null false

-- `!vma || addr < vma->vm_base`.
abbrev pub inside_or_null : Areas → ℕ → Option (ℕ × ℕ × Bool) → Option ℕ
inside_or_null s addr none = none
inside_or_null s addr (some (vma, parent, dir)) =
    some (if vma == null then null else if ltb addr (s.vm_base vma) then null else vma)

unfoldable pub task_find_vma : ℕ → Areas → ℕ → ℕ → Option ℕ
unfolding find_vma
task_find_vma fuel s root addr = inside_or_null s addr (find_vma fuel s root addr)

-- The loop of `insert_vma`: where an area from `base` to `end` goes, `none` for an overlap.
unfoldable pub find_place : ℕ → Areas → ℕ → ℕ → ℕ → ℕ → Bool → Option (Option (ℕ × Bool))
find_place zero s base end node parent dir = none
find_place (suc fuel) s base end node parent dir =
    let right = leb (s.vm_end node) base in
    let rest = find_place fuel s base end (s.child right node) node right in
    if node == null
    then some (some (parent, dir))
    else if not right && ltb (s.vm_base node) end
    then some none
    else rest

abbrev same_dir : Bool → Bool → Bool
same_dir true dir = dir
same_dir false dir = not dir

-- `parent->child[dir] = &vma->vm_rb`; the new node has no children, as rb_node_init left it.
abbrev pub set_child : Areas → ℕ → Bool → ℕ → Areas
set_child s parent dir node = record s {
  child = λ d p. if p == parent && same_dir d dir then node else s.child d p;
}

-- The part of `insert_vma` before rb_balance: the new root and the linked nodes, `none` for -1.
abbrev pub link_area : Areas → ℕ → ℕ → Option (Option (ℕ × Bool)) → Option (Option (ℕ × Areas))
link_area s root vma none = none
link_area s root vma (some none) = some none
link_area s root vma (some (some (parent, dir))) =
    some (some (if parent == null then (vma, s) else (root, set_child s parent dir vma)))

unfoldable pub insert_area : ℕ → Areas → ℕ → ℕ → Option (Option (ℕ × Areas))
unfolding find_place
insert_area fuel s root vma =
    link_area s root vma (find_place fuel s (s.vm_base vma) (s.vm_end vma) root null false)
