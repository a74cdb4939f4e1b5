-- ===== src/Vma/Space.antt =====
-- insert_vma of kernel/vma/insert.c as a whole: the areas of a task in the balanced tree task_rb and in the
-- sorted list task_mmap. A struct vma pointer is the address of its vm_rb.
use advanced_operating_syste.Buddy.State.{update}
use advanced_operating_syste.Prelude.{Bool, Option, false, if◌then◌else◌, none, some, ℕ, ◌+◌, ◌==◌}
use advanced_operating_syste.Prelude.Int.{pos, negsuc, ℤ}
use advanced_operating_syste.LinkedList.Store.{Links, null}
use advanced_operating_syste.LinkedList.{list_insert_after, list_insert_before}
use advanced_operating_syste.Rbtree.Store.{Nodes, update_child}
use advanced_operating_syste.Rbtree.{rb_balance}
use advanced_operating_syste.Vma.{Areas, find_place}

pub record Space : Type 0 where
  pub nodes : Nodes
  pub links : Links
  pub vm_base : ℕ → ℕ
  pub vm_end : ℕ → ℕ

-- `&vma->vm_mmap`, which comes after the 32 bytes of vm_rb.
abbrev pub vm_mmap : ℕ → ℕ
vm_mmap vma = vma + 32

-- What the descent reads.
abbrev pub areas : Space → Areas
areas s = record { vm_base = s.vm_base; vm_end = s.vm_end; child = s.nodes.child }

-- The new node as the root, or below its parent.
abbrev pub hung : Nodes → ℕ → ℕ → Bool → Nodes
hung s vma parent dir = if parent == null then record s { root = vma } else record s {
  child = update_child s.child dir parent vma;
  parent = update s.parent vma parent;
}

-- The sorted list, behind or before the parent.
abbrev pub insert_sorted : ℕ → ℕ → ℕ → Bool → Links → Option (Unit {0} × Links)
insert_sorted task_mmap vma parent dir =
    if parent == null
    then list_insert_after task_mmap (vm_mmap vma)
    else if dir
    then list_insert_after (vm_mmap parent) (vm_mmap vma)
    else list_insert_before (vm_mmap parent) (vm_mmap vma)

abbrev pub with_list : Space → Nodes → Option (Unit {0} × Links) → Option (ℤ × Space)
with_list s t none = none
with_list s t (some (done, h)) = some (pos 0, record s { nodes = t; links = h })

-- The end of insert_vma, with the answer of rb_balance.
abbrev pub add_sorted : ℕ → ℕ → ℕ → Bool → Space → Option (ℤ × Nodes) → Option (ℤ × Space)
add_sorted task_mmap vma parent dir s none = none
add_sorted task_mmap vma parent dir s (some (negsuc n, t)) = some (negsuc 0, record s { nodes = t })
add_sorted task_mmap vma parent dir s (some (pos n, t)) =
    with_list s t (insert_sorted task_mmap vma parent dir s.links)

abbrev pub add_at : ℕ → ℕ → ℕ → Space → Option (Option (ℕ × Bool)) → Option (ℤ × Space)
add_at fuel task_mmap vma s none = none
add_at fuel task_mmap vma s (some none) = some (negsuc 0, s)
add_at fuel task_mmap vma s (some (some (parent, dir))) =
    add_sorted task_mmap vma parent dir s (rb_balance fuel vma (hung s.nodes vma parent dir))

-- Fuel bounds the depth of the tree.
unfoldable pub insert_vma : ℕ → ℕ → ℕ → Space → Option (ℤ × Space)
unfolding find_place rb_balance list_insert_after list_insert_before
insert_vma fuel task_mmap vma s =
    add_at fuel task_mmap vma s
      (find_place fuel (areas s) (s.vm_base vma) (s.vm_end vma) s.nodes.root null false)
