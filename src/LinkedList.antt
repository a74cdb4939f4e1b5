-- ===== src/LinkedList.antt =====
-- lib/list.c and include/list.h: the circular doubly linked list that every kernel queue, free list
-- and page list is built from, function by function.
pub mod Store
pub mod Chain
pub mod Insert
pub mod Delete
pub mod Walk
mod Tests
use mathlib.Core.Option
use advanced_operating_syste.Prelude.{
  ℕ, zero, suc, Bool, Option, none, some, List, [], ◌∷◌, ◌==◌, if◌then◌else◌,
}
use Store.{Links, M, null, pure, ◌>>=◌, ◌>>◌, next, prev, set_next, set_prev, assert_ptr}

unfoldable pub list_init : ℕ → M (Unit {0})
list_init head = do set_next head head; set_prev head head

unfoldable pub list_insert_after : ℕ → ℕ → M (Unit {0})
list_insert_after after new = do
  set_prev new after
  a ← next after
  set_next new a
  b ← next after
  set_prev b new
  set_next after new

unfoldable pub list_insert_before : ℕ → ℕ → M (Unit {0})
list_insert_before before new = do
  set_next new before
  a ← prev before
  set_prev new a
  b ← prev before
  set_next b new
  set_prev before new

unfoldable pub list_del : ℕ → M (Unit {0})
list_del node = do
  a ← next node
  assert_ptr a
  b ← prev node
  assert_ptr b
  p ← prev node
  n ← next node
  set_next p n
  n' ← next node
  p' ← prev node
  set_prev n' p'
  set_next node node
  set_prev node node

unfoldable pub list_add : ℕ → ℕ → M (Unit {0})
unfolding list_insert_after
list_add head new = list_insert_after head new

unfoldable pub list_add_tail : ℕ → ℕ → M (Unit {0})
unfolding list_insert_before
list_add_tail head new = list_insert_before head new

unfoldable pub list_pop : ℕ → M ℕ
list_pop head = do
  p ← prev head
  if p == head then pure null else do node ← prev head; list_del node; pure node

unfoldable pub list_pop_tail : ℕ → M ℕ
list_pop_tail head = do
  n ← next head
  if n == head then pure null else do node ← next head; list_del node; pure node

unfoldable pub list_is_empty : ℕ → M Bool
list_is_empty head = do n ← next head; pure (n == head)

unfoldable pub list_head : ℕ → M ℕ
list_head head = do n ← next head; pure (if n == head then null else n)

unfoldable pub list_tail : ℕ → M ℕ
list_tail head = do p ← prev head; pure (if p == head then null else p)

unfoldable pub list_next : ℕ → ℕ → M ℕ
list_next head node = do n ← next node; pure (if n == head then null else n)

unfoldable pub list_prev : ℕ → ℕ → M ℕ
list_prev head node = do p ← prev node; pure (if p == head then null else p)

-- The nodes that `list_foreach (head, node)` visits, from `node` on; the loop takes fuel.
unfoldable pub list_foreach : ℕ → ℕ → ℕ → Links → Option (List ℕ)
list_foreach zero head node h = none
list_foreach (suc fuel) head node h =
    let rest = list_foreach fuel head (h.next node) h in
    if node == head
    then some []
    else if node == null
    then none
    else Option.map (λ seen. node ∷ seen) rest

-- The same for `list_foreach_rev`.
unfoldable pub list_foreach_rev : ℕ → ℕ → ℕ → Links → Option (List ℕ)
list_foreach_rev zero head node h = none
list_foreach_rev (suc fuel) head node h =
    let rest = list_foreach_rev fuel head (h.prev node) h in
    if node == head
    then some []
    else if node == null
    then none
    else Option.map (λ seen. node ∷ seen) rest
