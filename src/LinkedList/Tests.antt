-- ===== src/LinkedList/Tests.antt =====
-- Runs of lib/list.c on small lists, and its theorems at concrete lists.
use advanced_operating_syste.Prelude.{none}
use advanced_operating_syste.LinkedList.Store.{◌>>◌}
use advanced_operating_syste.LinkedList.Insert.{
  list_init-IsRing, list_add-IsRing, list_add_tail-IsRing, list_insert_after-IsRing,
  list_insert_before-IsRing, inserted_after, Inserts, IsFresh,
}
use advanced_operating_syste.LinkedList.Chain.{SameOutside, IsRing}
use advanced_operating_syste.LinkedList.Walk.{
  list_foreach-IsRing, list_foreach_rev-IsRing, list_next-IsRing,
}
use advanced_operating_syste.Prelude.{refl, arith, some, [], ℕ, ◌∷◌, ◌≡◌, Option}
use advanced_operating_syste.LinkedList.Delete.{
  list_del-IsRing, list_pop-IsRing, list_pop_tail-IsRing, Deletes,
}
use advanced_operating_syste.LinkedList.{
  list_add_tail, list_del, list_init, list_insert_after, list_insert_before, list_pop,
  list_pop_tail, list_add, list_foreach, list_foreach_rev, list_next,
}
use advanced_operating_syste.LinkedList.Store.{Links}

-- Nodes 1 (the head) and 2, 3, 4, all linked to themselves.
abbrev blank : Links
blank = record { next = λ p. p; prev = λ p. p }

fresh : Links
fresh = record { next = λ p. 0; prev = λ p. 0 }

blank-IsRing : IsRing blank 1 []
blank-IsRing = record { chain = (refl, refl); distinct = λ p. ground arith; nonnull = refl }

-- The ring 1 → 3 → 2.
abbrev two : Links
two = inserted_after 1 3 (inserted_after 1 2 blank)

two-IsRing : IsRing two 1 (3 ∷ 2 ∷ [])
two-IsRing = record {
  chain = (refl, refl, (refl, refl, (refl, refl)));
  distinct = λ p. ground arith;
  nonnull = refl;
}

four-IsFresh : IsFresh 4 1 (3 ∷ 2 ∷ [])
four-IsFresh = record { ne_null = omega arith; outside = refl }

-- Two adds, then a pop gives the node that was added first.
fifo : Option (ℕ × Links) → ℕ
fifo none = 0
fifo (some (a, h)) = a

fifo_run : fifo ((do list_add 1 2; list_add 1 3; list_pop 1) blank) ≡ 2
unfolding fifo list_add list_pop list_del
fifo_run = refl

list_init_example :
    (g : Links) × (list_init 1 fresh ≡ some (tt, g)) × IsRing g 1 [] × SameOutside (1 ∷ []) fresh g
list_init_example = list_init-IsRing fresh 1 (omega arith)

list_add_example : Inserts (list_add 1 4 two) two 1 4 (3 ∷ 2 ∷ []) (4 ∷ 3 ∷ 2 ∷ [])
list_add_example = list_add-IsRing two 1 4 (3 ∷ 2 ∷ []) two-IsRing four-IsFresh

list_add_tail_example : Inserts (list_add_tail 1 4 two) two 1 4 (3 ∷ 2 ∷ []) (3 ∷ 2 ∷ 4 ∷ [])
list_add_tail_example = list_add_tail-IsRing two 1 4 (3 ∷ 2 ∷ []) two-IsRing four-IsFresh

list_insert_after_example :
    Inserts (list_insert_after 3 4 two) two 1 4 (3 ∷ 2 ∷ []) (3 ∷ 4 ∷ 2 ∷ [])
list_insert_after_example = list_insert_after-IsRing two 1 3 4 [] (2 ∷ []) two-IsRing four-IsFresh

list_insert_before_example :
    Inserts (list_insert_before 2 4 two) two 1 4 (3 ∷ 2 ∷ []) (3 ∷ 4 ∷ 2 ∷ [])
list_insert_before_example = list_insert_before-IsRing two 1 2 4 (3 ∷ []) [] two-IsRing four-IsFresh

list_del_example : Deletes (list_del 3 two) tt two 1 3 (3 ∷ 2 ∷ []) (2 ∷ [])
list_del_example = list_del-IsRing two 1 3 [] (2 ∷ []) two-IsRing

list_pop_example : Deletes (list_pop 1 two) 2 two 1 2 (3 ∷ 2 ∷ []) (3 ∷ [])
list_pop_example = list_pop-IsRing two 1 2 (3 ∷ []) two-IsRing

list_pop_tail_example : Deletes (list_pop_tail 1 two) 3 two 1 3 (3 ∷ 2 ∷ []) (2 ∷ [])
list_pop_tail_example = list_pop_tail-IsRing two 1 3 (2 ∷ []) two-IsRing

list_foreach_example : list_foreach 3 1 (two.next 1) two ≡ some (3 ∷ 2 ∷ [])
list_foreach_example = list_foreach-IsRing two 1 (3 ∷ 2 ∷ []) 3 two-IsRing (omega arith)

list_foreach_rev_example : list_foreach_rev 3 1 (two.prev 1) two ≡ some (2 ∷ 3 ∷ [])
list_foreach_rev_example = list_foreach_rev-IsRing two 1 (3 ∷ 2 ∷ []) 3 two-IsRing (omega arith)

list_next_example : list_next 1 3 two ≡ some (2, two)
list_next_example = list_next-IsRing two 1 3 [] (2 ∷ []) two-IsRing
