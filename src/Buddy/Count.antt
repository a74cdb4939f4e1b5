-- ===== src/Buddy/Count.antt =====
-- count_free_pages and count_total_free_pages of kernel/mem/buddy.c.
use advanced_operating_syste.Prelude.{
  List, Option, [], ap, arith, false, if◌then◌else◌, leb, length, none, refl, some, suc, zero, ℕ,
  ◌%◌, ◌*◌, ◌+◌, ◌<◌, ◌^◌, ◌∷◌, ◌≡◌, ◌≤◌,
}
use advanced_operating_syste.LinkedList.{list_foreach}
use advanced_operating_syste.Buddy.Invariant.{
  chunks, span, free_in, pow_two_pos, pages_below, IsBuddy, free_pages,
}
use advanced_operating_syste.Buddy.State.{free_list, buddy_max_order, Pages}
use advanced_operating_syste.LinkedList.Walk.{list_foreach-IsRing}
use advanced_operating_syste.Buddy.Rings.{Rings, nodes}
use mathlib.Core.Option

-- One `++nfree_pages` for each node; `size_t` has 64 bits.
unfoldable count_nodes : List ℕ → ℕ
count_nodes [] = 0
count_nodes (x ∷ xs) = (count_nodes xs + 1) % 2 ^ 64

-- The fuel bounds the walk over the list.
unfoldable count_free_pages : ℕ → ℕ → Pages → Option ℕ
unfolding count_nodes
count_free_pages fuel order s =
    if leb buddy_max_order order
    then some 0
    else Option.map count_nodes
        (list_foreach fuel (free_list order) (s.links.next (free_list order)) s.links)

-- What is added to `nfree` for one order.
abbrev add_pages : ℕ → Option ℕ → Option ℕ → Option ℕ
add_pages order none nfree_pages = none
add_pages order (some nfree) none = none
add_pages order (some nfree) (some nfree_pages) = some ((nfree + nfree_pages * 2 ^ order) % 2 ^ 64)

-- The loop over the orders below the first number.
unfoldable total_below : ℕ → ℕ → Pages → Option ℕ
total_below zero fuel s = some 0
total_below (suc order) fuel s =
    add_pages order (total_below order fuel s) (count_free_pages fuel order s)

unfoldable pub count_total_free_pages : ℕ → Pages → Option ℕ
unfolding total_below count_free_pages
count_total_free_pages fuel s = total_below buddy_max_order fuel s

length-nodes : (xs : List ℕ) → length (nodes xs) ≡ length xs
length-nodes [] = refl
length-nodes (x ∷ xs) = ap suc (length-nodes xs)

mul_le : (a b : ℕ) → 0 < b → a ≤ a * b
mul_le a b h = grind arith

chunks-none : (k : ℕ) (xs : List ℕ) → chunks k xs none ≡ length xs * 2 ^ k
unfolding span
chunks-none k [] = grind arith
chunks-none k (x ∷ xs) = rw (chunks-none k xs) (grind arith)

count_nodes-length : (xs : List ℕ) → length xs < 2 ^ 64 → count_nodes xs ≡ length xs
unfolding count_nodes
count_nodes-length [] h = refl
count_nodes-length (x ∷ xs) h =
    let rest : count_nodes xs ≡ length xs = count_nodes-length xs (omega arith) in
    rw rest (omega (arith, h))

module _ (s : Pages) (lists : ℕ → List ℕ) (fuel : ℕ) (r : Rings s.links lists)
    (enough : (k : ℕ) → k < 10 → length (lists k) < fuel) where
  count_free_pages-length :
      (k : ℕ)
      → k < 10
      → length (lists k) < 2 ^ 64
      → count_free_pages fuel k s ≡ some (length (lists k))
  unfolding count_free_pages
  count_free_pages-length k b h =
      let below : leb 10 k ≡ false = ground arith in
      let same : length (nodes (lists k)) ≡ length (lists k) = length-nodes (lists k) in
      let walked =
        list_foreach-IsRing s.links (free_list k) (nodes (lists k)) fuel (r.ring k b)
          (omega (arith, same, enough k b)) in
      rw (below, walked, count_nodes-length (nodes (lists k)) (omega (arith, same, h)), same) refl

  total_below-pages_below :
      (n : ℕ)
      → n ≤ 10
      → pages_below n lists none < 2 ^ 64
      → total_below n fuel s ≡ some (pages_below n lists none)
  unfolding total_below pages_below
  total_below-pages_below zero b h = refl
  total_below-pages_below (suc n) b h =
      let room : length (lists n) ≤ length (lists n) * 2 ^ n =
        mul_le (length (lists n)) (2 ^ n) (pow_two_pos n) in
      let all = chunks-none n (lists n) in
      let small : (pages_below n lists none + length (lists n) * 2 ^ n) % 2 ^ 64
          ≡ pages_below n lists none + length (lists n) * 2 ^ n =
        omega (arith, h, all) in
      rw
        (
          all,
          total_below-pages_below n (omega arith) (omega (arith, h)),
          count_free_pages-length n (omega arith) (omega (arith, h, room, all)),
          small,
        )
        refl

-- With lists that are in order and shorter than the fuel, `count_total_free_pages` ends with the
-- number of free pages, if a `size_t` can hold it.
pub count_total_free_pages-free_pages :
    (s : Pages) (lists : ℕ → List ℕ) (fuel : ℕ)
    → IsBuddy s lists
    → ((k : ℕ) → k < 10 → length (lists k) < fuel)
    → free_pages lists < 2 ^ 64
    → count_total_free_pages fuel s ≡ some (free_pages lists)
unfolding count_total_free_pages free_in
count_total_free_pages-free_pages s lists fuel v enough h =
    total_below-pages_below s lists fuel v.lists_in_order.rings enough 10 (omega arith) h
