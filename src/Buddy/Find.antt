-- ===== src/Buddy/Find.antt =====
-- buddy_find of kernel/mem/buddy.c.
use advanced_operating_syste.Buddy.Invariant.{free_in, IsBuddy}
use advanced_operating_syste.Prelude.{
  Bool-cases, false, true, ◌-◌, List, Option, [], ap, arith, count, count-append, inl, inr, none,
  one_if_self, refl, some, subst, suc, zero, ℕ, ◌++◌, ◌+◌, ◌<◌, ◌==◌, ◌∙◌, ◌∷◌, ◌≡◌, ◌≤◌, ◌⊎◌,
}
use mathlib.Core.List.{map-append}
use advanced_operating_syste.LinkedList.{list_pop, list_is_empty}
use advanced_operating_syste.LinkedList.Store.{Links, null}
use advanced_operating_syste.LinkedList.Chain.{IsRing}
use advanced_operating_syste.LinkedList.Delete.{list_pop-list_del}
use advanced_operating_syste.LinkedList.Walk.{list_head-IsRing, first}
use advanced_operating_syste.Buddy.{buddy_find, find_loop}
use advanced_operating_syste.Buddy.State.{Pages, free_list, pp_node, page_from}
use advanced_operating_syste.Buddy.Rings.{nodes}
use advanced_operating_syste.Buddy.Hold.{relinked, drop_listed, IsAvailable, off_list}
use advanced_operating_syste.Buddy.Split.{SameData, SameData-trans, buddy_split-Keeps}

-- A list that is not empty ends in a page.
last_page : (x : ℕ) (xs : List ℕ) → (ys : List ℕ) × (p : ℕ) × (x ∷ xs ≡ ys ++ p ∷ [])
last_page x [] = ([], x, refl)
last_page x (y ∷ xs) = let (ys, p, e) = last_page y xs in (x ∷ ys, p, ap (◌∷◌ x) e)

module _ (s : Pages) (lists : ℕ → List ℕ) (v : IsBuddy s lists) where
  is_empty_of :
      (k : ℕ)
      → k < 10
      → list_is_empty (free_list k) s.links ≡ some (first (nodes (lists k)) == null, s.links)
  is_empty_of k b =
      (list_head-IsRing s.links (free_list k) (nodes (lists k)) (v.lists_in_order.rings.ring k b)).0

  -- A pop of a list that is not empty takes a chunk of that order off it.
  pop-IsAvailable :
      (k x : ℕ) (xs : List ℕ)
      → k < 10
      → lists k ≡ x ∷ xs
      → (g : Links) × (p : ℕ) × (list_pop (free_list k) s.links ≡ some (pp_node p, g))
        × IsAvailable (relinked s g) p k (free_in lists)
        × SameData s (relinked s g)
  pop-IsAvailable k x xs b e =
      let (ys, p, last) = last_page x xs in
      let whole : lists k ≡ ys ++ p ∷ [] = e ∙ last in
      let listed : 0 < count p (lists k) =
        omega (arith, ap (count p) whole, count-append p ys (p ∷ []), one_if_self p) in
      let (g, new, ran, held, total, quiet) = drop_listed s lists p k v b listed in
      let path : nodes (lists k) ≡ nodes ys ++ pp_node p ∷ [] =
        ap nodes whole ∙ map-append pp_node ys (p ∷ []) in
      (
        g,
        p,
        list_pop-list_del s.links (free_list k) (pp_node p) (nodes ys) g
            (subst (IsRing s.links (free_list k)) path (v.lists_in_order.rings.ring k b)) ran,
        off_list new held total,
        record { npages = refl; pp_ref = refl; pp_zero = refl; memory = refl; quiet = quiet },
      )

-- What a search for a chunk of order `req` promises. Either the lists from `from` on are empty, and
-- it finds nothing and changes nothing; or it finds one, and no free page is lost.
abbrev pub Finds : Option (Option ℕ × Pages) → Pages → (ℕ → List ℕ) → ℕ → ℕ → Type 0
Finds run s lists from req =
    (((k : ℕ) → from ≤ k → k < 10 → lists k ≡ []) × (run ≡ some (none, s)))
    ⊎ ((p : ℕ) × (t : Pages) × (run ≡ some (some p, t))
        × IsAvailable t p req (free_in lists)
        × SameData s t)

page_from-pp_node : (p : ℕ) → page_from (pp_node p) ≡ p
page_from-pp_node p = omega arith

-- The test of a list, with what it holds in view.
empty_list :
    (s : Pages) (lists : ℕ → List ℕ) (k : ℕ)
    → IsBuddy s lists
    → k < 10
    → lists k ≡ []
    → list_is_empty (free_list k) s.links ≡ some (true, s.links)
empty_list s lists k v b e =
    is_empty_of s lists v k b ∙ ap (λ xs. some (first (nodes xs) == null, s.links)) e

nonempty_list :
    (s : Pages) (lists : ℕ → List ℕ) (k x : ℕ) (xs : List ℕ)
    → IsBuddy s lists
    → k < 10
    → lists k ≡ x ∷ xs
    → list_is_empty (free_list k) s.links ≡ some (false, s.links)
nonempty_list s lists k x xs v b e =
    let real : (pp_node x == null) ≡ false = ground arith in
    is_empty_of s lists v k b
    ∙ ap (λ ys. some (first (nodes ys) == null, s.links)) e
    ∙ ap (λ t. some (t, s.links)) real

module _ (s : Pages) (lists : ℕ → List ℕ) (v : IsBuddy s lists) (req : ℕ) where
  -- No chunk at `order`, and what the search above it found.
  find_above :
      (order : ℕ) (run : Option (Option ℕ × Pages))
      → lists order ≡ []
      → Finds run s lists (order + 1) req
      → Finds run s lists order req
  find_above order run e (inl (none_above, ran)) = inl (
    λ k a b. elim (Bool-cases (order == k)) [
      | inl here ↦ let same : order ≡ k = ground arith in subst (λ i. lists i ≡ []) same e
      | inr above ↦ none_above k (ground arith) b
    ],
    ran,
  )
  find_above order run e (inr found) = inr found

  -- The list of `order` is not empty: one chunk comes off it and is split.
  find_here :
      (rounds order x : ℕ) (xs : List ℕ)
      → order < 10
      → req ≤ order
      → lists order ≡ x ∷ xs
      → Finds (find_loop (suc rounds) order req s) s lists order req
  unfolding find_loop
  find_here rounds order x xs b l e =
      let (g, p, popped, a, same) = pop-IsAvailable s lists v order x xs b e in
      let (t, ran, c, same') =
        buddy_split-Keeps 10 (relinked s g) p order req (free_in lists) a l (omega arith) in
      inr (
        p,
        t,
        rw (nonempty_list s lists order x xs v b e, popped, page_from-pp_node p, ran) refl,
        c,
        SameData-trans s (relinked s g) t same same',
      )

  find_loop-Finds :
      (rounds order : ℕ)
      → order + rounds ≡ 10
      → req ≤ order
      → Finds (find_loop rounds order req s) s lists order req
  unfolding find_loop
  find_loop-Finds zero order e l = inl (λ k a b. absurd (omega arith), refl)
  find_loop-Finds (suc rounds) order e l =
      go (lists order) refl (find_loop-Finds rounds (order + 1) (omega arith) (omega arith))
    where
      go :
          (xs : List ℕ)
          → lists order ≡ xs
          → Finds (find_loop rounds (order + 1) req s) s lists (order + 1) req
          → Finds (find_loop (suc rounds) order req s) s lists order req
      go [] e' rest =
          rw (empty_list s lists order v (omega arith) e')
            (find_above order (find_loop rounds (order + 1) req s) e' rest)
      go (x ∷ xs) e' rest = find_here rounds order x xs (omega arith) l e'

-- With the free lists in order, `buddy_find` finds a chunk of the requested order (below 10) whenever
-- a list of that order or of a higher one is not empty, popping it or splitting a larger chunk; no
-- free page is lost, and the chunk is free and in order. Otherwise it returns NULL and changes
-- nothing.
pub buddy_find-Finds :
    (s : Pages) (lists : ℕ → List ℕ) (req : ℕ)
    → IsBuddy s lists
    → req < 10
    → Finds (buddy_find req s) s lists req req
unfolding buddy_find
buddy_find-Finds s lists req v b = go (lists req) refl
  where
    go : (xs : List ℕ) → lists req ≡ xs → Finds (buddy_find req s) s lists req req
    go [] e = rw (empty_list s lists req v b e) (
        find_above s lists v req req (find_loop (10 - (req + 1)) (req + 1) req s) e
          (find_loop-Finds s lists v req (10 - (req + 1)) (req + 1) (omega arith) (omega arith)))
    go (x ∷ xs) e =
        let (g, p, popped, a, same) = pop-IsAvailable s lists v req x xs b e in
        inr (
          p,
          relinked s g,
          rw (nonempty_list s lists req x xs v b e, popped, page_from-pp_node p) refl,
          a,
          same,
        )
