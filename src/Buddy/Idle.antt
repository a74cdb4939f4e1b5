-- ===== src/Buddy/Idle.antt =====
-- The two other lists that page_free of kernel/mem/buddy.c works on: the swap list, which
-- remove_swap_page of kernel/dev/swap_util.c takes the page off, and zero_list.
use advanced_operating_syste.Buddy.Rings.{counted_node, nodes, Quiet, Rings}
use advanced_operating_syste.LinkedList.Chain.{rotate, frame, IsRing}
use advanced_operating_syste.LinkedList.Delete.{list_del-IsRing}
use advanced_operating_syste.Buddy.State.{
  pp_node, free_list, Pages, swap_node, pp_zero_node, swap_pages, zero_list,
}
use advanced_operating_syste.LinkedList.Store.{null, Links}
use advanced_operating_syste.LinkedList.Walk.{list_head-IsRing}
use advanced_operating_syste.Buddy.{remove_swap_page}
use advanced_operating_syste.Prelude.{
  Bool-cases, List, [], arith, count, count-append, false, inl, inr, map, refl, some, ℕ, ◌++◌, ◌<◌,
  ◌==◌, ◌∷◌, ◌≡◌, ◌≢◌, ◌⊎◌,
}

-- `g` agrees with `h` on every node of the ring.
pub kept-IsRing :
    (h g : Links) (head : ℕ) (xs : List ℕ)
    → IsRing h head xs
    → ((a : ℕ) → 0 < count a (head ∷ xs) → (g.next a ≡ h.next a) × (g.prev a ≡ h.prev a))
    → IsRing g head xs
kept-IsRing h g head xs r same = record {
  chain = frame h g head head xs r.chain (λ p i. (same p i).0) (λ p i. (same p i).1);
  distinct = r.distinct;
  nonnull = r.nonnull;
}

-- A node of the swap list.
abbrev pub IsSwap : ℕ → Type 0
IsSwap a = (a ≡ swap_pages) ⊎ ((q : ℕ) × (a ≡ swap_node q))

-- The page's swap node is in a ring with other nodes of the swap list, or alone.
abbrev pub IsSwapRing : Links → ℕ → Type 0
IsSwapRing h p =
    (ring : List ℕ) × IsRing h (swap_node p) ring × ((a : ℕ) → 0 < count a ring → IsSwap a)

-- Nothing but nodes of the swap list changed.
abbrev pub SwapOnly : Links → Links → Type 0
SwapOnly h g =
    (a : ℕ)
    → a ≢ swap_pages
    → ((q : ℕ) → a ≢ swap_node q)
    → (g.next a ≡ h.next a) × (g.prev a ≡ h.prev a)

-- `remove_swap_page` does not panic, leaves the page's swap node alone in its ring, and touches
-- nodes of the swap list only.
pub remove_swap_page-Idles :
    (s : Pages) (p : ℕ)
    → IsSwapRing s.links p
    → (g : Links) × (remove_swap_page p s ≡ some (tt, record s { links = g }))
      × IsRing g (swap_node p) []
      × SwapOnly s.links g
unfolding remove_swap_page
remove_swap_page-Idles s p ([], r, swaps) =
    let (empty, head) = list_head-IsRing s.links (swap_node p) [] r in
    (s.links, rw empty refl, r, λ a n m. (refl, refl))
remove_swap_page-Idles s p (x ∷ ring, r, swaps) =
    let (empty, head) = list_head-IsRing s.links (swap_node p) (x ∷ ring) r in
    let there : (x == null) ≡ false = ground (arith, r.nonnull) in
    let (g, ran, rest, alone, same) =
      list_del-IsRing s.links x (swap_node p) ring [] (rotate s.links (swap_node p) [] x ring r) in
    let outside : (a : ℕ)
        → a ≢ swap_pages
        → ((q : ℕ) → a ≢ swap_node q)
        → count a (x ∷ ring ++ swap_node p ∷ []) ≡ 0 =
      λ a n m. elim (Bool-cases (count a (x ∷ ring) == 0)) [
        | inl gone ↦
            let none_of : count a (x ∷ ring) ≡ 0 = ground arith in
            ground (arith, none_of, count-append a (x ∷ ring) (swap_node p ∷ []), m p)
        | inr met ↦ elim (swaps a (ground arith)) [
          | inl e ↦ absurd (n e)
          | inr (q, e) ↦ absurd (m q e)
        ]
      ] in
    (g, rw (empty, there, ran) refl, alone, λ a n m. same a (outside a n m))

-- The nodes of pages on zero_list.
abbrev pub zero_nodes : List ℕ → List ℕ
zero_nodes = map pp_zero_node

pub count-zero_nodes : (p : ℕ) (xs : List ℕ) → count (pp_zero_node p) (zero_nodes xs) ≡ count p xs
count-zero_nodes p [] = refl
count-zero_nodes p (x ∷ xs) = ground (arith, count-zero_nodes p xs)

pub zero_nodes_other :
    (a : ℕ) (xs : List ℕ) → ((q : ℕ) → a ≢ pp_zero_node q) → count a (zero_nodes xs) ≡ 0
zero_nodes_other a [] n = refl
zero_nodes_other a (x ∷ xs) n = ground (arith, zero_nodes_other a xs n, n x)

-- A node of zero_list is the head or the node of a page.
pub zero_cases :
    (a : ℕ) (xs : List ℕ)
    → 0 < count a (zero_list ∷ zero_nodes xs)
    → (a ≡ zero_list) ⊎ ((q : ℕ) × (a ≡ pp_zero_node q))
zero_cases a xs i = elim (Bool-cases (zero_list == a)) [
  | inl e ↦ inl (ground arith)
  | inr n ↦ inr (go xs (ground arith))
]
  where
    go : (ys : List ℕ) → 0 < count a (zero_nodes ys) → (q : ℕ) × (a ≡ pp_zero_node q)
    go [] i = absurd (omega arith)
    go (y ∷ ys) i = elim (Bool-cases (pp_zero_node y == a)) [
      | inl e ↦ (y, ground arith)
      | inr n ↦ go ys (ground arith)
    ]

-- Work on the swap list leaves zero_list alone.
pub SwapOnly-zero_list :
    (h g : Links) (zs : List ℕ)
    → SwapOnly h g
    → IsRing h zero_list (zero_nodes zs)
    → IsRing g zero_list (zero_nodes zs)
SwapOnly-zero_list h g zs same r = kept-IsRing h g zero_list (zero_nodes zs) r (λ a i.
    elim (zero_cases a zs i) [
      | inl e ↦ same a (λ x. omega arith) (λ q x. omega arith)
      | inr (q, e) ↦ same a (λ x. omega arith) (λ q x. omega arith)
    ])

-- So does work on the free lists.
pub Quiet-zero_list :
    (h g : Links) (zs : List ℕ)
    → Quiet h g
    → IsRing h zero_list (zero_nodes zs)
    → IsRing g zero_list (zero_nodes zs)
Quiet-zero_list h g zs same r = kept-IsRing h g zero_list (zero_nodes zs) r (λ a i.
    elim (zero_cases a zs i) [
      | inl e ↦ same a (λ p x. omega arith) (λ k b x. omega arith)
      | inr (q, e) ↦ same a (λ p x. omega arith) (λ k b x. omega arith)
    ])

-- Nothing but nodes of neither the free lists nor the pages changed.
pub Rings-kept :
    (h g : Links) (lists : ℕ → List ℕ)
    → Rings h lists
    → ((k : ℕ)
        → k < 10
        → (g.next (free_list k) ≡ h.next (free_list k))
          × (g.prev (free_list k) ≡ h.prev (free_list k)))
    → ((p : ℕ)
        → (g.next (pp_node p) ≡ h.next (pp_node p)) × (g.prev (pp_node p) ≡ h.prev (pp_node p)))
    → Rings g lists
Rings-kept h g lists r heads pages = record {
  ring = λ k b. kept-IsRing h g (free_list k) (nodes (lists k)) (r.ring k b) (λ a i.
      elim (Bool-cases (free_list k == a)) [
        | inl e ↦ let same : a ≡ free_list k = ground arith in rw same (heads k b)
        | inr n ↦
            let (p, same, in_list) = counted_node a (lists k) (ground arith) in rw same (pages p)
      ]);
  once = r.once;
  alone = λ p out.
      kept-IsRing h g (pp_node p) [] (r.alone p out)
        (λ a i. let same : a ≡ pp_node p = ground arith in rw same (pages p));
}
