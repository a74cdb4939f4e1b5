-- ===== src/Buddy/Rings.antt =====
-- The free lists of kernel/mem/buddy.c as sequences of pages, and what list_add, list_del and
-- list_pop on one of them do to all of them.
use advanced_operating_syste.Prelude.{
  ◌+◌, Option, ap, count-append, some, subst, sym, ◌++◌, ◌∙◌, Bool-cases, List, [], arith, count,
  inl, inr, map, refl, ℕ, ◌<◌, ◌==◌, ◌∷◌, ◌≡◌, ◌≢◌,
}
use advanced_operating_syste.Buddy.State.{update_self, free_list, pp_node, update}
use mathlib.Core.List.{map-append}
use advanced_operating_syste.LinkedList.{list_add, list_del}
use advanced_operating_syste.LinkedList.Store.{Links}
use advanced_operating_syste.LinkedList.Chain.{IsRing, SameOutside, frame-IsRing}
use advanced_operating_syste.LinkedList.Insert.{list_add-IsRing}
use advanced_operating_syste.LinkedList.Delete.{list_del-IsRing}

abbrev pub nodes : List ℕ → List ℕ
nodes = map pp_node

pub count-nodes : (p : ℕ) (xs : List ℕ) → count (pp_node p) (nodes xs) ≡ count p xs
count-nodes p [] = refl
count-nodes p (x ∷ xs) = ground (arith, count-nodes p xs)

-- No page's node stands at `a`.
abbrev pub IsOther : ℕ → Type 0
IsOther a = (p : ℕ) → a ≢ pp_node p

pub count-nodes_other : (a : ℕ) (xs : List ℕ) → IsOther a → count a (nodes xs) ≡ 0
count-nodes_other a [] o = refl
count-nodes_other a (x ∷ xs) o = ground (arith, count-nodes_other a xs o, o x)

pub free_list-IsOther : (k : ℕ) → k < 10 → IsOther (free_list k)
free_list-IsOther k h p e = omega arith

-- A node that is counted in `nodes xs` is the node of a page in `xs`.
pub counted_node :
    (a : ℕ) (xs : List ℕ) → 0 < count a (nodes xs) → (p : ℕ) × (a ≡ pp_node p) × (0 < count p xs)
counted_node a [] h = absurd (omega arith)
counted_node a (x ∷ xs) h = elim (Bool-cases (pp_node x == a)) [
  | inl hit ↦ (x, ground arith, ground arith)
  | inr miss ↦ let (p, e, i) = counted_node a xs (ground arith) in (p, e, omega arith)
]

-- The list of every order is well linked, no page is in two lists, and a page that is in none is
-- linked to itself.
pub record Rings (h : Links) (lists : ℕ → List ℕ) : Type 0 where
  pub ring : (k : ℕ) → k < 10 → IsRing h (free_list k) (nodes (lists k))
  pub once : (p j k : ℕ) → j < 10 → k < 10 → 0 < count p (lists j) → 0 < count p (lists k) → j ≡ k
  pub alone : (p : ℕ) → ((k : ℕ) → k < 10 → count p (lists k) ≡ 0) → IsRing h (pp_node p) []

-- Nothing changed but free list heads and page nodes.
abbrev pub Quiet : Links → Links → Type 0
Quiet h g =
    (a : ℕ)
    → IsOther a
    → ((k : ℕ) → k < 10 → a ≢ free_list k)
    → (g.next a ≡ h.next a) × (g.prev a ≡ h.prev a)

-- The nodes of two different lists do not meet.
apart_lists :
    (h : Links) (lists : ℕ → List ℕ) (k p j : ℕ)
    → Rings h lists
    → k < 10
    → j < 10
    → j ≢ k
    → count p (lists j) ≡ 0
    → (a : ℕ) → 0 < count a (free_list j ∷ nodes (lists j))
    → count a (pp_node p ∷ free_list k ∷ nodes (lists k)) ≡ 0
apart_lists h lists k p j r b jb n free a i = elim (Bool-cases (free_list j == a)) [
  | inl here ↦ ground (arith, count-nodes_other a (lists k) (λ x e. ground arith))
  | inr there ↦
      let (x, e, ix) = counted_node a (lists j) (ground arith) in
      ground (arith, count-nodes x (lists k), r.once x j k jb b ix)
]

module _ (h g : Links) (lists : ℕ → List ℕ) (k p : ℕ) (new : List ℕ) where
  -- Only the list `k` and the page `p` are touched.
  rebuild :
      Rings h lists
      → k < 10
      → SameOutside (pp_node p ∷ free_list k ∷ nodes (lists k)) h g
      → IsRing g (free_list k) (nodes new)
      → ((q : ℕ) → q ≢ p → count q new ≡ count q (lists k))
      → ((j : ℕ) → j < 10 → j ≢ k → count p (lists j) ≡ 0)
      → (count p new ≡ 0 → IsRing g (pp_node p) [])
      → Rings g (update lists k new)
  rebuild r b same ring others single alone = record { ring = ring'; once = once'; alone = alone' }
    where
      ring' : (j : ℕ) → j < 10 → IsRing g (free_list j) (nodes (update lists k new j))
      ring' j jb = elim (Bool-cases (k == j)) [
        | inl e ↦
            let same_list : k ≡ j = ground arith in
            subst (λ i. IsRing g (free_list i) (nodes (update lists k new i))) same_list
              (rw (update_self lists k new) ring)
        | inr n ↦
            let ne : j ≢ k = ground arith in
            rw n (
              frame-IsRing h g (free_list j) (nodes (lists j))
                (pp_node p ∷ free_list k ∷ nodes (lists k)) (r.ring j jb) same
                (apart_lists h lists k p j r b jb ne (single j jb ne)))
      ]

      one_side : (q j : ℕ) → j < 10 → j ≢ k → 0 < count q new → 0 < count q (lists j) → ⊥
      one_side q j jb n i l = elim (Bool-cases (p == q)) [
        | inl e ↦ ground (arith, single j jb n)
        | inr ne ↦ ground (arith, others q, r.once q j k jb b l)
      ]

      once' :
          (q i j : ℕ)
          → i < 10
          → j < 10
          → 0 < count q (update lists k new i)
          → 0 < count q (update lists k new j)
          → i ≡ j
      once' q i j ib jb iq jq = elim (Bool-cases (k == i)) [
        | inl ei ↦ elim (Bool-cases (k == j)) [
          | inl ej ↦ ground arith
          | inr nj ↦ absurd (one_side q j jb (ground arith) (rw ei at iq) (rw nj at jq))
        ]
        | inr ni ↦ elim (Bool-cases (k == j)) [
          | inl ej ↦ absurd (one_side q i ib (ground arith) (rw ej at jq) (rw ni at iq))
          | inr nj ↦ r.once q i j ib jb (rw ni at iq) (rw nj at jq)
        ]
      ]

      alone' :
          (q : ℕ)
          → ((j : ℕ) → j < 10 → count q (update lists k new j) ≡ 0)
          → IsRing g (pp_node q) []
      alone' q gone = elim (Bool-cases (p == q)) [
        | inl e ↦
            let same_page : p ≡ q = ground arith in
            subst (λ x. IsRing g (pp_node x) []) same_page
              (alone (ground (arith, gone k b, update_self lists k new)))
        | inr n ↦
            let gone_k : count q (lists k) ≡ 0 =
              ground (arith, gone k b, update_self lists k new, others q) in
            let before : (j : ℕ) → j < 10 → count q (lists j) ≡ 0 = λ j jb.
              elim (Bool-cases (k == j)) [
                | inl ej ↦ ground (arith, gone_k)
                | inr nj ↦ rw nj at (gone j jb)
              ] in
            frame-IsRing h g (pp_node q) [] (pp_node p ∷ free_list k ∷ nodes (lists k))
              (r.alone q before) same (λ a i. ground (arith, count-nodes q (lists k), gone_k))
      ]

  rebuild-Quiet : k < 10 → SameOutside (pp_node p ∷ free_list k ∷ nodes (lists k)) h g → Quiet h g
  rebuild-Quiet b same a other heads =
      same a (ground (arith, other p, heads k b, count-nodes_other a (lists k) other))

-- What an operation on the free lists promises: no panic, the result `a`, the lists `new`, and
-- nothing else touched.
abbrev pub Relinks : {A : Type 0} → Option (A × Links) → A → Links → (ℕ → List ℕ) → Type 0
Relinks run a h new = (g : Links) × (run ≡ some (a, g)) × Rings g new × Quiet h g

module _ (h : Links) (lists : ℕ → List ℕ) (k p : ℕ) (r : Rings h lists) (b : k < 10) where
  pub list_add-Rings :
      ((j : ℕ) → j < 10 → count p (lists j) ≡ 0)
      → Relinks (list_add (free_list k) (pp_node p) h) tt h (update lists k (p ∷ lists k))
  list_add-Rings fresh =
      let (g, ran, ring, same) =
        list_add-IsRing h (free_list k) (pp_node p) (nodes (lists k)) (r.ring k b) (record {
          ne_null = omega arith;
          outside = ground (arith, count-nodes p (lists k), fresh k b);
        }) in
      (
        g,
        ran,
        rebuild h g lists k p (p ∷ lists k) r b same ring (λ q n. ground arith)
            (λ j jb n. fresh j jb) (λ e. absurd (ground arith)),
        rebuild-Quiet h g lists k p (p ∷ lists k) b same,
      )

  pub list_del-Rings :
      (xs ys : List ℕ)
      → lists k ≡ xs ++ p ∷ ys
      → Relinks (list_del (pp_node p) h) tt h (update lists k (xs ++ ys))
  list_del-Rings xs ys e =
      let path : nodes (lists k) ≡ nodes xs ++ pp_node p ∷ nodes ys =
        ap nodes e ∙ map-append pp_node xs (p ∷ ys) in
      let (g, ran, ring, alone, same) =
        list_del-IsRing h (free_list k) (pp_node p) (nodes xs) (nodes ys)
          (subst (IsRing h (free_list k)) path (r.ring k b)) in
      let spared : SameOutside (pp_node p ∷ free_list k ∷ nodes (lists k)) h g =
        λ a o. same a (omega (arith, o, ap (count a) path)) in
      let counted : (q : ℕ) → count q (lists k) ≡ count q xs + count q (p ∷ ys) =
        λ q. ap (count q) e ∙ count-append q xs (p ∷ ys) in
      (
        g,
        ran,
        rebuild h g lists k p (xs ++ ys) r b spared
            (subst (IsRing g (free_list k)) (sym (map-append pp_node xs ys)) ring)
            (λ q n. ground (arith, counted q, count-append q xs ys))
            (λ j jb n. ground (arith, r.once p j k jb b, counted p)) (λ c. alone),
        rebuild-Quiet h g lists k p (xs ++ ys) b spared,
      )
