-- ===== src/Buddy/Invariant.antt =====
-- What holds of the buddy allocator between calls: the free lists as sequences of chunks.
use advanced_operating_syste.Prelude.{
  Option, leb, none, some, ◌&&◌, Bool-cases, List, [], ap, arith, count, if◌then◌else◌, inl, inr,
  ltb, subst, suc, true, zero, ℕ, ◌*◌, ◌++◌, ◌+◌, ◌<◌, ◌==◌, ◌^◌, ◌∷◌, ◌≡◌, ◌≢◌, ◌≤◌,
}
use native.Mathlib.Nat.{pow-suc}
use advanced_operating_syste.Buddy.State.{Pages, update}
use advanced_operating_syste.Buddy.Rings.{Rings}

-- `page` heads a free chunk of `2 ^ k` pages, which is aligned and inside the array.
pub record IsChunk (s : Pages) (page k : ℕ) : Type 0 where
  pub free : s.pp_free page ≡ true
  pub order : s.pp_order page ≡ k
  pub aligned : (c : ℕ) × (page ≡ c * 2 ^ k)
  pub within : page + 2 ^ k ≤ s.npages

-- The chunks of the lists have no page in common with the `2 ^ k` pages from `page` on.
pub record IsApart (lists : ℕ → List ℕ) (page k : ℕ) : Type 0 where
  pub before : (q j : ℕ) → j < 10 → 0 < count q (lists j) → q < page → q + 2 ^ j ≤ page
  pub behind : (q j : ℕ) → j < 10 → 0 < count q (lists j) → page < q → page + 2 ^ k ≤ q

-- The lists are well linked, hold free chunks in the list of their order, and no two of them meet.
pub record IsFreeLists (s : Pages) (lists : ℕ → List ℕ) : Type 0 where
  pub rings : Rings s.links lists
  pub chunk : (q j : ℕ) → j < 10 → 0 < count q (lists j) → IsChunk s q j
  pub apart : (q j : ℕ) → j < 10 → 0 < count q (lists j) → IsApart lists q j

-- The free lists hold exactly the pages that are marked free.
pub record IsBuddy (s : Pages) (lists : ℕ → List ℕ) : Type 0 where
  pub lists_in_order : IsFreeLists s lists
  pub listed :
      (q : ℕ) → s.pp_free q ≡ true → (s.pp_order q < 10) × (0 < count q (lists (s.pp_order q)))

-- The same, but for one chunk that is marked free and is on no list.
pub record IsHeld (s : Pages) (lists : ℕ → List ℕ) (page k : ℕ) : Type 0 where
  pub lists_in_order : IsFreeLists s lists
  pub order_lt : k < 10
  pub held : IsChunk s page k
  pub unlisted : (j : ℕ) → j < 10 → count page (lists j) ≡ 0
  pub held_apart : IsApart lists page k
  pub listed :
      (q : ℕ)
      → q ≢ page
      → s.pp_free q ≡ true
      → (s.pp_order q < 10) × (0 < count q (lists (s.pp_order q)))

pub pow_two_pos : (k : ℕ) → 0 < 2 ^ k
pow_two_pos zero = omega arith
pow_two_pos (suc k) = rw pow-suc (omega (arith, pow_two_pos k))

-- How much of a chunk counts: all its pages, or only the page `q` of `some q`.
unfoldable pub span : ℕ → ℕ → Option ℕ → ℕ
span k p none = 2 ^ k
span k p (some q) = if leb p q && ltb q (p + 2 ^ k) then 1 else 0

-- The two halves of a chunk are the whole of it.
pub span_double : (k p : ℕ) (w : Option ℕ) → span (suc k) p w ≡ span k p w + span k (p + 2 ^ k) w
unfolding span
span_double k p none = rw pow-suc (omega arith)
span_double k p (some q) =
    let two : 2 ^ suc k ≡ 2 ^ k + 2 ^ k = rw pow-suc (omega arith) in
    rw two (ground (arith, pow_two_pos k))

abbrev pub chunks : ℕ → List ℕ → Option ℕ → ℕ
chunks k [] w = 0
chunks k (x ∷ xs) w = span k x w + chunks k xs w

pub chunks-append :
    (k : ℕ) (xs ys : List ℕ) (w : Option ℕ) → chunks k (xs ++ ys) w ≡ chunks k xs w + chunks k ys w
chunks-append k [] ys w = omega arith
chunks-append k (x ∷ xs) ys w = omega (arith, chunks-append k xs ys w)

-- The pages in the first `n` lists.
unfoldable pub pages_below : ℕ → (ℕ → List ℕ) → Option ℕ → ℕ
pages_below zero lists w = 0
pages_below (suc n) lists w = pages_below n lists w + chunks n (lists n) w

-- How much the free chunks hold: of all pages for `none`, of the page `q` for `some q`.
unfoldable pub free_in : (ℕ → List ℕ) → Option ℕ → ℕ
unfolding pages_below
free_in lists w = pages_below 10 lists w

-- The number of free pages.
abbrev pub free_pages : (ℕ → List ℕ) → ℕ
free_pages lists = free_in lists none

pages_below-update :
    (n k : ℕ) (lists : ℕ → List ℕ) (new : List ℕ) (w : Option ℕ)
    → pages_below n (update lists k new) w + (if ltb k n then chunks k (lists k) w else 0)
      ≡ pages_below n lists w + (if ltb k n then chunks k new w else 0)
unfolding pages_below
pages_below-update zero k lists new w = ground arith
pages_below-update (suc n) k lists new w = elim (Bool-cases (k == n)) [
  | inl e ↦
      let same : k ≡ n = ground arith in
      rw e (
        subst
          (λ i.
            pages_below n (update lists k new) w
              + chunks i new w
              + (if ltb k (suc i) then chunks k (lists k) w else 0)
            ≡ pages_below n lists w
              + chunks i (lists i) w
              + (if ltb k (suc i) then chunks k new w else 0))
          same (ground (arith, pages_below-update n k lists new w)))
  | inr ne ↦ rw ne (ground (arith, pages_below-update n k lists new w))
]

pub free_in-update :
    (k : ℕ) (lists : ℕ → List ℕ) (new : List ℕ) (w : Option ℕ)
    → k < 10
    → free_in (update lists k new) w + chunks k (lists k) w ≡ free_in lists w + chunks k new w
unfolding free_in
free_in-update k lists new w b =
    let e : ltb k 10 ≡ true = ground arith in rw e at (pages_below-update 10 k lists new w)

-- A page of a list stands somewhere in it.
pub split_at : (p : ℕ) (xs : List ℕ) → 0 < count p xs → (ys zs : List ℕ) × (xs ≡ ys ++ p ∷ zs)
split_at p [] h = absurd (omega arith)
split_at p (x ∷ xs) h = elim (Bool-cases (x == p)) [
  | inl hit ↦ ([], xs, ground arith)
  | inr miss ↦ let (ys, zs, e) = split_at p xs (ground arith) in (x ∷ ys, zs, ap (◌∷◌ x) e)
]
