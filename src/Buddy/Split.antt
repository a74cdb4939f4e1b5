-- ===== src/Buddy/Split.antt =====
-- buddy_split of kernel/mem/buddy.c.
use advanced_operating_syste.Buddy.Invariant.{span_double, IsChunk, IsBuddy, IsHeld, pow_two_pos}
use advanced_operating_syste.Buddy.Place.{new_cases, place}
use advanced_operating_syste.Buddy.Hold.{off_list, relinked, list_del-Drops, IsAvailable, on_list}
use advanced_operating_syste.Buddy.{buddy_split, split_once, block_size}
use advanced_operating_syste.Prelude.{
  Bool-cases, subst, zero, ◌-◌, ◌==◌, Option, inl, inr, ltb, refl, some, ◌%◌, ◌/◌, ◌≤◌, List, ap,
  arith, count, suc, true, ℕ, ◌*◌, ◌+◌, ◌<◌, ◌^◌, ◌∙◌, ◌∷◌, ◌≡◌,
}
use native.Mathlib.Nat.{pow-suc}
use advanced_operating_syste.LinkedList.Store.{Links}
use advanced_operating_syste.Buddy.State.{Pages, update, update_self, page_index}
use advanced_operating_syste.Buddy.Rings.{Quiet}

-- The fields that the free lists do not use.
pub record SameData (s t : Pages) : Type 0 where
  pub npages : t.npages ≡ s.npages
  pub pp_ref : t.pp_ref ≡ s.pp_ref
  pub pp_zero : t.pp_zero ≡ s.pp_zero
  pub memory : t.memory ≡ s.memory
  pub quiet : Quiet s.links t.links

pub SameData-trans : (s t u : Pages) → SameData s t → SameData t u → SameData s u
SameData-trans s t u a b = record {
  npages = b.npages ∙ a.npages;
  pp_ref = b.pp_ref ∙ a.pp_ref;
  pp_zero = b.pp_zero ∙ a.pp_zero;
  memory = b.memory ∙ a.memory;
  quiet = λ x other heads.
      let p = a.quiet x other heads in let q = b.quiet x other heads in (q.0 ∙ p.0, q.1 ∙ p.1);
}

abbrev lowered : Pages → ℕ → ℕ → Pages
lowered s p k = record s { pp_order = update s.pp_order p k }

module _ (s : Pages) (lists : ℕ → List ℕ) (p k : ℕ) (v : IsHeld s lists p (suc k)) where
  double : 2 ^ suc k ≡ 2 ^ k + 2 ^ k
  double = rw pow-suc (omega arith)

  -- The lower half, held at the lower order.
  lower_half : IsHeld (lowered s p k) lists p k
  lower_half = record {
    lists_in_order = record {
      rings = v.lists_in_order.rings;
      chunk = λ q j jb i.
          let c = v.lists_in_order.chunk q j jb i in
          record {
            free = c.free;
            order = ground (arith, v.unlisted j jb, c.order);
            aligned = c.aligned;
            within = c.within;
          };
      apart = v.lists_in_order.apart;
    };
    order_lt = omega (arith, v.order_lt);
    held = record {
      free = v.held.free;
      order = update_self s.pp_order p k;
      aligned = (
        v.held.aligned.0 * 2,
        omega (arith, v.held.aligned.1, ap (λ (n : ℕ). v.held.aligned.0 * n) double),
      );
      within = omega (arith, v.held.within, double);
    };
    unlisted = v.unlisted;
    held_apart = record {
      before = v.held_apart.before;
      behind = λ q j b i l. omega (arith, v.held_apart.behind q j b i l, double);
    };
    listed = λ q n f. ground (arith, v.listed q n f);
  }

  abbrev upper : ℕ
  upper = p + 2 ^ k

  -- With the lower half on its list, the upper half is held.
  abbrev halved : Links → Pages
  halved g = record s {
    links = g;
    pp_order = update (update s.pp_order p k) upper k;
    pp_free = update s.pp_free upper true;
  }

  no_upper : (j : ℕ) → j < 10 → 0 < count upper (update lists k (p ∷ lists k) j) → ⊥
  no_upper j jb i = elim (new_cases s lists p k upper j i) [
    | inl e ↦ omega (arith, e.0, pow_two_pos k)
    | inr old ↦ omega (
      arith,
      v.held_apart.behind upper j jb old (omega (arith, pow_two_pos k)),
      double,
      pow_two_pos k,
    )
  ]

  upper_half :
      (g : Links)
      → IsBuddy (relinked (lowered s p k) g) (update lists k (p ∷ lists k))
      → IsHeld (halved g) (update lists k (p ∷ lists k)) upper k
  upper_half g w = record {
    lists_in_order = record {
      rings = w.lists_in_order.rings;
      chunk = λ q j jb i.
          let c = w.lists_in_order.chunk q j jb i in
          record {
            free = ground (arith, c.free);
            order = ground (arith, no_upper j jb, c.order);
            aligned = c.aligned;
            within = c.within;
          };
      apart = w.lists_in_order.apart;
    };
    order_lt = omega (arith, v.order_lt);
    held = record {
      free = update_self s.pp_free upper true;
      order = update_self (update s.pp_order p k) upper k;
      aligned = (
        v.held.aligned.0 * 2 + 1,
        omega (arith, v.held.aligned.1, ap (λ (n : ℕ). v.held.aligned.0 * n) double),
      );
      within = omega (arith, v.held.within, double);
    };
    unlisted = unlisted;
    held_apart = record { before = before; behind = behind };
    listed = λ q n f. ground (arith, w.listed q);
  }
    where
      unlisted : (j : ℕ) → j < 10 → count upper (update lists k (p ∷ lists k) j) ≡ 0
      unlisted j jb = ground (arith, no_upper j jb)

      before :
          (q j : ℕ)
          → j < 10
          → 0 < count q (update lists k (p ∷ lists k) j)
          → q < upper
          → q + 2 ^ j ≤ upper
      before q j b i l = elim (new_cases s lists p k q j i) [
        | inl e ↦ rw (e.0, e.1) (omega arith)
        | inr old ↦ ground (
          arith,
          v.held_apart.before q j b old,
          v.held_apart.behind q j b old,
          v.unlisted j b,
          double,
        )
      ]

      behind :
          (q j : ℕ)
          → j < 10
          → 0 < count q (update lists k (p ∷ lists k) j)
          → upper < q
          → upper + 2 ^ k ≤ q
      behind q j b i l = elim (new_cases s lists p k q j i) [
        | inl e ↦ absurd (omega (arith, e.0))
        | inr old ↦ omega (arith, v.held_apart.behind q j b old (omega arith), double)
      ]

-- What a step of the allocator promises of an available chunk: no panic, the chunk still available
-- at the order `k`, the same pages in free chunks, and nothing but the lists touched.
abbrev pub Keeps : {A : Type 0} → Option (A × Pages) → A → Pages → ℕ → ℕ → (Option ℕ → ℕ) → Type 0
Keeps run a s p k total = (t : Pages) × (run ≡ some (a, t)) × IsAvailable t p k total × SameData s t

module _ (s : Pages) (p k : ℕ) (total : Option ℕ → ℕ) where
  split_once-Keeps : IsAvailable s p (suc k) total → Keeps (split_once p s) tt s p k total
  unfolding split_once
  split_once-Keeps a =
      let (g, lists, ran, v, e, quiet) = list_del-Drops s p (suc k) total a in
      let (g₁, ran₁, w, e₁, quiet₁) =
        place (lowered (relinked s g) p k) lists p k (lower_half (relinked s g) lists p k v) in
      let high = upper_half (relinked s g) lists p k v g₁ w in
      let (g₂, ran₂, done, e₂, quiet₂) =
        place (halved (relinked s g) lists p k v g₁) (update lists k (p ∷ lists k)) (p + 2 ^ k) k
          high in
      let two : 2 ^ suc k ≡ 2 ^ k + 2 ^ k = double (relinked s g) lists p k v in
      let order : s.pp_order p ≡ suc k = v.held.order in
      let index : page_index p + block_size (suc k) / 2 ≡ p + 2 ^ k = omega (arith, two) in
      let self : (p == p) ≡ true = ground arith in
      let inside : ltb (p + 2 ^ k) s.npages ≡ true =
        ground (arith, v.held.within, two, pow_two_pos k) in
      let lower : (suc k + 127) % 128 ≡ k = omega (arith, v.order_lt) in
      (
        relinked (halved (relinked s g) lists p k v g₁) g₂,
        rw (order, index, inside, ran, self, lower, ran₁, ran₂) refl,
        on_list _ done (omega (arith, v.order_lt)) (ground arith)
            (λ w. omega (arith, e w, e₁ w, e₂ w, span_double k p w)),
        record {
          npages = refl;
          pp_ref = refl;
          pp_zero = refl;
          memory = refl;
          quiet = λ x other heads. (
            (quiet₂ x other heads).0 ∙ (quiet₁ x other heads).0 ∙ (quiet x other heads).0,
            (quiet₂ x other heads).1 ∙ (quiet₁ x other heads).1 ∙ (quiet x other heads).1,
          );
        },
      )

pub SameData-refl : (s : Pages) → SameData s s
SameData-refl s = record {
  npages = refl;
  pp_ref = refl;
  pp_zero = refl;
  memory = refl;
  quiet = λ x other heads. (refl, refl);
}

pub IsAvailable-IsChunk :
    (s : Pages) (p k : ℕ) (total : Option ℕ → ℕ) → IsAvailable s p k total → IsChunk s p k
IsAvailable-IsChunk s p k total (on_list lists v b i e) = v.lists_in_order.chunk p k b i
IsAvailable-IsChunk s p k total (off_list lists v e) = v.held

-- `buddy_split` of a free chunk of order `k`, whether it is on its list or just popped off it, to an
-- order not above `k`, with more fuel than splits, returns the chunk's first page, now a free chunk
-- of the requested order; the free lists stay in order and lose no page.
pub buddy_split-Keeps :
    (fuel : ℕ) (s : Pages) (p k req : ℕ) (total : Option ℕ → ℕ)
    → IsAvailable s p k total
    → req ≤ k
    → k < req + fuel
    → Keeps (buddy_split fuel p req s) p s p req total
unfolding buddy_split
buddy_split-Keeps zero s p k req total a l f = absurd (omega arith)
buddy_split-Keeps (suc fuel) s p k req total a l f = elim (Bool-cases (k == req)) [
  | inl done ↦
      let order : s.pp_order p ≡ k = (IsAvailable-IsChunk s p k total a).order in
      let same : k ≡ req = ground arith in
      (s, rw (order, done) refl, subst (λ i. IsAvailable s p i total) same a, SameData-refl s)
  | inr more ↦
      let order : s.pp_order p ≡ k = (IsAvailable-IsChunk s p k total a).order in
      let above : k ≡ suc (k - 1) = ground arith in
      let (t, ran, b, same) =
        split_once-Keeps s p (k - 1) total (subst (λ i. IsAvailable s p i total) above a) in
      let (u, rest, c, same') =
        buddy_split-Keeps fuel t p (k - 1) req total b (ground arith) (ground arith) in
      (u, rw (order, more, ran) rest, c, SameData-trans s t u same same')
]
