-- ===== src/Paging/Ranges.antt =====
-- The loops of kernel/mem/walk.c: which ranges the rounds of a walk over user addresses get.
use advanced_operating_syste.Paging.{walk_table, sign_extend, walk_loop, boundary, next_base}
use advanced_operating_syste.Prelude.{
  mul_mono, true, ◌/◌, Bool-cases, false, if◌then◌else◌, inl, inr, ltb, none, refl, suc, zero, ◌^◌,
  ◌||◌, List, [], ap, arith, some, ℕ, ◌%◌, ◌*◌, ◌+◌, ◌-◌, ◌<◌, ◌∙◌, ◌∷◌, ◌≡◌, ◌≤◌, ◌⊎◌,
}
use advanced_operating_syste.Prelude.Int.{negsuc, pos}
use advanced_operating_syste.Paging.State.{and_go_on, Reply, World, user_lim}
use native.Mathlib.Nat.{div-add-mod, mod-lt, add-mul-mod_self_right, mod-eq_of_lt}

-- The rounds of a walk over the ranges `xs`, one after the other.
abbrev pub run_all : {A : Type 0} → (ℕ → ℕ → World A → Reply A) → List (ℕ × ℕ) → World A → Reply A
run_all body [] w = some (pos 0, w)
run_all body ((x, y) ∷ xs) w = and_go_on (body x y w) (run_all body xs)

-- Ranges that follow one another from `base` to `end`, each of them in one unit of `span` bytes.
abbrev pub IsPartition : ℕ → ℕ → ℕ → List (ℕ × ℕ) → Type 0
IsPartition span base end [] = end ≤ base
IsPartition span base end ((x, y) ∷ xs) =
    (x ≡ base)
    × (x < y)
    × (y ≤ end)
    × ((c : ℕ) × (c * span ≤ x) × (y ≤ (c + 1) * span))
    × IsPartition span y end xs

-- The remainder of an address in the unit `q`.
unit_mod :
    (span q addr : ℕ) → q * span ≤ addr → addr < (q + 1) * span → addr % span ≡ addr - q * span
unit_mod span q addr l h =
    let rest : addr - q * span < span = grind arith in
    let whole : addr ≡ (addr - q * span) + q * span = omega arith in
    ap (λ (a : ℕ). a % span) whole
    ∙ add-mul-mod_self_right (addr - q * span) q span
    ∙ mod-eq_of_lt rest

unit_le : (span q u addr : ℕ) → q * span ≤ addr → addr < u * span → (q + 1) * span ≤ u * span
unit_le span q u addr l h = elim (Bool-cases (ltb q u)) [
  | inl below ↦ mul_mono (q + 1) u span (ground arith)
  | inr above ↦
      let far : u * span ≤ q * span = mul_mono u q span (ground arith) in
      absurd (omega (arith, far, l, h))
]

-- The test of a new `next` at the unit's end `t`.
clip :
    (t addr end : ℕ)
    → addr < t
    → t ≤ user_lim
    → end ≤ user_lim
    → let next = sign_extend (t % 2 ^ 64) in
      let then_next : ℕ = if ltb end next || ltb next addr then end else next in
      ((then_next ≡ end) × (end ≤ t)) ⊎ ((then_next ≡ t) × (t < end))
clip t addr end h u b = elim (Bool-cases (ltb t end)) [
  | inl below ↦ inr (ground arith, ground arith)
  | inr above ↦ inl (ground arith, ground arith)
]

go_on_same :
    {A : Type 0} (r : Reply A) {f g : World A → Reply A}
    → ((w : World A) → f w ≡ g w)
    → and_go_on r f ≡ and_go_on r g
go_on_same none h = refl
go_on_same (some (pos n, w)) h = h w
go_on_same (some (negsuc n, w)) h = refl

-- In a unit of the user's half the next range starts at the unit's end, or the walk is over.
next_in_unit :
    (span u q addr end : ℕ)
    → 0 < span
    → user_lim ≡ u * span
    → q * span ≤ addr
    → addr < (q + 1) * span
    → addr < end
    → end ≤ user_lim
    → ((next_base span addr end ≡ end) × (end ≤ (q + 1) * span))
      ⊎ ((next_base span addr end ≡ (q + 1) * span) × ((q + 1) * span < end))
next_in_unit span u q addr end s e l h a b =
    let rest : addr % span ≡ addr - q * span = unit_mod span q addr l h in
    let unit : boundary span addr + 1 ≡ (q + 1) * span = omega (arith, rest, h, l, s) in
    let above : (q + 1) * span ≤ user_lim =
      omega (arith, unit_le span q u addr l (omega (arith, a, b, e)), e) in
    rw unit (clip ((q + 1) * span) addr end h above b)

-- Steps of `fuel` rounds reach the end of a walk that stays within as many units.
module _ {A : Type 0} (span u : ℕ) (positive : 0 < span) (whole : user_lim ≡ u * span)
    (body : ℕ → ℕ → World A → Reply A) where
  loop_stop :
      (n addr next end : ℕ) (w : World A)
      → ltb next end ≡ false
      → walk_loop (suc n) span body addr next end w ≡ some (pos 0, w)
  unfolding walk_loop
  loop_stop n addr next end w stop = rw stop refl

  loop_more :
      (n addr next end t : ℕ) (w : World A)
      → ltb next end ≡ true
      → next_base span addr end ≡ t
      → walk_loop (suc n) span body addr next end w
        ≡ and_go_on (body addr t w) (walk_loop n span body t t end)
  unfolding walk_loop
  loop_more n addr next end t w more step = rw (more, step) refl

  walk_loop-run_all :
      (n q addr end : ℕ)
      → q * span ≤ addr
      → addr < (q + 1) * span
      → end ≤ user_lim
      → end ≤ (q + n) * span
      → (xs : List (ℕ × ℕ)) × IsPartition span addr end xs
        × ((w : World A) → walk_loop (suc n) span body addr addr end w ≡ run_all body xs w)
  walk_loop-run_all zero q addr end l h b f =
      let stop : ltb addr end ≡ false = ground arith in
      ([], omega (arith, f, l), λ w. loop_stop zero addr addr end w stop)
  walk_loop-run_all (suc n) q addr end l h b f = elim (Bool-cases (ltb addr end)) [
    | inr stop ↦ ([], ground arith, λ w. loop_stop (suc n) addr addr end w stop)
    | inl more ↦ elim (next_in_unit span u q addr end positive whole l h (ground arith) b) [
      | inl (last, within) ↦
          let stop : ltb end end ≡ false = ground arith in
          (
            (addr, end) ∷ [],
            (refl, ground arith, omega arith, (q, l, within), omega arith),
            λ w.
                loop_more (suc n) addr addr end end w more last
                ∙ go_on_same (body addr end w) (λ w. loop_stop n end end end w stop),
          )
      | inr (step, beyond) ↦
          let (xs, parts, ran) =
            walk_loop-run_all n (q + 1) ((q + 1) * span) end (omega arith) (omega (arith, positive))
              b (omega (arith, f)) in
          (
            (addr, (q + 1) * span) ∷ xs,
            (refl, h, omega (arith, beyond), (q, l, omega arith), parts),
            λ w.
                loop_more (suc n) addr addr end ((q + 1) * span) w more step
                ∙ go_on_same (body addr ((q + 1) * span) w) ran,
          )
    ]
  ]

-- A walk over user addresses from `base` to `end`, at a level whose entries span a part of the
-- user's half each, with two rounds more than whole spans: it ends, and calls the body for a
-- sequence of ranges that follow one another from `base` to `end`, none of them empty and each
-- inside the span of one entry, and stops early only where the body panics or gives a negative
-- result. The sequence does not depend on the state.
pub walk_table-run_all :
    {A : Type 0} (n span u : ℕ) (body : ℕ → ℕ → World A → Reply A) (base end : ℕ)
    → 0 < span
    → user_lim ≡ u * span
    → base < user_lim
    → end ≤ user_lim
    → end ≤ base + n * span
    → (xs : List (ℕ × ℕ)) × IsPartition span base end xs
      × ((w : World A) → walk_table (suc (suc n)) span body base end w ≡ run_all body xs w)
walk_table-run_all n span u body base end positive whole low b f =
    let q = base / span in
    let split = div-add-mod base span in
    let rest : base % span < span = mod-lt base positive in
    let same : sign_extend base ≡ base = ground arith in
    let (xs, parts, ran) =
      walk_loop-run_all span u positive whole body (suc n) q base end (omega (arith, split))
        (omega (arith, split, rest)) b (omega (arith, split, rest, f)) in
    (xs, parts, λ w. ap (λ (a : ℕ). walk_loop (suc (suc n)) span body a base end w) same ∙ ran w)
