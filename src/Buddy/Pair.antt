-- ===== src/Buddy/Pair.antt =====
-- The arithmetic of buddies: which neighbour of an aligned chunk is its buddy, and that the two
-- together are an aligned chunk of the next order inside the array.
use advanced_operating_syste.Prelude.{
  mul_mono, Bool-cases, ap, inl, inr, ltb, zero, ◌-◌, ◌/◌, ◌==◌, ◌≤◌, arith, false, refl, suc, true,
  ℕ, ◌%◌, ◌*◌, ◌+◌, ◌<◌, ◌^◌, ◌∙◌, ◌≡◌, ◌⊎◌,
}
use native.Mathlib.Nat.{pow-suc, add-mul-mod_self_right, mod-eq_of_lt}
use advanced_operating_syste.Buddy.{buddy_on_right}
use advanced_operating_syste.Buddy.State.{page_index}
use advanced_operating_syste.Buddy.Invariant.{pow_two_pos}

pub double : (k : ℕ) → 2 ^ suc k ≡ 2 ^ k * 2
double k = rw pow-suc refl

-- The remainder tells an even number of chunks from an odd one.
mod_even : (c m : ℕ) → 0 < m → (c * 2 * m) % (m * 2) ≡ 0
mod_even c m h =
    let e : c * 2 * m ≡ 0 + c * (m * 2) = omega arith in
    rw e (add-mul-mod_self_right 0 c (m * 2) ∙ mod-eq_of_lt (omega arith))

mod_odd : (c m : ℕ) → 0 < m → ((c * 2 + 1) * m) % (m * 2) ≡ m
mod_odd c m h =
    let e : (c * 2 + 1) * m ≡ m + c * (m * 2) = omega arith in
    rw e (add-mul-mod_self_right m c (m * 2) ∙ mod-eq_of_lt (omega arith))

pub page_index_lem : (p : ℕ) → page_index p ≡ p
page_index_lem p = omega arith

-- The number of a chunk of order `k` at `p`, halved: `p` is the left or the right one of a pair.
abbrev pub Half : (p k d : ℕ) → Type 0
Half p k d =
    ((p ≡ d * 2 ^ suc k) × (buddy_on_right p k ≡ true))
    ⊎ ((p ≡ d * 2 ^ suc k + 2 ^ k) × (buddy_on_right p k ≡ false))

pub halves : (p k c : ℕ) → p ≡ c * 2 ^ k → (d : ℕ) × Half p k d
halves p k c e = (
  c / 2,
  elim (Bool-cases (c % 2 == 0)) [
    | inl even ↦
        let whole : c ≡ c / 2 * 2 = ground arith in
        let place : p ≡ c / 2 * 2 * 2 ^ k = e ∙ ap (λ (n : ℕ). n * 2 ^ k) whole in
        inl (
          place ∙ rw double (omega arith),
          rw (page_index_lem p, place, mod_even (c / 2) (2 ^ k) (pow_two_pos k)) refl,
        )
    | inr odd ↦
        let whole : c ≡ c / 2 * 2 + 1 = ground arith in
        let place : p ≡ (c / 2 * 2 + 1) * 2 ^ k = e ∙ ap (λ (n : ℕ). n * 2 ^ k) whole in
        let apart : (2 ^ k == 0) ≡ false = ground (arith, pow_two_pos k) in
        inr (
          place ∙ rw double (omega arith),
          rw (page_index_lem p, place, mod_odd (c / 2) (2 ^ k) (pow_two_pos k)) apart,
        )
  ],
)

-- An array of 512 page chunks is a whole number of chunks of every order.
whole_from : (npages d k : ℕ) → npages % 512 ≡ 0 → k + d ≡ 9 → (n : ℕ) × (npages ≡ n * 2 ^ k)
whole_from npages zero k h e =
    let nine : k ≡ 9 = omega arith in (npages / 512, rw nine (omega arith))
whole_from npages (suc d) k h e =
    let (n, w) = whole_from npages d (suc k) h (omega arith) in
    (n * 2, w ∙ ap (λ (x : ℕ). n * x) (double k) ∙ omega arith)

pub whole_of_512 : (npages k : ℕ) → npages % 512 ≡ 0 → k < 10 → (n : ℕ) × (npages ≡ n * 2 ^ k)
whole_of_512 npages k h b = whole_from npages (9 - k) k h (omega arith)

-- A pair whose left half begins inside the array ends inside it.
pub pair_within :
    (p k d npages : ℕ)
    → npages % 512 ≡ 0
    → k < 9
    → p ≡ d * 2 ^ suc k
    → p < npages
    → p + 2 ^ suc k ≤ npages
pair_within p k d npages h b e l =
    let (n, w) = whole_of_512 npages (suc k) h (omega arith) in
    elim (Bool-cases (ltb d n)) [
      | inl below ↦
          let q : (d + 1) * 2 ^ suc k ≤ n * 2 ^ suc k =
            mul_mono (d + 1) n (2 ^ suc k) (ground arith) in
          omega (arith, q, w, e)
      | inr above ↦
          let q : n * 2 ^ suc k ≤ d * 2 ^ suc k = mul_mono n d (2 ^ suc k) (ground arith) in
          absurd (omega (arith, q, w, e))
    ]
