-- ===== src/Prelude/Lists.antt =====
-- Lists measured and indexed by the native numbers, under the library's names, and the number of
-- times that a node stands in a list.
use Prim.Native.Nat.{ℕ, zero, suc, ◌+◌}
use mathlib.Core.Path.{◌≡◌}
use mathlib.Core.List.{List, [], ◌∷◌, ◌++◌}
use native.Mathlib.Omega.{arith}
use advanced_operating_syste.Prelude.Tests.{◌==◌, if◌then◌else◌}

module _ {ℓ} {A : Type ℓ} where
  abbrev pub length : List A → ℕ
  length [] = 0
  length (x ∷ xs) = suc (length xs)

  pub length-append : (xs ys : List A) → length (xs ++ ys) ≡ length xs + length ys
  length-append [] ys = omega arith
  length-append (x ∷ xs) ys = omega (arith, length-append xs ys)

module _ {ℓ} {A : Type ℓ} where
  abbrev pub take : ℕ → List A → List A
  take zero xs = []
  take (suc n) [] = []
  take (suc n) (x ∷ xs) = x ∷ take n xs

  abbrev pub get_or : List A → ℕ → A → A
  get_or [] i d = d
  get_or (x ∷ xs) zero d = x
  get_or (x ∷ xs) (suc i) d = get_or xs i d

abbrev pub one_if : ℕ → ℕ → ℕ
one_if x p = if x == p then 1 else 0

abbrev pub count : ℕ → List ℕ → ℕ
count p [] = 0
count p (x ∷ xs) = one_if x p + count p xs

pub count-append : (p : ℕ) (xs ys : List ℕ) → count p (xs ++ ys) ≡ count p xs + count p ys
count-append p [] ys = omega arith
count-append p (x ∷ xs) ys = omega (arith, count-append p xs ys)

pub one_if_self : (p : ℕ) → one_if p p ≡ 1
one_if_self p = ground arith
