-- ===== src/Str/Compare.antt =====
-- strcmp, strncmp and memcmp of lib/string.c. A byte is a number below 256, as the casts to
-- unsigned char read it, and the result of type int is an integer.
use advanced_operating_syste.Str.Memory.{IsString, Memory}
use advanced_operating_syste.Prelude.{
  List, Option, [], ap, arith, if◌then◌else◌, length, none, not, refl, some, subst, suc, take, zero,
  ℕ, ◌&&◌, ◌+◌, ◌<◌, ◌==◌, ◌↔◌, ◌∙◌, ◌∷◌, ◌≡◌,
}
use advanced_operating_syste.Prelude.Int.{ℤ, pos, sub_ℕ, neg_ℤ}

-- Fuel for the loop, which only a NUL or a difference ends.
unfoldable pub strcmp : ℕ → Memory → ℕ → ℕ → Option ℤ
strcmp zero m p q = none
strcmp (suc fuel) m p q =
    let rest = strcmp fuel m (p + 1) (q + 1) in
    if not (m p == 0) && m p == m q then rest else some (sub_ℕ (m p) (m q))

unfoldable pub strncmp : Memory → ℕ → ℕ → ℕ → ℤ
strncmp m p q zero = pos 0
strncmp m p q (suc n) =
    let rest = strncmp m (p + 1) (q + 1) n in
    if not (m p == 0) && m p == m q then rest else sub_ℕ (m p) (m q)

unfoldable pub memcmp : Memory → ℕ → ℕ → ℕ → ℤ
memcmp m s1 s2 zero = pos 0
memcmp m s1 s2 (suc n) =
    let rest = memcmp m (s1 + 1) (s2 + 1) n in
    if not (m s1 == m s2) then sub_ℕ (m s1) (m s2) else rest

-- The difference of two texts at the first place where they differ; an end counts as 0.
abbrev pub difference : List ℕ → List ℕ → ℤ
difference [] [] = pos 0
difference [] (y ∷ ys) = sub_ℕ 0 y
difference (x ∷ xs) [] = sub_ℕ x 0
difference (x ∷ xs) (y ∷ ys) = if x == y then difference xs ys else sub_ℕ x y

-- On strings, `strcmp` ends, and gives their difference.
pub strcmp-difference :
    (m : Memory) (xs ys : List ℕ) (p q fuel : ℕ)
    → IsString m p xs
    → IsString m q ys
    → length xs < fuel
    → strcmp fuel m p q ≡ some (difference xs ys)
unfolding strcmp
strcmp-difference m xs ys p q zero h k f = absurd (omega arith)
strcmp-difference m [] [] p q (suc fuel) h k f = ground arith
strcmp-difference m [] (y ∷ ys) p q (suc fuel) h k f = ground arith
strcmp-difference m (x ∷ xs) [] p q (suc fuel) h k f = ground arith
strcmp-difference m (x ∷ xs) (y ∷ ys) p q (suc fuel) h k f =
    ground (arith, strcmp-difference m xs ys (p + 1) (q + 1) fuel h.2 k.2)

difference_self : (xs : List ℕ) → difference xs xs ≡ pos 0
difference_self [] = refl
difference_self (x ∷ xs) = ground (arith, difference_self xs)

difference-zero :
    (m : Memory) (xs ys : List ℕ) (p q : ℕ)
    → IsString m p xs
    → IsString m q ys
    → difference xs ys ≡ pos 0
    → xs ≡ ys
difference-zero m [] [] p q h k e = refl
difference-zero m [] (y ∷ ys) p q h k e = ground arith
difference-zero m (x ∷ xs) [] p q h k e = ground arith
difference-zero m (x ∷ xs) (y ∷ ys) p q h k e =
    ground (arith, difference-zero m xs ys (p + 1) (q + 1) h.2 k.2)

-- `strcmp` of two strings, with more fuel than the first one is long, gives 0 exactly when they are
-- equal.
pub strcmp-zero_iff :
    (m : Memory) (xs ys : List ℕ) (p q fuel : ℕ)
    → IsString m p xs
    → IsString m q ys
    → length xs < fuel
    → (strcmp fuel m p q ≡ some (pos 0)) ↔ (xs ≡ ys)
strcmp-zero_iff m xs ys p q fuel h k f = (
  λ e. difference-zero m xs ys p q h k (ground (arith, strcmp-difference m xs ys p q fuel h k f)),
  λ e.
      strcmp-difference m xs ys p q fuel h k f
      ∙ subst (λ zs. some (difference xs zs) ≡ some (pos 0)) e (ap some (difference_self xs)),
)

difference_comm : (xs ys : List ℕ) → difference ys xs ≡ neg_ℤ (difference xs ys)
difference_comm [] [] = refl
difference_comm [] (y ∷ ys) = ground arith
difference_comm (x ∷ xs) [] = ground arith
difference_comm (x ∷ xs) (y ∷ ys) = ground (arith, difference_comm xs ys)

-- Compared the other way round, two strings give the opposite result, so the sign of `strcmp`
-- orders them.
pub strcmp_comm :
    (m : Memory) (xs ys : List ℕ) (p q fuel : ℕ) {r : ℤ}
    → IsString m p xs
    → IsString m q ys
    → length xs < fuel
    → length ys < fuel
    → strcmp fuel m p q ≡ some r
    → strcmp fuel m q p ≡ some (neg_ℤ r)
strcmp_comm m xs ys p q fuel {r} h k f g e =
    let d : difference xs ys ≡ r = ground (arith, strcmp-difference m xs ys p q fuel h k f) in
    strcmp-difference m ys xs q p fuel k h g ∙ ap some (difference_comm xs ys ∙ ap neg_ℤ d)

-- `strncmp` compares the first `n` bytes of the strings, as `strcmp` would compare strings that end
-- there.
pub strncmp-take :
    (m : Memory) (xs ys : List ℕ) (p q n : ℕ)
    → IsString m p xs
    → IsString m q ys
    → strncmp m p q n ≡ difference (take n xs) (take n ys)
unfolding strncmp
strncmp-take m [] [] p q zero h k = refl
strncmp-take m [] (y ∷ ys) p q zero h k = refl
strncmp-take m (x ∷ xs) [] p q zero h k = refl
strncmp-take m (x ∷ xs) (y ∷ ys) p q zero h k = refl
strncmp-take m [] [] p q (suc n) h k = ground arith
strncmp-take m [] (y ∷ ys) p q (suc n) h k = ground arith
strncmp-take m (x ∷ xs) [] p q (suc n) h k = ground arith
strncmp-take m (x ∷ xs) (y ∷ ys) p q (suc n) h k =
    ground (arith, strncmp-take m xs ys (p + 1) (q + 1) n h.2 k.2)

memcmp_same :
    (n : ℕ) (m : Memory) (a b : ℕ)
    → memcmp m a b n ≡ pos 0
    → (i : ℕ) → i < n
    → m (a + i) ≡ m (b + i)
unfolding memcmp
memcmp_same zero m a b e i l = elim l [ ]
memcmp_same (suc n) m a b e zero l = ground arith
memcmp_same (suc n) m a b e (suc i) l =
    ground (arith, memcmp_same n m (a + 1) (b + 1) (ground arith) i)

memcmp_equal :
    (n : ℕ) (m : Memory) (a b : ℕ)
    → ((i : ℕ) → i < n → m (a + i) ≡ m (b + i))
    → memcmp m a b n ≡ pos 0
unfolding memcmp
memcmp_equal zero m a b h = refl
memcmp_equal (suc n) m a b h =
    ground (arith, h 0, memcmp_equal n m (a + 1) (b + 1) (λ i l. ground (arith, h (suc i))))

-- `memcmp` gives 0 exactly when the two ranges hold the same bytes.
pub memcmp-zero_iff :
    (n : ℕ) (m : Memory) (a b : ℕ)
    → (memcmp m a b n ≡ pos 0) ↔ ((i : ℕ) → i < n → m (a + i) ≡ m (b + i))
memcmp-zero_iff n m a b = (memcmp_same n m a b, memcmp_equal n m a b)
