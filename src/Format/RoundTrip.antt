-- ===== src/Format/RoundTrip.antt =====
-- strtol of lib/string.c reads back what printnum of lib/printfmt.c puts.
use advanced_operating_syste.Str.Number.{
  signed, from_prefix, after_sign, from_sign, strtol, after_prefix, digit_of, digit_below,
  digits_loop, skip_blanks,
}
use advanced_operating_syste.Prelude.{
  Option, ap, ◌∙◌, ◌-◌, subst, none, refl, List, [], arith, false, length, mul_mono, some, suc,
  zero, ◌%◌, ◌*◌, ◌++◌, ◌+◌, ◌<◌, ◌==◌, ◌^◌, ◌||◌, ◌∷◌, ◌≡◌, ◌≤◌, ℕ,
}
use advanced_operating_syste.Prelude.Int.{pos_part, ℤ}
use advanced_operating_syste.Format.Digits.{printnum-IsNumeral, IsNumeral}
use advanced_operating_syste.Format.Print.{number_fuel, printnum, pads}
use advanced_operating_syste.Str.Memory.{IsString, Memory}

module _ (base c dig : ℕ) (b : base ≤ 16) (h : digit_below base (digit_of c) ≡ some dig) where
  is_no_sign : ((c == 32 || c == 9) ≡ false) × ((c == 43) ≡ false) × ((c == 45) ≡ false)
  unfolding digit_of
  is_no_sign = (ground arith, ground arith, ground arith)

  is_no_x : (c == 120) ≡ false
  unfolding digit_of
  is_no_x = ground arith

IsNumeral-grows :
    (base val : ℕ) (ds : List ℕ) (num : ℕ) → 1 ≤ base → IsNumeral base val ds num → val ≤ num
IsNumeral-grows base val [] num b n = ground arith
IsNumeral-grows base val (c ∷ ds) num b (dig, e, n) =
    grind (arith, IsNumeral-grows base (val * base + dig) ds num b n, mul_mono 1 base val b)

none_at_end : (base : ℕ) → digit_below base (digit_of 0) ≡ none
unfolding digit_of
none_at_end base = refl

-- A round of the loop over the digits, by what the character is.
digits_round :
    (m : Memory) (fuel s base val : ℕ) (d : Option ℕ)
    → digit_below base (digit_of (m s)) ≡ d
    → digits_loop (suc fuel) m s base val ≡ elim d [
      | none ↦ some (val, s)
      | some dig ↦ digits_loop fuel m (s + 1) base ((val * base + dig) % 2 ^ 64)
    ]
unfolding digits_loop
digits_round m fuel s base val d e =
    ap
      (λ d. elim d as (λ _. Option (ℕ × ℕ)) [
        | none ↦ some (val, s)
        | some dig ↦ digits_loop fuel m (s + 1) base ((val * base + dig) % 2 ^ 64)
      ])
      e

digits_loop-IsNumeral :
    (m : Memory) (ds : List ℕ) (fuel s base val num : ℕ)
    → 1 ≤ base
    → num < 2 ^ 64
    → IsString m s ds
    → IsNumeral base val ds num
    → length ds < fuel
    → digits_loop fuel m s base val ≡ some (num, s + length ds)
digits_loop-IsNumeral m ds zero s base val num b l h n f = elim f [ ]
digits_loop-IsNumeral m [] (suc fuel) s base val num b l h n f =
    let same : s ≡ s + 0 = omega arith in
    digits_round m fuel s base val none (rw h (none_at_end base))
    ∙ ap (λ p. some p) (ap (λ v. (v, s)) n ∙ ap (λ p. (num, p)) same)
digits_loop-IsNumeral m (c ∷ ds) (suc fuel) s base val num b l (h, z, hs) (dig, e, n) f =
    let bound : (val * base + dig) % 2 ^ 64 ≡ val * base + dig =
      omega (arith, IsNumeral-grows base (val * base + dig) ds num b n) in
    let end : s + 1 + length ds ≡ s + suc (length ds) = omega arith in
    digits_round m fuel s base val (some dig) (rw h e)
    ∙ ap (λ v. digits_loop fuel m (s + 1) base v) bound
    ∙ digits_loop-IsNumeral m ds fuel (s + 1) base (val * base + dig) num b l hs n (omega arith)
    ∙ ap (λ p. some (num, p)) end

skip_blanks-pads :
    (m : Memory) (k : ℕ) (ds : List ℕ) (fuel s t : ℕ)
    → ((m t == 32 || m t == 9) ≡ false)
    → t ≡ s + k
    → IsString m s (pads 32 k ++ ds)
    → k < fuel
    → skip_blanks fuel m s ≡ some t
unfolding skip_blanks
skip_blanks-pads m k ds zero s t c e h f = elim f [ ]
skip_blanks-pads m zero ds (suc fuel) s t c e h f =
    let same : s ≡ t = omega arith in rw same (rw c refl)
skip_blanks-pads m (suc k) ds (suc fuel) s t c e (h, z, hs) f =
    let found = skip_blanks-pads m k ds fuel (s + 1) t c (omega arith) hs (omega arith) in
    rw h found

-- At the first digit there is no sign and no prefix.
after_prefix-IsNumeral :
    (m : Memory) (base c v : ℕ) (t : ℕ) (ds : List ℕ) (num : ℕ)
    → 2 ≤ base
    → base ≤ 16
    → IsString m (t + 1) ds
    → IsNumeral base v ds num
    → after_prefix m t base ≡ (base, t)
after_prefix-IsNumeral m base c v t [] num b b16 h n = ground arith
after_prefix-IsNumeral m base c v t (x ∷ ds) num b b16 (h, z, hs) (dig, e, n) =
    let plain = is_no_x base x dig b16 e in ground arith

-- strtol at the first digit.
from_sign-IsNumeral :
    (m : Memory) (base : ℕ) (ds : List ℕ) (fuel t num : ℕ)
    → 2 ≤ base
    → base ≤ 16
    → num < 2 ^ 64
    → IsString m t ds
    → IsNumeral base 0 ds num
    → 0 < length ds
    → length ds < fuel
    → ((m t == 32 || m t == 9) ≡ false)
      × (from_sign fuel m base (after_sign m t) ≡ some (num, t + length ds))
from_sign-IsNumeral m base [] fuel t num b b16 h str n l f = elim l [ ]
from_sign-IsNumeral m base (c ∷ ds) fuel t num b b16 h (at, z, str) (dig, e, n) l f =
    let (blank, plus, minus) = is_no_sign base c dig b16 e in
    let digits =
      digits_loop-IsNumeral m (c ∷ ds) fuel t base 0 num (omega arith) h (at, z, str) (dig, e, n)
        f in
    let plain = after_prefix-IsNumeral m base c (0 * base + dig) t ds num b b16 str n in
    let signs : after_sign m t ≡ (false, t) = rw (at, plus, minus) refl in
    (
      rw at blank,
      ap (from_sign fuel m base) signs
          ∙ ap (from_prefix fuel m false) plain
          ∙ ap (signed false) digits,
    )

pads-length : (k : ℕ) (ds : List ℕ) → length (pads 32 k ++ ds) ≡ k + length ds
pads-length zero ds = omega arith
pads-length (suc k) ds = omega (arith, pads-length k ds)

-- What stands behind the blanks.
behind_pads :
    (m : Memory) (k : ℕ) (ds : List ℕ) (s : ℕ)
    → IsString m s (pads 32 k ++ ds)
    → IsString m (s + k) ds
behind_pads m zero ds s h =
    let same : s ≡ s + 0 = omega arith in subst (λ p. IsString m p ds) same h
behind_pads m (suc k) ds s (h, z, hs) =
    let same : s + 1 + k ≡ s + suc k = omega arith in
    subst (λ p. IsString m p ds) same (behind_pads m k ds (s + 1) hs)

-- The text that printnum puts for a number below 2 ^ 63 in a base from 2 to 16, padded with blanks
-- to any width, is read back by strtol in the same base, if it stands in memory as a string: strtol
-- ends within as many rounds as the text is long, gives the number, and stops at the text's end.
pub strtol-printnum :
    (m : Memory) (s num base fuel : ℕ) (width : ℤ) (xs : List ℕ)
    → 2 ≤ base
    → base ≤ 16
    → num < 2 ^ 63
    → printnum number_fuel num base width b' ' ≡ some xs
    → IsString m s xs
    → length xs < fuel
    → strtol fuel m s base ≡ some (num, s + length xs)
unfolding strtol
strtol-printnum m s num base fuel width xs b b16 h p str f =
    let (ds, e, w) = printnum-IsNumeral num base width b' ' b b16 (omega arith) in
    let k : ℕ = pos_part width - length ds in
    let text : xs ≡ pads b' ' k ++ ds = cc (p, e) in
    let here = subst (IsString m s) text str in
    let long : length xs ≡ k + length ds = ap length text ∙ pads-length k ds in
    let (blank, read) =
      from_sign-IsNumeral m base ds fuel (s + k) num b b16 (omega arith) (behind_pads m k ds s here)
        w.numeral w.nonempty (omega arith) in
    let skipped = skip_blanks-pads m k ds fuel s (s + k) blank refl here (omega arith) in
    let end : s + k + length ds ≡ s + length xs = omega arith in rw (skipped, read, end) refl
