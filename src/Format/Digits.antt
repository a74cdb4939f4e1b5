-- ===== src/Format/Digits.antt =====
-- What printnum of lib/printfmt.c puts, and that strtol of lib/string.c reads it back.
use advanced_operating_syste.Prelude.{
  ◌≢◌, ◌⊎◌, Bool, false, if◌then◌else◌, leb→le, length-append, none, subst, true, ◌∙◌, Option, ap,
  leb, length, refl, zero, ◌-◌, List, [], arith, some, suc, ◌%◌, ◌*◌, ◌++◌, ◌+◌, ◌/◌, ◌<◌, ◌^◌, ◌∷◌,
  ◌≡◌, ◌≤◌, ℕ,
}
use mathlib.Core.List.{append_assoc}
use advanced_operating_syste.Format.Print.{
  number_fuel, pads_before, pads, then_put, width_less, printnum, digit_char,
}
use advanced_operating_syste.Prelude.Int.{negsuc, pos, pos_part, ℤ}
use advanced_operating_syste.Str.Number.{digit_of, digit_below}

-- The digits of a number, read from the left onto the value so far.
abbrev pub IsNumeral : ℕ → ℕ → List ℕ → ℕ → Type 0
IsNumeral base val [] num = val ≡ num
IsNumeral base val (c ∷ cs) num =
    (dig : ℕ) × (digit_below base (digit_of c) ≡ some dig)
    × IsNumeral base (val * base + dig) cs num

digit_char-digit_of :
    (base d : ℕ) → base ≤ 16 → d < base → digit_below base (digit_of (digit_char d)) ≡ some d
unfolding digit_of
digit_char-digit_of base d b h = ground arith

append-IsNumeral :
    (base val : ℕ) (cs : List ℕ) (num d : ℕ)
    → base ≤ 16
    → d < base
    → IsNumeral base val cs num
    → IsNumeral base val (cs ++ digit_char d ∷ []) (num * base + d)
append-IsNumeral base val [] num d b h n = (d, digit_char-digit_of base d b h, cc n)
append-IsNumeral base val (c ∷ cs) num d b h (dig, e, n) =
    (dig, e, append-IsNumeral base (val * base + dig) cs num d b h n)

quotient : (num base : ℕ) → 2 ≤ base → num / base * base + num % base ≡ num
quotient num base b = grind arith

remainder : (num base : ℕ) → 2 ≤ base → num % base < base
remainder num base b = grind arith

quotient_pos : (num base : ℕ) → 2 ≤ base → base ≤ num → 1 ≤ num / base
quotient_pos num base b h = grind arith

quotient_half : (num base n : ℕ) → 2 ≤ base → num < 2 ^ suc n → num / base < 2 ^ n
quotient_half num base n b h = grind arith

width_less-pos_part : (width : ℤ) → pos_part (width_less width 1) ≡ pos_part width - 1
width_less-pos_part (pos n) = ground arith
width_less-pos_part (negsuc n) = refl

-- No zero stands in front of other digits, and no digit is an upper-case letter.
abbrev pub NoLeadingZero : List ℕ → Type 0
NoLeadingZero [] = Unit {0}
NoLeadingZero (c ∷ []) = Unit {0}
NoLeadingZero (c ∷ d ∷ cs) = c ≢ b'0'

abbrev pub IsLower : List ℕ → Type 0
IsLower [] = Unit {0}
IsLower (c ∷ cs) = ((c ≤ b'9') ⊎ (b'a' ≤ c)) × IsLower cs

-- The digits of a number as they are written, `limit` at most.
pub record IsWritten (base : ℕ) (ds : List ℕ) (num limit : ℕ) : Type 0 where
  pub nonempty : 0 < length ds
  pub short : length ds ≤ limit
  pub numeral : IsNumeral base 0 ds num
  pub no_leading_zero : NoLeadingZero ds
  pub lower : IsLower ds

digit_char-IsLower : (d : ℕ) → (digit_char d ≤ b'9') ⊎ (b'a' ≤ digit_char d)
digit_char-IsLower d = ground arith

append-IsLower : (cs : List ℕ) (d : ℕ) → IsLower cs → IsLower (cs ++ digit_char d ∷ [])
append-IsLower [] d l = (digit_char-IsLower d, tt)
append-IsLower (c ∷ cs) d (l, ls) = (l, append-IsLower cs d ls)

not_zero : (base c num : ℕ) → IsNumeral base 0 (c ∷ []) num → 1 ≤ num → c ≢ b'0'
unfolding digit_of
not_zero base c num (dig, e, n) h z = ground arith

append-NoLeadingZero :
    (base : ℕ) (cs : List ℕ) (num d : ℕ)
    → 1 ≤ num
    → 0 < length cs
    → IsNumeral base 0 cs num
    → NoLeadingZero cs
    → NoLeadingZero (cs ++ digit_char d ∷ [])
append-NoLeadingZero base [] num d h l n z = tt
append-NoLeadingZero base (c ∷ []) num d h l n z = not_zero base c num n h
append-NoLeadingZero base (c ∷ x ∷ cs) num d h l n z = z

-- What printnum puts for a number, within `limit` digits.
abbrev Prints : ℕ → ℕ → ℤ → ℕ → ℕ → Option (List ℕ) → Type 0
Prints num base width padc limit result =
    (ds : List ℕ) × (result ≡ some (pads padc (pos_part width - length ds) ++ ds))
    × IsWritten base ds num limit

pads_before-pads : (padc : ℕ) (width : ℤ) → pads_before padc width ≡ pads padc (pos_part width - 1)
pads_before-pads padc (pos n) = refl
pads_before-pads padc (negsuc n) = refl

one_digit :
    (num base : ℕ) → base ≤ 16 → num < base → IsNumeral base 0 (digit_char (num % base) ∷ []) num
one_digit num base b h =
    let same : num % base ≡ num = grind arith in
    rw same (num, digit_char-digit_of base num b h, omega arith)

last_digit :
    (num base : ℕ) (width : ℤ) (padc limit : ℕ)
    → base ≤ 16
    → num < base
    → 1 ≤ limit
    → Prints num base width padc limit
        (then_put (some (pads_before padc width)) (digit_char (num % base) ∷ []))
last_digit num base width padc limit b h l = (
  digit_char (num % base) ∷ [],
  ap (λ xs. some (xs ++ digit_char (num % base) ∷ [])) (pads_before-pads padc width),
  record {
    nonempty = omega arith;
    short = omega arith;
    numeral = one_digit num base b h;
    no_leading_zero = tt;
    lower = (digit_char-IsLower (num % base), tt);
  },
)

one_more :
    (width : ℤ) (ds : List ℕ) (d : ℕ)
    → pos_part (width_less width 1) - length ds ≡ pos_part width - length (ds ++ d ∷ [])
one_more width ds d = omega (arith, width_less-pos_part width, length-append ds (d ∷ []))

more_digits :
    (num base : ℕ) (width : ℤ) (padc limit : ℕ) (before : Option (List ℕ))
    → base ≤ 16
    → 2 ≤ base
    → 1 ≤ num / base
    → Prints (num / base) base (width_less width 1) padc limit before
    → Prints num base width padc (suc limit) (then_put before (digit_char (num % base) ∷ []))
more_digits num base width padc limit before b b2 q (ds, e, w) =
    let d : ℕ = digit_char (num % base) in
    (
      ds ++ d ∷ [],
      ap (λ o. then_put o (d ∷ [])) e
          ∙ ap some
              (append_assoc (pads padc (pos_part (width_less width 1) - length ds)) ds (d ∷ []))
          ∙ ap (λ k. some (pads padc k ++ (ds ++ d ∷ []))) (one_more width ds d),
      record {
        nonempty = omega (arith, length-append ds (d ∷ []));
        short = omega (arith, length-append ds (d ∷ []), w.short);
        numeral =
            subst (λ v. IsNumeral base 0 (ds ++ d ∷ []) v) (quotient num base b2)
              (append-IsNumeral base 0 ds (num / base) (num % base) b (remainder num base b2)
                w.numeral);
        no_leading_zero =
            append-NoLeadingZero base ds (num / base) (num % base) q w.nonempty w.numeral
              w.no_leading_zero;
        lower = append-IsLower ds (num % base) w.lower;
      },
    )

either_way :
    (num base : ℕ) (width : ℤ) (padc limit : ℕ) (t : Bool) (x y : Option (List ℕ)) (d : List ℕ)
    → (t ≡ true → Prints num base width padc limit (then_put x d))
    → (t ≡ false → Prints num base width padc limit (then_put y d))
    → Prints num base width padc limit (then_put (if t then x else y) d)
either_way num base width padc limit true x y d taken left = taken refl
either_way num base width padc limit false x y d taken left = left refl

printnum-Prints_within :
    (fuel num base : ℕ) (width : ℤ) (padc : ℕ)
    → 2 ≤ base
    → base ≤ 16
    → num < 2 ^ suc fuel
    → Prints num base width padc (suc fuel) (printnum (suc fuel) num base width padc)
unfolding printnum
printnum-Prints_within zero num base width padc b b16 h =
    either_way num base width padc 1 (leb base num) none (some (pads_before padc width))
      (digit_char (num % base) ∷ []) (λ t. absurd (omega (arith, leb→le base num t)))
      (λ f. last_digit num base width padc 1 b16 (omega arith) (omega arith))
printnum-Prints_within (suc fuel) num base width padc b b16 h =
    either_way num base width padc (suc (suc fuel)) (leb base num)
      (printnum (suc fuel) (num / base) base (width_less width 1) padc)
      (some (pads_before padc width)) (digit_char (num % base) ∷ [])
      (λ t.
        more_digits num base width padc (suc fuel)
          (printnum (suc fuel) (num / base) base (width_less width 1) padc) b16 b
          (quotient_pos num base b (leb→le base num t))
          (printnum-Prints_within fuel (num / base) base (width_less width 1) padc b b16
            (quotient_half num base (suc fuel) b h)))
      (λ f. last_digit num base width padc (suc (suc fuel)) b16 (ground arith) (omega arith))

-- printnum of a number of 64 bits in a base from 2 to 16 ends within 64 calls: it puts the number's
-- digits in lower case, from 1 to 64 of them and none of several a leading zero, and in front of them
-- as many pad characters as the width has more.
pub printnum-IsNumeral :
    (num base : ℕ) (width : ℤ) (padc : ℕ)
    → 2 ≤ base
    → base ≤ 16
    → num < 2 ^ 64
    → (ds : List ℕ) × (printnum number_fuel num base width padc
        ≡ some (pads padc (pos_part width - length ds) ++ ds))
      × IsWritten base ds num 64
printnum-IsNumeral num base width padc b b16 h =
    printnum-Prints_within 63 num base width padc b b16 h
