-- ===== src/Str/Number.antt =====
-- strtol of lib/string.c. A `long` is its 64-bit pattern. The two loops are bounded by the text and
-- take fuel.
use advanced_operating_syste.Prelude.{
  Bool, false, if◌then◌else◌, leb, suc, true, zero, ◌%◌, ◌&&◌, ◌*◌, ◌+◌, ◌-◌, ◌==◌, ◌^◌, ◌||◌, ℕ,
  Option, none, some,
}
use advanced_operating_syste.Str.Memory.{Memory}

-- The blanks that the first loop skips.
unfoldable pub skip_blanks : ℕ → Memory → ℕ → Option ℕ
skip_blanks zero m s = none
skip_blanks (suc fuel) m s =
    let rest = skip_blanks fuel m (s + 1) in if m s == 32 || m s == 9 then rest else some s

-- Whether there is a minus sign, and what follows the sign.
abbrev pub after_sign : Memory → ℕ → Bool × ℕ
after_sign m s =
    if m s == 43 then (false, s + 1) else if m s == 45 then (true, s + 1) else (false, s)

-- The base, and what follows its prefix.
abbrev pub after_prefix : Memory → ℕ → ℕ → ℕ × ℕ
after_prefix m s base =
    if (base == 0 || base == 16) && (m s == 48 && m (s + 1) == 120)
    then (16, s + 2)
    else if base == 0 && m s == 48
    then (8, s + 1)
    else if base == 0
    then (10, s)
    else (base, s)

-- The value of a digit; `none` is the `break`.
unfoldable pub digit_of : ℕ → Option ℕ
digit_of c =
    if leb 48 c && leb c 57
    then some (c - 48)
    else if leb 97 c && leb c 122
    then some (c - 97 + 10)
    else if leb 65 c && leb c 90
    then some (c - 65 + 10)
    else none

abbrev pub digit_below : ℕ → Option ℕ → Option ℕ
digit_below base none = none
digit_below base (some dig) = if leb base dig then none else some dig

-- The value and the end of the digits.
unfoldable pub digits_loop : ℕ → Memory → ℕ → ℕ → ℕ → Option (ℕ × ℕ)
digits_loop zero m s base val = none
digits_loop (suc fuel) m s base val = elim (digit_below base (digit_of (m s))) [
  | none ↦ some (val, s)
  | some dig ↦ digits_loop fuel m (s + 1) base ((val * base + dig) % 2 ^ 64)
]

abbrev pub negated : Bool → ℕ → ℕ
negated neg val = if neg then (2 ^ 64 - val) % 2 ^ 64 else val

abbrev pub signed : Bool → Option (ℕ × ℕ) → Option (ℕ × ℕ)
signed neg none = none
signed neg (some (val, s)) = some (negated neg val, s)

abbrev pub from_prefix : ℕ → Memory → Bool → ℕ × ℕ → Option (ℕ × ℕ)
from_prefix fuel m neg (base, s) = signed neg (digits_loop fuel m s base 0)

abbrev pub from_sign : ℕ → Memory → ℕ → Bool × ℕ → Option (ℕ × ℕ)
from_sign fuel m base (neg, s) = from_prefix fuel m neg (after_prefix m s base)

abbrev pub from_start : ℕ → Memory → ℕ → Option ℕ → Option (ℕ × ℕ)
from_start fuel m base none = none
from_start fuel m base (some s) = from_sign fuel m base (after_sign m s)

-- The result, and what is stored through `endptr` when that is not NULL.
unfoldable pub strtol : ℕ → Memory → ℕ → ℕ → Option (ℕ × ℕ)
unfolding skip_blanks digits_loop digit_of
strtol fuel m s base = from_start fuel m base (skip_blanks fuel m s)
