-- ===== src/Format/Print.antt =====
-- printnum, getuint, getint and the string and error conversions of lib/printfmt.c.
use advanced_operating_syste.Prelude.Int.{neg_part, neg_ℤ, sub_ℕ, pos, pos_part, negsuc, ℤ}
use advanced_operating_syste.Str.Memory.{Memory}
use advanced_operating_syste.Str.Scan.{strnlen}
use advanced_operating_syste.Prelude.{
  Bool, List, [], false, get_or, if◌then◌else◌, leb, length, ltb, not, suc, true, zero, ◌%◌, ◌&&◌,
  ◌++◌, ◌+◌, ◌-◌, ◌/◌, ◌==◌, ◌^◌, ◌||◌, ◌∷◌, ℕ, Option, none, some,
}
use Prim.Native.Char.{code}
use Prim.Native.String.{String}
use mathlib.Core.Option

-- `while (--width > 0) putch(padc, putdat);`, where `width` starts above the `n` characters.
abbrev pub pads : ℕ → ℕ → List ℕ
pads padc zero = []
pads padc (suc n) = padc ∷ pads padc n

abbrev pub pads_before : ℕ → ℤ → List ℕ
pads_before padc (pos width) = pads padc (width - 1)
pads_before padc (negsuc n) = []

abbrev pub width_less : ℤ → ℕ → ℤ
width_less (pos width) n = sub_ℕ width n
width_less (negsuc k) n = negsuc (k + n)

-- `"0123456789abcdef"[d]`.
abbrev pub digit_char : ℕ → ℕ
digit_char d = if ltb d 10 then 48 + d else 87 + d

abbrev pub then_put : Option (List ℕ) → List ℕ → Option (List ℕ)
then_put none ys = none
then_put (some xs) ys = some (xs ++ ys)

-- The recursion is on fuel.
unfoldable pub printnum : ℕ → ℕ → ℕ → ℤ → ℕ → Option (List ℕ)
printnum zero num base width padc = none
printnum (suc fuel) num base width padc =
    let before = printnum fuel (num / base) base (width_less width 1) padc in
    then_put (if leb base num then before else some (pads_before padc width))
      (digit_char (num % base) ∷ [])

-- The value of `va_arg`, by the size of its type.
abbrev pub getuint : ℕ → ℕ → ℕ
getuint lflag slot =
    if leb 2 lflag then slot % 2 ^ 64 else if leb 1 lflag then slot % 2 ^ 64 else slot % 2 ^ 32

-- An int of 32 bits as 64 bits.
abbrev pub extended : ℕ → ℕ
extended int = if ltb int (2 ^ 31) then int else int + (2 ^ 64 - 2 ^ 32)

abbrev pub getint : ℕ → ℕ → ℕ
getint lflag slot =
    if leb 2 lflag
    then slot % 2 ^ 64
    else if leb 1 lflag
    then slot % 2 ^ 64
    else extended (slot % 2 ^ 32)

abbrev pub number_fuel : ℕ
number_fuel = 64

-- The case 'd'.
unfoldable pub print_signed : ℕ → ℤ → ℕ → Option (List ℕ)
unfolding printnum
print_signed num width padc =
    if leb (2 ^ 63) num
    then Option.map (λ xs. 45 ∷ xs) (printnum number_fuel ((2 ^ 64 - num) % 2 ^ 64) 10 width padc)
    else printnum number_fuel num 10 width padc

-- The characters of a string literal.
abbrev pub codes : String → List ℕ
codes String.[] = []
codes (String.◌∷◌ c cs) = code c ∷ codes cs

-- The table error_string by its index, where `none` is NULL.
abbrev error_strings : List (Option (List ℕ))
error_strings =
    none
    ∷ some (codes "Resources temporarily unavailable")
    ∷ some (codes "No child process")
    ∷ none
    ∷ some (codes "Bad address")
    ∷ some (codes "Invalid argument")
    ∷ some (codes "Not enough space")
    ∷ some (codes "Function not implemented")
    ∷ some (codes "Operation not permitted")
    ∷ []

abbrev pub error_string : ℕ → Option (List ℕ)
error_string err = get_or error_strings err none

-- The case 'e'. Its two calls of printfmt are written out: the format "%s" puts the text, and the
-- format "error %d" puts its letters and then `err` as the case 'd' does.
abbrev pub put_error : Option (List ℕ) → ℕ → Option (List ℕ)
put_error none err =
    Option.map (λ xs. codes "error " ++ xs) (print_signed (extended err) (negsuc 0) 32)
put_error (some text) err = some text

-- `err` is an int: its 32-bit pattern.
abbrev pub absolute : ℕ → ℕ
absolute err = if leb (2 ^ 31) err then (2 ^ 32 - err) % 2 ^ 32 else err

unfoldable pub print_error : ℕ → Option (List ℕ)
unfolding print_signed
print_error err = let size = absolute err in put_error (error_string size) size

-- The characters of a string argument, by their place: NULL stands for "(null)".
abbrev pub text_of : Memory → ℕ → Memory
text_of m p i = if p == 0 then get_or (codes "(null)") i 0 else m (p + i)

-- A character that the flag '#' replaces.
abbrev pub shown : Bool → ℕ → ℕ
shown altflag ch = if altflag && (ltb ch 32 || ltb 126 ch) then 63 else ch

-- `precision < 0 || --precision >= 0`: the new precision, or `none` for the end of the loop.
abbrev pub next_precision : ℤ → Option ℤ
next_precision (negsuc n) = some (negsuc n)
next_precision (pos zero) = none
next_precision (pos (suc n)) = some (pos n)

-- The characters that the loop over the string puts.
unfoldable pub string_loop : ℕ → Memory → ℕ → ℤ → Bool → Option (List ℕ)
string_loop zero text i precision altflag = none
string_loop (suc fuel) text i precision altflag = elim (text i == 0) [
  | true ↦ some []
  | false ↦ elim (next_precision precision) [
    | none ↦ some []
    | some precision ↦
        Option.map (λ xs. shown altflag (text i) ∷ xs)
          (string_loop fuel text (i + 1) precision altflag)
  ]
]

-- The precision as a size_t.
abbrev pub as_size : ℤ → ℕ
as_size (pos n) = n
as_size (negsuc n) = 2 ^ 64 - 1 - n

-- The width that is left behind the padding in front.
abbrev pub width_left : Memory → ℤ → ℤ → ℕ → ℤ
width_left text width precision padc =
    if ltb 0 (pos_part width) && not (padc == b'-')
    then width_less width (strnlen text 0 (as_size precision))
    else width

abbrev pub pads_left : ℤ → ℤ → ℕ → List ℕ
pads_left width left padc =
    if ltb 0 (pos_part width) && not (padc == b'-') then pads padc (pos_part left) else []

-- The padding in front counts the width down to 0.
abbrev pub width_after : ℤ → ℤ → ℕ → ℤ
width_after width left padc =
    if ltb 0 (pos_part width) && not (padc == b'-') then neg_ℤ (pos (neg_part left)) else width

abbrev pub pads_right : ℤ → ℕ → List ℕ
pads_right left n = pads b' ' (pos_part (width_less left n))

-- The case 's'.
unfoldable pub print_string : ℕ → Memory → ℕ → ℤ → ℤ → ℕ → Bool → Option (List ℕ)
unfolding string_loop strnlen
print_string fuel m p width precision padc altflag =
    let text = text_of m p in
    let left = width_left text width precision padc in
    Option.map
      (λ xs.
        pads_left width left padc ++ (xs ++ pads_right (width_after width left padc) (length xs)))
      (string_loop fuel text 0 precision altflag)
