-- ===== src/Format.antt =====
-- lib/printfmt.c: the interpreter of format strings. The characters handed to `putch` are a list, in
-- the order of the calls; an int among them is its 32-bit pattern. The argument list of the compiler
-- is a list of 64-bit slots, as the processor's calling convention has it, and reading past its end
-- gives `none`. Widths and precisions do not overflow an int.
pub mod Print
pub mod Digits
pub mod RoundTrip
pub mod Buffer
pub mod Spec
pub mod Pieces
mod Tests
use advanced_operating_syste.Format.Print.{
  getuint, getint, print_string, number_fuel, print_signed, print_error, printnum,
}
use advanced_operating_syste.Prelude.Int.{pos, negsuc, ℤ}
use advanced_operating_syste.Str.Memory.{Memory}
use mathlib.Core.Option
use advanced_operating_syste.Prelude.{
  Bool, List, Option, [], false, if◌then◌else◌, leb, ltb, map, none, some, suc, true, zero, ◌%◌,
  ◌&&◌, ◌*◌, ◌++◌, ◌+◌, ◌-◌, ◌==◌, ◌^◌, ◌||◌, ◌∷◌, ℕ,
}

-- The locals of vprintfmt that a flag or a width sets.
pub record Flags : Type 0 where
  pub padc : ℕ
  pub width : ℤ
  pub precision : ℤ
  pub lflag : ℕ
  pub altflag : Bool

abbrev pub no_flags : Flags
no_flags = record {
  padc = b' ';
  width = negsuc 0;
  precision = negsuc 0;
  lflag = 0;
  altflag = false;
}

-- Where the interpreter stands: at the top of the inner loop, or at `reswitch`.
pub data Position : Type 0 where
  at_text : Position
  at_switch : Flags → Position

-- The arguments that are left, the format that is left, and the place.
pub record Cursor : Type 0 where
  pub fmt : ℕ
  pub args : List ℕ
  pub place : Position

-- What a step does: it returns, or puts characters and goes on.
pub data Outcome : Type 0 where
  returned : Outcome
  put : List ℕ → Cursor → Outcome

-- The labels of the switch.
pub data Label : Type 0 where
  case_minus case_zero case_digit case_star case_dot case_hash case_long : Label
  case_char case_error case_string case_signed case_unsigned case_octal : Label
  case_pointer case_hex case_percent case_default : Label

abbrev pub label_of : ℕ → Label
label_of ch =
    if ch == b'-'
    then case_minus
    else if ch == b'0'
    then case_zero
    else if leb b'1' ch && leb ch b'9'
    then case_digit
    else if ch == b'*'
    then case_star
    else if ch == b'.'
    then case_dot
    else if ch == b'#'
    then case_hash
    else if ch == b'l'
    then case_long
    else if ch == b'c'
    then case_char
    else if ch == b'e'
    then case_error
    else if ch == b's'
    then case_string
    else if ch == b'd'
    then case_signed
    else if ch == b'u'
    then case_unsigned
    else if ch == b'o'
    then case_octal
    else if ch == b'p'
    then case_pointer
    else if ch == b'x'
    then case_hex
    else if ch == b'%'
    then case_percent
    else case_default

-- The loop of the width field: its value and where the format goes on.
unfoldable pub width_loop : ℕ → Memory → ℕ → ℕ → ℕ → Option (ℕ × ℕ)
width_loop zero m fmt ch precision = none
width_loop (suc fuel) m fmt ch precision =
    let now = precision * 10 + ch - b'0' in
    let rest = width_loop fuel m (fmt + 1) (m fmt) now in
    if ltb (m fmt) b'0' || ltb b'9' (m fmt) then some (now, fmt) else rest

-- `fmt--; fmt[-1] != '%'; fmt--`: the place behind the last '%' before `fmt`.
abbrev pub behind_percent : Memory → ℕ → Option ℕ
behind_percent m zero = none
behind_percent m (suc p) = if m p == b'%' then some (suc p) else behind_percent m p

-- The label process_precision, with the new precision.
abbrev pub process_precision : ℤ → Flags → Flags
process_precision (pos n) f = elim f.width [
  | negsuc k ↦ record f { width = pos n; precision = negsuc 0 }
  | pos w ↦ record f { precision = pos n }
]
process_precision (negsuc n) f = elim f.width [
  | negsuc k ↦ record f { width = negsuc n; precision = negsuc 0 }
  | pos w ↦ record f { precision = negsuc n }
]

-- `if (width < 0) width = 0;`
abbrev pub not_negative : ℤ → ℤ
not_negative (pos n) = pos n
not_negative (negsuc n) = pos 0

-- The value of an int in a slot.
abbrev pub int_of : ℕ → ℤ
int_of slot =
    if ltb (slot % 2 ^ 32) (2 ^ 31)
    then pos (slot % 2 ^ 32)
    else negsuc (2 ^ 32 - 1 - slot % 2 ^ 32)

-- What a case puts that ends in `break`.
abbrev pub put_all : ℕ → List ℕ → Option (List ℕ) → Option Outcome
put_all fmt args none = none
put_all fmt args (some xs) = some (put xs (record { fmt = fmt; args = args; place = at_text }))

abbrev pub go_on : ℕ → List ℕ → Flags → Option Outcome
go_on fmt args f = some (put [] (record { fmt = fmt; args = args; place = at_switch f }))

-- `va_arg`.
abbrev pub va_arg : List ℕ → (ℕ → List ℕ → Option Outcome) → Option Outcome
va_arg [] use_slot = none
va_arg (slot ∷ args) use_slot = use_slot slot args

abbrev pub number : ℕ → Flags → ℕ → Option (List ℕ)
number num f base = printnum number_fuel num base f.width f.padc

-- The switch: `fmt` stands behind the character `ch`.
abbrev pub switch : ℕ → Memory → Flags → ℕ → ℕ → List ℕ → Label → Option Outcome
switch fuel m f ch fmt args case_minus = go_on fmt args (record f { padc = b'-' })
switch fuel m f ch fmt args case_zero = go_on fmt args (record f { padc = b'0' })
switch fuel m f ch fmt args case_digit = elim (width_loop fuel m fmt ch 0) [
  | none ↦ none
  | some (precision, fmt) ↦ go_on fmt args (process_precision (pos precision) f)
]
switch fuel m f ch fmt args case_star =
    va_arg args (λ slot args. go_on fmt args (process_precision (int_of slot) f))
switch fuel m f ch fmt args case_dot = go_on fmt args (record f { width = not_negative f.width })
switch fuel m f ch fmt args case_hash = go_on fmt args (record f { altflag = true })
switch fuel m f ch fmt args case_long = go_on fmt args (record f { lflag = f.lflag + 1 })
switch fuel m f ch fmt args case_char =
    va_arg args (λ slot args. put_all fmt args (some (slot % 2 ^ 32 ∷ [])))
switch fuel m f ch fmt args case_error =
    va_arg args (λ slot args. put_all fmt args (print_error (slot % 2 ^ 32)))
switch fuel m f ch fmt args case_string =
    va_arg args (λ slot args.
      put_all fmt args (print_string fuel m slot f.width f.precision f.padc f.altflag))
switch fuel m f ch fmt args case_signed =
    va_arg args (λ slot args. put_all fmt args (print_signed (getint f.lflag slot) f.width f.padc))
switch fuel m f ch fmt args case_unsigned =
    va_arg args (λ slot args. put_all fmt args (number (getuint f.lflag slot) f 10))
switch fuel m f ch fmt args case_octal =
    va_arg args (λ slot args. put_all fmt args (number (getuint f.lflag slot) f 8))
switch fuel m f ch fmt args case_pointer = va_arg args (λ slot args.
    put_all fmt args (Option.map (λ xs. b'0' ∷ b'x' ∷ xs) (number (slot % 2 ^ 64) f 16)))
switch fuel m f ch fmt args case_hex =
    va_arg args (λ slot args. put_all fmt args (number (getuint f.lflag slot) f 16))
switch fuel m f ch fmt args case_percent = put_all fmt args (some (ch ∷ []))
switch fuel m f ch fmt args case_default = elim (behind_percent m (fmt - 1)) [
  | none ↦ none
  | some fmt ↦ put_all fmt args (some (b'%' ∷ []))
]

-- A round of the inner loop, or one of the switch. The `ch` is read behind `fmt`.
unfoldable pub step : ℕ → Memory → ℕ → List ℕ → Position → Option Outcome
unfolding print_error print_signed print_string printnum width_loop
step fuel m fmt args at_text =
    if m fmt == b'%'
    then go_on (fmt + 1) args no_flags
    else if m fmt == 0
    then some returned
    else put_all (fmt + 1) args (some (m fmt ∷ []))
step fuel m fmt args (at_switch f) = switch fuel m f (m fmt) (fmt + 1) args (label_of (m fmt))

-- What the loop does behind a step.
abbrev pub then_loop : (Cursor → Option (List ℕ)) → Option Outcome → Option (List ℕ)
then_loop go none = none
then_loop go (some returned) = some []
then_loop go (some (put xs c)) = Option.map (λ ys. xs ++ ys) (go c)

-- Fuel bounds the steps, and the loops in each of them.
unfoldable pub format_loop : ℕ → Memory → ℕ → List ℕ → Position → Option (List ℕ)
format_loop zero m fmt args place = none
format_loop (suc fuel) m fmt args place =
    then_loop (λ c. format_loop fuel m c.fmt c.args c.place) (step (suc fuel) m fmt args place)

unfoldable pub vprintfmt : ℕ → Memory → ℕ → List ℕ → Option (List ℕ)
unfolding step format_loop
vprintfmt fuel m fmt args = format_loop fuel m fmt args at_text
