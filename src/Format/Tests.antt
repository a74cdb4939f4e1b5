-- ===== src/Format/Tests.antt =====
-- Runs of the format interpreter and of strtol, and their theorems at concrete texts.
use advanced_operating_syste.Format.Spec.{
  plain, percent, number_of, decimal, hex, Piece, IsOutput, source, slots,
}
use advanced_operating_syste.Format.Digits.{IsWritten, printnum-IsNumeral}
use advanced_operating_syste.Prelude.{
  inl, take, ◌+◌, List, Option, [], arith, get_or, if◌then◌else◌, leb, length, refl, some, ◌++◌,
  ◌-◌, ◌<◌, ◌==◌, ◌^◌, ◌∷◌, ◌≡◌, ℕ,
}
use advanced_operating_syste.Format.Pieces.{vprintfmt-IsOutput}
use advanced_operating_syste.Format.Buffer.{printed, vsnprintf, vsnprintf-take}
use advanced_operating_syste.Prelude.Int.{pos}
use advanced_operating_syste.Str.Memory.{IsString, Memory}
use advanced_operating_syste.Format.{vprintfmt}
use advanced_operating_syste.Format.Print.{codes, number_fuel, pads, printnum}
use advanced_operating_syste.Format.RoundTrip.{strtol-printnum}
use advanced_operating_syste.Str.Number.{strtol}

-- A format at 100, and "ab" at 200.
abbrev at_100 : List ℕ → Memory
at_100 text p =
    if p == 200
    then 97
    else if p == 201
    then 98
    else if leb 100 p
    then get_or text (p - 100) 0
    else 0

abbrev run : List ℕ → List ℕ → Option (List ℕ)
run text args = vprintfmt 40 (at_100 text) 100 args

numbers_run :
    run (codes "%d,%5u|%08x %lx%%") (4294967289 ∷ 42 ∷ 48879 ∷ 255 ∷ [])
    ≡ some (codes "-7,   42|0000beef ff%")
unfolding vprintfmt
numbers_run = refl

-- The flag '-' pads a number on the left, with '-' characters.
minus_run : run (codes "%-5d") (42 ∷ []) ≡ some (codes "---42")
unfolding vprintfmt
minus_run = refl

texts_run : run (codes "%-4s|%c%e %q") (200 ∷ 65 ∷ 12 ∷ []) ≡ some (codes "ab  |Aerror 12 %q")
unfolding vprintfmt
texts_run = refl

-- A precision that is not given stands for any length.
width_run : run (codes "%4s%e") (0 ∷ 4294967294 ∷ []) ≡ some (codes "(null)No child process")
unfolding vprintfmt
width_run = refl

strtol_run : strtol 9 (at_100 (codes " -0x1fg")) 100 0 ≡ some (2 ^ 64 - 31, 106)
unfolding strtol
strtol_run = refl

abbrev padded : Memory
padded = at_100 (codes "  beef")

printed_beef : printnum number_fuel 48879 16 (pos 6) b' ' ≡ some (codes "  beef")
unfolding printnum
printed_beef = refl

beef-IsString : IsString padded 100 (codes "  beef")
beef-IsString = (
  refl,
  omega arith,
  (
    refl,
    omega arith,
    (refl, omega arith, (refl, omega arith, (refl, omega arith, (refl, omega arith, refl)))),
  ),
)

strtol-printnum_example : strtol 9 padded 100 16 ≡ some (48879, 106)
strtol-printnum_example =
    strtol-printnum padded 100 48879 16 9 (pos 6) (codes "  beef") (omega arith) (omega arith)
      (omega arith) printed_beef beef-IsString (omega arith)

printnum_example :
    (ds : List ℕ) × (printnum number_fuel 48879 16 (pos 6) b'0'
      ≡ some (pads b'0' (6 - length ds) ++ ds))
    × IsWritten 16 ds 48879 64
printnum_example =
    printnum-IsNumeral 48879 16 (pos 6) b'0' (omega arith) (omega arith) (omega arith)

-- "%d%%:%x", with -1 and 255.
abbrev pieces : List Piece
pieces = number_of decimal 4294967295 ∷ percent ∷ plain 58 ∷ number_of hex 255 ∷ []

mixed_run : run (source pieces) (slots pieces) ≡ some (codes "-1%:ff")
unfolding vprintfmt
mixed_run = refl

pieces-IsString : IsString (at_100 (source pieces)) 100 (source pieces)
pieces-IsString = (
  refl,
  omega arith,
  (
    refl,
    omega arith,
    (
      refl,
      omega arith,
      (refl, omega arith, (refl, omega arith, (refl, omega arith, (refl, omega arith, refl)))),
    ),
  ),
)

vprintfmt_example :
    (xs : List ℕ) × (vprintfmt 9 (at_100 (source pieces)) 100 (slots pieces) ≡ some xs)
    × IsOutput pieces xs
vprintfmt_example =
    vprintfmt-IsOutput pieces 9 (at_100 (source pieces)) 100 (omega arith, tt) pieces-IsString
      (omega arith)

-- A buffer of 4 bytes at 300.
vsnprintf_example :
    (xs : List ℕ) × (g : Memory) × (vsnprintf 9 300
        (pos 4)
        100
        (slots pieces)
        (at_100 (source pieces))
      ≡ some (pos (length xs), g))
    × IsOutput pieces xs
    × (length xs < 2 ^ 31)
    × ((p : ℕ)
        → g p ≡ (
            if p == 300 + length (take 3 xs)
            then 0
            else printed (at_100 (source pieces)) 300 (take 3 xs) p))
vsnprintf_example =
    vsnprintf-take pieces 9 300 3 100 (at_100 (source pieces)) (omega arith) (omega arith)
      (omega arith, tt) pieces-IsString (inl (omega arith)) (omega arith) (omega arith)
