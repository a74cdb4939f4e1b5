-- ===== src/Format/Spec.antt =====
-- Formats as lists of pieces, and what printing them means. No code: the vocabulary in which vprintfmt
-- is specified.
use advanced_operating_syste.Format.Digits.{IsWritten}
use advanced_operating_syste.Prelude.{
  List, [], ◌%◌, ◌++◌, ◌-◌, ◌<◌, ◌^◌, ◌∷◌, ◌≡◌, ◌≢◌, ◌≤◌, ◌⊎◌, ℕ,
}

pub data Conversion : Type 0 where
  decimal unsigned_decimal octal hex : Conversion

pub data Piece : Type 0 where
  plain : ℕ → Piece
  percent : Piece
  number_of : Conversion → ℕ → Piece

abbrev pub letter : Conversion → ℕ
letter decimal = b'd'
letter unsigned_decimal = b'u'
letter octal = b'o'
letter hex = b'x'

-- The text of the format, and its arguments.
abbrev pub source : List Piece → List ℕ
source [] = []
source (plain c ∷ ps) = c ∷ source ps
source (percent ∷ ps) = b'%' ∷ b'%' ∷ source ps
source (number_of conv slot ∷ ps) = b'%' ∷ letter conv ∷ source ps

abbrev pub slots : List Piece → List ℕ
slots [] = []
slots (plain c ∷ ps) = slots ps
slots (percent ∷ ps) = slots ps
slots (number_of conv slot ∷ ps) = slot ∷ slots ps

-- No plain character is '%'.
abbrev pub IsFormat : List Piece → Type 0
IsFormat [] = Unit {0}
IsFormat (plain c ∷ ps) = (c ≢ b'%') × IsFormat ps
IsFormat (percent ∷ ps) = IsFormat ps
IsFormat (number_of conv slot ∷ ps) = IsFormat ps

abbrev pub Digits : ℕ → List ℕ → ℕ → Type 0
Digits base ds num = IsWritten base ds num 64

-- What a conversion prints for the int in its slot.
abbrev pub IsText : Conversion → ℕ → List ℕ → Type 0
IsText decimal int ds =
    ((int < 2 ^ 31) × Digits 10 ds int)
    ⊎ ((2 ^ 31 ≤ int) × ((es : List ℕ) × (ds ≡ b'-' ∷ es) × Digits 10 es (2 ^ 32 - int)))
IsText unsigned_decimal int ds = Digits 10 ds int
IsText octal int ds = Digits 8 ds int
IsText hex int ds = Digits 16 ds int

abbrev pub IsOutput : List Piece → List ℕ → Type 0
IsOutput [] xs = xs ≡ []
IsOutput (plain c ∷ ps) xs = (ys : List ℕ) × (xs ≡ c ∷ ys) × IsOutput ps ys
IsOutput (percent ∷ ps) xs = (ys : List ℕ) × (xs ≡ b'%' ∷ ys) × IsOutput ps ys
IsOutput (number_of conv slot ∷ ps) xs =
    (ds : List ℕ) × (ys : List ℕ) × (xs ≡ ds ++ ys)
    × IsText conv (slot % 2 ^ 32) ds
    × IsOutput ps ys
