-- ===== src/Format/Buffer.antt =====
-- sprintputch and vsnprintf of lib/printfmt.c. The format and the strings that it prints are read from
-- the memory before the call: the model is for a buffer that does not overlap them. `cnt` is an int that
-- does not overflow.
use advanced_operating_syste.Format.Pieces.{output_length, vprintfmt-IsOutput}
use advanced_operating_syste.Format.Spec.{IsOutput, slots, source, IsFormat, Piece}
use advanced_operating_syste.Str.Memory.{IsString, Memory, store, within}
use advanced_operating_syste.Prelude.{
  ◌*◌, ◌^◌, none, inl, inr, ap, arith, false, lt→ltb, refl, suc, zero, ◌<◌, ◌∙◌, ◌≢◌, ◌≤◌, ◌⊎◌,
  List, Option, [], get_or, if◌then◌else◌, length, ltb, some, take, ◌%◌, ◌+◌, ◌-◌, ◌==◌, ◌||◌, ◌∷◌,
  ◌≡◌, ℕ,
}
use advanced_operating_syste.Prelude.Int.{negsuc, pos, pos_part, ℤ}
use advanced_operating_syste.Format.{vprintfmt}

-- The memory stands beside the buffer's pointers.
pub record SprintBuf : Type 0 where
  pub buf : ℕ
  pub ebuf : ℕ
  pub cnt : ℕ
  pub memory : Memory

unfoldable pub sprintputch : ℕ → SprintBuf → SprintBuf
sprintputch ch b =
    if ltb b.buf b.ebuf
    then record b { buf = b.buf + 1; cnt = b.cnt + 1; memory = store b.memory b.buf (ch % 256) }
    else record b { cnt = b.cnt + 1 }

-- The calls of sprintputch, in their order.
unfoldable pub put_all_chars : List ℕ → SprintBuf → SprintBuf
put_all_chars [] b = b
put_all_chars (x ∷ xs) b = put_all_chars xs (sprintputch x b)

-- -EINVAL.
abbrev pub invalid : ℤ
invalid = negsuc 4

-- The NUL behind what was put, and the count.
abbrev pub terminated : SprintBuf → ℤ × Memory
terminated b = (pos b.cnt, store b.memory b.buf 0)

-- The characters of the format go into the buffer, where `size` bytes have room.
abbrev pub put_into : ℕ → ℕ → Memory → Option (List ℕ) → Option (ℤ × Memory)
put_into buf size m none = none
put_into buf size m (some xs) = some (
    terminated
      (put_all_chars xs (record { buf = buf; ebuf = buf + size - 1; cnt = 0; memory = m })))

unfoldable pub vsnprintf : ℕ → ℕ → ℤ → ℕ → List ℕ → Memory → Option (ℤ × Memory)
unfolding vprintfmt put_all_chars sprintputch
vsnprintf fuel buf n fmt args m =
    if buf == 0 || ltb (pos_part n) 1
    then some (invalid, m)
    else put_into buf (pos_part n) m (vprintfmt fuel m fmt args)

-- The memory once the characters stand from `a` on.
abbrev pub printed : Memory → ℕ → List ℕ → Memory
printed m a xs p = if within a (length xs) p then get_or xs (p - a) 0 % 256 else m p

abbrev buffer : ℕ → ℕ → ℕ → Memory → SprintBuf
buffer buf ebuf cnt memory = record { buf = buf; ebuf = ebuf; cnt = cnt; memory = memory }

order : (p a : ℕ) → (p < a) ⊎ ((p ≡ a) ⊎ (a < p))
order p a = omega arith

printed-cons :
    (m : Memory) (a x : ℕ) (xs : List ℕ) (p : ℕ)
    → printed (store m a (x % 256)) (a + 1) xs p ≡ printed m a (x ∷ xs) p
printed-cons m a x xs p = elim (order p a) [
  | inl l ↦ ground arith
  | inr (inl e) ↦ ground arith
  | inr (inr g) ↦ let past : p - a ≡ suc (p - (a + 1)) = omega arith in rw past (ground arith)
]

same_buffer : (a a' e c c' : ℕ) (m : Memory) → a ≡ a' → c ≡ c' → buffer a e c m ≡ buffer a' e c' m
same_buffer a a' e c c' m h k = rw (h, k) refl

sprintputch-fits :
    (x a e c : ℕ) (m : Memory)
    → a < e
    → sprintputch x (buffer a e c m) ≡ buffer (a + 1) e (c + 1) (store m a (x % 256))
unfolding sprintputch
sprintputch-fits x a e c m h = rw (lt→ltb a e h) refl

sprintputch-full :
    (x a e c : ℕ) (m : Memory) → e ≤ a → sprintputch x (buffer a e c m) ≡ buffer a e (c + 1) m
unfolding sprintputch
sprintputch-full x a e c m h = let full : ltb a e ≡ false = ground arith in rw full refl

abbrev Fills : List ℕ → ℕ → ℕ → ℕ → ℕ → Memory → SprintBuf → Type 0
Fills xs room a e c m b =
    (g : Memory) × (b ≡ buffer (a + length (take room xs)) e (c + length xs) g)
    × ((p : ℕ) → g p ≡ printed m a (take room xs) p)

-- Characters put one after the other: those that fit stand in memory, all are counted, and nothing
-- else changes.
put_all_chars-Fills :
    (xs : List ℕ) (room a e c : ℕ) (m : Memory)
    → e ≡ a + room
    → Fills xs room a e c m (put_all_chars xs (buffer a e c m))
unfolding put_all_chars
put_all_chars-Fills [] zero a e c m h =
    (m, same_buffer a (a + 0) e c (c + 0) m (omega arith) (omega arith), λ p. ground arith)
put_all_chars-Fills [] (suc room) a e c m h =
    (m, same_buffer a (a + 0) e c (c + 0) m (omega arith) (omega arith), λ p. ground arith)
put_all_chars-Fills (x ∷ xs) zero a e c m h =
    let (g, b, k) = put_all_chars-Fills xs zero a e (c + 1) m h in
    (
      g,
      ap (put_all_chars xs) (sprintputch-full x a e c m (omega arith))
          ∙ b
          ∙ same_buffer (a + 0) (a + 0) e (c + 1 + length xs) (c + suc (length xs)) g refl
              (omega arith),
      k,
    )
put_all_chars-Fills (x ∷ xs) (suc room) a e c m h =
    let (g, b, k) =
      put_all_chars-Fills xs room (a + 1) e (c + 1) (store m a (x % 256)) (omega arith) in
    (
      g,
      ap (put_all_chars xs) (sprintputch-fits x a e c m (omega arith))
          ∙ b
          ∙ same_buffer (a + 1 + length (take room xs)) (a + suc (length (take room xs))) e
              (c + 1 + length xs) (c + suc (length xs)) g (omega arith) (omega arith),
      λ p. k p ∙ printed-cons m a x (take room xs) p,
    )

vsnprintf-put_into :
    (fuel buf room fmt : ℕ) (args : List ℕ) (m : Memory)
    → buf ≢ 0
    → vsnprintf fuel buf (pos (suc room)) fmt args m
      ≡ put_into buf (suc room) m (vprintfmt fuel m fmt args)
unfolding vsnprintf
vsnprintf-put_into fuel buf room fmt args m z =
    let accepted : (buf == 0 || ltb (suc room) 1) ≡ false = ground arith in rw accepted refl

vsnprintf-Fills :
    (fuel buf room fmt : ℕ) (args : List ℕ) (m : Memory) (xs : List ℕ)
    → buf ≢ 0
    → vprintfmt fuel m fmt args ≡ some xs
    → (g : Memory) × (vsnprintf fuel buf (pos (suc room)) fmt args m ≡ some (pos (length xs), g))
      × ((p : ℕ)
          → g p ≡ (if p == buf + length (take room xs) then 0 else printed m buf (take room xs) p))
vsnprintf-Fills fuel buf room fmt args m xs z h =
    let (g, b, k) = put_all_chars-Fills xs room buf (buf + suc room - 1) 0 m (omega arith) in
    let whole : 0 + length xs ≡ length xs = omega arith in
    (
      store g (buf + length (take room xs)) 0,
      vsnprintf-put_into fuel buf room fmt args m z
          ∙ (ap (put_into buf (suc room) m) h
              ∙ ap (λ b. some (terminated b)) b
              ∙ ap (λ c. some (pos c, store g (buf + length (take room xs)) 0)) whole),
      λ p. rw (k p) refl,
    )

-- vsnprintf of a format of plain characters, "%%" and the conversions %d, %u, %o and %x without flags
-- that does not meet the buffer of `room + 1` bytes, with more fuel than the format is long: it ends.
-- Of the text that the format prints, the first `room` characters, cut to bytes, stand in the buffer
-- with a NUL behind them, nothing else is written, and the result counts all characters, the ones that
-- did not fit included. The format has less than 2 ^ 31 / 65 characters, so that the count is an int.
pub vsnprintf-take :
    (ps : List Piece) (fuel buf room fmt : ℕ) (m : Memory)
    → buf ≢ 0
    → suc room < 2 ^ 31
    → IsFormat ps
    → IsString m fmt (source ps)
    → (fmt + length (source ps) < buf) ⊎ (buf + room < fmt)
    → length (source ps) < fuel
    → 65 * length (source ps) < 2 ^ 31
    → (xs : List ℕ) × (g : Memory) × (vsnprintf fuel buf (pos (suc room)) fmt (slots ps) m
        ≡ some (pos (length xs), g))
      × IsOutput ps xs
      × (length xs < 2 ^ 31)
      × ((p : ℕ)
          → g p ≡ (if p == buf + length (take room xs) then 0 else printed m buf (take room xs) p))
vsnprintf-take ps fuel buf room fmt m z small w h apart f bound =
    let (xs, e, o) = vprintfmt-IsOutput ps fuel m fmt w h f in
    let (g, ran, k) = vsnprintf-Fills fuel buf room fmt (slots ps) m xs z e in
    (xs, g, ran, o, omega (arith, output_length ps xs o), k)
