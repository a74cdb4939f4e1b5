-- ===== src/Format/Pieces.antt =====
-- vprintfmt of lib/printfmt.c on formats of plain characters, "%%" and numeric conversions without
-- flags and width.
use advanced_operating_syste.Prelude.{
  length-append, ◌*◌, ltb, lt→ltb, false, inl, inr, leb, true, zero, ◌==◌, List, [], ap, arith,
  length, refl, some, suc, ◌%◌, ◌++◌, ◌+◌, ◌-◌, ◌<◌, ◌^◌, ◌∙◌, ◌∷◌, ◌≡◌, ◌≢◌, ◌≤◌, ◌⊎◌, ℕ,
}
use advanced_operating_syste.Format.Spec.{
  Conversion, Piece, plain, percent, number_of, decimal, unsigned_decimal, octal, hex, letter,
  source, slots, IsFormat, Digits, IsText, IsOutput,
}
use advanced_operating_syste.Format.{
  vprintfmt, put_all, at_text, put, Cursor, no_flags, at_switch, format_loop, step, Position,
  switch, label_of, Flags, returned, then_loop,
}
use advanced_operating_syste.Str.Memory.{IsString, Memory}
use advanced_operating_syste.Format.Print.{pads, extended, number_fuel, print_signed, printnum}
use advanced_operating_syste.Format.Digits.{printnum-IsNumeral}
use advanced_operating_syste.Prelude.Int.{negsuc}
use mathlib.Core.Option

no_width :
    (num base : ℕ)
    → 2 ≤ base
    → base ≤ 16
    → num < 2 ^ 64
    → (ds : List ℕ) × (printnum number_fuel num base (negsuc 0) b' ' ≡ some ds) × Digits base ds num
no_width num base b b16 h =
    let (ds, e, w) = printnum-IsNumeral num base (negsuc 0) b' ' b b16 h in
    let none_before : 0 - length ds ≡ 0 = omega arith in
    (ds, e ∙ ap (λ k. some (pads b' ' k ++ ds)) none_before, w)

below_or_above : (a b : ℕ) → (a < b) ⊎ (b ≤ a)
below_or_above a b = omega arith

not_ltb : (a b : ℕ) → b ≤ a → ltb a b ≡ false
not_ltb a b h = ground arith

not_leb : (a b : ℕ) → b < a → leb a b ≡ false
not_leb a b h = ground arith

le→leb : (a b : ℕ) → a ≤ b → leb a b ≡ true
le→leb a b h = ground arith

signed-IsText :
    (int : ℕ)
    → int < 2 ^ 32
    → (ds : List ℕ) × (print_signed (extended int) (negsuc 0) b' ' ≡ some ds)
      × IsText decimal int ds
unfolding print_signed
signed-IsText int h = elim (below_or_above int (2 ^ 31)) [
  | inl low ↦
      let (ds, e, d) = no_width int 10 (omega arith) (omega arith) (omega arith) in
      let same : extended int ≡ int = rw (lt→ltb int (2 ^ 31) low) refl in
      let sign : leb (2 ^ 63) int ≡ false = not_leb (2 ^ 63) int (omega arith) in
      (ds, rw (same, sign) e, inl (low, d))
  | inr high ↦
      let (ds, e, d) = no_width (2 ^ 32 - int) 10 (omega arith) (omega arith) (omega arith) in
      let same : extended int ≡ int + (2 ^ 64 - 2 ^ 32) = rw (not_ltb int (2 ^ 31) high) refl in
      let sign : leb (2 ^ 63) (int + (2 ^ 64 - 2 ^ 32)) ≡ true =
        le→leb (2 ^ 63) (int + (2 ^ 64 - 2 ^ 32)) (omega arith) in
      let size : (2 ^ 64 - (int + (2 ^ 64 - 2 ^ 32))) % 2 ^ 64 ≡ 2 ^ 32 - int = omega arith in
      (
        b'-' ∷ ds,
        rw (same, sign, size) (ap (Option.map (λ xs. b'-' ∷ xs)) e),
        inr (high, (ds, refl, d)),
      )
]

step_at :
    (fuel : ℕ) (m : Memory) (fmt c : ℕ) (args : List ℕ) (f : Flags)
    → m fmt ≡ c
    → step fuel m fmt args (at_switch f) ≡ switch fuel m f c (fmt + 1) args (label_of c)
unfolding step
step_at fuel m fmt c args f h = ap (λ c. switch fuel m f c (fmt + 1) args (label_of c)) h

-- A conversion is one round of the switch.
conversion_step :
    (fuel : ℕ) (m : Memory) (fmt slot : ℕ) (args : List ℕ) (conv : Conversion)
    → m fmt ≡ letter conv
    → (ds : List ℕ) × (step fuel m fmt (slot ∷ args) (at_switch no_flags)
        ≡ some (put ds (record { fmt = fmt + 1; args = args; place = at_text })))
      × IsText conv (slot % 2 ^ 32) ds
conversion_step fuel m fmt slot args decimal h =
    let (ds, e, t) = signed-IsText (slot % 2 ^ 32) (omega arith) in
    (ds, step_at fuel m fmt b'd' (slot ∷ args) no_flags h ∙ ap (put_all (fmt + 1) args) e, t)
conversion_step fuel m fmt slot args unsigned_decimal h =
    let (ds, e, t) = no_width (slot % 2 ^ 32) 10 (omega arith) (omega arith) (omega arith) in
    (ds, step_at fuel m fmt b'u' (slot ∷ args) no_flags h ∙ ap (put_all (fmt + 1) args) e, t)
conversion_step fuel m fmt slot args octal h =
    let (ds, e, t) = no_width (slot % 2 ^ 32) 8 (omega arith) (omega arith) (omega arith) in
    (ds, step_at fuel m fmt b'o' (slot ∷ args) no_flags h ∙ ap (put_all (fmt + 1) args) e, t)
conversion_step fuel m fmt slot args hex h =
    let (ds, e, t) = no_width (slot % 2 ^ 32) 16 (omega arith) (omega arith) (omega arith) in
    (ds, step_at fuel m fmt b'x' (slot ∷ args) no_flags h ∙ ap (put_all (fmt + 1) args) e, t)

-- A step that puts characters, and the rest.
loop_put :
    (fuel : ℕ) (m : Memory) (fmt : ℕ) (args : List ℕ) (place : Position) (xs ys : List ℕ)
    (c : Cursor)
    → step (suc fuel) m fmt args place ≡ some (put xs c)
    → format_loop fuel m c.fmt c.args c.place ≡ some ys
    → format_loop (suc fuel) m fmt args place ≡ some (xs ++ ys)
unfolding format_loop
loop_put fuel m fmt args place xs ys c e f =
    ap (then_loop (λ c. format_loop fuel m c.fmt c.args c.place)) e
    ∙ ap (Option.map (λ ys. xs ++ ys)) f

-- The rounds at a '%' and at any other character of the text.
percent_step :
    (fuel : ℕ) (m : Memory) (fmt : ℕ) (args : List ℕ)
    → m fmt ≡ b'%'
    → step fuel m fmt args at_text
      ≡ some (put [] (record { fmt = fmt + 1; args = args; place = at_switch no_flags }))
unfolding step
percent_step fuel m fmt args h = rw h refl

plain_step :
    (fuel : ℕ) (m : Memory) (fmt c : ℕ) (args : List ℕ)
    → m fmt ≡ c
    → c ≢ 0
    → c ≢ b'%'
    → step fuel m fmt args at_text
      ≡ some (put (c ∷ []) (record { fmt = fmt + 1; args = args; place = at_text }))
unfolding step
plain_step fuel m fmt c args h z n =
    let other : (c == b'%') ≡ false = ground arith in
    let more : (c == 0) ≡ false = ground arith in rw (h, other, more) refl

end_step :
    (fuel : ℕ) (m : Memory) (fmt : ℕ) (args : List ℕ)
    → m fmt ≡ 0
    → step fuel m fmt args at_text ≡ some returned
unfolding step
end_step fuel m fmt args h = rw h refl

end_of_text :
    (fuel : ℕ) (m : Memory) (fmt : ℕ) (args : List ℕ)
    → m fmt ≡ 0
    → format_loop (suc fuel) m fmt args at_text ≡ some []
unfolding format_loop
end_of_text fuel m fmt args h =
    ap (then_loop (λ c. format_loop fuel m c.fmt c.args c.place)) (end_step (suc fuel) m fmt args h)

format_loop-IsOutput :
    (ps : List Piece) (fuel : ℕ) (m : Memory) (fmt : ℕ)
    → IsFormat ps
    → IsString m fmt (source ps)
    → length (source ps) < fuel
    → (xs : List ℕ) × (format_loop fuel m fmt (slots ps) at_text ≡ some xs) × IsOutput ps xs
format_loop-IsOutput ps zero m fmt w h f = elim f [ ]
format_loop-IsOutput [] (suc fuel) m fmt w h f = ([], end_of_text fuel m fmt [] h, refl)
format_loop-IsOutput (plain c ∷ ps) (suc fuel) m fmt (n, w) (h, z, hs) f =
    let (ys, e, o) = format_loop-IsOutput ps fuel m (fmt + 1) w hs (omega arith) in
    (
      c ∷ ys,
      loop_put fuel m fmt (slots ps) at_text (c ∷ []) ys
          (record { fmt = fmt + 1; args = slots ps; place = at_text })
          (plain_step (suc fuel) m fmt c (slots ps) h z n) e,
      (ys, refl, o),
    )
format_loop-IsOutput (percent ∷ ps) (suc zero) m fmt w h f = absurd (omega arith)
format_loop-IsOutput (percent ∷ ps) (suc (suc fuel)) m fmt w (h, z, (h', z', hs)) f =
    let (ys, e, o) = format_loop-IsOutput ps fuel m (fmt + 1 + 1) w hs (omega arith) in
    (
      b'%' ∷ ys,
      loop_put (suc fuel) m fmt (slots ps) at_text [] (b'%' ∷ ys)
          (record { fmt = fmt + 1; args = slots ps; place = at_switch no_flags })
          (percent_step (suc (suc fuel)) m fmt (slots ps) h)
          (loop_put fuel m (fmt + 1) (slots ps) (at_switch no_flags) (b'%' ∷ []) ys
            (record { fmt = fmt + 1 + 1; args = slots ps; place = at_text })
            (step_at (suc fuel) m (fmt + 1) b'%' (slots ps) no_flags h') e),
      (ys, refl, o),
    )
format_loop-IsOutput (number_of conv slot ∷ ps) (suc zero) m fmt w h f = absurd (omega arith)
format_loop-IsOutput (number_of conv slot ∷ ps) (suc (suc fuel)) m fmt w (h, z, (h', z', hs)) f =
    let (ys, e, o) = format_loop-IsOutput ps fuel m (fmt + 1 + 1) w hs (omega arith) in
    let (ds, s, t) = conversion_step (suc fuel) m (fmt + 1) slot (slots ps) conv h' in
    (
      ds ++ ys,
      loop_put (suc fuel) m fmt (slot ∷ slots ps) at_text [] (ds ++ ys)
          (record { fmt = fmt + 1; args = slot ∷ slots ps; place = at_switch no_flags })
          (percent_step (suc (suc fuel)) m fmt (slot ∷ slots ps) h)
          (loop_put fuel m (fmt + 1) (slot ∷ slots ps) (at_switch no_flags) ds ys
            (record { fmt = fmt + 1 + 1; args = slots ps; place = at_text }) s e),
      (ds, ys, refl, t, o),
    )

-- A format of plain characters, "%%" and the conversions %d, %u, %o and %x, with one argument for
-- each conversion: vprintfmt ends within as many steps as the format is long, and prints the plain
-- characters, '%', and the digits of the arguments as ints in the right base, without padding or
-- leading zeros and in lower case, with a '-' in front of the digits of a negative one under %d, all
-- in their order.
pub vprintfmt-IsOutput :
    (ps : List Piece) (fuel : ℕ) (m : Memory) (fmt : ℕ)
    → IsFormat ps
    → IsString m fmt (source ps)
    → length (source ps) < fuel
    → (xs : List ℕ) × (vprintfmt fuel m fmt (slots ps) ≡ some xs) × IsOutput ps xs
unfolding vprintfmt
vprintfmt-IsOutput ps fuel m fmt w h f = format_loop-IsOutput ps fuel m fmt w h f

text_length : (conv : Conversion) (int : ℕ) (ds : List ℕ) → IsText conv int ds → length ds ≤ 65
text_length decimal int ds (inl (_, d)) = omega (arith, d.short)
text_length decimal int ds (inr (_, (es, e, d))) =
    let same : length ds ≡ suc (length es) = ap length e in omega (arith, same, d.short)
text_length unsigned_decimal int ds d = omega (arith, d.short)
text_length octal int ds d = omega (arith, d.short)
text_length hex int ds d = omega (arith, d.short)

-- A format prints at most 65 characters for each of its own.
pub output_length :
    (ps : List Piece) (xs : List ℕ) → IsOutput ps xs → length xs ≤ 65 * length (source ps)
output_length [] xs o = let none_left : length xs ≡ 0 = ap length o in omega (arith, none_left)
output_length (plain c ∷ ps) xs (ys, e, o) =
    let one : length xs ≡ suc (length ys) = ap length e in omega (arith, one, output_length ps ys o)
output_length (percent ∷ ps) xs (ys, e, o) =
    let one : length xs ≡ suc (length ys) = ap length e in omega (arith, one, output_length ps ys o)
output_length (number_of conv slot ∷ ps) xs (ds, ys, e, t, o) =
    let both : length xs ≡ length ds + length ys = ap length e ∙ length-append ds ys in
    let text = text_length conv (slot % 2 ^ 32) ds t in
    omega (arith, both, text, output_length ps ys o)
