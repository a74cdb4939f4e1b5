-- ===== src/Str/Copy.antt =====
-- strcpy, strcat, strncpy and strlcpy of lib/string.c.
use advanced_operating_syste.Prelude.{
  refl, ◌^◌, Bool-cases, false, get_or, inl, inr, leb, length-append, subst, take, ◌++◌, List,
  Option, [], arith, if◌then◌else◌, length, none, some, suc, zero, ℕ, ◌+◌, ◌-◌, ◌<◌, ◌==◌, ◌∷◌, ◌≡◌,
  ◌≤◌, ◌⊎◌,
}
use advanced_operating_syste.Str.Memory.{within, IsString, store, Memory}
use advanced_operating_syste.Str.Scan.{strlen-length, strlen}
use Prim.Native.Nat.{min}

-- Fuel for the loop, which only a NUL ends.
unfoldable pub strcpy : ℕ → ℕ → ℕ → Memory → Option Memory
strcpy zero dst src m = none
strcpy (suc fuel) dst src m =
    let moved = store m dst (m src) in
    let rest = strcpy fuel (dst + 1) (src + 1) moved in if m src == 0 then some moved else rest

unfoldable pub strcat : ℕ → ℕ → ℕ → Memory → Option Memory
strcat fuel dst src m = elim (strlen fuel m dst) [
  | none ↦ none
  | some len ↦ strcpy fuel (dst + len) src m
]

-- One round: a byte is copied, and `src` stays on the NUL.
unfoldable pub strncpy : ℕ → ℕ → ℕ → Memory → Memory
strncpy dst src zero m = m
strncpy dst src (suc size) m =
    let moved = store m dst (m src) in
    strncpy (dst + 1) (if moved src == 0 then src else src + 1) size moved

-- The loop over `--size`; the result is the place of the NUL.
strlcpy_loop : ℕ → ℕ → ℕ → Memory → ℕ × Memory
strlcpy_loop zero dst src m = (dst, store m dst 0)
strlcpy_loop (suc size) dst src m =
    let rest = strlcpy_loop size (dst + 1) (src + 1) (store m dst (m src)) in
    if m src == 0 then (dst, store m dst 0) else rest

strlcpy_from : ℕ → ℕ × Memory → ℕ × Memory
strlcpy_from dst (at, m) = (at - dst, m)

unfoldable pub strlcpy : ℕ → ℕ → ℕ → Memory → ℕ × Memory
unfolding strlcpy_loop strlcpy_from
strlcpy dst src zero m = (0, m)
strlcpy dst src (suc size) m = strlcpy_from dst (strlcpy_loop size dst src m)

pub IsString-frame :
    (m g : Memory) (s : ℕ) (cs : List ℕ)
    → IsString m s cs
    → ((p : ℕ) → s ≤ p → p ≤ s + length cs → g p ≡ m p)
    → IsString g s cs
IsString-frame m g s [] h same = ground (arith, same s)
IsString-frame m g s (c ∷ cs) h same = (
  ground (arith, same s),
  h.1,
  IsString-frame m g (s + 1) cs h.2 (λ p a b. same p (omega arith) (omega arith)),
)

-- The ranges of `n + 1` bytes from `a` and from `b` on share no address.
abbrev pub Apart : ℕ → ℕ → ℕ → Type 0
Apart a b n = (a + n < b) ⊎ (b + n < a)

-- A string that is copied to a place apart from it: `g` holds it there, and differs nowhere else.
abbrev pub Copied : Memory → Memory → ℕ → List ℕ → Type 0
Copied m g dst cs = IsString g dst cs × ((p : ℕ) → (p < dst) ⊎ (dst + length cs < p) → g p ≡ m p)

-- `strcpy` of a string to a place apart from it ends, leaves the string there, and writes nowhere
-- else.
pub strcpy-Copied :
    (cs : List ℕ) (fuel dst src : ℕ) (m : Memory)
    → IsString m src cs
    → Apart dst src (length cs)
    → length cs < fuel
    → (g : Memory) × (strcpy fuel dst src m ≡ some g) × Copied m g dst cs
unfolding strcpy
strcpy-Copied cs zero dst src m h a f = absurd (omega arith)
strcpy-Copied [] (suc fuel) dst src m h a f =
    (store m dst (m src), ground arith, (ground arith, λ p o. ground arith))
strcpy-Copied (c ∷ cs) (suc fuel) dst src m h a f =
    let moved = store m dst (m src) in
    let kept : IsString moved (src + 1) cs =
      IsString-frame m moved (src + 1) cs h.2 (λ p l k. ground arith) in
    let (g, ran, copied) =
      strcpy-Copied cs fuel (dst + 1) (src + 1) moved kept (omega arith) (omega arith) in
    (
      g,
      ground (arith, ran),
      ((ground (arith, copied.1 dst), h.1, copied.0), λ p o. ground (arith, copied.1 p)),
    )

append-IsString :
    (m g : Memory) (s : ℕ) (xs ys : List ℕ)
    → IsString m s xs
    → IsString g (s + length xs) ys
    → ((p : ℕ) → p < s + length xs → g p ≡ m p)
    → IsString g s (xs ++ ys)
append-IsString m g s [] ys h k same = subst (λ a. IsString g a ys) (omega arith) k
append-IsString m g s (x ∷ xs) ys h k same = (
  ground (arith, same s),
  h.1,
  append-IsString m g (s + 1) xs ys h.2 (subst (λ a. IsString g a ys) (omega arith) k)
      (λ p l. same p (omega arith)),
)

-- `strcat` of two strings that lie apart, of less than 2 ^ 31 characters together, with room behind the
-- first one and more fuel than their length, ends, leaves their concatenation at `dst`, and writes nowhere else.
pub strcat-append :
    (xs ys : List ℕ) (fuel dst src : ℕ) (m : Memory)
    → IsString m dst xs
    → IsString m src ys
    → (dst + length xs + length ys < src) ⊎ (src + length ys < dst)
    → length xs + length ys < 2 ^ 31
    → length xs + length ys < fuel
    → (g : Memory) × (strcat fuel dst src m ≡ some g) × Copied m g dst (xs ++ ys)
unfolding strcat
strcat-append xs ys fuel dst src m h k a small f =
    let (g, ran, copied) =
      strcpy-Copied ys fuel (dst + length xs) src m k (omega arith) (omega arith) in
    (
      g,
      rw (strlen-length m dst xs fuel h (omega arith), strcat) ran,
      (
        append-IsString m g dst xs ys h copied.0 (λ p l. copied.1 p (omega arith)),
        λ p o. copied.1 p (omega (arith, length-append xs ys)),
      ),
    )

get_or-sub :
    (c : ℕ) (cs : List ℕ) (p dst : ℕ)
    → get_or (c ∷ cs) (p - dst) 0 ≡ (if leb p dst then c else get_or cs (p - (dst + 1)) 0)
get_or-sub c cs p dst = elim (Bool-cases (leb p dst)) [
  | inl low ↦ let e : p - dst ≡ zero = ground arith in rw (e, low)
  | inr high ↦ let e : p - dst ≡ suc (p - (dst + 1)) = ground arith in rw (e, high)
]

-- `strncpy` of a string to a place apart from it fills exactly `size` bytes: those of the string,
-- and NULs behind them. Where the string has `size` bytes or more there is no NUL.
pub strncpy-get_or :
    (size : ℕ) (cs : List ℕ) (dst src : ℕ) (m : Memory) (p : ℕ)
    → IsString m src cs
    → (dst + size ≤ src) ⊎ (src + length cs < dst)
    → strncpy dst src size m p ≡ (if within dst size p then get_or cs (p - dst) 0 else m p)
unfolding strncpy
strncpy-get_or zero cs dst src m p h a = ground arith
strncpy-get_or (suc size) [] dst src m p h a =
    let moved = store m dst (m src) in
    let kept : IsString moved src [] = ground arith in
    rw (kept) (ground (arith, strncpy-get_or size [] (dst + 1) src moved p kept (omega arith)))
strncpy-get_or (suc size) (c ∷ cs) dst src m p h a =
    let moved = store m dst (m src) in
    let kept : IsString moved (src + 1) cs =
      IsString-frame m moved (src + 1) cs h.2 (λ q l k. ground arith) in
    let stays : (moved src == 0) ≡ false = ground arith in
    rw stays (
      ground (
        arith,
        strncpy-get_or size cs (dst + 1) (src + 1) moved p kept (omega arith),
        get_or-sub c cs p dst,
      ))

strlcpy_loop-Copied :
    (size : ℕ) (cs : List ℕ) (dst src : ℕ) (m : Memory)
    → IsString m src cs
    → (dst + size < src) ⊎ (src + length cs < dst)
    → (g : Memory) × (strlcpy_loop size dst src m ≡ (dst + min size (length cs), g))
      × Copied m g dst (take size cs)
unfolding strlcpy_loop
strlcpy_loop-Copied zero cs dst src m h a =
    (store m dst 0, ground arith, (ground arith, λ p o. ground arith))
strlcpy_loop-Copied (suc size) [] dst src m h a =
    (store m dst 0, ground arith, (ground arith, λ p o. ground arith))
strlcpy_loop-Copied (suc size) (c ∷ cs) dst src m h a =
    let moved = store m dst (m src) in
    let kept : IsString moved (src + 1) cs =
      IsString-frame m moved (src + 1) cs h.2 (λ p l k. ground arith) in
    let (g, ran, copied) =
      strlcpy_loop-Copied size cs (dst + 1) (src + 1) moved kept (omega arith) in
    (
      g,
      ground (arith, ran),
      ((ground (arith, copied.1 dst), h.1, copied.0), λ p o. ground (arith, copied.1 p)),
    )

-- `strlcpy` of a string to a place apart from it: with a size of 0 it writes nothing and returns 0;
-- with a larger one it leaves the string's first `size - 1` characters there, all of them if there are
-- less, with a NUL behind them, writes nowhere else, and returns how many characters it copied.
pub strlcpy-take :
    (size : ℕ) (cs : List ℕ) (dst src : ℕ) (m : Memory)
    → IsString m src cs
    → (dst + size < src + 1) ⊎ (src + length cs < dst)
    → (g : Memory) × (strlcpy dst src size m ≡ (min (size - 1) (length cs), g))
      × (((size ≡ 0) × ((p : ℕ) → g p ≡ m p)) ⊎ ((0 < size) × Copied m g dst (take (size - 1) cs)))
unfolding strlcpy
strlcpy-take zero cs dst src m h a = (m, ground arith, inl (refl, λ p. refl))
strlcpy-take (suc size) cs dst src m h a =
    let (g, ran, copied) = strlcpy_loop-Copied size cs dst src m h (omega arith) in
    let less : suc size - 1 ≡ size = omega arith in
    (g, rw (ran, less) (ground arith), inr (omega arith, rw less copied))
