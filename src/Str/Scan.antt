-- ===== src/Str/Scan.antt =====
-- strlen, strnlen, strchr, strfind and memfind of lib/string.c. A loop that is bounded by its text
-- takes fuel, and `none` says that the fuel ran out. Counters of type int are numbers: the strings
-- are shorter than 2 ^ 31.
use advanced_operating_syste.Prelude.{
  [], zero, arith, ltb, suc, ◌%◌, some, ◌==◌, ◌≢◌, if◌then◌else◌, length, ◌<◌, ◌≡◌, none, ◌+◌, ◌∷◌,
  List, Option, ◌≤◌, ℕ,
}
use Prim.Native.Nat.{min}
use advanced_operating_syste.Str.Memory.{IsString, Memory}

strlen_loop : ℕ → Memory → ℕ → ℕ → Option ℕ
strlen_loop zero m s n = none
strlen_loop (suc fuel) m s n =
    let rest = strlen_loop fuel m (s + 1) (n + 1) in if m s == 0 then some n else rest

unfoldable pub strlen : ℕ → Memory → ℕ → Option ℕ
unfolding strlen_loop
strlen fuel m s = strlen_loop fuel m s 0

-- `size` falls with every round, so it is the fuel.
unfoldable pub strnlen_loop : Memory → ℕ → ℕ → ℕ → ℕ
strnlen_loop m s zero n = n
strnlen_loop m s (suc size) n =
    let rest = strnlen_loop m (s + 1) size (n + 1) in if m s == 0 then n else rest

unfoldable pub strnlen : Memory → ℕ → ℕ → ℕ
unfolding strnlen_loop
strnlen m s size = strnlen_loop m s size 0

-- NULL is 0.
unfoldable pub strchr : ℕ → Memory → ℕ → ℕ → Option ℕ
strchr zero m s c = none
strchr (suc fuel) m s c =
    let rest = strchr fuel m (s + 1) c in
    if m s == 0 then some 0 else if m s == c then some s else rest

unfoldable pub strfind : ℕ → Memory → ℕ → ℕ → Option ℕ
strfind zero m s c = none
strfind (suc fuel) m s c =
    let rest = strfind fuel m (s + 1) c in
    if m s == 0 then some s else if m s == c then some s else rest

-- The `n` addresses from `s` on that are left; `c` is cast to unsigned char.
unfoldable pub memfind : Memory → ℕ → ℕ → ℕ → ℕ
memfind m s c zero = s
memfind m s c (suc n) = let rest = memfind m (s + 1) c n in if m s == c % 256 then s else rest

strlen_loop-length :
    (m : Memory) (cs : List ℕ) (fuel s n : ℕ)
    → IsString m s cs
    → length cs < fuel
    → strlen_loop fuel m s n ≡ some (n + length cs)
unfolding strlen_loop
strlen_loop-length m [] zero s n h f = elim f [ ]
strlen_loop-length m [] (suc fuel) s n h f = ground arith
strlen_loop-length m (c ∷ cs) zero s n h f = elim f [ ]
strlen_loop-length m (c ∷ cs) (suc fuel) s n h f =
    ground (arith, strlen_loop-length m cs fuel (s + 1) (n + 1) h.2)

-- On a string, `strlen` ends within as many rounds as it has bytes, and counts them.
pub strlen-length :
    (m : Memory) (s : ℕ) (cs : List ℕ) (fuel : ℕ)
    → IsString m s cs
    → length cs < fuel
    → strlen fuel m s ≡ some (length cs)
unfolding strlen
strlen-length m s cs fuel h f = ground (arith, strlen_loop-length m cs fuel s 0 h f)

strnlen_loop-min :
    (m : Memory) (cs : List ℕ) (s size n : ℕ)
    → IsString m s cs
    → strnlen_loop m s size n ≡ n + min size (length cs)
unfolding strnlen_loop
strnlen_loop-min m [] s zero n h = omega arith
strnlen_loop-min m [] s (suc size) n h = ground arith
strnlen_loop-min m (c ∷ cs) s zero n h = omega arith
strnlen_loop-min m (c ∷ cs) s (suc size) n h =
    ground (arith, strnlen_loop-min m cs (s + 1) size (n + 1) h.2)

-- `strnlen` is the length of the string, or `size` where the string is longer.
pub strnlen-min :
    (m : Memory) (s size : ℕ) (cs : List ℕ)
    → IsString m s cs
    → strnlen m s size ≡ min size (length cs)
unfolding strnlen
strnlen-min m s size cs h = ground (arith, strnlen_loop-min m cs s size 0 h)

-- The number of bytes before the first `c`, all of them if there is none.
abbrev pub index_of : ℕ → List ℕ → ℕ
index_of c [] = 0
index_of c (x ∷ xs) = if x == c then 0 else suc (index_of c xs)

-- `strfind` gives the first place of `c` in the string, and the place of the NUL if there is none.
pub strfind-index_of :
    (m : Memory) (c : ℕ) (cs : List ℕ) (s fuel : ℕ)
    → IsString m s cs
    → length cs < fuel
    → strfind fuel m s c ≡ some (s + index_of c cs)
unfolding strfind
strfind-index_of m c [] s zero h f = elim f [ ]
strfind-index_of m c [] s (suc fuel) h f = ground arith
strfind-index_of m c (x ∷ cs) s zero h f = elim f [ ]
strfind-index_of m c (x ∷ cs) s (suc fuel) h f =
    ground (arith, strfind-index_of m c cs (s + 1) fuel h.2)

-- `strchr` gives the first place of `c` in the string, and NULL if there is none, as when `c` is
-- the NUL itself.
pub strchr-index_of :
    (m : Memory) (c : ℕ) (cs : List ℕ) (s fuel : ℕ)
    → IsString m s cs
    → length cs < fuel
    → strchr fuel m s c ≡ some (if ltb (index_of c cs) (length cs) then s + index_of c cs else 0)
unfolding strchr
strchr-index_of m c [] s zero h f = elim f [ ]
strchr-index_of m c [] s (suc fuel) h f = ground arith
strchr-index_of m c (x ∷ cs) s zero h f = elim f [ ]
strchr-index_of m c (x ∷ cs) s (suc fuel) h f =
    ground (arith, strchr-index_of m c cs (s + 1) fuel h.2)

-- `memfind` stops inside the range or at its end, no byte before that place is `c`, and the byte at
-- a place inside the range is.
pub memfind_first :
    (m : Memory) (s c n : ℕ)
    → let at = memfind m s c n in
      (s ≤ at)
      × (at ≤ s + n)
      × ((p : ℕ) → s ≤ p → p < at → m p ≢ c % 256)
      × (at < s + n → m at ≡ c % 256)
unfolding memfind
memfind_first m s c zero =
    (omega arith, omega arith, λ p h k. absurd (omega arith), λ h. absurd (omega arith))
memfind_first m s c (suc n) =
    let (above, below, clear, hit) = memfind_first m (s + 1) c n in
    (ground arith, ground arith, λ p h k. ground (arith, clear p), λ h. ground arith)
