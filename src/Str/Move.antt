-- ===== src/Str/Move.antt =====
-- memmove, memcpy, memset and memcmp of lib/string.c, in the C version (the other branch of
-- `#if ASM` writes the same loops as string instructions). Addresses do not wrap round.
use advanced_operating_syste.Prelude.{
  true, ◌<◌, ◌^◌, inl, inr, suc, zero, Bool-cases, arith, ◌%◌, ◌&&◌, ◌-◌, ltb, ◌+◌, ◌⊎◌,
  if◌then◌else◌, ◌≡◌, ◌≤◌, ℕ,
}
use advanced_operating_syste.Str.Memory.{store, within, Memory}

-- `while (n-- > 0) *d++ = *s++;`
move_up : ℕ → ℕ → ℕ → Memory → Memory
move_up zero d s m = m
move_up (suc n) d s m = move_up n (d + 1) (s + 1) (store m d (m s))

-- `while (n-- > 0) *--d = *--s;` with `d` and `s` behind the last byte.
move_down : ℕ → ℕ → ℕ → Memory → Memory
move_down zero d s m = m
move_down (suc n) d s m = move_down n (d - 1) (s - 1) (store m (d - 1) (m (s - 1)))

unfoldable pub memmove : ℕ → ℕ → ℕ → Memory → Memory
unfolding move_up move_down
memmove dst src n m =
    if ltb src dst && ltb dst (src + n)
    then move_down n (dst + n) (src + n) m
    else move_up n dst src m

unfoldable pub memcpy : ℕ → ℕ → ℕ → Memory → Memory
unfolding memmove
memcpy dst src n m = memmove dst src n m

-- `while (--m >= 0) *p++ = c;` for `m` rounds; a byte takes the low bits of `c`.
unfoldable fill : ℕ → ℕ → ℕ → Memory → Memory
fill p c zero m = m
fill p c (suc n) m = fill (p + 1) c n (store m p (c % 256))

-- `m = n`, where `m` is an int of 32 bits: the rounds of the loop, none for a negative `m`.
abbrev int_rounds : ℕ → ℕ
int_rounds n = if ltb (n % 2 ^ 32) (2 ^ 31) then n % 2 ^ 32 else 0

unfoldable pub memset : ℕ → ℕ → ℕ → Memory → Memory
unfolding fill
memset p c n m = fill p c (int_rounds n) m

move_up_lem :
    (n d s : ℕ) (m : Memory) (p : ℕ)
    → (d ≤ s) ⊎ (s + n ≤ d)
    → move_up n d s m p ≡ (if within d n p then m (s + (p - d)) else m p)
unfolding move_up
move_up_lem zero d s m p h = ground arith
move_up_lem (suc n) d s m p h =
    ground (arith, move_up_lem n (d + 1) (s + 1) (store m d (m s)) p (ground arith))

move_down_lem :
    (n d s : ℕ) (m : Memory) (p : ℕ)
    → s ≤ d
    → move_down n (d + n) (s + n) m p ≡ (if within d n p then m (s + (p - d)) else m p)
unfolding move_down
move_down_lem zero d s m p h = ground arith
move_down_lem (suc n) d s m p h =
    ground (arith, move_down_lem n d s (store m (d + n) (m (s + n))) p h)

-- `memmove` leaves in the destination what the source held before, however the two overlap, and
-- changes nothing else.
pub memmove_lem :
    (dst src n : ℕ) (m : Memory) (p : ℕ)
    → memmove dst src n m p ≡ (if within dst n p then m (src + (p - dst)) else m p)
unfolding memmove
memmove_lem dst src n m p = elim (Bool-cases (ltb src dst && ltb dst (src + n))) [
  | inl down ↦ rw down (move_down_lem n dst src m p (ground arith))
  | inr up ↦ rw up (move_up_lem n dst src m p (ground arith))
]

fill_lem :
    (n a c : ℕ) (m : Memory) (p : ℕ) → fill a c n m p ≡ (if within a n p then c % 256 else m p)
unfolding fill
fill_lem zero a c m p = ground arith
fill_lem (suc n) a c m p = ground (arith, fill_lem n (a + 1) c (store m a (c % 256)) p)

-- `memset` of less than 2 ^ 31 bytes fills the range with the low byte of `c`, and changes nothing
-- else.
pub memset_lem :
    (n a c : ℕ) (m : Memory) (p : ℕ)
    → n < 2 ^ 31
    → memset a c n m p ≡ (if within a n p then c % 256 else m p)
unfolding memset
memset_lem n a c m p h =
    let small : n % 2 ^ 32 ≡ n = omega arith in
    let positive : ltb n (2 ^ 31) ≡ true = ground arith in rw (small, positive) (fill_lem n a c m p)
