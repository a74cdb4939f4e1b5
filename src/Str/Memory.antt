-- ===== src/Str/Memory.antt =====
-- Memory as the routines of lib/string.c see it: a byte at every address. A `char *` is a number; an
-- access through NULL is not modelled, since the routines never test for it.
use advanced_operating_syste.Prelude.{
  [], ◌+◌, ltb, ◌≢◌, ◌&&◌, ◌∷◌, leb, ◌==◌, ◌≡◌, Bool, List, if◌then◌else◌, ℕ,
}

abbrev pub Memory : Type 0
Memory = ℕ → ℕ

abbrev pub store : Memory → ℕ → ℕ → Memory
store m a v p = if p == a then v else m p

-- The bytes `cs` and a NUL behind them stand at `s`: a C string.
abbrev pub IsString : Memory → ℕ → List ℕ → Type 0
IsString m s [] = m s ≡ 0
IsString m s (c ∷ cs) = (m s ≡ c) × (c ≢ 0) × IsString m (s + 1) cs

-- `p` is one of the `n` addresses from `a` on.
abbrev pub within : ℕ → ℕ → ℕ → Bool
within a n p = leb a p && ltb p (a + n)
