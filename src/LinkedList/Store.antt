-- ===== src/LinkedList/Store.antt =====
-- The store that lib/list.c works on: the two fields of every `struct list` (include/list.h). A
-- pointer is a number and NULL is 0; `none` is a kernel panic: a failed assertion or an access
-- through NULL.
use advanced_operating_syste.Prelude.{ℕ, Option, none, some, ◌==◌, if◌then◌else◌}

abbrev pub null : ℕ
null = 0

pub record Links : Type 0 where
  pub next : ℕ → ℕ
  pub prev : ℕ → ℕ

abbrev pub update : (ℕ → ℕ) → ℕ → ℕ → ℕ → ℕ
update f p v q = if p == q then v else f q

-- A computation over the store.
abbrev pub M : Type 0 → Type 0
M A = Links → Option (A × Links)

abbrev pub pure : {A : Type 0} → A → M A
pure a h = some (a, h)

abbrev pub and_then : {A B : Type 0} → Option (A × Links) → (A → M B) → Option (B × Links)
and_then none f = none
and_then (some (a, h)) f = f a h

infixl 5 ◌>>=◌ ◌>>◌
abbrev pub ◌>>=◌ : {A B : Type 0} → M A → (A → M B) → M B
m >>= f = λ h. and_then (m h) f

abbrev pub ◌>>◌ : {B : Type 0} → M (Unit {0}) → M B → M B
m >> k = m >>= λ _. k

-- `p->next` and `p->prev`, read and written.
abbrev pub next : ℕ → M ℕ
next p h = if p == null then none else some (h.next p, h)

abbrev pub prev : ℕ → M ℕ
prev p h = if p == null then none else some (h.prev p, h)

abbrev pub set_next : ℕ → ℕ → M (Unit {0})
set_next p v h = if p == null then none else some (tt, record h { next = update h.next p v })

abbrev pub set_prev : ℕ → ℕ → M (Unit {0})
set_prev p v h = if p == null then none else some (tt, record h { prev = update h.prev p v })

-- `assert(p)`.
abbrev pub assert_ptr : ℕ → M (Unit {0})
assert_ptr p h = if p == null then none else some (tt, h)
