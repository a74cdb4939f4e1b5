-- ===== src/Spinlock/Mutex.antt =====
-- What the callers of kernel/spinlock.c rely on.
use advanced_operating_syste.Spinlock.{
  Phase, start, Reach, Step, returned, System, advance, inside, lock_locked, lock_cpu, lock_swap,
  unlock_locked, unlock_again, unlock_cpu, unlock_clear, panicked, call_lock, call_unlock, run,
  here, next,
}
use advanced_operating_syste.Prelude.{
  not, ◌||◌, Bool, Bool-cases, arith, false, if◌then◌else◌, inl, inr, refl, sym, true, ℕ, ◌==◌, ◌≡◌,
  ◌≢◌,
}
use advanced_operating_syste.Spinlock.Invariant.{
  advance-IsFair, clash, stay, IsFair-IsGuarded, noted, IsGuarded, owns,
}

owns-returned : (held : Bool) → (owns (returned held) ≡ held) × (noted (returned held) ≡ held)
owns-returned true = (refl, refl)
owns-returned false = (refl, refl)

Step-IsGuarded : {s t : System} → Step s t → IsGuarded s → IsGuarded t
Step-IsGuarded (call_lock s c held trying n at) v =
    IsFair-IsGuarded s c s.lock (lock_locked held trying) v (
      stay s c v n (lock_locked held trying) (returned held) at (sym (owns-returned held).0)
        (sym (owns-returned held).1))
Step-IsGuarded (call_unlock s c held n at) v = IsFair-IsGuarded s c s.lock (unlock_locked held) v (
    stay s c v n (unlock_locked held) (returned held) at (sym (owns-returned held).0)
      (sym (owns-returned held).1))
Step-IsGuarded (run s c n) v =
    IsFair-IsGuarded s c (advance c s.lock (s.phase c)).0 (advance c s.lock (s.phase c)).1 v
      (advance-IsFair s c v n (s.phase c) refl)

Reach-IsGuarded : {t : System} → Reach start t → IsGuarded t
Reach-IsGuarded here = record {
  taken = λ c e. absurd (ground arith);
  alone = λ c d e f. absurd (ground arith);
  named = λ c e. absurd (ground arith);
  only = λ c n e. absurd (n (sym e));
}
Reach-IsGuarded (next before step) = Step-IsGuarded step (Reach-IsGuarded before)

-- Mutual exclusion, whatever the order of the steps and whoever calls: while a CPU is between a
-- successful __spin_lock or __spin_trylock and its next call, `locked` is set, `cpu` is that CPU,
-- and no other CPU has the lock.
pub Reach-exclusive :
    (s : System) (c d : ℕ)
    → Reach start s
    → s.phase c ≡ inside
    → d ≢ c
    → (s.lock.locked ≡ 1) × (s.lock.cpu ≡ c) × (owns (s.phase d) ≡ false)
Reach-exclusive s c d r at n =
    let v = Reach-IsGuarded r in
    let mine : owns (s.phase c) ≡ true = rw at refl in
    (
      v.taken c mine,
      v.named c (rw at refl),
      elim (Bool-cases (owns (s.phase d))) [
        | inl both ↦ absurd (n (v.alone d c both mine))
        | inr free ↦ free
      ],
    )

test_lock : (p q : Phase) (free : Bool) → (if free then p else q) ≡ (if not free then q else p)
test_lock p q true = refl
test_lock p q false = refl

-- What the checks of the lock do for a CPU `c` whose caller has the lock, or has it not.
abbrev pub Checks : System → ℕ → Type 0
Checks s c =
    ((held trying : Bool)
      → s.phase c ≡ lock_locked held trying
      → (advance c s.lock (s.phase c)).1 ≡ (
          if held || not (s.lock.locked == 0) then lock_cpu held trying else lock_swap held trying))
    × ((held trying : Bool)
        → s.phase c ≡ lock_cpu held trying
        → (advance c s.lock (s.phase c)).1
          ≡ (if held then panicked held else lock_swap held trying))
    × ((held : Bool)
        → s.phase c ≡ unlock_locked held
        → (advance c s.lock (s.phase c)).1
          ≡ (if held || not (s.lock.locked == 0) then unlock_again held else panicked held))
    × ((held : Bool)
        → s.phase c ≡ unlock_again held
        → (advance c s.lock (s.phase c)).1
          ≡ (if held || not (s.lock.locked == 0) then unlock_cpu held else panicked held))
    × ((held : Bool)
        → s.phase c ≡ unlock_cpu held
        → (advance c s.lock (s.phase c)).1 ≡ (if held then unlock_clear else panicked held))

not_named :
    (s : System) (c : ℕ)
    → IsGuarded s
    → c ≢ 0
    → noted (s.phase c) ≡ false
    → (s.lock.cpu == c) ≡ false
not_named s c v n free = elim (Bool-cases (s.lock.cpu == c)) [
  | inl e ↦ absurd (clash (noted (s.phase c)) (v.only c n (ground arith)) free)
  | inr e ↦ e
]

-- In every state that can be reached each check that reads the lock is right, although other CPUs
-- change it meanwhile. A caller of __spin_lock or __spin_trylock that has the lock gets to the test of
-- `cpu` and panics there; one that has it not gets to the swap, past that test if `locked` is set. A
-- caller of __spin_unlock that has the lock passes all three tests; one that has it not panics at the
-- first two if the lock is free then, and at the test of `cpu` in any case.
pub Reach-Checks : (s : System) (c : ℕ) → Reach start s → c ≢ 0 → Checks s c
unfolding advance
Reach-Checks s c r n =
    let v = Reach-IsGuarded r in
    let set : owns (s.phase c) ≡ true → (s.lock.locked == 0) ≡ false =
      λ e. ground (arith, v.taken c e) in
    (
      λ held trying at. elim (Bool-cases held) [
        | inl mine ↦ rw (at, set (rw (at, mine) refl), mine) refl
        | inr other ↦ rw (at, other) (test_lock _ _ (s.lock.locked == 0))
      ],
      λ held trying at. elim (Bool-cases held) [
        | inl mine ↦
            let named : (s.lock.cpu == c) ≡ true = ground (arith, v.named c (rw (at, mine) refl)) in
            rw (at, named, mine) refl
        | inr other ↦
            let named : (s.lock.cpu == c) ≡ false = not_named s c v n (rw (at, other) refl) in
            rw (at, named, other) refl
      ],
      λ held at. elim (Bool-cases held) [
        | inl mine ↦ rw (at, set (rw (at, mine) refl), mine) refl
        | inr other ↦ rw (at, other) (test_lock _ _ (s.lock.locked == 0))
      ],
      λ held at. elim (Bool-cases held) [
        | inl mine ↦ rw (at, set (rw (at, mine) refl), mine) refl
        | inr other ↦ rw (at, other) (test_lock _ _ (s.lock.locked == 0))
      ],
      λ held at. elim (Bool-cases held) [
        | inl mine ↦
            let named : (s.lock.cpu == c) ≡ true = ground (arith, v.named c (rw (at, mine) refl)) in
            rw (at, named, mine) refl
        | inr other ↦
            let named : (s.lock.cpu == c) ≡ false = not_named s c v n (rw (at, other) refl) in
            rw (at, named, other) refl
      ],
    )
