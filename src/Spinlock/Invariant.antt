-- ===== src/Spinlock/Invariant.antt =====
-- Mutual exclusion of kernel/spinlock.c, and which calls panic.
use advanced_operating_syste.Spinlock.{
  returned, advance, set_phase, Lock, Phase, System, away, inside, lock_locked, lock_cpu, lock_swap,
  lock_set, unlock_locked, unlock_again, unlock_cpu, unlock_clear, unlock_store, panicked,
}
use advanced_operating_syste.Prelude.{
  if◌then◌else◌, Bool, Bool-cases, arith, false, inl, inr, refl, sym, true, ℕ, ◌==◌, ◌∙◌, ◌≡◌, ◌≢◌,
}

-- The CPU has won the swap and not yet stored 0.
abbrev pub owns : Phase → Bool
owns away = false
owns inside = true
owns (lock_locked held trying) = held
owns (lock_cpu held trying) = held
owns (lock_swap held trying) = held
owns lock_set = true
owns (unlock_locked held) = held
owns (unlock_again held) = held
owns (unlock_cpu held) = held
owns unlock_clear = true
owns unlock_store = true
owns (panicked held) = held

-- The CPU is noted in `cpu`.
abbrev pub noted : Phase → Bool
noted away = false
noted inside = true
noted (lock_locked held trying) = held
noted (lock_cpu held trying) = held
noted (lock_swap held trying) = held
noted lock_set = false
noted (unlock_locked held) = held
noted (unlock_again held) = held
noted (unlock_cpu held) = held
noted unlock_clear = true
noted unlock_store = false
noted (panicked held) = held

-- One CPU at most has the lock, `locked` is set while one has, and `cpu` is the one that is noted.
pub record IsGuarded (s : System) : Type 0 where
  pub taken : (c : ℕ) → owns (s.phase c) ≡ true → s.lock.locked ≡ 1
  pub alone : (c d : ℕ) → owns (s.phase c) ≡ true → owns (s.phase d) ≡ true → c ≡ d
  pub named : (c : ℕ) → noted (s.phase c) ≡ true → s.lock.cpu ≡ c
  pub only : (c : ℕ) → c ≢ 0 → s.lock.cpu ≡ c → noted (s.phase c) ≡ true

noted-owns : (p : Phase) → noted p ≡ true → owns p ≡ true
noted-owns away e = ground arith
noted-owns inside e = refl
noted-owns (lock_locked held trying) e = e
noted-owns (lock_cpu held trying) e = e
noted-owns (lock_swap held trying) e = e
noted-owns lock_set e = refl
noted-owns (unlock_locked held) e = e
noted-owns (unlock_again held) e = e
noted-owns (unlock_cpu held) e = e
noted-owns unlock_clear e = refl
noted-owns unlock_store e = refl
noted-owns (panicked held) e = e

-- What a step of the CPU `c` to the lock `l` and the phase `p` has to keep.
pub record IsFair (s : System) (c : ℕ) (l : Lock) (p : Phase) : Type 0 where
  mine : owns p ≡ true → l.locked ≡ 1
  others : (d : ℕ) → d ≢ c → owns (s.phase d) ≡ true → (l.locked ≡ 1) × (owns p ≡ false)
  noted_mine : noted p ≡ true → l.cpu ≡ c
  noted_others : (d : ℕ) → d ≢ c → noted (s.phase d) ≡ true → l.cpu ≡ d
  only_mine : l.cpu ≡ c → noted p ≡ true
  only_others : (d : ℕ) → d ≢ c → d ≢ 0 → l.cpu ≡ d → noted (s.phase d) ≡ true

pub clash : (b : Bool) → b ≡ true → b ≡ false → ⊥
clash b e f = ground arith

module _ (s : System) (c : ℕ) (l : Lock) (p : Phase) where
  pub IsFair-IsGuarded : IsGuarded s → IsFair s c l p → IsGuarded (set_phase s c l p)
  IsFair-IsGuarded v f = record {
    taken = λ d e. elim (Bool-cases (c == d)) [
      | inl mine ↦ f.mine (rw mine at e)
      | inr other ↦ (f.others d (ground arith) (rw other at e)).0
    ];
    alone = λ d x e h. elim (Bool-cases (c == d)) [
      | inl i ↦ elim (Bool-cases (c == x)) [
        | inl j ↦ ground arith
        | inr k ↦ absurd (clash (owns p) (rw i at e) (f.others x (ground arith) (rw k at h)).1)
      ]
      | inr k ↦ elim (Bool-cases (c == x)) [
        | inl j ↦ absurd (clash (owns p) (rw j at h) (f.others d (ground arith) (rw k at e)).1)
        | inr m ↦ v.alone d x (rw k at e) (rw m at h)
      ]
    ];
    named = λ d e. elim (Bool-cases (c == d)) [
      | inl mine ↦ f.noted_mine (rw mine at e) ∙ ground arith
      | inr other ↦ f.noted_others d (ground arith) (rw other at e)
    ];
    only = λ d n e. elim (Bool-cases (c == d)) [
      | inl mine ↦ rw mine (f.only_mine (ground (arith, e)))
      | inr other ↦ rw other (f.only_others d (ground arith) n e)
    ];
  }

-- A step that leaves the lock as it is, and what the CPU has of it.
quiet-IsFair :
    (s : System) (c : ℕ) (p : Phase)
    → IsGuarded s
    → c ≢ 0
    → owns p ≡ owns (s.phase c)
    → noted p ≡ noted (s.phase c)
    → IsFair s c s.lock p
quiet-IsFair s c p v n o m = record {
  mine = λ e. v.taken c (sym o ∙ e);
  others = λ d ne e. (
    v.taken d e,
    elim (Bool-cases (owns p)) [
      | inl both ↦ absurd (ne (v.alone d c e (sym o ∙ both)))
      | inr free ↦ free
    ],
  );
  noted_mine = λ e. v.named c (sym m ∙ e);
  noted_others = λ d ne e. v.named d e;
  only_mine = λ e. m ∙ v.only c n e;
  only_others = λ d ne z e. v.only d z e;
}

module _ (s : System) (c : ℕ) (v : IsGuarded s) (n : c ≢ 0) where
  -- While `c` has the lock nobody else has it.
  not_theirs : owns (s.phase c) ≡ true → (d : ℕ) → d ≢ c → owns (s.phase d) ≡ true → ⊥
  not_theirs mine d ne theirs = ne (v.alone d c theirs mine)

  swap-IsFair : s.lock.locked ≡ 0 → IsFair s c (record s.lock { locked = 1 }) lock_set
  swap-IsFair free = record {
    mine = λ e. refl;
    others = λ d ne e. absurd (omega (arith, free, v.taken d e));
    noted_mine = λ e. absurd (ground arith);
    noted_others = λ d ne e. absurd (omega (arith, free, v.taken d (noted-owns (s.phase d) e)));
    only_mine =
        λ e. absurd (omega (arith, free, v.taken c (noted-owns (s.phase c) (v.only c n e))));
    only_others = λ d ne z e. v.only d z e;
  }

  set-IsFair : s.phase c ≡ lock_set → IsFair s c (record s.lock { cpu = c }) inside
  set-IsFair at =
      let mine : owns (s.phase c) ≡ true = rw at refl in
      record {
        mine = λ e. v.taken c mine;
        others = λ d ne e. absurd (not_theirs mine d ne e);
        noted_mine = λ e. refl;
        noted_others = λ d ne e. absurd (not_theirs mine d ne (noted-owns (s.phase d) e));
        only_mine = λ e. refl;
        only_others = λ d ne z e. absurd (ne (sym e));
      }

  clear-IsFair : s.phase c ≡ unlock_clear → IsFair s c (record s.lock { cpu = 0 }) unlock_store
  clear-IsFair at =
      let mine : owns (s.phase c) ≡ true = rw at refl in
      record {
        mine = λ e. v.taken c mine;
        others = λ d ne e. absurd (not_theirs mine d ne e);
        noted_mine = λ e. absurd (ground arith);
        noted_others = λ d ne e. absurd (not_theirs mine d ne (noted-owns (s.phase d) e));
        only_mine = λ e. absurd (n (sym e));
        only_others = λ d ne z e. absurd (z (sym e));
      }

  store-IsFair : s.phase c ≡ unlock_store → IsFair s c (record s.lock { locked = 0 }) away
  store-IsFair at =
      let mine : owns (s.phase c) ≡ true = rw at refl in
      record {
        mine = λ e. absurd (ground arith);
        others = λ d ne e. absurd (not_theirs mine d ne e);
        noted_mine = λ e. absurd (ground arith);
        noted_others = λ d ne e. absurd (not_theirs mine d ne (noted-owns (s.phase d) e));
        only_mine = λ e. rw at at (v.only c n e);
        only_others = λ d ne z e. v.only d z e;
      }

  -- A quiet step to the phase `p`.
  pub stay :
      (p q : Phase) → s.phase c ≡ q → owns p ≡ owns q → noted p ≡ noted q → IsFair s c s.lock p
  stay p q at o m = quiet-IsFair s c p v n (rw at o) (rw at m)

  pub advance-IsFair :
      (q : Phase) → s.phase c ≡ q → IsFair s c (advance c s.lock q).0 (advance c s.lock q).1
  unfolding advance
  advance-IsFair away at = stay away away at refl refl
  advance-IsFair inside at = stay inside inside at refl refl
  advance-IsFair (lock_locked held trying) at = elim (Bool-cases (s.lock.locked == 0)) [
    | inl e ↦ rw e (stay (lock_swap held trying) (lock_locked held trying) at refl refl)
    | inr e ↦ rw e (stay (lock_cpu held trying) (lock_locked held trying) at refl refl)
  ]
  advance-IsFair (lock_cpu held trying) at = elim (Bool-cases (s.lock.cpu == c)) [
    | inl e ↦ rw e (stay (panicked held) (lock_cpu held trying) at refl refl)
    | inr e ↦ rw e (stay (lock_swap held trying) (lock_cpu held trying) at refl refl)
  ]
  advance-IsFair (lock_swap held trying) at = elim (Bool-cases (s.lock.locked == 0)) [
    | inl e ↦ rw e (swap-IsFair (ground arith))
    | inr e ↦ rw e (missed held trying at)
  ]
    where
      missed :
          (held trying : Bool)
          → s.phase c ≡ lock_swap held trying
          → IsFair s c s.lock (if trying then returned held else lock_swap held trying)
      missed true true at = stay inside (lock_swap true true) at refl refl
      missed false true at = stay away (lock_swap false true) at refl refl
      missed held false at = stay (lock_swap held false) (lock_swap held false) at refl refl
  advance-IsFair lock_set at = set-IsFair at
  advance-IsFair (unlock_locked held) at = elim (Bool-cases (s.lock.locked == 0)) [
    | inl e ↦ rw e (stay (panicked held) (unlock_locked held) at refl refl)
    | inr e ↦ rw e (stay (unlock_again held) (unlock_locked held) at refl refl)
  ]
  advance-IsFair (unlock_again held) at = elim (Bool-cases (s.lock.locked == 0)) [
    | inl e ↦ rw e (stay (panicked held) (unlock_again held) at refl refl)
    | inr e ↦ rw e (stay (unlock_cpu held) (unlock_again held) at refl refl)
  ]
  advance-IsFair (unlock_cpu held) at = elim (Bool-cases (s.lock.cpu == c)) [
    | inl e ↦
        let mine : held ≡ true = rw at at (v.only c n (ground arith)) in
        rw e (stay unlock_clear (unlock_cpu held) at (sym mine) (sym mine))
    | inr e ↦ rw e (stay (panicked held) (unlock_cpu held) at refl refl)
  ]
  advance-IsFair unlock_clear at = clear-IsFair at
  advance-IsFair unlock_store at = store-IsFair at
  advance-IsFair (panicked held) at = stay (panicked held) (panicked held) at refl refl
