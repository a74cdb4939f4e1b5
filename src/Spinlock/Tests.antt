-- ===== src/Spinlock/Tests.antt =====
-- A run of two CPUs on one lock.
use advanced_operating_syste.Spinlock.{
  call_unlock, panicked, unlock_cpu, unlock_locked, Reach, System, advance, away, set_phase,
  spin_init, start, lock_locked, call_lock, run, here, next,
}
use advanced_operating_syste.Prelude.{arith, false, refl, true, ℕ, ◌≡◌}
use advanced_operating_syste.Spinlock.Invariant.{owns}
use advanced_operating_syste.Spinlock.Mutex.{Checks, Reach-Checks, Reach-exclusive}

abbrev after : System → ℕ → System
after s c = set_phase s c (advance c s.lock (s.phase c)).0 (advance c s.lock (s.phase c)).1

-- CPU 1 calls __spin_lock and CPU 2 __spin_trylock.
abbrev called : System
called = set_phase start 1 spin_init (lock_locked false false)

abbrev both : System
both = set_phase called 2 spin_init (lock_locked false true)

-- Both see the lock free; CPU 1 swaps first.
abbrev raced : System
raced = after (after (after (after both 1) 2) 1) 1

both-Reach : Reach start both
both-Reach =
    next (next here (call_lock start 1 false false (omega arith) refl))
      (call_lock called 2 false true (omega arith) refl)

raced-Reach : Reach start raced
raced-Reach =
    next
      (next (next (next both-Reach (run both 1 (omega arith))) (run (after both 1) 2 (omega arith)))
        (run (after (after both 1) 2) 1 (omega arith)))
      (run (after (after (after both 1) 2) 1) 1 (omega arith))

-- CPU 2 then fails.
lost_run : (after raced 2).phase 2 ≡ away
unfolding advance
lost_run = refl

Reach-exclusive_example :
    (raced.lock.locked ≡ 1) × (raced.lock.cpu ≡ 1) × (owns (raced.phase 2) ≡ false)
unfolding advance
Reach-exclusive_example = Reach-exclusive raced 1 2 raced-Reach refl (omega arith)

-- CPU 2 calls __spin_unlock although CPU 1 has the lock, and gets to the test of `cpu`.
abbrev misused : System
misused = set_phase (after raced 2) 2 raced.lock (unlock_locked false)

abbrev caught : System
caught = after (after misused 2) 2

caught-Reach : Reach start caught
unfolding advance
caught-Reach =
    next
      (next
        (next (next raced-Reach (run raced 2 (omega arith)))
          (call_unlock (after raced 2) 2 false (omega arith) refl))
        (run misused 2 (omega arith)))
      (run (after misused 2) 2 (omega arith))

caught_run : (caught.phase 2 ≡ unlock_cpu false) × ((after caught 2).phase 2 ≡ panicked false)
unfolding advance
caught_run = (refl, refl)

Reach-Checks_example : Checks caught 2
Reach-Checks_example = Reach-Checks caught 2 caught-Reach (omega arith)
