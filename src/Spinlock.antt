-- ===== src/Spinlock.antt =====
-- kernel/spinlock.c with DEBUG_SPINLOCK, as include/spinlock.h defines it: one lock, and any number
-- of CPUs that call __spin_lock, __spin_trylock and __spin_unlock. Each read and write of a field of
-- the lock and the compare-and-swap is one step. A CPU is the number of its struct cpuinfo, which is
-- not 0 (NULL). The name, file and line that are kept for messages are left out.
pub mod Invariant
pub mod Mutex
mod Tests
use advanced_operating_syste.Prelude.{Bool, false, if◌then◌else◌, true, ℕ, ◌==◌, ◌≡◌, ◌≢◌}

-- `locked` and `cpu` of struct spinlock.
pub record Lock : Type 0 where
  pub locked : ℕ
  pub cpu : ℕ

-- Where a CPU is. `held` says whether the CPU had the lock when it called, `trying` whether it calls
-- __spin_trylock.
pub data Phase : Type 0 where
  away : Phase
  inside : Phase
  lock_locked : (held trying : Bool) → Phase
  lock_cpu : (held trying : Bool) → Phase
  lock_swap : (held trying : Bool) → Phase
  lock_set : Phase
  unlock_locked : (held : Bool) → Phase
  unlock_again : (held : Bool) → Phase
  unlock_cpu : (held : Bool) → Phase
  unlock_clear : Phase
  unlock_store : Phase
  panicked : (held : Bool) → Phase

-- Back at the caller.
abbrev pub returned : Bool → Phase
returned true = inside
returned false = away

-- The next step of the CPU `c`: `holding` reads `locked`, then `cpu`; the loop swaps; the owner is
-- noted; unlocking tests `locked`, then `holding`, clears the owner and stores 0.
unfoldable pub advance : ℕ → Lock → Phase → Lock × Phase
advance c l away = (l, away)
advance c l inside = (l, inside)
advance c l (lock_locked held trying) =
    (l, if l.locked == 0 then lock_swap held trying else lock_cpu held trying)
advance c l (lock_cpu held trying) =
    (l, if l.cpu == c then panicked held else lock_swap held trying)
advance c l (lock_swap held trying) =
    if l.locked == 0
    then (record l { locked = 1 }, lock_set)
    else (l, if trying then returned held else lock_swap held trying)
advance c l lock_set = (record l { cpu = c }, inside)
advance c l (unlock_locked held) = (l, if l.locked == 0 then panicked held else unlock_again held)
advance c l (unlock_again held) = (l, if l.locked == 0 then panicked held else unlock_cpu held)
advance c l (unlock_cpu held) = (l, if l.cpu == c then unlock_clear else panicked held)
advance c l unlock_clear = (record l { cpu = 0 }, unlock_store)
advance c l unlock_store = (record l { locked = 0 }, away)
advance c l (panicked held) = (l, panicked held)

-- `spin_init`.
abbrev pub spin_init : Lock
spin_init = record { locked = 0; cpu = 0 }

pub record System : Type 0 where
  pub lock : Lock
  pub phase : ℕ → Phase

abbrev pub set_phase : System → ℕ → Lock → Phase → System
set_phase s c l p = record { lock = l; phase = λ d. if c == d then p else s.phase d }

-- A CPU that is with its caller calls a function, which runs step by step; any CPU may be next.
pub data Step : System → System → Type 0 where
  call_lock :
      (s : System) (c : ℕ) (held trying : Bool)
      → c ≢ 0
      → s.phase c ≡ returned held
      → Step s (set_phase s c s.lock (lock_locked held trying))
  call_unlock :
      (s : System) (c : ℕ) (held : Bool)
      → c ≢ 0
      → s.phase c ≡ returned held
      → Step s (set_phase s c s.lock (unlock_locked held))
  run :
      (s : System) (c : ℕ)
      → c ≢ 0
      → Step s (set_phase s c (advance c s.lock (s.phase c)).0 (advance c s.lock (s.phase c)).1)

pub data Reach (s : System) : System → Type 0 where
  here : Reach s s
  next : {t u : System} → Reach s t → Step t u → Reach s u

-- A new lock, and all CPUs away.
abbrev pub start : System
start = record { lock = spin_init; phase = λ c. away }
