-- ===== src/Sched/Tests.antt =====
-- Runs of the run queues: the heads of the global, the local and the next queue stand at 1, 2 and 3,
-- the tasks from 11 on.
use advanced_operating_syste.LinkedList.Chain.{SameOutside}
use advanced_operating_syste.LinkedList.Store.{Links}
use advanced_operating_syste.Sched.Try.{Runs}
use advanced_operating_syste.Prelude.{
  true, List, Option, [], arith, count, if◌then◌else◌, length, none, refl, some, ◌+◌, ◌==◌, ◌∷◌,
  ◌≡◌, ℕ,
}
use advanced_operating_syste.Sched.{
  Round, sched_yield, move_nextq_to_runq, Queues, migrate_tasks_runq, queue_add_priority,
}
use advanced_operating_syste.Sched.Yield.{IsQueues, sched_yield-Runs}
use advanced_operating_syste.LinkedList.{list_del, list_foreach}
use advanced_operating_syste.Sched.NextQueue.{move_nextq_to_runq-Apart}
use advanced_operating_syste.Sched.Balance.{migrate_tasks_runq-Balances}
use advanced_operating_syste.Sched.Transfer.{Apart}

abbrev queues : Queues
queues = record { runq = 1; local_runq = 2; nextq = 3 }

-- Two tasks on the global queue, one on the local one, and two on the next one.
abbrev after : ℕ → ℕ
after p =
    if p == 1
    then 11
    else if p == 11
    then 12
    else if p == 12
    then 1
    else if p == 2
    then 13
    else if p == 13
    then 2
    else if p == 3
    then 14
    else if p == 14
    then 15
    else if p == 15
    then 3
    else p

abbrev before : ℕ → ℕ
before p =
    if p == 1
    then 12
    else if p == 11
    then 1
    else if p == 12
    then 11
    else if p == 2
    then 13
    else if p == 13
    then 2
    else if p == 3
    then 15
    else if p == 14
    then 3
    else if p == 15
    then 14
    else p

abbrev linked : Links
linked = record { next = after; prev = before }

abbrev tasks_of : {A : Type 0} → ℕ → Option (A × Links) → Option (List ℕ)
tasks_of a none = none
tasks_of a (some (n, h)) = list_foreach 9 a (h.next a) h

pull_run : tasks_of 2 (migrate_tasks_runq 9 (λ p. 0) queues 2 1 linked) ≡ some (13 ∷ 11 ∷ [])
unfolding migrate_tasks_runq list_foreach list_del
pull_run = refl

push_run : tasks_of 1 (migrate_tasks_runq 9 (λ p. 0) queues 0 1 linked) ≡ some (11 ∷ 12 ∷ 13 ∷ [])
unfolding migrate_tasks_runq list_foreach list_del
push_run = refl

-- By priority, a task goes before the first one with more jiffies.
priority_run :
    tasks_of 1 (queue_add_priority 9 (λ p. if p == 12 then 5 else 1) 1 20 linked)
    ≡ some (11 ∷ 20 ∷ 12 ∷ [])
unfolding queue_add_priority list_foreach
priority_run = refl

linked-Apart : Apart linked 2 1 (13 ∷ []) (11 ∷ 12 ∷ [])
linked-Apart = record {
  first = record {
    chain = (refl, refl, (refl, refl));
    distinct = λ p. ground arith;
    nonnull = refl;
  };
  second = record {
    chain = (refl, refl, (refl, refl, (refl, refl)));
    distinct = λ p. ground arith;
    nonnull = refl;
  };
  apart = λ p. ground arith;
}

migrate_tasks_runq_example :
    (g : Links) × (ws : List ℕ) × (us : List ℕ) × (migrate_tasks_runq 9 (λ p. 0) queues 2 1 linked
      ≡ some (length ws, g))
    × Apart g 2 1 ws us
    × (length ws ≡ 2)
    × ((p : ℕ) → count p ws + count p us ≡ count p (13 ∷ []) + count p (11 ∷ 12 ∷ []))
migrate_tasks_runq_example =
    migrate_tasks_runq-Balances 9 (λ p. 0) queues 2 (13 ∷ []) (11 ∷ 12 ∷ []) linked linked-Apart
      (omega arith)

-- The head at 5 has no tasks.
abbrev idle : Queues
idle = record { runq = 1; local_runq = 5; nextq = 3 }

idle-Apart : Apart linked 3 5 (14 ∷ 15 ∷ []) []
idle-Apart = record {
  first = record {
    chain = (refl, refl, (refl, refl, (refl, refl)));
    distinct = λ p. ground arith;
    nonnull = refl;
  };
  second = record { chain = (refl, refl); distinct = λ p. ground arith; nonnull = refl };
  apart = λ p. ground arith;
}

move_nextq_to_runq_example :
    (g : Links) × (move_nextq_to_runq idle linked ≡ some (tt, g))
    × Apart g 3 5 [] (14 ∷ 15 ∷ [])
    × SameOutside (5 ∷ 3 ∷ 14 ∷ 15 ∷ []) linked g
move_nextq_to_runq_example = move_nextq_to_runq-Apart idle linked 14 (15 ∷ []) idle-Apart

idle-IsQueues : IsQueues linked idle [] (14 ∷ 15 ∷ []) (11 ∷ 12 ∷ [])
idle-IsQueues = record {
  local = idle-Apart.second;
  waiting = idle-Apart.first;
  global = linked-Apart.second;
  apart = λ p. ground arith;
}

abbrev quiet_round : Round
quiet_round = record { nuser_tasks = 3; nkernel_tasks = 1; nuser_tasks_again = 4; trylock = true }

abbrev yield_20 : Option ((ℕ × ℕ) × Links)
yield_20 = sched_yield 9 (λ p. 0) idle 2 20 7 (quiet_round ∷ []) (0 + 2) linked

sched_yield_example : Runs yield_20 (14 ∷ 15 ∷ 20 ∷ 11 ∷ 12 ∷ [])
sched_yield_example =
    sched_yield-Runs 9 (λ p. 0) idle 2 20 7 quiet_round [] [] (14 ∷ 15 ∷ []) (11 ∷ 12 ∷ []) linked
      idle-IsQueues (record { ne_null = omega arith; off = refl }) (omega arith) (omega arith)
      (omega arith) (omega arith) (omega arith) (omega arith) (omega arith)

yield_run : tasks_of 5 yield_20 ≡ some (20 ∷ [])
unfolding sched_yield list_foreach list_del
yield_run = refl
