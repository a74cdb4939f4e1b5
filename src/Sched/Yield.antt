-- ===== src/Sched/Yield.antt =====
-- sched_yield of kernel/sched/sched.c always finds a task to run.
use advanced_operating_syste.Prelude.{
  ◌%◌, ◌^◌, length-append, subst, leb, ◌&&◌, if◌then◌else◌, inl, inr, ◌∙◌, ◌⊎◌, Bool, count-append,
  false, length, ltb, one_if, one_if_self, refl, suc, true, ◌==◌, List, [], arith, count, some,
  ◌++◌, ◌+◌, ◌-◌, ◌<◌, ◌∷◌, ◌≡◌, ◌≢◌, ◌≤◌, ℕ,
}
use advanced_operating_syste.Sched.Try.{try_empty, try-Runs, try_first, Runs}
use advanced_operating_syste.Sched.{
  pidmap_lim, task_foreach_cpu, sched_yield, migrate_tasks_runq, move_cur_task_to_nextq, Round,
  move_nextq_to_runq, migrate_tasks, queue_add_task, Queues, try_run_next_task,
}
use advanced_operating_syste.LinkedList.Store.{M, null, Links, pure}
use advanced_operating_syste.Sched.Balance.{migrate_tasks_runq-Balances}
use advanced_operating_syste.Sched.NextQueue.{move_nextq_to_runq-Apart}
use advanced_operating_syste.LinkedList.Chain.{frame-IsRing, IsRing}
use advanced_operating_syste.LinkedList.Insert.{list_add_tail-IsRing, IsFresh}

-- The three queues of a CPU are well linked and share no task.
pub record IsQueues (h : Links) (q : Queues) (xs ns ys : List ℕ) : Type 0 where
  pub local : IsRing h q.local_runq xs
  pub waiting : IsRing h q.nextq ns
  pub global : IsRing h q.runq ys
  pub apart :
      (p : ℕ) → count p (q.local_runq ∷ xs) + (count p (q.nextq ∷ ns) + count p (q.runq ∷ ys)) ≤ 1

-- A task that stands on no queue.
pub record IsOff (task : ℕ) (q : Queues) (xs ns ys : List ℕ) : Type 0 where
  pub ne_null : task ≢ null
  pub off :
      count task (q.local_runq ∷ xs) + (count task (q.nextq ∷ ns) + count task (q.runq ∷ ys)) ≡ 0

module _ (h : Links) (q : Queues) (xs ns ys : List ℕ) (r : IsQueues h q xs ns ys) where
  -- The task that ran goes to the end of the next queue.
  enqueued-IsQueues :
      (fuel : ℕ) (jiffies : ℕ → ℕ) (task : ℕ)
      → IsOff task q xs ns ys
      → (k : Links) × (queue_add_task fuel jiffies q.nextq task h ≡ some (tt, k))
        × IsQueues k q xs (ns ++ task ∷ []) ys
  unfolding queue_add_task
  enqueued-IsQueues fuel jiffies task o =
      let fresh : IsFresh task q.nextq ns = record {
        ne_null = o.ne_null;
        outside = omega (arith, o.off);
      } in
      let (k, added, ring, same) = list_add_tail-IsRing h q.nextq task ns r.waiting fresh in
      let local =
        frame-IsRing h k q.local_runq xs (task ∷ q.nextq ∷ ns) r.local same
          (λ p i. ground (arith, i, r.apart p, o.off)) in
      let global =
        frame-IsRing h k q.runq ys (task ∷ q.nextq ∷ ns) r.global same
          (λ p i. ground (arith, i, r.apart p, o.off)) in
      let off_once : (p : ℕ)
          → one_if task p
              + (count p (q.local_runq ∷ xs) + (count p (q.nextq ∷ ns) + count p (q.runq ∷ ys)))
            ≤ 1 =
        λ p. ground (arith, r.apart p, o.off) in
      (
        k,
        added,
        record {
          local = local;
          waiting = ring;
          global = global;
          apart = λ p. omega (arith, r.apart p, count-append p ns (task ∷ []), off_once p);
        },
      )

-- Whether migrate_tasks balances or not.
either_run :
    (b c : Bool) (balance : M ℕ) (len : ℕ) (k : Links)
    → ((if b then pure len else if c then balance else pure len) k ≡ some (len, k))
      ⊎ ((if b then pure len else if c then balance else pure len) k ≡ balance k)
either_run true c balance len k = inl refl
either_run false true balance len k = inr refl
either_run false false balance len k = inl refl

migrates :
    (fuel : ℕ) (jiffies : ℕ → ℕ) (h k : Links) (q : Queues) (trylock : Bool) (target len : ℕ)
    → move_nextq_to_runq q h ≡ some (tt, k)
    → (migrate_tasks fuel jiffies q trylock target len h ≡ some (len, k))
      ⊎ (migrate_tasks fuel jiffies q trylock target len h
          ≡ migrate_tasks_runq fuel jiffies q target len k)
unfolding migrate_tasks
migrates fuel jiffies h k q trylock target len moved =
    rw moved
      (either_run (len == target) trylock (migrate_tasks_runq fuel jiffies q target len) len k)

-- Once the next queue has tasks, moving it and balancing leave the CPU a task.
migrated-Runs :
    (fuel : ℕ) (jiffies : ℕ → ℕ) (h : Links) (q : Queues) (ns ys : List ℕ) (trylock : Bool)
    (target : ℕ)
    → IsQueues h q [] ns ys
    → 0 < length ns
    → 0 < target
    → length ns + length ys < fuel
    → (k : Links) × (ws : List ℕ) × (migrate_tasks fuel jiffies q trylock target (length ns) h
        ≡ some (length ws, k))
      × IsRing k q.local_runq ws
      × (0 < length ws)
      × ((p : ℕ) → 0 < count p ws → 0 < count p ns + count p ys)
migrated-Runs fuel jiffies h q [] ys trylock target r z l f = elim z [ ]
migrated-Runs fuel jiffies h q (x ∷ ns) ys trylock target r z l f =
    let (k, moved, two, same) =
      move_nextq_to_runq-Apart q h x ns
        (record { first = r.waiting; second = r.local; apart = λ p. omega (arith, r.apart p) }) in
    let global =
      frame-IsRing h k q.runq ys (q.local_runq ∷ q.nextq ∷ x ∷ ns) r.global same
        (λ p i. omega (arith, i, r.apart p)) in
    let (g, ws, us, ran, balanced, n, kept) =
      migrate_tasks_runq-Balances fuel jiffies q target (x ∷ ns) ys k
        (record { first = two.second; second = global; apart = λ p. omega (arith, r.apart p) }) f in
    elim (migrates fuel jiffies h k q trylock target (length (x ∷ ns)) moved) [
      | inl stayed ↦ (k, x ∷ ns, stayed, two.second, omega arith, λ p i. omega (arith, i))
      | inr went ↦
          (g, ws, went ∙ ran, balanced.first, ground (arith, n, l), λ p i. omega (arith, i, kept p))
    ]

module _ (fuel : ℕ) (jiffies : ℕ → ℕ) (q : Queues) (ncpus task pid : ℕ) (round : Round)
    (rounds : List Round) (len : ℕ) (h k : Links)
    (busy : (round.nuser_tasks == round.nkernel_tasks) ≡ false)
    (enqueued : move_cur_task_to_nextq fuel jiffies q task pid len h ≡ some (len + 1, k)) where
  yield_now :
      (x len' : ℕ) (g : Links)
      → try_run_next_task q (len + 1) k ≡ some ((x, len'), g)
      → x ≢ null
      → sched_yield fuel jiffies q ncpus task pid (round ∷ rounds) len h ≡ some ((x, len'), g)
  unfolding sched_yield
  yield_now x len' g ran z =
      let real : (x == null) ≡ false = ground arith in rw (busy, enqueued, ran, real) refl

  yield_later :
      (x len' len'' : ℕ) (m g : Links)
      → try_run_next_task q (len + 1) k ≡ some ((null, len + 1), k)
      → migrate_tasks fuel jiffies q round.trylock (task_foreach_cpu ncpus round) (len + 1) k
        ≡ some (len', m)
      → try_run_next_task q len' m ≡ some ((x, len''), g)
      → x ≢ null
      → sched_yield fuel jiffies q ncpus task pid (round ∷ rounds) len h ≡ some ((x, len''), g)
  unfolding sched_yield
  yield_later x len' len'' m g idle went ran z =
      let real : (x == null) ≡ false = ground arith in
      rw (busy, enqueued, idle, went, ran, real) refl

moves_cur :
    (fuel : ℕ) (jiffies : ℕ → ℕ) (q : Queues) (task pid len : ℕ) (h k : Links)
    → task ≢ null
    → 0 < pid
    → pid ≤ pidmap_lim
    → queue_add_task fuel jiffies q.nextq task h ≡ some (tt, k)
    → move_cur_task_to_nextq fuel jiffies q task pid len h ≡ some (len + 1, k)
unfolding move_cur_task_to_nextq
moves_cur fuel jiffies q task pid len h k z low high added =
    let real : (task == null) ≡ false = ground arith in
    let good : (ltb 0 pid && leb pid pidmap_lim) ≡ true = ground arith in
    rw (real, good, added) refl

some_for_each :
    (ncpus : ℕ) (round : Round)
    → 0 < ncpus
    → 0 < round.nuser_tasks_again
    → round.nuser_tasks_again + (ncpus - 1) < 2 ^ 64
    → 0 < task_foreach_cpu ncpus round
some_for_each ncpus round c u small =
    let whole : (round.nuser_tasks_again + (ncpus - 1)) % 2 ^ 64
        ≡ round.nuser_tasks_again + (ncpus - 1) =
      omega (arith, small) in
    rw whole (grind arith)

-- sched_yield of a current task with a PID in its range, on a CPU whose three queues are well linked
-- and share no task, with `runq_len` the number of tasks on the local and the next queue. The test for
-- the end reads two counts of tasks that differ, and the second read of the user tasks gives at least
-- one, and so few that the sum with `ncpus - 1` fits a size_t. Then the first round already finds a
-- task to run, one that stood on a queue or the current one, whether or not the lock of the global
-- queue is free.
pub sched_yield-Runs :
    (fuel : ℕ) (jiffies : ℕ → ℕ) (q : Queues) (ncpus task pid : ℕ) (round : Round)
    (rounds : List Round) (xs ns ys : List ℕ) (h : Links)
    → IsQueues h q xs ns ys
    → IsOff task q xs ns ys
    → 0 < pid
    → pid ≤ pidmap_lim
    → 0 < ncpus
    → 0 < round.nuser_tasks_again
    → round.nuser_tasks_again + (ncpus - 1) < 2 ^ 64
    → round.nuser_tasks ≢ round.nkernel_tasks
    → length xs + length ns + length ys + 1 < fuel
    → Runs
        (sched_yield fuel jiffies q ncpus task pid (round ∷ rounds) (length xs + length ns) h)
        (xs ++ (ns ++ task ∷ []) ++ ys)
sched_yield-Runs fuel jiffies q ncpus task pid round rounds (x ∷ xs) ns ys h r o low high cpus users
      small e f =
    let (k, added, r') = enqueued-IsQueues h q (x ∷ xs) ns ys r fuel jiffies task o in
    let len : ℕ = suc (length xs) + length ns in
    let enqueued = moves_cur fuel jiffies q task pid len h k o.ne_null low high added in
    let busy : (round.nuser_tasks == round.nkernel_tasks) ≡ false = ground arith in
    let (real, (g, ran)) = try_first k q x xs (len + 1) r'.local (omega arith) in
    (
      x,
      len + 1 - 1,
      g,
      yield_now fuel jiffies q ncpus task pid round rounds len h k busy enqueued x (len + 1 - 1) g
          ran real,
      real,
      omega (arith, one_if_self x),
    )
sched_yield-Runs fuel jiffies q ncpus task pid round rounds [] ns ys h r o low high cpus users small
      e f =
    let (k, added, r') = enqueued-IsQueues h q [] ns ys r fuel jiffies task o in
    let len : ℕ = 0 + length ns in
    let enqueued = moves_cur fuel jiffies q task pid len h k o.ne_null low high added in
    let busy : (round.nuser_tasks == round.nkernel_tasks) ≡ false = ground arith in
    let longer : length (ns ++ task ∷ []) ≡ len + 1 = omega (arith, length-append ns (task ∷ [])) in
    let (m, ws, went, ring, n, kept) =
      migrated-Runs fuel jiffies k q (ns ++ task ∷ []) ys round.trylock
        (task_foreach_cpu ncpus round) r' (omega (arith, longer))
        (some_for_each ncpus round cpus users small) (omega (arith, f, longer)) in
    let (x, len', g, ran, real, found) = try-Runs m q ws ring n in
    (
      x,
      len',
      g,
      yield_later fuel jiffies q ncpus task pid round rounds len h k busy enqueued x (length ws)
          len' m g (try_empty k q (len + 1) r'.local)
          (subst
            (λ l.
              migrate_tasks fuel jiffies q round.trylock (task_foreach_cpu ncpus round) l k
              ≡ some (length ws, m))
            longer went)
          ran real,
      real,
      omega (arith, kept x found, count-append x (ns ++ task ∷ []) ys),
    )
