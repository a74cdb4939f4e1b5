-- ===== src/Sched.antt =====
-- kernel/sched/sched.c, sched_util.c, and local_runq_len_set and lock_runq_add of task_util.c: the run queues of one CPU and
-- the global run queue. A struct task pointer is the address of its task_node, so that container_of
-- changes nothing. FAIR_SCHEDULER is 0. `none` is a kernel panic.
pub mod Transfer
pub mod Migrate
pub mod Balance
pub mod NextQueue
pub mod Try
pub mod Yield
mod Tests
use advanced_operating_syste.Prelude.{
  ◌%◌, ◌^◌, ◌/◌, Bool, List, Option, [], false, if◌then◌else◌, leb, ltb, none, some, suc, zero,
  ◌&&◌, ◌+◌, ◌-◌, ◌==◌, ◌∷◌, ℕ,
}
use advanced_operating_syste.LinkedList.{
  list_init, list_del, list_add_tail, list_head, list_insert_before, list_is_empty, list_pop_tail,
}
use advanced_operating_syste.LinkedList.Store.{Links, null, M, pure, next, ◌>>=◌, ◌>>◌}

-- The list heads: the global `runq`, and those of this_cpu.
pub record Queues : Type 0 where
  pub runq : ℕ
  pub local_runq : ℕ
  pub nextq : ℕ

unfoldable pub queue_pop_task : ℕ → M ℕ
unfolding list_pop_tail
queue_pop_task q = list_pop_tail q

-- The node before which list_foreach stops: the first task with more jiffies, or the head.
unfoldable pub first_later : ℕ → (ℕ → ℕ) → ℕ → ℕ → ℕ → Links → Option ℕ
first_later zero jiffies q new node h = none
first_later (suc fuel) jiffies q new node h =
    let rest = first_later fuel jiffies q new (h.next node) h in
    if node == q
    then some node
    else if node == null
    then none
    else if ltb (jiffies new) (jiffies node)
    then some node
    else rest

abbrev pub insert_at : ℕ → Option ℕ → M (Unit {0})
insert_at new none h = none
insert_at new (some node) h = list_insert_before node new h

unfoldable pub queue_add_priority : ℕ → (ℕ → ℕ) → ℕ → ℕ → M (Unit {0})
unfolding list_insert_before first_later
queue_add_priority fuel jiffies q new = do
  first ← next q
  λ h. insert_at new (first_later fuel jiffies q new first h) h

abbrev pub fair_scheduler : Bool
fair_scheduler = false

unfoldable pub queue_add_task : ℕ → (ℕ → ℕ) → ℕ → ℕ → M (Unit {0})
unfolding queue_add_priority list_add_tail
queue_add_task fuel jiffies q task =
    if fair_scheduler then queue_add_priority fuel jiffies q task else list_add_tail q task

-- The values of `set`: INC and DEC.
pub data Change : Type 0 where
  inc dec : Change

-- The new length; one below 0 fails the assertion.
abbrev pub local_runq_len_set : Change → ℕ → M ℕ
local_runq_len_set inc len h = some (len + 1, h)
local_runq_len_set dec len h = if ltb len 1 then none else some (len - 1, h)

abbrev pub real_task : ℕ → M (Unit {0})
real_task task h = if task == null then none else some (tt, h)

-- The two loops of migrate_tasks_runq, which end with the new length; fuel bounds their rounds, and
-- those of the loops inside.
unfoldable pub pull_tasks : ℕ → (ℕ → ℕ) → Queues → ℕ → ℕ → M ℕ
pull_tasks zero jiffies q task_foreach_cpu len = λ h. none
pull_tasks (suc fuel) jiffies q task_foreach_cpu len =
    if ltb len task_foreach_cpu
    then (do
      task_to_move ← queue_pop_task q.runq
      if task_to_move == null then pure len else do
        queue_add_task fuel jiffies q.local_runq task_to_move
        len ← local_runq_len_set inc len
        pull_tasks fuel jiffies q task_foreach_cpu len)
    else pure len

unfoldable pub push_tasks : ℕ → (ℕ → ℕ) → Queues → ℕ → ℕ → M ℕ
push_tasks zero jiffies q task_foreach_cpu len = λ h. none
push_tasks (suc fuel) jiffies q task_foreach_cpu len =
    if ltb task_foreach_cpu len
    then (do
      task_to_move ← queue_pop_task q.local_runq
      len ← local_runq_len_set dec len
      real_task task_to_move
      queue_add_task fuel jiffies q.runq task_to_move
      push_tasks fuel jiffies q task_foreach_cpu len)
    else pure len

unfoldable pub migrate_tasks_runq : ℕ → (ℕ → ℕ) → Queues → ℕ → ℕ → M ℕ
unfolding queue_pop_task queue_add_task pull_tasks push_tasks
migrate_tasks_runq fuel jiffies q task_foreach_cpu len = do
  len ← pull_tasks fuel jiffies q task_foreach_cpu len
  push_tasks fuel jiffies q task_foreach_cpu len

unfoldable pub move_nextq_to_runq : Queues → M (Unit {0})
unfolding list_head list_del list_insert_before
move_nextq_to_runq q = do
  head_task_node ← list_head q.nextq
  if head_task_node == null
      then pure tt
      else do list_del q.nextq; list_insert_before head_task_node q.local_runq

abbrev pub pidmap_lim : ℕ
pidmap_lim = 0xffffff0000000000

-- The task that runs is `task`, where NULL says that none does; `pid` is its PID.
unfoldable pub move_cur_task_to_nextq : ℕ → (ℕ → ℕ) → Queues → ℕ → ℕ → ℕ → M ℕ
unfolding queue_add_task
move_cur_task_to_nextq fuel jiffies q task pid len =
    if task == null
    then pure len
    else if ltb 0 pid && leb pid pidmap_lim
    then (do queue_add_task fuel jiffies q.nextq task; local_runq_len_set inc len)
    else λ h. none

-- The task that task_run gets, which does not return, or NULL for the result -1; and the new length.
unfoldable pub try_run_next_task : Queues → ℕ → M (ℕ × ℕ)
unfolding queue_pop_task list_is_empty
try_run_next_task q len = do
  empty ← list_is_empty q.local_runq
  if empty then pure (null, len) else do
    task ← queue_pop_task q.local_runq
    len ← local_runq_len_set dec len
    real_task task
    pure (task, len)

-- sched_init_mp, with the new `runq_len`.
unfoldable pub sched_init_mp : Queues → M ℕ
unfolding list_init
sched_init_mp q = do list_init q.local_runq; list_init q.nextq; pure 0

-- lock_runq_add: the counts of all tasks and of the kernel's.
unfoldable pub lock_runq_add : ℕ → (ℕ → ℕ) → Queues → Bool → ℕ → ℕ × ℕ → M (ℕ × ℕ)
unfolding queue_add_task
lock_runq_add fuel jiffies q kernel task (nuser_tasks, nkernel_tasks) = do
  queue_add_task fuel jiffies q.runq task
  pure (nuser_tasks + 1, if kernel then nkernel_tasks + 1 else nkernel_tasks)

-- `trylock` is the result of spin_trylock on the lock of the global queue.
unfoldable pub migrate_tasks : ℕ → (ℕ → ℕ) → Queues → Bool → ℕ → ℕ → M ℕ
unfolding move_nextq_to_runq migrate_tasks_runq
migrate_tasks fuel jiffies q trylock task_foreach_cpu len = do
  move_nextq_to_runq q
  if len == task_foreach_cpu
      then pure len
      else if trylock
      then migrate_tasks_runq fuel jiffies q task_foreach_cpu len
      else pure len

-- What other CPUs have a hand in during one round of sched_yield: the counts of tasks that the test
-- for the end reads, the count of user tasks that is read again for the target, and the result of
-- spin_trylock on the lock of the global queue.
pub record Round : Type 0 where
  pub nuser_tasks : ℕ
  pub nkernel_tasks : ℕ
  pub nuser_tasks_again : ℕ
  pub trylock : Bool

abbrev pub task_foreach_cpu : ℕ → Round → ℕ
task_foreach_cpu ncpus r = (r.nuser_tasks_again + (ncpus - 1)) % 2 ^ 64 / ncpus

-- What is left to do behind a try: nothing when a task runs.
abbrev pub goes_on : M (ℕ × ℕ) → ℕ × ℕ → M (ℕ × ℕ)
goes_on again (task, len) = if task == null then again else pure (task, len)

-- The call ends with the task that runs; it recurs at most once for each of the rounds. The endless
-- loop when no task is left is `none`.
unfoldable pub sched_yield : ℕ → (ℕ → ℕ) → Queues → ℕ → ℕ → ℕ → List Round → ℕ → M (ℕ × ℕ)
unfolding move_cur_task_to_nextq try_run_next_task migrate_tasks
sched_yield fuel jiffies q ncpus task pid [] len = λ h. none
sched_yield fuel jiffies q ncpus task pid (round ∷ rounds) len =
    if round.nuser_tasks == round.nkernel_tasks then (λ h. none) else do
      len ← move_cur_task_to_nextq fuel jiffies q task pid len
      first ← try_run_next_task q len
      goes_on
          (do
            len ← migrate_tasks fuel jiffies q round.trylock (task_foreach_cpu ncpus round) len
            second ← try_run_next_task q len
            goes_on (sched_yield fuel jiffies q ncpus task pid rounds len) second)
          first
