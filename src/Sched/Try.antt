-- ===== src/Sched/Try.antt =====
-- try_run_next_task of kernel/sched/sched.c.
use advanced_operating_syste.LinkedList.Walk.{is_empty_false, is_empty_true}
use advanced_operating_syste.LinkedList.Delete.{list_pop_tail-IsRing}
use advanced_operating_syste.LinkedList.Chain.{IsRing}
use advanced_operating_syste.LinkedList.Store.{null, Links}
use advanced_operating_syste.Sched.{Queues, queue_pop_task, try_run_next_task}
use advanced_operating_syste.LinkedList.{list_is_empty}
use advanced_operating_syste.Prelude.{
  List, Option, [], arith, count, false, length, ltb, one_if_self, refl, some, suc, ◌-◌, ◌<◌, ◌==◌,
  ◌∷◌, ◌≡◌, ◌≢◌, ℕ,
}

pub try_empty :
    (h : Links) (q : Queues) (len : ℕ)
    → IsRing h q.local_runq []
    → try_run_next_task q len h ≡ some ((null, len), h)
unfolding try_run_next_task
try_empty h q len r = rw (is_empty_true h q.local_runq r) refl

try_pop :
    (h g : Links) (q : Queues) (x len : ℕ)
    → list_is_empty q.local_runq h ≡ some (false, h)
    → queue_pop_task q.local_runq h ≡ some (x, g)
    → x ≢ null
    → 0 < len
    → try_run_next_task q len h ≡ some ((x, len - 1), g)
unfolding try_run_next_task
try_pop h g q x len full popped z l =
    let real : (x == null) ≡ false = ground arith in
    let one : ltb len 1 ≡ false = ground arith in rw (full, popped, one, real) refl

pub try_first :
    (h : Links) (q : Queues) (x : ℕ) (xs : List ℕ) (len : ℕ)
    → IsRing h q.local_runq (x ∷ xs)
    → 0 < len
    → (x ≢ null) × ((g : Links) × (try_run_next_task q len h ≡ some ((x, len - 1), g)))
unfolding queue_pop_task
try_first h q x xs len r l =
    let (g, popped, ring, alone, same) = list_pop_tail-IsRing h q.local_runq x xs r in
    let real : x ≢ null = ground (arith, r.nonnull) in
    (real, (g, try_pop h g q x len (is_empty_false h q.local_runq x xs r) popped real l))

-- A try that finds a task of the queue `xs` to run.
abbrev pub Runs : Option ((ℕ × ℕ) × Links) → List ℕ → Type 0
Runs run xs =
    (x : ℕ) × (len : ℕ) × (g : Links) × (run ≡ some ((x, len), g)) × (x ≢ null) × (0 < count x xs)

pub try-Runs :
    (h : Links) (q : Queues) (xs : List ℕ)
    → IsRing h q.local_runq xs
    → 0 < length xs
    → Runs (try_run_next_task q (length xs) h) xs
try-Runs h q [] r l = elim l [ ]
try-Runs h q (x ∷ xs) r l =
    let (real, (g, ran)) = try_first h q x xs (suc (length xs)) r l in
    (x, suc (length xs) - 1, g, ran, real, omega (arith, one_if_self x))
