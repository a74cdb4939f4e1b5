-- ===== src/Sched/Balance.antt =====
-- migrate_tasks_runq of kernel/sched/sched.c as a whole.
use advanced_operating_syste.Sched.{push_tasks, pull_tasks, Queues, migrate_tasks_runq}
use advanced_operating_syste.Prelude.{
  ◌∙◌, List, ap, arith, count, count-append, length, length-append, some, sym, ◌++◌, ◌+◌, ◌-◌, ◌<◌,
  ◌≡◌, ℕ,
}
use advanced_operating_syste.Sched.Transfer.{Apart}
use advanced_operating_syste.LinkedList.Store.{Links}
use Prim.Native.Nat.{min}
use advanced_operating_syste.Sched.Migrate.{pull_tasks-Grown, push_tasks-Shrunk}

same_tasks :
    (p : ℕ) (xs ys ts us zs ws : List ℕ)
    → ys ≡ ts ++ us
    → xs ++ ts ≡ zs ++ ws
    → count p ws + count p (us ++ zs) ≡ count p xs + count p ys
same_tasks p xs ys ts us zs ws e f =
    let left : count p (xs ++ ts) ≡ count p (zs ++ ws) = ap (count p) f in
    let right : count p ys ≡ count p (ts ++ us) = ap (count p) e in
    omega (
      arith,
      left,
      right,
      count-append p us zs,
      count-append p xs ts,
      count-append p zs ws,
      count-append p ts us,
    )

balanced :
    (target : ℕ) (xs ys ts us zs ws : List ℕ)
    → ys ≡ ts ++ us
    → xs ++ ts ≡ zs ++ ws
    → length ts ≡ min (target - length xs) (length ys)
    → length zs ≡ length (xs ++ ts) - target
    → length ws ≡ min target (length xs + length ys)
balanced target xs ys ts us zs ws e f m n =
    let left : length (xs ++ ts) ≡ length (zs ++ ws) = ap length f in
    ground (arith, m, n, left, length-append xs ts, length-append zs ws)

ran_both :
    (fuel : ℕ) (jiffies : ℕ → ℕ) (q : Queues) (target len n m : ℕ) (h k g : Links)
    → pull_tasks fuel jiffies q target len h ≡ some (n, k)
    → push_tasks fuel jiffies q target n k ≡ some (m, g)
    → migrate_tasks_runq fuel jiffies q target len h ≡ some (m, g)
unfolding migrate_tasks_runq
ran_both fuel jiffies q target len n m h k g pulled pushed = rw pulled pushed

-- migrate_tasks_runq on two well linked queues that share no task, with `runq_len` the length of the
-- local one: it ends, with both queues well linked and apart, the local one as long as the target,
-- or as both together when these have fewer tasks, its length in `runq_len`, and every task on
-- exactly as many queues as before. The fuel is above the number of tasks.
pub migrate_tasks_runq-Balances :
    (fuel : ℕ) (jiffies : ℕ → ℕ) (q : Queues) (target : ℕ) (xs ys : List ℕ) (h : Links)
    → Apart h q.local_runq q.runq xs ys
    → length xs + length ys < fuel
    → (g : Links) × (ws : List ℕ) × (us : List ℕ) × (migrate_tasks_runq fuel jiffies q target
          (length xs)
          h
        ≡ some (length ws, g))
      × Apart g q.local_runq q.runq ws us
      × (length ws ≡ min target (length xs + length ys))
      × ((p : ℕ) → count p ws + count p us ≡ count p xs + count p ys)
migrate_tasks_runq-Balances fuel jiffies q target xs ys h r f =
    let (ts, us, k, pulled, e, m, r') =
      pull_tasks-Grown jiffies q target ys fuel (length xs) xs h r (omega arith) in
    let bound : length (xs ++ ts) < fuel = ground (arith, length-append xs ts, f, m) in
    let (zs, ws, g, pushed, e', n, r'') =
      push_tasks-Shrunk jiffies q target (xs ++ ts) fuel us k r' bound in
    let joined : length xs + length ts ≡ length (xs ++ ts) = sym (length-append xs ts) in
    let left : length (xs ++ ts) - length zs ≡ length ws =
      (let whole : length (xs ++ ts) ≡ length (zs ++ ws) = ap length e' in
        omega (arith, whole, length-append zs ws)) in
    (
      g,
      ws,
      us ++ zs,
      ran_both fuel jiffies q target (length xs) (length (xs ++ ts)) (length ws) h k g
          (pulled ∙ ap (λ n. some (n, k)) joined) (pushed ∙ ap (λ n. some (n, g)) left),
      r'',
      balanced target xs ys ts us zs ws e e' m n,
      λ p. same_tasks p xs ys ts us zs ws e e',
    )
