-- ===== src/Sched/Migrate.antt =====
-- migrate_tasks_runq of kernel/sched/sched.c loses no task and reaches its target.
use advanced_operating_syste.Sched.Transfer.{swap-Apart, pop_add-Moved, Apart}
use advanced_operating_syste.LinkedList.Chain.{IsRing}
use advanced_operating_syste.Prelude.{
  ◌∷◌, Option, [], ap, inl, inr, length, subst, sym, zero, ◌++◌, ◌∙◌, List, arith, false, ltb,
  lt→ltb, refl, some, suc, ◌+◌, ◌-◌, ◌<◌, ◌==◌, ◌≡◌, ◌≢◌, ◌≤◌, ◌⊎◌, ℕ,
}
use advanced_operating_syste.Sched.{queue_add_task, queue_pop_task, pull_tasks, push_tasks, Queues}
use advanced_operating_syste.LinkedList.Store.{null, Links}
use Prim.Native.Nat.{min}
use advanced_operating_syste.LinkedList.Delete.{pop_empty}
use mathlib.Core.List.{append-nil, append_assoc}

le_or_lt : (a b : ℕ) → (a ≤ b) ⊎ (b < a)
le_or_lt a b = omega arith

queue_pop_empty : (h : Links) (a : ℕ) → IsRing h a [] → queue_pop_task a h ≡ some (null, h)
unfolding queue_pop_task
queue_pop_empty h a r = (pop_empty h a r).1

module _ (jiffies : ℕ → ℕ) (q : Queues) (target : ℕ) where
  pull_round :
      (fuel len x : ℕ) (h g k : Links)
      → len < target
      → x ≢ null
      → queue_pop_task q.runq h ≡ some (x, g)
      → queue_add_task fuel jiffies q.local_runq x g ≡ some (tt, k)
      → pull_tasks (suc fuel) jiffies q target len h ≡ pull_tasks fuel jiffies q target (len + 1) k
  unfolding pull_tasks
  pull_round fuel len x h g k l z popped added =
      let real : (x == null) ≡ false = ground arith in
      rw (lt→ltb len target l, popped, real, added) refl

  pull_full :
      (fuel len : ℕ) (h : Links)
      → target ≤ len
      → pull_tasks (suc fuel) jiffies q target len h ≡ some (len, h)
  unfolding pull_tasks
  pull_full fuel len h l = let full : ltb len target ≡ false = ground arith in rw full refl

  pull_dry :
      (fuel len : ℕ) (h : Links)
      → len < target
      → queue_pop_task q.runq h ≡ some (null, h)
      → pull_tasks (suc fuel) jiffies q target len h ≡ some (len, h)
  unfolding pull_tasks
  pull_dry fuel len h l dry = rw (lt→ltb len target l, dry) refl

  push_round :
      (fuel len x : ℕ) (h g k : Links)
      → target < len
      → x ≢ null
      → queue_pop_task q.local_runq h ≡ some (x, g)
      → queue_add_task fuel jiffies q.runq x g ≡ some (tt, k)
      → push_tasks (suc fuel) jiffies q target len h ≡ push_tasks fuel jiffies q target (len - 1) k
  unfolding push_tasks
  push_round fuel len x h g k l z popped added =
      let real : (x == null) ≡ false = ground arith in
      let one : ltb len 1 ≡ false = ground arith in
      rw (lt→ltb target len l, popped, one, real, added) refl

  push_stop :
      (fuel len : ℕ) (h : Links)
      → len ≤ target
      → push_tasks (suc fuel) jiffies q target len h ≡ some (len, h)
  unfolding push_tasks
  push_stop fuel len h l = let done : ltb target len ≡ false = ground arith in rw done refl

  -- The first tasks of the global queue went to the end of the local one.
  abbrev Grown : Option (ℕ × Links) → ℕ → List ℕ → List ℕ → Type 0
  Grown run len xs ys =
      (zs : List ℕ) × (ws : List ℕ) × (g : Links) × (run ≡ some (len + length zs, g))
      × (ys ≡ zs ++ ws)
      × (length zs ≡ min (target - len) (length ys))
      × Apart g q.local_runq q.runq (xs ++ zs) ws

  -- The first tasks of the local queue went to the end of the global one.
  abbrev Shrunk : Option (ℕ × Links) → ℕ → List ℕ → List ℕ → Type 0
  Shrunk run len xs ys =
      (zs : List ℕ) × (ws : List ℕ) × (g : Links) × (run ≡ some (len - length zs, g))
      × (xs ≡ zs ++ ws)
      × (length zs ≡ len - target)
      × Apart g q.local_runq q.runq ws (ys ++ zs)

  unmoved-Grown :
      (run : Option (ℕ × Links)) (len : ℕ) (h : Links) (xs ys : List ℕ)
      → run ≡ some (len, h)
      → min (target - len) (length ys) ≡ 0
      → Apart h q.local_runq q.runq xs ys
      → Grown run len xs ys
  unmoved-Grown run len h xs ys ran none_moved r =
      let whole : len ≡ len + 0 = omega arith in
      (
        [],
        ys,
        h,
        ran ∙ ap (λ n. some (n, h)) whole,
        refl,
        sym none_moved,
        subst (λ l. Apart h q.local_runq q.runq l ys) (sym (append-nil xs)) r,
      )

  unmoved-Shrunk :
      (run : Option (ℕ × Links)) (h : Links) (xs ys : List ℕ)
      → run ≡ some (length xs, h)
      → length xs - target ≡ 0
      → Apart h q.local_runq q.runq xs ys
      → Shrunk run (length xs) xs ys
  unmoved-Shrunk run h xs ys ran none_moved r =
      let whole : length xs ≡ length xs - 0 = omega arith in
      (
        [],
        xs,
        h,
        ran ∙ ap (λ n. some (n, h)) whole,
        refl,
        sym none_moved,
        subst (λ l. Apart h q.local_runq q.runq xs l) (sym (append-nil ys)) r,
      )

  pub pull_tasks-Grown :
      (ys : List ℕ) (fuel len : ℕ) (xs : List ℕ) (h : Links)
      → Apart h q.local_runq q.runq xs ys
      → length ys < fuel
      → Grown (pull_tasks fuel jiffies q target len h) len xs ys
  pull_tasks-Grown ys zero len xs h r f = elim f [ ]
  pull_tasks-Grown [] (suc fuel) len xs h r f = elim (le_or_lt target len) [
    | inl full ↦
        unmoved-Grown (pull_tasks (suc fuel) jiffies q target len h) len h xs []
          (pull_full fuel len h full) (ground arith) r
    | inr more ↦
        unmoved-Grown (pull_tasks (suc fuel) jiffies q target len h) len h xs []
          (pull_dry fuel len h more (queue_pop_empty h q.runq r.second)) (ground arith) r
  ]
  pull_tasks-Grown (y ∷ ys) (suc fuel) len xs h r f = elim (le_or_lt target len) [
    | inl full ↦
        unmoved-Grown (pull_tasks (suc fuel) jiffies q target len h) len h xs (y ∷ ys)
          (pull_full fuel len h full) (ground arith) r
    | inr more ↦
        let (g, k, popped, added, r') =
          pop_add-Moved fuel jiffies h q.runq q.local_runq y ys xs
            (swap-Apart h q.local_runq q.runq xs (y ∷ ys) r) in
        let (zs, ws, g', ran, e, n, r'') =
          pull_tasks-Grown ys fuel (len + 1) (xs ++ y ∷ []) k
            (swap-Apart k q.runq q.local_runq ys (xs ++ y ∷ []) r') (omega arith) in
        let real : y ≢ null = ground (arith, r.second.nonnull) in
        let total : len + 1 + length zs ≡ len + suc (length zs) = omega arith in
        (
          y ∷ zs,
          ws,
          g',
          pull_round fuel len y h g k more real popped added ∙ ran ∙ ap (λ n. some (n, g')) total,
          ap (λ l. y ∷ l) e,
          ground (arith, n),
          subst (λ l. Apart g' q.local_runq q.runq l ws) (append_assoc xs (y ∷ []) zs) r'',
        )
  ]

  pub push_tasks-Shrunk :
      (xs : List ℕ) (fuel : ℕ) (ys : List ℕ) (h : Links)
      → Apart h q.local_runq q.runq xs ys
      → length xs < fuel
      → Shrunk (push_tasks fuel jiffies q target (length xs) h) (length xs) xs ys
  push_tasks-Shrunk xs zero ys h r f = elim f [ ]
  push_tasks-Shrunk [] (suc fuel) ys h r f =
      unmoved-Shrunk (push_tasks (suc fuel) jiffies q target 0 h) h [] ys
        (push_stop fuel 0 h (omega arith)) (omega arith) r
  push_tasks-Shrunk (x ∷ xs) (suc fuel) ys h r f = elim (le_or_lt (suc (length xs)) target) [
    | inl small ↦
        unmoved-Shrunk (push_tasks (suc fuel) jiffies q target (suc (length xs)) h) h (x ∷ xs) ys
          (push_stop fuel (suc (length xs)) h small) (omega arith) r
    | inr more ↦
        let (g, k, popped, added, r') =
          pop_add-Moved fuel jiffies h q.local_runq q.runq x xs ys r in
        let (zs, ws, g', ran, e, n, r'') =
          push_tasks-Shrunk xs fuel (ys ++ x ∷ []) k r' (omega arith) in
        let real : x ≢ null = ground (arith, r.first.nonnull) in
        let one_less : suc (length xs) - 1 ≡ length xs = omega arith in
        let total : length xs - length zs ≡ suc (length xs) - suc (length zs) = omega arith in
        (
          x ∷ zs,
          ws,
          g',
          push_round fuel (suc (length xs)) x h g k more real popped added
              ∙ ap (λ n. push_tasks fuel jiffies q target n k) one_less
              ∙ ran
              ∙ ap (λ n. some (n, g')) total,
          ap (λ l. x ∷ l) e,
          omega (arith, n),
          subst (λ l. Apart g' q.local_runq q.runq ws l) (append_assoc ys (x ∷ []) zs) r'',
        )
  ]
