-- ===== src/Sched/NextQueue.antt =====
-- move_nextq_to_runq of kernel/sched/sched_util.c, which turns the next queue into the run queue.
use advanced_operating_syste.LinkedList.Chain.{SameOutside, frame-IsRing, rotate, IsRing}
use advanced_operating_syste.Prelude.{
  ◌∙◌, count-append, false, ◌==◌, ◌≢◌, List, [], arith, some, subst, ◌++◌, ◌∷◌, ◌≡◌, ℕ,
}
use advanced_operating_syste.LinkedList.{list_del, list_add_tail, list_head}
use advanced_operating_syste.LinkedList.Store.{null, Links}
use advanced_operating_syste.LinkedList.Insert.{list_add_tail-IsRing, IsFresh}
use advanced_operating_syste.LinkedList.Delete.{list_del-IsRing}
use advanced_operating_syste.Sched.Transfer.{Apart}
use advanced_operating_syste.Sched.{Queues, move_nextq_to_runq}
use mathlib.Core.List.{append-nil}

first_of_ring :
    (h : Links) (a x : ℕ) (xs : List ℕ) → IsRing h a (x ∷ xs) → list_head a h ≡ some (x, h)
unfolding list_head
first_of_ring h a x xs r =
    let apart : x ≢ a = λ e. ground (arith, r.distinct x) in ground (arith, r.nonnull, r.chain.0)

spliced_in :
    (q : Queues) (x : ℕ) (h k g : Links)
    → list_head q.nextq h ≡ some (x, h)
    → (x == null) ≡ false
    → list_del q.nextq h ≡ some (tt, k)
    → list_add_tail x q.local_runq k ≡ some (tt, g)
    → move_nextq_to_runq q h ≡ some (tt, g)
unfolding move_nextq_to_runq list_add_tail
spliced_in q x h k g first real deleted added = rw (first, real, deleted) added

-- The whole next queue becomes the run queue when that is empty, in the same order, and is empty
-- itself then; no node outside the two queues changes.
pub move_nextq_to_runq-Apart :
    (q : Queues) (h : Links) (x : ℕ) (xs : List ℕ)
    → Apart h q.nextq q.local_runq (x ∷ xs) []
    → (g : Links) × (move_nextq_to_runq q h ≡ some (tt, g))
      × Apart g q.nextq q.local_runq [] (x ∷ xs)
      × SameOutside (q.local_runq ∷ q.nextq ∷ x ∷ xs) h g
move_nextq_to_runq-Apart q h x xs r =
    let first = first_of_ring h q.nextq x xs r.first in
    let real : (x == null) ≡ false = ground (arith, r.first.nonnull) in
    let turned = rotate h q.nextq [] x xs r.first in
    let (k, deleted, ring, alone, same) = list_del-IsRing h x q.nextq xs [] turned in
    let ring' = subst (IsRing k x) (append-nil xs) ring in
    let lone =
      frame-IsRing h k q.local_runq [] (x ∷ xs ++ q.nextq ∷ []) r.second same
        (λ p i. omega (arith, i, r.apart p, count-append p xs (q.nextq ∷ []))) in
    let fresh : IsFresh q.local_runq x xs = record {
      ne_null = ground (arith, r.second.nonnull);
      outside = ground (arith, r.apart q.local_runq);
    } in
    let (g, added, spliced, same') = list_add_tail-IsRing k x q.local_runq xs ring' fresh in
    let empty =
      frame-IsRing k g q.nextq [] (q.local_runq ∷ x ∷ xs) alone same'
        (λ p i. omega (arith, i, r.apart p)) in
    (
      g,
      spliced_in q x h k g first real deleted added,
      record {
        first = empty;
        second = rotate g x xs q.local_runq [] spliced;
        apart = λ p. omega (arith, r.apart p);
      },
      λ p o.
          let early = same p (omega (arith, o, count-append p xs (q.nextq ∷ []))) in
          let late = same' p (omega (arith, o)) in (late.0 ∙ early.0, late.1 ∙ early.1),
    )
