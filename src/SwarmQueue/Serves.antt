-- ===== src/SwarmQueue/Serves.antt =====
-- Which task `dequeue` of core/runtime/queue.py takes.
use jarvis.Prelude.{
  nat_eq, string_eq, ℕ, true, false, Option, none, some, List, [], ◌∷◌, ◌++◌, keep, length, All,
  All-imp, All-keep, ◌≡◌, refl, ap, ◌≤◌, leb→le, arith, Bool-cases, inl, inr,
}
use jarvis.Prelude.Sort.{IsSorted}
use jarvis.SwarmQueue.{
  Heap, SwarmTaskQueue, set_status, rank, runs_before, is_pending, first_pending, take_task,
  dequeue, size,
}
use jarvis.SwarmQueue.Calls.{Operation, IsInOrder, run, run-RunsFair}

-- The first pending task of a list of addresses, or none.
abbrev pub First : Heap → List ℕ → Option ℕ → Type 0
First heap queue none = length (keep (is_pending heap) queue) ≡ 0
First heap queue (some a) =
    ((before after : List ℕ) × (queue ≡ before ++ a ∷ after)
      × All (λ b. is_pending heap b ≡ false) before)
    × (is_pending heap a ≡ true)
    × All (λ b. rank heap b ≤ rank heap a) (keep (is_pending heap) queue)

First-skip :
    (heap : Heap) (b : ℕ) (rest : List ℕ) (o : Option ℕ)
    → is_pending heap b ≡ false
    → First heap rest o
    → First heap (b ∷ rest) o
unfolding keep
First-skip heap b rest none e h = rw e h
First-skip heap b rest (some a) e ((before, after, split, skipped), pending, all) =
    ((b ∷ before, after, ap (λ l. b ∷ l) split, (e, skipped)), pending, rw e all)

first_pending-First :
    (heap : Heap) (queue : List ℕ)
    → IsSorted (runs_before (rank heap)) queue
    → First heap queue (first_pending heap queue)
unfolding first_pending keep
first_pending-First heap [] h = refl
first_pending-First heap (a ∷ rest) h = elim (Bool-cases (is_pending heap a)) [
  | inl e ↦ rw e (
    ([], rest, refl, tt),
    e,
    rw e (
      omega arith,
      All-keep (λ b. rank heap b ≤ rank heap a) (is_pending heap) rest
          (All-imp (λ b. runs_before (rank heap) a b ≡ true) (λ b. rank heap b ≤ rank heap a) rest
            (λ b le. leb→le (rank heap b) (rank heap a) le) h.0),
    ),
  )
  | inr e ↦
      rw e (First-skip heap a rest (first_pending heap rest) e (first_pending-First heap rest h.1))
]

-- What a call of `dequeue` answers and leaves.
abbrev pub Served : SwarmTaskQueue → Option ℕ × SwarmTaskQueue → Type 0
Served q (none, q') = (size q ≡ 0) × (q' ≡ q)
Served q (some a, q') =
    First q.heap q.queue (some a) × (q' ≡ record q { heap = set_status a "Running" q.heap })

take_task-Served :
    (o : Option ℕ) (q : SwarmTaskQueue) → First q.heap q.queue o → Served q (take_task o q)
unfolding take_task size
take_task-Served none q h = (h, refl)
take_task-Served (some a) q h = (h, refl)

-- After any calls, from a queue in order, dequeue returns None only if the size is 0, and then changes
-- nothing; otherwise it takes a pending task of the highest score among all pending ones, before
-- which no pending task stands, and changes nothing but its status, to Running.
pub run-Served :
    (ops : List Operation) (q : SwarmTaskQueue)
    → IsInOrder q
    → Served (run ops q) (dequeue (run ops q))
unfolding dequeue
run-Served ops q h =
    let q' = run ops q in
    take_task-Served (first_pending q'.heap q'.queue) q'
      (first_pending-First q'.heap q'.queue (run-RunsFair ops q h).0)
