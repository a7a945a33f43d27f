-- ===== src/SwarmQueue/Calls.antt =====
-- What the queue of core/runtime/queue.py serves, along any calls of its operations.
use mathlib.Core.List.Perm
use mathlib.Core.List.{Perm}
use jarvis.Prelude.{
  nat_eq, string_eq, ℕ, String, Bool, true, false, Option, none, some, List, [], ◌∷◌, ◌++◌, ◌==◌,
  leb, keep, Result, ok, raise, ◌≡◌, refl, sym, subst, ◌∙◌, ap, leb_total, leb_trans, append_assoc,
  append-nil, arith, Bool-cases, inl, inr, keep-append,
}
use jarvis.Prelude.Dict.{get}
use jarvis.Prelude.Sort.{sort, sort-perm, sort-IsSorted, keep-sort, IsSorted}
use jarvis.SwarmQueue.{
  Heap, SwarmTaskQueue, set_status, rank, runs_before, enqueue, first_pending, dequeue,
  update_task_status, take_task, update_found, Fault,
}

pub data Operation : Type 0 where
  enqueuing : (task : ℕ) → Operation
  dequeuing : Operation
  updating : (task_id : ℕ) (status : String) → Operation

-- An update of a task that is not found raises and changes nothing.
unfoldable pub after_update : SwarmTaskQueue → Result Fault SwarmTaskQueue → SwarmTaskQueue
after_update q (ok q') = q'
after_update q (raise fault) = q

unfoldable pub call : Operation → SwarmTaskQueue → SwarmTaskQueue
unfolding after_update
call (enqueuing task) q = enqueue task q
call dequeuing q = (dequeue q).1
call (updating task_id status) q = after_update q (update_task_status task_id status q)

unfoldable pub run : List Operation → SwarmTaskQueue → SwarmTaskQueue
unfolding call
run [] q = q
run (op ∷ ops) q = run ops (call op q)

-- The tasks that are enqueued, in order.
unfoldable pub submitted : List Operation → List ℕ
submitted [] = []
submitted (enqueuing task ∷ ops) = task ∷ submitted ops
submitted (dequeuing ∷ ops) = submitted ops
submitted (updating task_id status ∷ ops) = submitted ops

abbrev pub IsInOrder : SwarmTaskQueue → Type 0
IsInOrder q = IsSorted (runs_before (rank q.heap)) q.queue

rank-set :
    (task : ℕ) (status : String) (heap : Heap) (a : ℕ)
    → rank (set_status task status heap) a ≡ rank heap a
unfolding rank set_status
rank-set task status heap a = elim (Bool-cases (task == a)) [
  | inl e ↦ rw e refl
  | inr e ↦ rw e refl
]

ranks-set :
    (task : ℕ) (status : String) (heap : Heap) → rank (set_status task status heap) ≡ rank heap
ranks-set task status heap i a = rank-set task status heap a i

runs_before_total : (r : ℕ → ℕ) (a b : ℕ) → runs_before r a b ≡ false → runs_before r b a ≡ true
runs_before_total r a b h = leb_total (r b) (r a) h

runs_before_trans :
    (r : ℕ → ℕ) (a b c : ℕ)
    → runs_before r a b ≡ true
    → runs_before r b c ≡ true
    → runs_before r a c ≡ true
runs_before_trans r a b c h k = leb_trans (r c) (r b) (r a) k h

abbrev has_rank : (ℕ → ℕ) → ℕ → ℕ → Bool
has_rank ranks s a = ranks a == s

-- What a call does to the queue and leaves of the ranks.
abbrev Kept : Operation → SwarmTaskQueue → SwarmTaskQueue → Type 0
Kept op q q' =
    (rank q'.heap ≡ rank q.heap)
    × (IsInOrder q → IsInOrder q')
    × Perm q'.queue (q.queue ++ submitted (op ∷ []))
    × ((s : ℕ)
        → keep (has_rank (rank q.heap) s) q'.queue
          ≡ keep (has_rank (rank q.heap) s) (q.queue ++ submitted (op ∷ [])))

-- A call that only writes a status.
status-Kept :
    (op : Operation) (q : SwarmTaskQueue) (task : ℕ) (status : String)
    → submitted (op ∷ []) ≡ []
    → Kept op q (record q { heap = set_status task status q.heap })
status-Kept op q task status e =
    rw (e, append-nil q.queue, ranks-set task status q.heap) (refl, λ h. h, Perm.refl _, λ s. refl)

same-Kept : (op : Operation) (q : SwarmTaskQueue) → submitted (op ∷ []) ≡ [] → Kept op q q
same-Kept op q e = rw (e, append-nil q.queue) (refl, λ h. h, Perm.refl _, λ s. refl)

IsSorted-Kept :
    (r : ℕ → ℕ) (as' : List ℕ)
    → IsSorted (runs_before r) (sort (runs_before r) as')
      × Perm (sort (runs_before r) as') as'
      × ((s : ℕ) → keep (has_rank r s) (sort (runs_before r) as') ≡ keep (has_rank r s) as')
IsSorted-Kept r as' = (
  sort-IsSorted (runs_before r) (runs_before_total r) (runs_before_trans r) as',
  sort-perm (runs_before r) as',
  λ s. keep-sort (runs_before r) (has_rank r s) (λ a b h k. ties (r a) (r b) s h k) as',
)
  where
    ties : (a b s : ℕ) → (a == s) ≡ true → (b == s) ≡ true → leb b a ≡ true
    ties a b s h k = ground arith

take_task-Kept : (o : Option ℕ) (q : SwarmTaskQueue) → Kept dequeuing q (take_task o q).1
unfolding take_task submitted
take_task-Kept none q = same-Kept dequeuing q refl
take_task-Kept (some a) q = status-Kept dequeuing q a "Running" refl

update_found-Kept :
    (task_id : ℕ) (status : String) (o : Option ℕ) (q : SwarmTaskQueue)
    → Kept (updating task_id status) q (after_update q (update_found task_id status o q))
unfolding update_found after_update submitted
update_found-Kept task_id status none q = same-Kept (updating task_id status) q refl
update_found-Kept task_id status (some a) q = status-Kept (updating task_id status) q a status refl

call-Kept : (op : Operation) (q : SwarmTaskQueue) → Kept op q (call op q)
unfolding call submitted enqueue dequeue update_task_status
call-Kept (enqueuing task) q =
    let (order, perm, fifo) = IsSorted-Kept (rank q.heap) (q.queue ++ task ∷ []) in
    rw (ranks-set task "Pending" q.heap) (refl, (λ h. order), perm, fifo)
call-Kept dequeuing q = take_task-Kept (first_pending q.heap q.queue) q
call-Kept (updating task_id status) q = update_found-Kept task_id status (get q.tasks task_id) q

submitted-cons :
    (op : Operation) (ops : List Operation) (rest : List ℕ)
    → rest ++ submitted (op ∷ ops) ≡ (rest ++ submitted (op ∷ [])) ++ submitted ops
unfolding submitted
submitted-cons (enqueuing task) ops rest = sym (append_assoc rest (task ∷ []) (submitted ops))
submitted-cons dequeuing ops rest = rw (append-nil rest) refl
submitted-cons (updating task_id status) ops rest = rw (append-nil rest) refl

-- The queue after all calls, as to the queue at the start.
abbrev pub RunsFair : List Operation → SwarmTaskQueue → SwarmTaskQueue → Type 0
RunsFair ops q q' =
    IsInOrder q'
    × Perm q'.queue (q.queue ++ submitted ops)
    × ((s : ℕ)
        → keep (λ a. rank q.heap a == s) q'.queue
          ≡ keep (λ a. rank q.heap a == s) (q.queue ++ submitted ops))

-- Along any calls of enqueue, dequeue and update_task_status, from a queue in order: the queue stays
-- in descending order of priority, it holds exactly the tasks that were in it and those that were
-- enqueued, and those of one score stand in the order in which they were enqueued.
pub run-RunsFair :
    (ops : List Operation) (q : SwarmTaskQueue) → IsInOrder q → RunsFair ops q (run ops q)
unfolding run submitted
run-RunsFair [] q h = rw (append-nil q.queue) (h, Perm.refl _, λ s. refl)
run-RunsFair (op ∷ ops) q h =
    let (ranks, order, perm, fifo) = call-Kept op q in
    let (order', perm', fifo') = run-RunsFair ops (call op q) (order h) in
    rw (submitted-cons op ops q.queue) (
      order',
      Perm.trans perm' (Perm.append_right (submitted ops) perm),
      λ s.
          subst
            (λ r.
              keep (has_rank r s) (run ops (call op q)).queue
              ≡ keep (has_rank r s) ((call op q).queue ++ submitted ops))
            ranks (fifo' s)
          ∙ keep-append (has_rank (rank q.heap) s) (call op q).queue (submitted ops)
          ∙ ap (λ front. front ++ keep (has_rank (rank q.heap) s) (submitted ops)) (fifo s)
          ∙ sym (
              keep-append (has_rank (rank q.heap) s) (q.queue ++ submitted (op ∷ []))
                (submitted ops)),
    )
