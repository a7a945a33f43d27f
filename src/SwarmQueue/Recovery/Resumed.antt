-- ===== src/SwarmQueue/Recovery/Resumed.antt =====
-- What the recovery of core/runtime/recovery_manager.py puts into the queue.
use mathlib.Core.List.Perm
use mathlib.Core.List.{Perm}
use jarvis.Prelude.{
  nat_eq, string_eq, ℕ, suc, String, Bool, true, false, ◌&&◌, ◌||◌, List, [], ◌∷◌, ◌++◌, ◌==◌, ltb,
  keep, map, ◌≡◌, refl, sym, ap, ◌∙◌, subst, ◌<◌, arith, eq_iff, Bool-cases, inl, inr,
}
use jarvis.Prelude.Sort.{sort, sort-perm}
use jarvis.SwarmQueue.{Heap, SwarmTaskQueue, set_status, rank, runs_before, enqueue}
use jarvis.SwarmQueue.Calls.{enqueuing, run, call, submitted, IsInOrder, run-RunsFair}
use jarvis.SwarmQueue.Recovery.{
  SwarmTaskModel, is_running, is_stale, recover_row, recover_running, retried, failed, task_of,
  allocate, if_enqueued, recover_rows, enqueue_all, recover_tasks,
}

-- A row that waits, or that has run for too long and may be retried.
abbrev pub is_resumable : (now timeout : ℕ) → SwarmTaskModel → Bool
is_resumable now timeout row =
    row.status == "Pending" || (is_running row && is_stale now timeout row && ltb 0 row.retry)

abbrev pub waits : SwarmTaskModel → Bool
waits row = row.status == "Pending"

abbrev pub ids : List SwarmTaskModel → List ℕ
ids rows = map (λ row. row.task_id) rows

abbrev pub ids_at : Heap → List ℕ → List ℕ
ids_at heap addresses = map (λ a. (heap a).task_id) addresses

running-waits : (row : SwarmTaskModel) → is_running row ≡ true → waits row ≡ false
running-waits row h = ground (
  arith,
  eq_iff row.status "Running",
  eq_iff row.status "Claimed",
  eq_iff row.status "Pending",
  eq_iff "Running" "Pending",
  eq_iff "Claimed" "Pending",
)

-- What a row becomes, as to the id and to whether it waits.
abbrev Fits : SwarmTaskModel → Bool → SwarmTaskModel × Bool → Type 0
Fits row resumable (row', pending) =
    (row'.task_id ≡ row.task_id) × (pending ≡ waits row') × (pending ≡ resumable)

recover_running-Fits :
    (stale may_retry : Bool) (row : SwarmTaskModel)
    → waits row ≡ false
    → Fits row (stale && may_retry) (recover_running stale may_retry row)
unfolding recover_running retried failed
recover_running-Fits true true row h = (refl, refl, refl)
recover_running-Fits true false row h = (refl, refl, refl)
recover_running-Fits false may_retry row h = (refl, sym h, refl)

recover_row-Fits :
    (now timeout : ℕ) (row : SwarmTaskModel)
    → Fits row (is_resumable now timeout row) (recover_row now timeout row)
unfolding recover_row
recover_row-Fits now timeout row = elim (Bool-cases (is_running row)) [
  | inl e ↦
      let idle = running-waits row e in
      rw (e, idle) (recover_running-Fits (is_stale now timeout row) (ltb 0 row.retry) row idle)
  | inr e ↦ rw e (refl, refl, ground arith)
]

allocate_self :
    (fresh : ℕ) (row : SwarmTaskModel) (heap : Heap)
    → (allocate fresh (task_of row) heap fresh).task_id ≡ row.task_id
unfolding allocate
allocate_self fresh row heap = rw ((nat_eq.same_iff fresh fresh).1 refl) refl

-- The loop writes no address below the first free one.
recover_rows-older :
    (now timeout fresh : ℕ) (rows : List SwarmTaskModel) (heap : Heap) (a : ℕ)
    → a < fresh
    → (recover_rows now timeout fresh rows heap).2 a ≡ heap a
unfolding recover_rows allocate
recover_rows-older now timeout fresh [] heap a h = refl
recover_rows-older now timeout fresh (row ∷ rows) heap a h =
    let row' = (recover_row now timeout row).0 in
    recover_rows-older now timeout (suc fresh) rows (allocate fresh (task_of row') heap) a
      (omega arith)
    ∙ ground arith

ids_at-cons :
    (pending : Bool) (heap : Heap) (fresh : ℕ) (addresses : List ℕ) (row : SwarmTaskModel)
    (rows : List SwarmTaskModel)
    → pending ≡ waits row
    → (heap fresh).task_id ≡ row.task_id
    → ids_at heap addresses ≡ ids (keep waits rows)
    → ids_at heap (if_enqueued pending fresh addresses) ≡ ids (keep waits (row ∷ rows))
unfolding keep
ids_at-cons true heap fresh addresses row rows e own h = rw (sym e) (λ i. own i ∷ h i)
ids_at-cons false heap fresh addresses row rows e own h = rw (sym e) h

ids-cons :
    (resumable : SwarmTaskModel → Bool) (row' row : SwarmTaskModel)
    (rows' rows : List SwarmTaskModel)
    → waits row' ≡ resumable row
    → row'.task_id ≡ row.task_id
    → ids (keep waits rows') ≡ ids (keep resumable rows)
    → ids (keep waits (row' ∷ rows')) ≡ ids (keep resumable (row ∷ rows))
unfolding keep
ids-cons resumable row' row rows' rows e own h = elim (Bool-cases (resumable row)) [
  | inl may ↦ rw (e, may) (λ i. own i ∷ h i)
  | inr never ↦ rw (e, never) h
]

-- What the loop leaves: the addresses that it collects are those of the rows that wait.
abbrev Collected :
    (SwarmTaskModel → Bool) → List SwarmTaskModel → List SwarmTaskModel × List ℕ × Heap → Type 0
Collected resumable rows (rows', addresses, heap) =
    (ids_at heap addresses ≡ ids (keep waits rows'))
    × (ids (keep waits rows') ≡ ids (keep resumable rows))
    × (ids rows' ≡ ids rows)

recover_rows-Collected :
    (now timeout fresh : ℕ) (rows : List SwarmTaskModel) (heap : Heap)
    → Collected (is_resumable now timeout) rows (recover_rows now timeout fresh rows heap)
unfolding recover_rows keep
recover_rows-Collected now timeout fresh [] heap = (refl, refl, refl)
recover_rows-Collected now timeout fresh (row ∷ rows) heap =
    let (row', pending) = recover_row now timeout row in
    let (same_id, e, f) = recover_row-Fits now timeout row in
    let heap' = allocate fresh (task_of row') heap in
    let (rows', addresses, after) = recover_rows now timeout (suc fresh) rows heap' in
    let (own, kept, all) = recover_rows-Collected now timeout (suc fresh) rows heap' in
    let older = recover_rows-older now timeout (suc fresh) rows heap' fresh (omega arith) in
    (
      ids_at-cons pending after fresh addresses row' rows' e
          (ap (λ t. t.task_id) older ∙ allocate_self fresh row' heap) own,
      ids-cons (is_resumable now timeout) row' row rows' rows (sym e ∙ f) same_id kept,
      λ i. same_id i ∷ all i,
    )

ids_at-set :
    (task : ℕ) (status : String) (heap : Heap) (addresses : List ℕ)
    → ids_at (set_status task status heap) addresses ≡ ids_at heap addresses
unfolding set_status
ids_at-set task status heap [] = refl
ids_at-set task status heap (a ∷ rest) = elim (Bool-cases (task == a)) [
  | inl e ↦ rw e (λ i. (heap a).task_id ∷ ids_at-set task status heap rest i)
  | inr e ↦ rw e (λ i. (heap a).task_id ∷ ids_at-set task status heap rest i)
]

ids_at-enqueue_all :
    (tasks : List ℕ) (q : SwarmTaskQueue) (addresses : List ℕ)
    → ids_at (enqueue_all tasks q).heap addresses ≡ ids_at q.heap addresses
unfolding enqueue_all enqueue
ids_at-enqueue_all [] q addresses = refl
ids_at-enqueue_all (task ∷ tasks) q addresses =
    ids_at-enqueue_all tasks (enqueue task q) addresses ∙ ids_at-set task "Pending" q.heap addresses

enqueue_all-run :
    (tasks : List ℕ) (q : SwarmTaskQueue)
    → (enqueue_all tasks q ≡ run (map enqueuing tasks) q)
      × (submitted (map enqueuing tasks) ≡ tasks)
unfolding enqueue_all run call submitted
enqueue_all-run [] q = (refl, refl)
enqueue_all-run (task ∷ tasks) q =
    let (same, all) = enqueue_all-run tasks (enqueue task q) in (same, λ i. task ∷ all i)

enqueue_all-order :
    (tasks : List ℕ) (q : SwarmTaskQueue)
    → q.queue ≡ []
    → IsInOrder (enqueue_all tasks q) × Perm (enqueue_all tasks q).queue tasks
enqueue_all-order tasks q empty =
    let (same, all) = enqueue_all-run tasks q in
    let start : IsInOrder q = rw empty tt in
    let (order, perm, fifo) = run-RunsFair (map enqueuing tasks) q start in
    let queued = ap (λ front. front ++ submitted (map enqueuing tasks)) empty ∙ all in
    rw same (order, subst (Perm (run (map enqueuing tasks) q).queue) queued perm)

-- The recovery at the start of the system, when the queue is empty: whatever rows the table has, the
-- queue is in descending order of priority afterwards and holds exactly the tasks whose rows are
-- Pending afterwards, each as often as there are such rows. Those are the tasks that were Pending and
-- those that had been Running or Claimed for longer than the timeout with a retry left. No row is
-- lost or gets another id.
pub recover_tasks-Resumed :
    (now timeout fresh : ℕ) (rows : List SwarmTaskModel) (q : SwarmTaskQueue)
    → q.queue ≡ []
    → IsInOrder (recover_tasks now timeout fresh rows q).1
      × Perm
          (ids_at
            (recover_tasks now timeout fresh rows q).1.heap
            (recover_tasks now timeout fresh rows q).1.queue)
          (ids (keep waits (recover_tasks now timeout fresh rows q).0))
      × (ids (keep waits (recover_tasks now timeout fresh rows q).0)
          ≡ ids (keep (is_resumable now timeout) rows))
      × (ids (recover_tasks now timeout fresh rows q).0 ≡ ids rows)
unfolding recover_tasks
recover_tasks-Resumed now timeout fresh rows q empty =
    let (rows', addresses, heap) = recover_rows now timeout fresh rows q.heap in
    let (own, kept, all) = recover_rows-Collected now timeout fresh rows q.heap in
    let tasks = sort (runs_before (rank heap)) addresses in
    let q' = record q { heap = heap } in
    let (order, perm) = enqueue_all-order tasks q' empty in
    (
      order,
      rw (ids_at-enqueue_all tasks q' (enqueue_all tasks q').queue, sym own)
          (Perm.map (λ a. (heap a).task_id)
            (Perm.trans perm (sort-perm (runs_before (rank heap)) addresses))),
      kept,
      all,
    )
