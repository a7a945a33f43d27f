-- ===== src/SwarmQueue/Recovery.antt =====
-- core/runtime/recovery_manager.py: what SwarmResumeManager does to the table of tasks and to the
-- queue. The rows are in the order in which the database answers; of their columns the recovery
-- reads and writes these. A retry count is not negative. `fresh` is the first free address.
pub mod Resumed
use jarvis.Prelude.{
  nat_eq, string_eq, ℕ, suc, ◌+◌, ◌-◌, String, Bool, true, false, not, ◌&&◌, ◌||◌, Option, none,
  some, List, [], ◌∷◌, ◌==◌, if◌then◌else◌, ltb,
}
use jarvis.Prelude.Sort.{sort}
use jarvis.SwarmQueue.{SwarmTask, Heap, SwarmTaskQueue, rank, runs_before, enqueue}

pub record SwarmTaskModel : Type 0 where
  pub task_id : ℕ
  pub priority : String
  pub status : String
  pub retry : ℕ
  pub updated_at : ℕ
  pub version : ℕ
  -- the key "error" of the metadata is written
  pub timed_out : Bool

abbrev pub is_running : SwarmTaskModel → Bool
is_running row = row.status == "Running" || row.status == "Claimed"

-- elapsed > self.recovery_timeout
abbrev pub is_stale : (now timeout : ℕ) → SwarmTaskModel → Bool
is_stale now timeout row = ltb (row.updated_at + timeout) now

unfoldable pub retried : SwarmTaskModel → SwarmTaskModel
retried row = record row { status = "Pending"; retry = row.retry - 1; version = suc row.version }

unfoldable pub failed : SwarmTaskModel → SwarmTaskModel
failed row = record row { status = "Failed"; version = suc row.version; timed_out = true }

-- The row after the loop of `_recover_session_data`, and whether its task is to be enqueued.
unfoldable pub recover_running : (stale may_retry : Bool) → SwarmTaskModel → SwarmTaskModel × Bool
unfolding retried failed
recover_running true true row = (retried row, true)
recover_running true false row = (failed row, false)
recover_running false may_retry row = (row, false)

unfoldable pub recover_row : (now timeout : ℕ) → SwarmTaskModel → SwarmTaskModel × Bool
unfolding recover_running
recover_row now timeout row =
    if is_running row
    then recover_running (is_stale now timeout row) (ltb 0 row.retry) row
    else (row, row.status == "Pending")

-- The task object, with its status after the loop.
abbrev pub task_of : SwarmTaskModel → SwarmTask
task_of row = record { task_id = row.task_id; priority = row.priority; status = row.status }

unfoldable pub allocate : ℕ → SwarmTask → Heap → Heap
allocate address task heap a = if address == a then task else heap a

abbrev pub if_enqueued : Bool → ℕ → List ℕ → List ℕ
if_enqueued pending a rest = if pending then a ∷ rest else rest

-- The loop: the rows, the addresses to be enqueued and the heap after it.
unfoldable pub recover_rows :
    (now timeout fresh : ℕ) → List SwarmTaskModel → Heap → List SwarmTaskModel × List ℕ × Heap
unfolding recover_row allocate
recover_rows now timeout fresh [] heap = ([], [], heap)
recover_rows now timeout fresh (row ∷ rows) heap =
    let (row', pending) = recover_row now timeout row in
    let (rows', addresses, heap') =
      recover_rows now timeout (suc fresh) rows (allocate fresh (task_of row') heap) in
    (row' ∷ rows', if_enqueued pending fresh addresses, heap')

unfoldable pub enqueue_all : List ℕ → SwarmTaskQueue → SwarmTaskQueue
unfolding enqueue
enqueue_all [] q = q
enqueue_all (a ∷ rest) q = enqueue_all rest (enqueue a q)

unfoldable pub recover_tasks :
    (now timeout fresh : ℕ)
    → List SwarmTaskModel
    → SwarmTaskQueue
    → List SwarmTaskModel × SwarmTaskQueue
unfolding recover_rows enqueue_all sort rank
recover_tasks now timeout fresh rows q =
    let (rows', addresses, heap) = recover_rows now timeout fresh rows q.heap in
    (rows', enqueue_all (sort (runs_before (rank heap)) addresses) (record q { heap = heap }))
