-- ===== src/SwarmQueue.antt =====
-- core/runtime/queue.py: SwarmTaskQueue. The queue and the dictionary hold the same task objects, so
-- a task is known by its address, and the heap has its fields. Of those the queue reads three.
pub mod Calls
pub mod Serves
pub mod Recovery
use jarvis.Prelude.{
  nat_eq, string_eq, ℕ, String, Bool, Option, none, some, List, [], ◌∷◌, ◌++◌, ◌==◌, if◌then◌else◌,
  leb, keep, length, Result, ok, raise,
}
use jarvis.Prelude.Dict.{Dict, get, put}
use jarvis.Prelude.Sort.{sort}

pub record SwarmTask : Type 0 where
  pub task_id : ℕ
  pub priority : String
  pub status : String

abbrev pub Heap : Type 0
Heap = ℕ → SwarmTask

pub record SwarmTaskQueue : Type 0 where
  pub heap : Heap
  -- `_queue`, `_tasks`: addresses
  pub queue : List ℕ
  pub tasks : Dict ℕ ℕ

pub data Fault : Type 0 where
  -- JarvisAgentError with code AGENT_999
  not_found : (task_id : ℕ) → Fault

-- task.status = status
unfoldable pub set_status : ℕ → String → Heap → Heap
set_status task status heap a = if task == a then record (heap a) { status = status } else heap a

-- priority_map.get(priority, 3)
unfoldable pub score : String → ℕ
score priority =
    if priority == "CRITICAL"
    then 5
    else if priority == "HIGH"
    then 4
    else if priority == "NORMAL"
    then 3
    else if priority == "LOW"
    then 2
    else if priority == "SYSTEM"
    then 1
    else 3

unfoldable pub rank : Heap → ℕ → ℕ
unfolding score
rank heap a = score (heap a).priority

-- The order of `sort(key=…, reverse=True)`, which keeps tasks of one score in their order.
abbrev pub runs_before : (ℕ → ℕ) → ℕ → ℕ → Bool
runs_before ranks a b = leb (ranks b) (ranks a)

unfoldable pub enqueue : ℕ → SwarmTaskQueue → SwarmTaskQueue
unfolding set_status rank sort
enqueue task q =
    let heap = set_status task "Pending" q.heap in
    record {
      heap = heap;
      queue = sort (runs_before (rank heap)) (q.queue ++ task ∷ []);
      tasks = put q.tasks (q.heap task).task_id task;
    }

abbrev pub is_pending : Heap → ℕ → Bool
is_pending heap a = (heap a).status == "Pending"

unfoldable pub first_pending : Heap → List ℕ → Option ℕ
first_pending heap [] = none
first_pending heap (a ∷ rest) = if is_pending heap a then some a else first_pending heap rest

unfoldable pub take_task : Option ℕ → SwarmTaskQueue → Option ℕ × SwarmTaskQueue
unfolding set_status
take_task none q = (none, q)
take_task (some a) q = (some a, record q { heap = set_status a "Running" q.heap })

unfoldable pub dequeue : SwarmTaskQueue → Option ℕ × SwarmTaskQueue
unfolding first_pending take_task
dequeue q = take_task (first_pending q.heap q.queue) q

unfoldable pub update_found :
    (task_id : ℕ) → String → Option ℕ → SwarmTaskQueue → Result Fault SwarmTaskQueue
unfolding set_status
update_found task_id status none q = raise (not_found task_id)
update_found task_id status (some a) q = ok (record q { heap = set_status a status q.heap })

unfoldable pub update_task_status :
    (task_id : ℕ) → String → SwarmTaskQueue → Result Fault SwarmTaskQueue
unfolding update_found
update_task_status task_id status q = update_found task_id status (get q.tasks task_id) q

unfoldable pub get_task : (task_id : ℕ) → SwarmTaskQueue → Option ℕ
get_task task_id q = get q.tasks task_id

unfoldable pub size : SwarmTaskQueue → ℕ
unfolding keep
size q = length (keep (is_pending q.heap) q.queue)
