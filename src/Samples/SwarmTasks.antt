-- ===== src/Samples/SwarmTasks.antt =====
-- The theorems on the swarm's queue and on its recovery at a few tasks.
use jarvis.Prelude.{
  ℕ, ◌+◌, String, List, [], ◌∷◌, some, if◌then◌else◌, ◌==◌, nat_eq, ◌≡◌, refl, keep, false,
}
use jarvis.SwarmQueue.{SwarmTask, SwarmTaskQueue, dequeue, enqueue, update_task_status}
use jarvis.Prelude.Dict.{get, put}
use mathlib.Core.List.{Perm}
use jarvis.SwarmQueue.Recovery.{SwarmTaskModel, recover_tasks}
use jarvis.SwarmQueue.Recovery.Resumed.{ids, ids_at, waits, is_resumable, recover_tasks-Resumed}
use jarvis.SwarmQueue.Calls.{
  IsInOrder, Operation, enqueuing, dequeuing, updating, run, RunsFair, run-RunsFair,
}
use jarvis.SwarmQueue.Serves.{Served, run-Served}

abbrev task_of : ℕ → String → SwarmTask
task_of a priority = record { task_id = a + 100; priority = priority; status = "Waiting" }

abbrev heap : ℕ → SwarmTask
heap a = task_of a (if a == 2 then "CRITICAL" else if a == 1 then "LOW" else "unheard of")

abbrev empty : SwarmTaskQueue
empty = record { heap = heap; queue = []; tasks = [] }

abbrev calls : List Operation
calls =
    enqueuing 0
    ∷ enqueuing 1
    ∷ dequeuing
    ∷ enqueuing 3
    ∷ enqueuing 2
    ∷ updating 101 "Completed"
    ∷ updating 99 "Failed"
    ∷ []

order : (run calls empty).queue ≡ 2 ∷ 0 ∷ 3 ∷ 1 ∷ []
unfolding run update_task_status get enqueue put dequeue
order = refl

served : (dequeue (run calls empty)).0 ≡ some 2
unfolding run update_task_status get enqueue put dequeue
served = refl

run-RunsFair_example : RunsFair calls empty (run calls empty)
run-RunsFair_example = run-RunsFair calls empty tt

run-Served_example : Served (run calls empty) (dequeue (run calls empty))
run-Served_example = run-Served calls empty tt

-- Recovery at instant 1000 with a timeout of 300: a task that waits, one that runs, two that have run
-- for too long, of which one may be retried, and one that is completed.
abbrev row_of : ℕ → String → ℕ → ℕ → SwarmTaskModel
row_of task_id status retry updated_at = record {
  task_id = task_id;
  priority = "NORMAL";
  status = status;
  retry = retry;
  updated_at = updated_at;
  version = 1;
  timed_out = false;
}

abbrev rows : List SwarmTaskModel
rows =
    row_of 10 "Pending" 0 100
    ∷ row_of 11 "Running" 2 900
    ∷ row_of 12 "Claimed" 2 100
    ∷ row_of 13 "Running" 0 100
    ∷ row_of 14 "Completed" 1 100
    ∷ []

recovered : ids (keep waits (recover_tasks 1000 300 7 rows empty).0) ≡ 10 ∷ 12 ∷ []
unfolding recover_tasks keep
recovered = refl

recover_tasks-Resumed_example :
    IsInOrder (recover_tasks 1000 300 7 rows empty).1
    × Perm
        (ids_at
          (recover_tasks 1000 300 7 rows empty).1.heap
          (recover_tasks 1000 300 7 rows empty).1.queue)
        (ids (keep waits (recover_tasks 1000 300 7 rows empty).0))
    × (ids (keep waits (recover_tasks 1000 300 7 rows empty).0)
        ≡ ids (keep (is_resumable 1000 300) rows))
    × (ids (recover_tasks 1000 300 7 rows empty).0 ≡ ids rows)
recover_tasks-Resumed_example = recover_tasks-Resumed 1000 300 7 rows empty refl
