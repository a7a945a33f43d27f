-- ===== src/Samples/Tasks.antt =====
-- The theorem on the task queue at a queue that changes its strategy.
use jarvis.Prelude.{List, [], ◌∷◌, ◌++◌, none, some, refl, ◌≡◌}
use mathlib.Core.List.{Perm}
use jarvis.Prelude.Sort.{sort}
use jarvis.TaskScheduler.{
  ScheduledTask, priority_first, deadline_first, new_scheduler, schedule, get_next_task, add_task,
  set_strategy,
}
use jarvis.TaskScheduler.Served.{
  Operation, set, submit, take, run, submitted, IsInOrder, run-IsInOrder,
}

abbrev early : ScheduledTask
early = record { id = 1; priority = 0; deadline = none; cost = 3; created_at = 10 }

abbrev urgent : ScheduledTask
urgent = record { id = 2; priority = 9; deadline = some 90; cost = 1; created_at = 20 }

abbrev late : ScheduledTask
late = record { id = 3; priority = 9; deadline = some 50; cost = 2; created_at = 30 }

abbrev calls : List Operation
calls = submit late ∷ submit early ∷ submit urgent ∷ take ∷ set deadline_first ∷ take ∷ []

served : (run (new_scheduler none) calls).0 ≡ early ∷ late ∷ []
unfolding run get_next_task add_task schedule sort set_strategy
served = refl

run-IsInOrder_example :
    IsInOrder (run (new_scheduler (some priority_first)) calls).1
    × Perm
        ((run (new_scheduler (some priority_first)) calls).0
          ++ (run (new_scheduler (some priority_first)) calls).1.queue)
        ([] ++ submitted calls)
run-IsInOrder_example = run-IsInOrder (new_scheduler (some priority_first)) calls tt
