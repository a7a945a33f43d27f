-- ===== src/TaskScheduler.antt =====
-- core/runtime/scheduler.py: the task queue of the runtime and its strategies. A priority is a whole
-- number, a negative one included, and stands here above the least one in use; an instant is a whole
-- number of microseconds, and a cost of millionths. `datetime.max`, the place of a task without a
-- deadline, comes after every instant. The payloads are left out.
pub mod Served
use jarvis.Prelude.{
  ℕ, List, [], ◌∷◌, ◌++◌, Option, none, some, Bool, true, false, leb, ltb, if◌then◌else◌,
}
use jarvis.Prelude.Sort.{sort}

pub record ScheduledTask : Type 0 where
  pub id : ℕ
  pub priority : ℕ
  pub deadline : Option ℕ
  pub cost : ℕ
  pub created_at : ℕ

pub data SchedulerStrategy : Type 0 where
  fifo priority_first deadline_first round_robin cost_aware : SchedulerStrategy

-- key(a) <= key(b), for the key `(-t.priority, t.created_at)`
abbrev pub priority_le : ScheduledTask → ScheduledTask → Bool
priority_le a b =
    if ltb b.priority a.priority
    then true
    else if ltb a.priority b.priority
    then false
    else leb a.created_at b.created_at

abbrev pub deadline_le : Option ℕ → Option ℕ → Bool
deadline_le a none = true
deadline_le none (some d) = false
deadline_le (some c) (some d) = leb c d

-- key(a) <= key(b), for the key of the strategy. Round robin has none.
abbrev pub runs_before : SchedulerStrategy → ScheduledTask → ScheduledTask → Bool
runs_before fifo a b = leb a.created_at b.created_at
runs_before priority_first a b = priority_le a b
runs_before deadline_first a b = deadline_le a.deadline b.deadline
runs_before round_robin a b = true
runs_before cost_aware a b = leb a.cost b.cost

-- `sorted(tasks, key=...)`; round robin returns the list as it is.
unfoldable pub schedule : SchedulerStrategy → List ScheduledTask → List ScheduledTask
schedule fifo tasks = sort (runs_before fifo) tasks
schedule priority_first tasks = sort (runs_before priority_first) tasks
schedule deadline_first tasks = sort (runs_before deadline_first) tasks
schedule round_robin tasks = tasks
schedule cost_aware tasks = sort (runs_before cost_aware) tasks

pub record TaskScheduler : Type 0 where
  pub strategy : SchedulerStrategy
  pub queue : List ScheduledTask

abbrev pub new_scheduler : Option SchedulerStrategy → TaskScheduler
new_scheduler none = record { strategy = fifo; queue = [] }
new_scheduler (some strategy) = record { strategy = strategy; queue = [] }

unfoldable pub set_strategy : SchedulerStrategy → TaskScheduler → TaskScheduler
set_strategy strategy s = record { strategy = strategy; queue = schedule strategy s.queue }

unfoldable pub add_task : ScheduledTask → TaskScheduler → TaskScheduler
add_task t s = record s { queue = schedule s.strategy (s.queue ++ t ∷ []) }

unfoldable pub next_of : List ScheduledTask → TaskScheduler → Option ScheduledTask × TaskScheduler
next_of [] s = (none, s)
next_of (t ∷ ts) s = (some t, record s { queue = ts })

unfoldable pub get_next_task : TaskScheduler → Option ScheduledTask × TaskScheduler
unfolding next_of
get_next_task s = next_of s.queue s
