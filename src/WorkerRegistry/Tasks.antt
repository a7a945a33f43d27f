-- ===== src/WorkerRegistry/Tasks.antt =====
-- mark_task_started and mark_task_completed of core/mission/worker_registry.py: the task counts of the
-- workers and the waves that are routed to them.
use jarvis.Prelude.{
  nat_eq, ℕ, [], ◌∷◌, none, some, List, Option, Bool, if◌then◌else◌, false, true, ◌==◌, length,
  ◌&&◌, leb, ◌+◌, keep, ◌-◌,
}
use jarvis.Prelude.Dict.{get, put}
use jarvis.WorkerRegistry.{Worker, Routing, Tables}

abbrev pub is_routed : (wave worker : ℕ) → Routing → Bool
is_routed wave worker r = r.wave_run_id == wave && r.chosen_worker_id == worker

unfoldable pub find_routing : (wave worker : ℕ) → List Routing → Option Routing
find_routing wave worker [] = none
find_routing wave worker (r ∷ log) =
    if is_routed wave worker r then some r else find_routing wave worker log

abbrev pub is_open : Option ℕ → Bool
is_open none = true
is_open (some at) = false

abbrev pub is_in_flight : (worker : ℕ) → Routing → Bool
is_in_flight worker r = r.chosen_worker_id == worker && is_open r.completed_at

-- SELECT count(*) of the worker's rows that are not completed
unfoldable pub in_flight : (worker : ℕ) → List Routing → ℕ
in_flight worker log = length (keep (is_in_flight worker) log)

started_open : (worker : ℕ) → Worker → Tables → Bool × Tables
unfolding in_flight
started_open worker w t =
    if leb (in_flight worker t.routing_log) w.active_tasks then (true, t) else (
      true,
      record t { workers = put t.workers worker (record w { active_tasks = w.active_tasks + 1 }) },
    )

started_row : (worker : ℕ) → Routing → Option Worker → Tables → Bool × Tables
unfolding started_open
started_row worker r none t = (false, t)
started_row worker r (some w) t =
    if is_open r.completed_at then started_open worker w t else (false, t)

-- The join finds a row if both the routing row and the worker exist.
unfoldable pub mark_task_started : (worker_id wave_run_id : ℕ) → Tables → Bool × Tables
unfolding started_row find_routing
mark_task_started worker_id wave_run_id t =
    elim (find_routing wave_run_id worker_id t.routing_log) [
      | none ↦ (false, t)
      | some r ↦ started_row worker_id r (get t.workers worker_id) t
    ]

unfoldable pub complete_row : (now wave worker : ℕ) → List Routing → List Routing
complete_row now wave worker [] = []
complete_row now wave worker (r ∷ log) =
    if is_routed wave worker r
    then record r { completed_at = some now } ∷ log
    else r ∷ complete_row now wave worker log

completed_row : (now worker wave : ℕ) → Routing → Option Worker → Tables → Bool × Tables
unfolding complete_row
completed_row now worker wave r none t = (false, t)
completed_row now worker wave r (some w) t =
    if is_open r.completed_at
    then (
      true,
      record t {
        routing_log = complete_row now wave worker t.routing_log;
        workers = put t.workers worker (record w { active_tasks = w.active_tasks - 1 });
      },
    )
    else (true, t)

unfoldable pub mark_task_completed :
    (now : ℕ) → (worker_id wave_run_id : ℕ) → Tables → Bool × Tables
unfolding completed_row find_routing
mark_task_completed now worker_id wave_run_id t =
    elim (find_routing wave_run_id worker_id t.routing_log) [
      | none ↦ (false, t)
      | some r ↦ completed_row now worker_id wave_run_id r (get t.workers worker_id) t
    ]
