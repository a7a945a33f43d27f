-- ===== src/Mission/Execution.antt =====
-- run_next, _execute_mission and _execute_task of core/mission/mission_scheduler.py, cut at their
-- suspension points.
use jarvis.Prelude.{
  nat_eq, ℕ, [], ◌∷◌, none, some, if◌then◌else◌, ◌==◌, add, ◌+◌, discard, ◌++◌, length,
}
use jarvis.Prelude.Dict.{get}
use jarvis.Mission.Queue.{QueueItem, dequeue}
use jarvis.Mission.Resolver.{resolve, waves, cycle, out_of_fuel, Resolved}
use jarvis.Mission.Scheduler.{
  GoalScheduler, mission_started, mission_budget_exhausted, mission_failed, mission_recovering,
  mission_completed, publish, store, enqueue_mission, Frame, Progress, executing, backing_off,
  unknown_mission, finish,
}
use jarvis.Mission.{
  Failure, text, cancelled_between, paused_between, budget_exhausted, recovering_attempt,
  dependency_cycle, Mission, MissionTask, running, paused, completed, failed, cancelled, is_status,
  is_exhausted, consume, should_retry_mission, prepare_retry, should_retry_task, prepare_task_retry,
  unit_cost, List, Option, String, leb,
}

-- Task ids are unique in a mission that is run, so the first task with the id is the task.
unfoldable pub update_task : ℕ → (MissionTask → MissionTask) → List MissionTask → List MissionTask
update_task k f [] = []
update_task k f (t ∷ ts) = if t.id == k then f t ∷ ts else t ∷ update_task k f ts

unfoldable pub find_task : ℕ → List MissionTask → Option MissionTask
find_task k [] = none
find_task k (t ∷ ts) = if t.id == k then some t else find_task k ts

abbrev pub set_task : ℕ → (MissionTask → MissionTask) → Mission → Mission
set_task k f m = record m { tasks = update_task k f m.tasks }

abbrev pub start_task : MissionTask → MissionTask
start_task t = record t { status = running }

-- From one task to the next: the checks between tasks, and the start of the next attempt.
unfoldable pub advance :
    Mission → (rest : List ℕ) → (done lost : ℕ) → GoalScheduler → GoalScheduler × Progress
unfolding update_task
advance m [] done lost s =
    let m' : Mission = record m { status = completed } in
    finish m' done lost none (publish mission_completed m.id (store m' s))
advance m (t ∷ rest) done lost s =
    if is_status m.status cancelled
    then finish m done lost (some cancelled_between) s
    else if is_status m.status paused
    then finish m done lost (some paused_between) s
    else if is_exhausted s.config.budget_overage_grace m
    then (let m' : Mission = record m { status = failed; error = some budget_exhausted } in
        finish m' done lost (some budget_exhausted)
          (publish mission_budget_exhausted m.id (store m' s)))
    else (
      store (set_task t start_task m) s,
      executing (record {
        mission_id = m.id;
        task_id = t;
        rest = rest;
        tasks_completed = done;
        tasks_failed = lost;
      }),
    )

-- How the attempt of a task ends: the executor returns a cost (None is 0), there is no executor,
-- or something is raised.
pub data Attempt : Type 0 where
  executed : (cost : ℕ) → Attempt
  simulated : Attempt
  raised : String → Attempt

-- `task.budget or 1.0`
abbrev pub simulated_cost : MissionTask → ℕ
simulated_cost t = if t.budget == 0 then unit_cost else t.budget

abbrev pub complete_task : MissionTask → MissionTask
complete_task t = record t { status = completed }

abbrev pub fail_task : String → MissionTask → MissionTask
fail_task error t = record t { status = failed; error = some (text error) }

abbrev pub retry_task : String → MissionTask → MissionTask
retry_task error t = prepare_task_retry (record t { error = some (text error) })

unfoldable pub task_succeeded :
    (cost : ℕ) → Frame → Mission → GoalScheduler → GoalScheduler × Progress
unfolding advance
task_succeeded cost f m s =
    let paid = (consume s.config.budget_overage_grace m cost).1 in
    let m' = set_task f.task_id complete_task paid in
    advance m' f.rest (f.tasks_completed + 1) f.tasks_failed (store m' s)

-- A task that failed for good: the mission is retried, or fails.
unfoldable pub task_lost :
    (now : ℕ) → String → Frame → Mission → GoalScheduler → GoalScheduler × Progress
task_lost now error f m s =
    let m' = set_task f.task_id (fail_task error) m in
    if should_retry_mission m'
    then (let retried = prepare_retry m' in
        finish retried f.tasks_completed (f.tasks_failed + 1)
          (some (recovering_attempt retried.retry_count))
          (publish mission_recovering m.id (enqueue_mission now retried (store retried s))))
    else (let dead : Mission = record m' { status = failed; error = some (text error) } in
        finish dead f.tasks_completed (f.tasks_failed + 1) (some (text error))
          (publish mission_failed m.id (store dead s)))

unfoldable pub task_ended :
    (now : ℕ)
    → Attempt
    → Frame
    → Mission
    → Option MissionTask
    → GoalScheduler
    → GoalScheduler × Progress
unfolding task_succeeded task_lost
task_ended now a f m none s = (s, unknown_mission)
task_ended now (executed cost) f m (some t) s = task_succeeded cost f m s
task_ended now simulated f m (some t) s = task_succeeded (simulated_cost t) f m s
task_ended now (raised error) f m (some t) s =
    if should_retry_task t
    then (store (set_task f.task_id (retry_task error) m) s, backing_off f)
    else task_lost now error f m s

-- The executor's answer for the task of a frame.
unfoldable pub attempt_ended :
    (now : ℕ) → Attempt → Frame → GoalScheduler → GoalScheduler × Progress
unfolding task_ended find_task
attempt_ended now a f s = elim (get s.missions f.mission_id) [
  | none ↦ (s, unknown_mission)
  | some m ↦ task_ended now a f m (find_task f.task_id m.tasks) s
]

-- The back-off of a frame is over, and the task is tried again.
unfoldable pub back_off_ended : Frame → GoalScheduler → GoalScheduler × Progress
unfolding update_task
back_off_ended f s = elim (get s.missions f.mission_id) [
  | none ↦ (s, unknown_mission)
  | some m ↦ (store (set_task f.task_id start_task m) s, executing f)
]

-- The coroutine of a frame is cancelled: only the `finally` clause runs.
unfoldable pub abandoned : Frame → GoalScheduler → GoalScheduler
abandoned f s = record s { running_missions = discard f.mission_id s.running_missions }

pub flat : List (List ℕ) → List ℕ
flat [] = []
flat (w ∷ ws) = w ++ flat ws

abbrev pub fail_mission : Failure → Mission → GoalScheduler → GoalScheduler × Progress
fail_mission error m s =
    let m' : Mission = record m { status = failed; error = some error } in
    finish m' 0 0 (some error) (publish mission_failed m.id (store m' s))

-- The resolver has returned, or has raised. The last clause is no behaviour of the code.
unfoldable pub begin_tasks : Mission → GoalScheduler → Resolved → GoalScheduler × Progress
unfolding flat
begin_tasks m s (waves ws) = advance m (flat ws) 0 0 s
begin_tasks m s (cycle ids) = fail_mission (dependency_cycle ids) m s
begin_tasks m s out_of_fuel = (s, unknown_mission)

-- _execute_mission up to its first suspension, or to its end.
unfoldable pub execute_mission : Mission → GoalScheduler → GoalScheduler × Progress
unfolding begin_tasks
execute_mission m s =
    let m' : Mission = record m { status = running } in
    let slots = add m.id s.running_missions in
    begin_tasks m' (publish mission_started m.id (record (store m' s) { running_missions = slots }))
      (resolve m.tasks)

unfoldable pub run_item : Option QueueItem → GoalScheduler → GoalScheduler × Option Progress
run_item none s = (s, none)
run_item (some item) s = elim (get s.missions item.mission_id) [
  | none ↦ (s, none)
  | some m ↦
      if is_status m.status cancelled
      then (s, none)
      else (let (s', p) = execute_mission m s in (s', some p))
]

unfoldable pub run_next : GoalScheduler → GoalScheduler × Option Progress
unfolding run_item
run_next s =
    if leb s.config.max_concurrent_missions (length s.running_missions)
    then (s, none)
    else (let (item, left) = dequeue s.queue in run_item item (record s { queue = left }))
