-- ===== src/Samples/Missions.antt =====
-- Runs of core/mission/mission_scheduler.py.
use jarvis.Prelude.{
  ℕ, [], ◌∷◌, none, some, false, refl, nat_eq, string_eq, List, arith, ◌≡◌, length, member, ◌≤◌,
}
use jarvis.Prelude.Dict.{get}
use jarvis.Mission.{text, Mission, MissionTask, MissionStatus, pending, running, failed}
use jarvis.Mission.Scheduler.{finished, GoalScheduler, Frame}
use jarvis.Mission.Execution.{executed, raised, attempt_ended, find_task}
use jarvis.Mission.Actions.{Action, schedule, cancel, next, ended, act_all}
use jarvis.Mission.Actions.Slots.{act_all-slots}
use jarvis.Mission.Actions.Registry.{act_all-IsSound}
use jarvis.Mission.Actions.Frames.{IsSound}
use jarvis.Mission.Actions.Outcomes.{HasStatus, attempt_ended-no_mission_retry}

abbrev task : ℕ → List ℕ → MissionTask
task id depends_on = record {
  id = id;
  status = pending;
  depends_on = depends_on;
  retries = 0;
  max_retries = 1;
  budget = 0;
  error = none;
}

abbrev mission : Mission
mission = record {
  id = 1;
  status = pending;
  priority = 5;
  tasks = task 11 [] ∷ task 12 (11 ∷ []) ∷ [];
  total_budget = 3_000_000;
  used_budget = 0;
  max_retries = 3;
  retry_count = 0;
  due_at = none;
  error = none;
}

abbrev idle : GoalScheduler
idle = record {
  config = record { max_concurrent_missions = 1; budget_overage_grace = 105 };
  queue = [];
  missions = [];
  running_missions = [];
  events = [];
}

abbrev first_task : Frame
first_task = record {
  mission_id = 1;
  task_id = 11;
  rest = 12 ∷ [];
  tasks_completed = 0;
  tasks_failed = 0;
}

abbrev actions : List Action
actions = schedule 0 mission ∷ next ∷ ended 1 (executed 7) first_task ∷ cancel 1 ∷ next ∷ []

act_all-slots_example : length (act_all idle actions).running_missions ≤ 1
act_all-slots_example = act_all-slots idle actions (omega arith)

idle-IsSound : IsSound idle
unfolding get
idle-IsSound k = tt

act_all-IsSound_example : IsSound (act_all idle actions)
act_all-IsSound_example = act_all-IsSound idle actions (omega arith) idle-IsSound

abbrev spent : MissionTask
spent = record (task 11 []) { retries = 1; status = running }

-- The mission in a registry, in a given status, with its first task run for the last time.
abbrev live : MissionStatus → Mission
live status = record mission { status = status; tasks = spent ∷ task 12 (11 ∷ []) ∷ [] }

abbrev holding : MissionStatus → GoalScheduler
holding status = record idle { missions = (1, live status) ∷ []; running_missions = 1 ∷ [] }

get-holding : (status : MissionStatus) → get (holding status).missions 1 ≡ some (live status)
unfolding get
get-holding status = refl

find_task-first : (status : MissionStatus) → find_task 11 (live status).tasks ≡ some spent
unfolding find_task
find_task-first status = refl

attempt_ended-no_mission_retry_example :
    ((attempt_ended 5 (raised "boom") first_task (holding running)).0.queue ≡ [])
    × HasStatus (attempt_ended 5 (raised "boom") first_task (holding running)).0 1 failed
    × (member 1 (attempt_ended 5 (raised "boom") first_task (holding running)).0.running_missions
        ≡ false)
    × ((attempt_ended 5 (raised "boom") first_task (holding running)).1
        ≡ finished (record {
          mission_id = 1;
          status = failed;
          tasks_completed = 0;
          tasks_failed = 1;
          budget_used = 0;
          error = some (text "boom");
        }))
attempt_ended-no_mission_retry_example =
    attempt_ended-no_mission_retry 5 "boom" first_task (holding running) (live running) spent
      (get-holding running) refl (ground arith) (find_task-first running) (omega arith)
