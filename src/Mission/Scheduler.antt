-- ===== src/Mission/Scheduler.antt =====
-- GoalScheduler of core/mission/mission_scheduler.py. The coroutines of one event loop interleave
-- at their suspension points, so each operation below is what runs between two of them: a call of
-- the public interface, the start of a mission by run_next, and each end of a task's attempt or
-- of the pause before a retry. A coroutine that is suspended inside _execute_mission is a `Frame`.
-- The locks are held over no suspension. The bus takes each event at once, and keeps it.
-- A mission is its entry in the registry: the object that a caller submits is the one that is run.
use jarvis.Prelude.{if◌then◌else◌, nat_eq, ℕ, [], ◌∷◌, none, some, ◌++◌, discard}
use jarvis.Prelude.Dict.{Dict, get, put}
use jarvis.Mission.Queue.{QueueItem, enqueue, remove_mission}
use jarvis.Mission.{
  Failure, Mission, MissionStatus, SchedulerConfig, queued, running, paused, cancelled, is_final,
  is_status, Option, List, Bool, false, true,
}

pub data Event : Type 0 where
  mission_queued mission_cancelled mission_paused mission_resumed mission_started
        mission_budget_exhausted mission_failed mission_recovering mission_completed :
      Event

pub record GoalScheduler : Type 0 where
  pub config : SchedulerConfig
  pub queue : List QueueItem
  pub missions : Dict ℕ Mission
  pub running_missions : List ℕ
  pub events : List (Event × ℕ)

abbrev pub publish : Event → ℕ → GoalScheduler → GoalScheduler
publish event mission_id s = record s { events = s.events ++ (event, mission_id) ∷ [] }

abbrev pub store : Mission → GoalScheduler → GoalScheduler
store m s = record s { missions = put s.missions m.id m }

abbrev pub item_of : (now : ℕ) → Mission → QueueItem
item_of now m = record {
  mission_id = m.id;
  priority = m.priority;
  deadline = m.due_at;
  enqueued_at = now;
}

abbrev pub enqueue_mission : (now : ℕ) → Mission → GoalScheduler → GoalScheduler
enqueue_mission now m s = record s { queue = enqueue now (item_of now m) s.queue }

unfoldable pub schedule_mission : (now : ℕ) → Mission → GoalScheduler → GoalScheduler
schedule_mission now m s =
    let m' : Mission = record m { status = queued } in
    publish mission_queued m.id (enqueue_mission now m' (store m' s))

cancel_found : ℕ → Option Mission → GoalScheduler → Bool × GoalScheduler
cancel_found mission_id none s = (false, s)
cancel_found mission_id (some m) s = if is_final m.status then (false, s) else (
  true,
  publish mission_cancelled mission_id (record s {
    missions = put s.missions mission_id (record m { status = cancelled });
    running_missions = discard mission_id s.running_missions;
  }),
)

unfoldable pub cancel_mission : (mission_id : ℕ) → GoalScheduler → Bool × GoalScheduler
unfolding cancel_found
cancel_mission mission_id s =
    let s' : GoalScheduler = record s { queue = (remove_mission mission_id s.queue).1 } in
    cancel_found mission_id (get s.missions mission_id) s'

pause_found : ℕ → Option Mission → GoalScheduler → Bool × GoalScheduler
pause_found mission_id none s = (false, s)
pause_found mission_id (some m) s =
    if is_status m.status running
    then (
      true,
      publish mission_paused mission_id
          (record s { missions = put s.missions mission_id (record m { status = paused }) }),
    )
    else (false, s)

unfoldable pub pause_mission : (mission_id : ℕ) → GoalScheduler → Bool × GoalScheduler
unfolding pause_found
pause_mission mission_id s = pause_found mission_id (get s.missions mission_id) s

resume_found : (now : ℕ) → ℕ → Option Mission → GoalScheduler → Bool × GoalScheduler
resume_found now mission_id none s = (false, s)
resume_found now mission_id (some m) s =
    if is_status m.status paused
    then (let m' : Mission = record m { status = queued } in
        let item : QueueItem = record (item_of now m') { mission_id = mission_id } in
        let stored : GoalScheduler = record s { missions = put s.missions mission_id m' } in
        (
          true,
          publish mission_resumed mission_id
              (record stored { queue = enqueue now item stored.queue }),
        ))
    else (false, s)

unfoldable pub resume_mission : (now : ℕ) → (mission_id : ℕ) → GoalScheduler → Bool × GoalScheduler
unfolding resume_found
resume_mission now mission_id s = resume_found now mission_id (get s.missions mission_id) s

pub record MissionResult : Type 0 where
  pub mission_id : ℕ
  pub status : MissionStatus
  pub tasks_completed : ℕ
  pub tasks_failed : ℕ
  pub budget_used : ℕ
  pub error : Option Failure

-- A suspended _execute_mission: the task that is executed now, and those that come after it.
pub record Frame : Type 0 where
  pub mission_id : ℕ
  pub task_id : ℕ
  pub rest : List ℕ
  pub tasks_completed : ℕ
  pub tasks_failed : ℕ

-- The coroutine waits for the executor, or for the end of the back-off, or has returned.
pub data Progress : Type 0 where
  executing : Frame → Progress
  backing_off : Frame → Progress
  finished : MissionResult → Progress
  -- The mission of a frame is not in the registry, from which nothing is ever taken.
  unknown_mission : Progress

abbrev pub make_result : Mission → (done lost : ℕ) → Option Failure → MissionResult
make_result m done lost error = record {
  mission_id = m.id;
  status = m.status;
  tasks_completed = done;
  tasks_failed = lost;
  budget_used = m.used_budget;
  error = error;
}

-- `return` inside the try block: the `finally` clause gives the running slot back.
abbrev pub finish :
    Mission → (done lost : ℕ) → Option Failure → GoalScheduler → GoalScheduler × Progress
finish m done lost error s = (
  record s { running_missions = discard m.id s.running_missions },
  finished (make_result m done lost error),
)
