-- ===== src/Mission/Actions.antt =====
-- The scheduler of core/mission/mission_scheduler.py as one transition system: what the callers,
-- the runner and the suspended coroutines may do next, in any order. An action takes any frame, so
-- what holds along all actions holds along all interleavings of the real coroutines.
pub mod Slots
pub mod Outcomes
pub mod Frames
pub mod Registry
use jarvis.Prelude.{nat_eq, ℕ, [], ◌∷◌, none, some}
use jarvis.Mission.{Mission, List}
use jarvis.Mission.Scheduler.{
  GoalScheduler, Frame, schedule_mission, cancel_mission, pause_mission, resume_mission,
}
use jarvis.Mission.Execution.{Attempt, run_next, attempt_ended, back_off_ended, abandoned}

pub data Action : Type 0 where
  schedule : (now : ℕ) → Mission → Action
  cancel pause : (mission_id : ℕ) → Action
  resume : (now : ℕ) → (mission_id : ℕ) → Action
  next : Action
  ended : (now : ℕ) → Attempt → Frame → Action
  woken : Frame → Action
  killed : Frame → Action

unfoldable pub act : GoalScheduler → Action → GoalScheduler
act s (schedule now m) = schedule_mission now m s
act s (cancel k) = (cancel_mission k s).1
act s (pause k) = (pause_mission k s).1
act s (resume now k) = (resume_mission now k s).1
act s next = (run_next s).0
act s (ended now a f) = (attempt_ended now a f s).0
act s (woken f) = (back_off_ended f s).0
act s (killed f) = abandoned f s

unfoldable pub act_all : GoalScheduler → List Action → GoalScheduler
act_all s [] = s
act_all s (a ∷ more) = act_all (act s a) more
