-- ===== src/Mission/Actions/Outcomes.antt =====
-- How a mission of core/mission/mission_scheduler.py ends, and what its end depends on.
use jarvis.Prelude.{
  member-discard_self, ℕ, nat_eq, List, [], ◌∷◌, none, some, String, ◌≡◌, member, ◌≢◌, false, ◌≤◌,
  arith, ◌+◌, Option,
}
use jarvis.Prelude.Dict.{get, put, get-put_self}
use jarvis.Mission.{
  Mission, MissionTask, MissionStatus, text, paused, completed, failed, cancelled, is_exhausted,
  should_retry_mission, should_retry_task, consume,
}
use jarvis.Mission.Scheduler.{GoalScheduler, Frame, executing, finished}
use jarvis.Mission.Execution.{
  executed, raised, advance, attempt_ended, find_task, set_task, fail_task, complete_task,
}

-- The status of a mission in the registry.
abbrev pub StatusIs : MissionStatus → Option Mission → Type 0
StatusIs status none = ⊥
StatusIs status (some m) = m.status ≡ status

abbrev pub HasStatus : GoalScheduler → ℕ → MissionStatus → Type 0
HasStatus s k status = StatusIs status (get s.missions k)

-- A task that is started was allowed to: at that moment its mission was neither cancelled nor
-- paused, and its budget, with the grace, was not exhausted.
pub advance-executing :
    (m : Mission) (rest : List ℕ) (done lost : ℕ) (s : GoalScheduler) (f : Frame)
    → (advance m rest done lost s).1 ≡ executing f
    → (m.status ≢ cancelled)
      × (m.status ≢ paused)
      × (is_exhausted s.config.budget_overage_grace m ≡ false)
unfolding advance
advance-executing m [] done lost s f h = ground arith
advance-executing m (t ∷ rest) done lost s f h = ground arith

-- A mission whose task fails for good while it is not already FAILED fails with it: it is not put
-- back in the queue, whatever retries the mission itself has left, its slot is given back, and the
-- result that is returned says FAILED, counts one failed task more and has the error of the task.
pub attempt_ended-no_mission_retry :
    (now : ℕ) (error : String) (f : Frame) (s : GoalScheduler) (m : Mission) (t : MissionTask)
    → get s.missions f.mission_id ≡ some m
    → m.id ≡ f.mission_id
    → m.status ≢ failed
    → find_task f.task_id m.tasks ≡ some t
    → t.max_retries ≤ t.retries
    → ((attempt_ended now (raised error) f s).0.queue ≡ s.queue)
      × HasStatus (attempt_ended now (raised error) f s).0 f.mission_id failed
      × (member f.mission_id (attempt_ended now (raised error) f s).0.running_missions ≡ false)
      × ((attempt_ended now (raised error) f s).1
          ≡ finished (record {
            mission_id = f.mission_id;
            status = failed;
            tasks_completed = f.tasks_completed;
            tasks_failed = f.tasks_failed + 1;
            budget_used = m.used_budget;
            error = some (text error);
          }))
unfolding attempt_ended should_retry_mission should_retry_task
attempt_ended-no_mission_retry now error f s m t found same live task spent =
    let lost = set_task f.task_id (fail_task error) m in
    let dead : Mission = record lost { status = failed; error = some (text error) } in
    ground (arith, get-put_self s.missions m.id dead, member-discard_self m.id s.running_missions)

-- A mission that was cancelled during its last task is COMPLETED when that task succeeds.
pub attempt_ended-overrides_cancel :
    (now cost : ℕ) (f : Frame) (s : GoalScheduler) (m : Mission) (t : MissionTask)
    → get s.missions f.mission_id ≡ some m
    → m.id ≡ f.mission_id
    → m.status ≡ cancelled
    → find_task f.task_id m.tasks ≡ some t
    → f.rest ≡ []
    → HasStatus (attempt_ended now (executed cost) f s).0 f.mission_id completed
unfolding attempt_ended consume
attempt_ended-overrides_cancel now cost f s m t found same c task last =
    let m' = set_task f.task_id complete_task (record m { used_budget = m.used_budget + cost }) in
    let done : Mission = record m' { status = completed } in
    ground (arith, get-put_self (put s.missions m.id m') m.id done)

-- A mission that was cancelled during a task that is not its last stays CANCELLED: when the task
-- succeeds no further task is started, and the slot is given back.
pub attempt_ended-respects_cancel :
    (now cost next : ℕ) (more : List ℕ) (f : Frame) (s : GoalScheduler) (m : Mission)
    (t : MissionTask)
    → get s.missions f.mission_id ≡ some m
    → m.id ≡ f.mission_id
    → m.status ≡ cancelled
    → find_task f.task_id m.tasks ≡ some t
    → f.rest ≡ next ∷ more
    → HasStatus (attempt_ended now (executed cost) f s).0 f.mission_id cancelled
      × (member f.mission_id (attempt_ended now (executed cost) f s).0.running_missions ≡ false)
unfolding attempt_ended consume
attempt_ended-respects_cancel now cost next more f s m t found same c task last =
    let m' = set_task f.task_id complete_task (record m { used_budget = m.used_budget + cost }) in
    ground (arith, get-put_self s.missions m.id m', member-discard_self m.id s.running_missions)
