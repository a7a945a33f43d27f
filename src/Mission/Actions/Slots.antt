-- ===== src/Mission/Actions/Slots.antt =====
-- The running missions of core/mission/mission_scheduler.py never pass the limit.
use jarvis.Prelude.{ℕ, nat_eq, List, refl, [], ◌∷◌, ◌≡◌, discard, add, length, ◌≤◌, ◌+◌, arith}
use jarvis.Mission.{Mission}
use jarvis.Mission.Scheduler.{
  schedule_mission, cancel_mission, pause_mission, resume_mission, GoalScheduler, Frame,
}
use jarvis.Mission.Execution.{
  Attempt, executed, simulated, raised, advance, run_next, attempt_ended, back_off_ended, abandoned,
  execute_mission,
}
use jarvis.Mission.Actions.{
  Action, schedule, cancel, pause, resume, next, ended, woken, killed, act, act_all,
}

length-discard : (k : ℕ) (ks : List ℕ) → length (discard k ks) ≤ length ks
unfolding discard
length-discard k [] = omega arith
length-discard k (j ∷ ks) = ground (arith, length-discard k ks)

length-add : (k : ℕ) (ks : List ℕ) → length (add k ks) ≤ length ks + 1
unfolding add
length-add k ks = ground arith

-- At most as many missions hold a slot as are allowed to run at once.
pub record IsWithin (limit : ℕ) (s : GoalScheduler) : Type 0 where
  pub same : s.config.max_concurrent_missions ≡ limit
  pub slots : length s.running_missions ≤ limit

-- The slots that are taken and the configuration, before and after.
abbrev Keeps : GoalScheduler → GoalScheduler → Type 0
Keeps s s' = (s'.config ≡ s.config) × (length s'.running_missions ≤ length s.running_missions)

-- `advance` gives slots back, and takes none.
advance-Keeps :
    (m : Mission) (rest : List ℕ) (done lost : ℕ) (s : GoalScheduler)
    → Keeps s (advance m rest done lost s).0
unfolding advance
advance-Keeps m [] done lost s = ground (arith, length-discard m.id s.running_missions)
advance-Keeps m (t ∷ rest) done lost s = ground (arith, length-discard m.id s.running_missions)

attempt_ended-Keeps :
    (now : ℕ) (a : Attempt) (f : Frame) (s : GoalScheduler) → Keeps s (attempt_ended now a f s).0
unfolding attempt_ended
attempt_ended-Keeps now (executed cost) f s = grind (arith, advance-Keeps)
attempt_ended-Keeps now simulated f s = grind (arith, advance-Keeps)
attempt_ended-Keeps now (raised error) f s = grind (arith, length-discard)

execute_mission-slots :
    (m : Mission) (s : GoalScheduler)
    → ((execute_mission m s).0.config ≡ s.config)
      × (length (execute_mission m s).0.running_missions ≤ length s.running_missions + 1)
unfolding execute_mission
execute_mission-slots m s = grind (arith, advance-Keeps, length-discard, length-add)

act-IsWithin :
    (limit : ℕ) (s : GoalScheduler) (a : Action) → IsWithin limit s → IsWithin limit (act s a)
unfolding act schedule_mission cancel_mission pause_mission resume_mission back_off_ended abandoned
    run_next
act-IsWithin limit s (ended now a f) w = ground (arith, attempt_ended-Keeps now a f s)
act-IsWithin limit s next w = grind (arith, execute_mission-slots)
act-IsWithin limit s (schedule now m) w = ground arith
act-IsWithin limit s (cancel k) w = ground (arith, length-discard k s.running_missions)
act-IsWithin limit s (pause k) w = ground arith
act-IsWithin limit s (resume now k) w = ground arith
act-IsWithin limit s (woken f) w = ground arith
act-IsWithin limit s (killed f) w = ground (arith, length-discard f.mission_id s.running_missions)

-- The concurrency limit: along all interleavings of calls, runs, ends of attempts, retries and
-- cancelled coroutines, no more missions hold a running slot than the configuration allows.
pub act_all-slots :
    (s : GoalScheduler) (actions : List Action)
    → length s.running_missions ≤ s.config.max_concurrent_missions
    → length (act_all s actions).running_missions ≤ s.config.max_concurrent_missions
unfolding act_all
act_all-slots s actions h = (go s actions (record { same = refl; slots = h })).slots
  where
    go :
        (t : GoalScheduler) (as' : List Action)
        → IsWithin s.config.max_concurrent_missions t
        → IsWithin s.config.max_concurrent_missions (act_all t as')
    go t [] w = w
    go t (a ∷ more) w = go (act t a) more (act-IsWithin s.config.max_concurrent_missions t a w)
