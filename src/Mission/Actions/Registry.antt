-- ===== src/Mission/Actions/Registry.antt =====
-- What every mission in the registry of core/mission/mission_scheduler.py satisfies, whatever happens.
use jarvis.Prelude.{
  ℕ, nat_eq, List, refl, [], ◌∷◌, none, some, All, Option, ◌≡◌, arith, Bool-cases, inl, inr,
  Option-cases, subst,
}
use jarvis.Prelude.Dict.{get, put}
use jarvis.Mission.{
  Mission, MissionStatus, Failure, queued, running, paused, failed, cancelled, is_status,
}
use jarvis.Mission.Scheduler.{
  GoalScheduler, schedule_mission, cancel_mission, pause_mission, resume_mission,
}
use jarvis.Mission.Execution.{run_next, abandoned, execute_mission, run_item, begin_tasks, flat}
use jarvis.Mission.Resolver.{Resolved, waves, cycle, out_of_fuel, resolve}
use jarvis.Mission.Queue.{QueueItem, dequeue}
use jarvis.Mission.Actions.{
  Action, schedule, cancel, pause, resume, next, ended, woken, killed, act, act_all,
}
use jarvis.Mission.Actions.Frames.{
  IsBounded, IsEntry, IsSound, put-IsSound, advance-IsSound, found-IsEntry, attempt_ended-IsSound,
  back_off_ended-IsSound,
}

begin_tasks-IsSound :
    (r : Resolved) (m : Mission) (s : GoalScheduler)
    → IsSound s
    → IsEntry m.id (some m)
    → IsSound (begin_tasks m s r).0
unfolding begin_tasks
begin_tasks-IsSound (waves ws) m s h e = advance-IsSound m (flat ws) 0 0 s h e
begin_tasks-IsSound (cycle ids) m s h e =
    put-IsSound s.missions m.id
      (record m { status = failed; error = some (Failure.dependency_cycle ids) }) h e
begin_tasks-IsSound out_of_fuel m s h e = h

execute_mission-IsSound :
    (m : Mission) (s : GoalScheduler)
    → IsSound s
    → IsEntry m.id (some m)
    → IsSound (execute_mission m s).0
unfolding execute_mission
execute_mission-IsSound m s h e =
    begin_tasks-IsSound (resolve m.tasks) (record m { status = running }) _
      (put-IsSound s.missions m.id (record m { status = running }) h e) e

run_item-IsSound :
    (item : Option QueueItem) (s : GoalScheduler) → IsSound s → IsSound (run_item item s).0
unfolding run_item
run_item-IsSound none s h = h
run_item-IsSound (some item) s h = elim (Option-cases (get s.missions item.mission_id)) [
  | inl missing ↦ rw (missing, run_item) h
  | inr (m, found) ↦ elim (Bool-cases (is_status m.status cancelled)) [
    | inl stop ↦ rw (found, run_item, stop) h
    | inr go ↦
        rw (found, run_item, go)
          (execute_mission-IsSound m s h (found-IsEntry s item.mission_id m h found))
  ]
]

-- Only the status of a mission is written.
set_status-IsSound :
    (s : GoalScheduler) (k : ℕ) (m : Mission) (status : MissionStatus)
    → IsSound s
    → get s.missions k ≡ some m
    → (j : ℕ) → IsEntry j (get (put s.missions k (record m { status = status })) j)
set_status-IsSound s k m status h found =
    put-IsSound s.missions k (record m { status = status }) h (subst (IsEntry k) found (h k))

-- A mission that is submitted has not used up more retries than its tasks allow.
abbrev pub IsAdmissible : Action → Type 0
IsAdmissible (schedule now m) = All IsBounded m.tasks
IsAdmissible _ = Unit

act-IsSound : (s : GoalScheduler) (a : Action) → IsAdmissible a → IsSound s → IsSound (act s a)
unfolding act schedule_mission cancel_mission pause_mission resume_mission abandoned run_next
act-IsSound s (schedule now m) p h j =
    put-IsSound s.missions m.id (record m { status = queued }) h (refl, p) j
act-IsSound s (cancel k) p h j = elim (Option-cases (get s.missions k)) [
  | inl missing ↦ ground (arith, h j)
  | inr (m, found) ↦ ground (arith, h j, set_status-IsSound s k m cancelled h found j)
]
act-IsSound s (pause k) p h j = elim (Option-cases (get s.missions k)) [
  | inl missing ↦ ground (arith, h j)
  | inr (m, found) ↦ ground (arith, h j, set_status-IsSound s k m paused h found j)
]
act-IsSound s (resume now k) p h j = elim (Option-cases (get s.missions k)) [
  | inl missing ↦ ground (arith, h j)
  | inr (m, found) ↦ ground (arith, h j, set_status-IsSound s k m queued h found j)
]
act-IsSound s next p h j = ground (
  arith,
  h j,
  run_item-IsSound (dequeue s.queue).0 (record s { queue = (dequeue s.queue).1 }) h j,
)
act-IsSound s (ended now a f) p h j = attempt_ended-IsSound now a f s h j
act-IsSound s (woken f) p h j = back_off_ended-IsSound f s h j
act-IsSound s (killed f) p h j = h j

-- The retry bound and the keys of the registry: along all interleavings of calls, runs, ends of
-- attempts, back-offs and cancelled coroutines, every mission stands in the registry under its own
-- id, and none of its tasks has been retried more often than its max_retries, if that holds at the
-- start and of the missions that are submitted.
pub act_all-IsSound :
    (s : GoalScheduler) (actions : List Action)
    → All IsAdmissible actions
    → IsSound s
    → IsSound (act_all s actions)
unfolding act_all
act_all-IsSound s [] p h = h
act_all-IsSound s (a ∷ more) p h = act_all-IsSound (act s a) more p.1 (act-IsSound s a p.0 h)
