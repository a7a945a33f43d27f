-- ===== src/Mission/Actions/Frames.antt =====
-- What every mission in the registry of core/mission/mission_scheduler.py satisfies, along the steps of
-- a suspended coroutine.
use jarvis.Prelude.{
  ℕ, nat_eq, List, refl, [], ◌∷◌, none, some, String, nat_beq_iff, All, Option, ◌≤◌, ◌≡◌, arith,
  Bool-cases, ◌==◌, inl, inr, Option-cases, ◌+◌, subst,
}
use jarvis.Prelude.Dict.{Dict, get, put, get-put}
use jarvis.Mission.{
  Mission, MissionTask, Failure, text, completed, failed, should_retry_task, prepare_task_retry,
  prepare_retry, reset_failed, consume,
}
use jarvis.Mission.Scheduler.{GoalScheduler, Frame, store}
use jarvis.Mission.Execution.{
  Attempt, executed, simulated, raised, advance, attempt_ended, back_off_ended, find_task,
  update_task, set_task, start_task, fail_task, complete_task, retry_task, task_ended, task_lost,
  task_succeeded,
}

-- The task has not been retried more often than it allows.
abbrev pub IsBounded : MissionTask → Type 0
IsBounded t = t.retries ≤ t.max_retries

-- A mission stands under its own id, and its tasks keep to their retries.
abbrev pub IsEntry : ℕ → Option Mission → Type 0
IsEntry k none = Unit
IsEntry k (some m) = (m.id ≡ k) × All IsBounded m.tasks

abbrev pub IsSound : GoalScheduler → Type 0
IsSound s = (k : ℕ) → IsEntry k (get s.missions k)

pub put-IsSound :
    (d : Dict ℕ Mission) (k : ℕ) (m : Mission)
    → ((j : ℕ) → IsEntry j (get d j))
    → IsEntry k (some m)
    → (j : ℕ) → IsEntry j (get (put d k m) j)
put-IsSound d k m h e j = ground (arith, get-put d k j m, nat_beq_iff k j, h j)

All-update_task :
    (k : ℕ) (f : MissionTask → MissionTask) (ts : List MissionTask)
    → All IsBounded ts
    → ((t : MissionTask) → find_task k ts ≡ some t → IsBounded t → IsBounded (f t))
    → All IsBounded (update_task k f ts)
unfolding update_task find_task
All-update_task k f [] h g = tt
All-update_task k f (t ∷ ts) h g = elim (Bool-cases (t.id == k)) [
  | inl e ↦ rw e (g t (rw e) h.0, h.1)
  | inr e ↦ rw e (h.0, All-update_task k f ts h.1 (λ u p. g u (rw e p)))
]

All-reset_failed : (ts : List MissionTask) → All IsBounded ts → All IsBounded (reset_failed ts)
All-reset_failed [] h = tt
All-reset_failed (t ∷ ts) h = ground (arith, All-reset_failed ts h.1)

pub advance-IsSound :
    (m : Mission) (rest : List ℕ) (done lost : ℕ) (s : GoalScheduler)
    → IsSound s
    → IsEntry m.id (some m)
    → IsSound (advance m rest done lost s).0
unfolding advance
advance-IsSound m [] done lost s h e k =
    put-IsSound s.missions m.id (record m { status = completed }) h e k
advance-IsSound m (t ∷ rest) done lost s h e k =
    let dead : Mission = record m { status = failed; error = some Failure.budget_exhausted } in
    let started = set_task t start_task m in
    ground (
      arith,
      h k,
      put-IsSound s.missions m.id dead h e k,
      put-IsSound s.missions m.id started h
          (refl, All-update_task t start_task m.tasks e.1 (λ u p b. b)) k,
    )

task_succeeded-IsSound :
    (cost : ℕ) (f : Frame) (m : Mission) (s : GoalScheduler)
    → IsSound s
    → IsEntry m.id (some m)
    → IsSound (task_succeeded cost f m s).0
unfolding task_succeeded consume
task_succeeded-IsSound cost f m s h e =
    let paid : Mission = record m { used_budget = m.used_budget + cost } in
    let m' = set_task f.task_id complete_task paid in
    let e' : IsEntry m.id (some m') =
      (refl, All-update_task f.task_id complete_task m.tasks e.1 (λ u p b. b)) in
    advance-IsSound m' f.rest (f.tasks_completed + 1) f.tasks_failed (store m' s)
      (put-IsSound s.missions m.id m' h e') e'

task_lost-IsSound :
    (now : ℕ) (error : String) (f : Frame) (m : Mission) (s : GoalScheduler)
    → IsSound s
    → IsEntry m.id (some m)
    → IsSound (task_lost now error f m s).0
unfolding task_lost prepare_retry
task_lost-IsSound now error f m s h e k =
    let lost = set_task f.task_id (fail_task error) m in
    let dead : Mission = record lost { status = failed; error = some (text error) } in
    let kept = All-update_task f.task_id (fail_task error) m.tasks e.1 (λ u p b. b) in
    ground (
      arith,
      h k,
      put-IsSound s.missions m.id dead h (refl, kept) k,
      put-IsSound s.missions m.id (prepare_retry lost) h
          (refl, All-reset_failed (update_task f.task_id (fail_task error) m.tasks) kept) k,
    )

task_ended-IsSound :
    (now : ℕ) (a : Attempt) (f : Frame) (m : Mission) (s : GoalScheduler)
    → IsSound s
    → IsEntry m.id (some m)
    → IsSound (task_ended now a f m (find_task f.task_id m.tasks) s).0
unfolding task_ended
task_ended-IsSound now a f m s h e = elim (Option-cases (find_task f.task_id m.tasks)) [
  | inl missing ↦ rw missing h
  | inr (t, found) ↦ rw found (go a t found)
]
  where
    go :
        (a' : Attempt) (t : MissionTask)
        → find_task f.task_id m.tasks ≡ some t
        → IsSound (task_ended now a' f m (some t) s).0
    go (executed cost) t found = task_succeeded-IsSound cost f m s h e
    go simulated t found = task_succeeded-IsSound _ f m s h e
    go (raised error) t found = elim (Bool-cases (should_retry_task t)) [
      | inl retry ↦ rw retry (
          put-IsSound s.missions m.id (set_task f.task_id (retry_task error) m) h (
            refl,
            All-update_task f.task_id (retry_task error) m.tasks e.1 (λ u p b.
                unfold should_retry_task prepare_task_retry in ground (arith, retry, found)),
          ))
      | inr done ↦ rw done (task_lost-IsSound now error f m s h e)
    ]

pub found-IsEntry :
    (s : GoalScheduler) (k : ℕ) (m : Mission)
    → IsSound s
    → get s.missions k ≡ some m
    → IsEntry m.id (some m)
found-IsEntry s k m h found = (refl, (subst (IsEntry k) found (h k)).1)

pub attempt_ended-IsSound :
    (now : ℕ) (a : Attempt) (f : Frame) (s : GoalScheduler)
    → IsSound s
    → IsSound (attempt_ended now a f s).0
unfolding attempt_ended
attempt_ended-IsSound now a f s h = elim (Option-cases (get s.missions f.mission_id)) [
  | inl missing ↦ rw (missing, attempt_ended) h
  | inr (m, found) ↦
      rw (found, attempt_ended)
        (task_ended-IsSound now a f m s h (found-IsEntry s f.mission_id m h found))
]

pub back_off_ended-IsSound :
    (f : Frame) (s : GoalScheduler) → IsSound s → IsSound (back_off_ended f s).0
unfolding back_off_ended
back_off_ended-IsSound f s h = elim (Option-cases (get s.missions f.mission_id)) [
  | inl missing ↦ rw (missing, back_off_ended) h
  | inr (m, found) ↦
      rw (found, back_off_ended)
        (put-IsSound s.missions m.id (set_task f.task_id start_task m) h (
          refl,
          All-update_task f.task_id start_task m.tasks (found-IsEntry s f.mission_id m h found).1
              (λ u p b. b),
        ))
]
