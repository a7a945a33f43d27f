-- ===== src/TaskScheduler/Served.antt =====
-- What the task queue of core/runtime/scheduler.py serves, along any calls.
use jarvis.Prelude.{
  List, [], ◌∷◌, ◌++◌, none, some, true, false, All, arith, ◌≡◌, refl, append_assoc, append-nil,
  sym, subst,
}
use jarvis.Prelude.Sort.{sort-perm, sort-IsSorted, IsSorted}
use mathlib.Core.List.Perm
use mathlib.Core.List.{Perm}
use jarvis.TaskScheduler.{
  ScheduledTask, SchedulerStrategy, fifo, priority_first, deadline_first, round_robin, cost_aware,
  runs_before, schedule, TaskScheduler, set_strategy, add_task, get_next_task, next_of,
}

pub data Operation : Type 0 where
  set : SchedulerStrategy → Operation
  submit : ScheduledTask → Operation
  take : Operation

-- The tasks that get_next_task returns, in order, and the scheduler after all operations.
unfoldable pub run : TaskScheduler → List Operation → List ScheduledTask × TaskScheduler
run s [] = ([], s)
run s (set strategy ∷ ops) = run (set_strategy strategy s) ops
run s (submit t ∷ ops) = run (add_task t s) ops
run s (take ∷ ops) =
    let (served, s') = get_next_task s in
    let rest = run s' ops in elim served [ none ↦ rest | some t ↦ (t ∷ rest.0, rest.1) ]

unfoldable pub submitted : List Operation → List ScheduledTask
submitted [] = []
submitted (set strategy ∷ ops) = submitted ops
submitted (submit t ∷ ops) = t ∷ submitted ops
submitted (take ∷ ops) = submitted ops

-- No task of the queue stands behind one that the strategy puts after it.
abbrev pub IsInOrder : TaskScheduler → Type 0
IsInOrder s = IsSorted (runs_before s.strategy) s.queue

runs_before_total :
    (g : SchedulerStrategy) (a b : ScheduledTask)
    → runs_before g a b ≡ false
    → runs_before g b a ≡ true
runs_before_total fifo a b h = ground (arith, h)
runs_before_total priority_first a b h = ground (arith, h)
runs_before_total deadline_first a b h = ground (arith, h)
runs_before_total round_robin a b h = refl
runs_before_total cost_aware a b h = ground (arith, h)

runs_before_trans :
    (g : SchedulerStrategy) (a b c : ScheduledTask)
    → runs_before g a b ≡ true
    → runs_before g b c ≡ true
    → runs_before g a c ≡ true
runs_before_trans fifo a b c h k = ground (arith, h, k)
runs_before_trans priority_first a b c h k = ground (arith, h, k)
runs_before_trans deadline_first a b c h k = ground (arith, h, k)
runs_before_trans round_robin a b c h k = refl
runs_before_trans cost_aware a b c h k = ground (arith, h, k)

all_true : (ts : List ScheduledTask) → All (λ y. true ≡ true) ts
all_true [] = tt
all_true (t ∷ ts) = (refl, all_true ts)

unsorted : (ts : List ScheduledTask) → IsSorted (λ a b. true) ts
unsorted [] = tt
unsorted (t ∷ ts) = (all_true ts, unsorted ts)

schedule-IsSorted :
    (g : SchedulerStrategy) (ts : List ScheduledTask) → IsSorted (runs_before g) (schedule g ts)
unfolding schedule
schedule-IsSorted fifo ts =
    sort-IsSorted (runs_before fifo) (runs_before_total fifo) (runs_before_trans fifo) ts
schedule-IsSorted priority_first ts =
    sort-IsSorted (runs_before priority_first) (runs_before_total priority_first)
      (runs_before_trans priority_first) ts
schedule-IsSorted deadline_first ts =
    sort-IsSorted (runs_before deadline_first) (runs_before_total deadline_first)
      (runs_before_trans deadline_first) ts
schedule-IsSorted round_robin ts = unsorted ts
schedule-IsSorted cost_aware ts =
    sort-IsSorted (runs_before cost_aware) (runs_before_total cost_aware)
      (runs_before_trans cost_aware) ts

schedule-perm : (g : SchedulerStrategy) (ts : List ScheduledTask) → Perm (schedule g ts) ts
unfolding schedule
schedule-perm fifo ts = sort-perm (runs_before fifo) ts
schedule-perm priority_first ts = sort-perm (runs_before priority_first) ts
schedule-perm deadline_first ts = sort-perm (runs_before deadline_first) ts
schedule-perm round_robin ts = Perm.refl _
schedule-perm cost_aware ts = sort-perm (runs_before cost_aware) ts

abbrev Serves : TaskScheduler → List Operation → Type 0
Serves s ops =
    IsInOrder (run s ops).1 × Perm ((run s ops).0 ++ (run s ops).1.queue) (s.queue ++ submitted ops)

run-Serves :
    (g : SchedulerStrategy) (q : List ScheduledTask) (ops : List Operation)
    → IsSorted (runs_before g) q
    → Serves (record { strategy = g; queue = q }) ops
unfolding run submitted set_strategy add_task get_next_task next_of
run-Serves g q [] h = (h, subst (Perm q) (sym (append-nil q)) (Perm.refl _))
run-Serves g q (set g' ∷ ops) h =
    let (order, perm) = run-Serves g' (schedule g' q) ops (schedule-IsSorted g' q) in
    (order, Perm.trans perm (Perm.append_right (submitted ops) (schedule-perm g' q)))
run-Serves g q (submit t ∷ ops) h =
    let q' = q ++ t ∷ [] in
    let (order, perm) = run-Serves g (schedule g q') ops (schedule-IsSorted g q') in
    (
      order,
      Perm.trans perm (
          subst (Perm (schedule g q' ++ submitted ops)) (append_assoc q (t ∷ []) (submitted ops))
            (Perm.append_right (submitted ops) (schedule-perm g q'))),
    )
run-Serves g [] (take ∷ ops) h = run-Serves g [] ops h
run-Serves g (t ∷ q) (take ∷ ops) h =
    let (order, perm) = run-Serves g q ops h.1 in (order, Perm.cons t perm)

-- Along any calls of set_strategy, add_task and get_next_task, from a queue in order: the queue stays
-- in the order of its present strategy, and no task is lost, invented or served twice, since the
-- tasks that were served and those in the queue are, up to order, those that were in it and those
-- that were submitted.
pub run-IsInOrder :
    (s : TaskScheduler) (ops : List Operation)
    → IsInOrder s
    → IsInOrder (run s ops).1
      × Perm ((run s ops).0 ++ (run s ops).1.queue) (s.queue ++ submitted ops)
run-IsInOrder s ops h = run-Serves s.strategy s.queue ops h
