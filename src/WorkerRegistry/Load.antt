-- ===== src/WorkerRegistry/Load.antt =====
-- The load counts of core/mission/worker_registry.py against the waves that are in flight.
use jarvis.Prelude.{
  nat_eq, nat_beq_iff, ℕ, [], ◌∷◌, none, some, List, Option-cases, keep, ◌≡◌, ◌+◌, inl, arith,
  Option, ◌≤◌, inr, if◌then◌else◌, ◌==◌, ◌-◌, Bool, true, false, ◌≢◌,
}
use jarvis.Prelude.Dict.{get, put, get-put, get-put_self}
use jarvis.WorkerRegistry.{Worker, Routing, Tables}
use jarvis.WorkerRegistry.Tasks.{
  find_routing, in_flight, complete_row, mark_task_started, mark_task_completed,
}

-- No worker counts more tasks than it has waves in flight.
abbrev pub LoadFits : (worker : ℕ) → List Routing → Option Worker → Type 0
LoadFits worker log none = Unit
LoadFits worker log (some w) = w.active_tasks ≤ in_flight worker log

abbrev pub IsLoadSound : Tables → Type 0
IsLoadSound t = (worker : ℕ) → LoadFits worker t.routing_log (get t.workers worker)

in_flight-complete_row :
    (now wave worker other : ℕ) (log : List Routing) (r : Routing)
    → find_routing wave worker log ≡ some r
    → r.completed_at ≡ none
    → in_flight other log
      ≡ in_flight other (complete_row now wave worker log) + (if worker == other then 1 else 0)
unfolding in_flight complete_row find_routing keep
in_flight-complete_row now wave worker other [] r f o = cc
in_flight-complete_row now wave worker other (x ∷ log) r f o =
    ground (arith, in_flight-complete_row now wave worker other log r)

-- mark_task_started never counts more tasks for a worker than it has waves in flight.
pub mark_task_started-IsLoadSound :
    (worker wave : ℕ) (t : Tables) → IsLoadSound t → IsLoadSound (mark_task_started worker wave t).1
unfolding mark_task_started
mark_task_started-IsLoadSound worker wave t h k = elim (Option-cases (get t.workers worker)) [
  | inl missing ↦ ground (arith, h k)
  | inr (w, found) ↦ ground (
    arith,
    h k,
    h worker,
    nat_beq_iff worker k,
    get-put t.workers worker k (record w { active_tasks = w.active_tasks + 1 }),
  )
]

-- After mark_task_completed no worker counts more tasks than it has waves in flight, if that was so
-- before.
pub mark_task_completed-IsLoadSound :
    (now worker wave : ℕ) (t : Tables)
    → IsLoadSound t
    → IsLoadSound (mark_task_completed now worker wave t).1
unfolding mark_task_completed
mark_task_completed-IsLoadSound now worker wave t h k = elim (Option-cases (get t.workers worker)) [
  | inl missing ↦ ground (arith, h k)
  | inr (w, found) ↦ elim (Option-cases (find_routing wave worker t.routing_log)) [
    | inl absent ↦ ground (arith, h k)
    | inr (r, routed) ↦ ground (
      arith,
      h k,
      h worker,
      nat_beq_iff worker k,
      in_flight-complete_row now wave worker k t.routing_log r,
      get-put t.workers worker k (record w { active_tasks = w.active_tasks - 1 }),
    )
  ]
]

find_routing-complete_row :
    (now wave worker : ℕ) (log : List Routing) (r : Routing)
    → find_routing wave worker log ≡ some r
    → find_routing wave worker (complete_row now wave worker log)
      ≡ some (record r { completed_at = some now })
unfolding find_routing complete_row
find_routing-complete_row now wave worker [] r f = cc
find_routing-complete_row now wave worker (x ∷ log) r f =
    ground (arith, find_routing-complete_row now wave worker log r)

-- What a call with this row of the wave and this row of the worker answers and leaves.
abbrev pub Completes :
    (now worker wave : ℕ) → Option Routing → Option Worker → Tables → Bool × Tables → Type 0
Completes now worker wave none o t (answer, t') = (answer ≡ false) × (t' ≡ t)
Completes now worker wave (some r) none t (answer, t') = (answer ≡ false) × (t' ≡ t)
Completes now worker wave (some r) (some w) t (answer, t') =
    (answer ≡ true)
    × ((at : ℕ) → r.completed_at ≡ some at → t' ≡ t)
    × (r.completed_at ≡ none
        → (find_routing wave worker t'.routing_log ≡ some (record r { completed_at = some now }))
          × (get t'.workers worker ≡ some (record w { active_tasks = w.active_tasks - 1 }))
          × ((other : ℕ)
              → in_flight other t.routing_log
                ≡ in_flight other t'.routing_log + (if worker == other then 1 else 0))
          × ((other : ℕ) → other ≢ worker → get t'.workers other ≡ get t.workers other))

-- mark_task_completed is idempotent: a second call for the same wave and worker, at any later
-- instant, gives the same answer as the first and changes nothing.
pub mark_task_completed_idempotent :
    (now later worker wave : ℕ) (t : Tables)
    → let (answer, t') = mark_task_completed now worker wave t in
      mark_task_completed later worker wave t' ≡ (answer, t')
unfolding mark_task_completed
mark_task_completed_idempotent now later worker wave t =
    elim (Option-cases (get t.workers worker)) [
      | inl missing ↦ ground arith
      | inr (w, found) ↦ elim (Option-cases (find_routing wave worker t.routing_log)) [
        | inl absent ↦ ground arith
        | inr (r, routed) ↦ ground (
          arith,
          find_routing-complete_row now wave worker t.routing_log r,
          get-put_self t.workers worker (record w { active_tasks = w.active_tasks - 1 }),
        )
      ]
    ]

-- mark_task_started is not idempotent: while another two waves in flight are not yet counted, a
-- repeated call for one and the same wave counts it twice.
pub mark_task_started-twice :
    (worker wave : ℕ) (t : Tables) (w : Worker) (r : Routing)
    → get t.workers worker ≡ some w
    → find_routing wave worker t.routing_log ≡ some r
    → r.completed_at ≡ none
    → w.active_tasks + 2 ≤ in_flight worker t.routing_log
    → let twice = (mark_task_started worker wave (mark_task_started worker wave t).1).1 in
      get twice.workers worker ≡ some (record w { active_tasks = w.active_tasks + 2 })
unfolding mark_task_started
mark_task_started-twice worker wave t w r found routed live room =
    let once : Worker = record w { active_tasks = w.active_tasks + 1 } in
    ground (
      arith,
      get-put_self t.workers worker once,
      get-put_self (put t.workers worker once) worker
          (record w { active_tasks = w.active_tasks + 1 + 1 }),
    )
