-- ===== src/Router/History.antt =====
-- The log of core/mission/distributed_router.py along any calls, of the router and the registry.
use jarvis.Prelude.{
  nat_eq, ℕ, ◌⊎◌, Option, List, [], ◌∷◌, ◌≡◌, sym, subst, arith, All, inl, inr, Result, ok, raise,
  ◌<◌,
}
use jarvis.Envelope.{Codec}
use jarvis.Transport.{Transport}
use jarvis.WorkerRegistry.{Worker, Routing, Tables, heartbeat, mark_offline}
use jarvis.WorkerRegistry.Tasks.{mark_task_started, mark_task_completed, complete_row}
use jarvis.Router.{
  RouterError, no_eligible_worker, remote_transport_not_implemented, registry_error,
  transport_error, envelope_error, Request, RoutingDecision, Router, Cluster, Draws,
}
use jarvis.Router.Routes.{route}
use jarvis.Router.Marks.{mark_routing_complete, retire}
use jarvis.Router.Log.{
  IsUnique, Extends, Extends-refl, Extends-trans, Stamped-Extends, IsUnique-Stamped, retire-Stamped,
  complete_row-Stamped, Stamped,
}
use jarvis.Router.Outcomes.{Outcome, active_in, route-Outcome}

-- A call of the router of some leader, or of the registry.
pub data Action : Type 0 where
  routing : Router → Draws → Request → Action
  retiring : (now route_id : ℕ) → Action
  starting : (worker_id wave_run_id : ℕ) → Action
  completing : (now worker_id wave_run_id : ℕ) → Action
  beating : (now worker_id : ℕ) → Option ℕ → Action
  leaving : (worker_id : ℕ) → Action

module _ (c : Codec) where
  unfoldable pub act : Action → Cluster → Cluster
  act (routing router r req) k = (route c router r req k).1
  act (retiring now route_id) k = record k {
    tables = (mark_routing_complete now route_id k.tables).1;
  }
  act (starting worker wave) k = record k { tables = (mark_task_started worker wave k.tables).1 }
  act (completing now worker wave) k = record k {
    tables = (mark_task_completed now worker wave k.tables).1;
  }
  act (beating now worker tasks) k = record k { tables = (heartbeat now worker tasks k.tables).1 }
  act (leaving worker) k = record k { tables = (mark_offline worker k.tables).1 }

  unfoldable pub act_all : List Action → Cluster → Cluster
  unfolding act
  act_all [] k = k
  act_all (a ∷ rest) k = act_all rest (act a k)

-- The registry's grace period is positive.
abbrev pub IsTimed : Action → Type 0
IsTimed (routing router r req) = 0 < router.heartbeat_grace
IsTimed _ = Unit

abbrev pub Grown : List Routing → List Routing → Type 0
Grown log log' = IsUnique log' × Extends log log'

Outcome-Grown :
    (router : Router) (r : Draws) (req : Request) (active : List Worker) (wired : Option Transport)
    (log : List Routing) (answer : Result RouterError RoutingDecision) (log' : List Routing)
    → IsUnique log
    → Outcome router r req active wired log answer log'
    → Grown log log'
Outcome-Grown router r req active wired log (ok d) log' u h = (h.3, h.4)
Outcome-Grown router r req active wired log (raise no_eligible_worker) log' u h =
    subst (Grown log) (sym h.2) (u, Extends-refl log)
Outcome-Grown router r req active wired log (raise remote_transport_not_implemented) log' u h =
    (h.2, h.3)
Outcome-Grown router r req active wired log (raise (registry_error e)) log' u h = absurd h
Outcome-Grown router r req active wired log (raise (transport_error e)) log' u h =
    subst (Grown log) (sym h.1) (u, Extends-refl log)
Outcome-Grown router r req active wired log (raise (envelope_error e)) log' u h = absurd h

same-Grown : (log log' : List Routing) → IsUnique log → log' ≡ log → Grown log log'
same-Grown log log' u e = subst (Grown log) (sym e) (u, Extends-refl log)

mark_task_started-log :
    (worker wave : ℕ) (t : Tables) → (mark_task_started worker wave t).1.routing_log ≡ t.routing_log
unfolding mark_task_started
mark_task_started-log worker wave t = ground arith

heartbeat-log :
    (now worker : ℕ) (tasks : Option ℕ) (t : Tables)
    → (heartbeat now worker tasks t).1.routing_log ≡ t.routing_log
unfolding heartbeat
heartbeat-log now worker tasks t = ground arith

mark_offline-log : (worker : ℕ) (t : Tables) → (mark_offline worker t).1.routing_log ≡ t.routing_log
unfolding mark_offline
mark_offline-log worker t = ground arith

mark_task_completed-log :
    (now worker wave : ℕ) (t : Tables)
    → ((mark_task_completed now worker wave t).1.routing_log ≡ t.routing_log)
      ⊎ ((mark_task_completed now worker wave t).1.routing_log
          ≡ complete_row now wave worker t.routing_log)
unfolding mark_task_completed
mark_task_completed-log now worker wave t = ground arith

Stamped-Grown : (log log' : List Routing) → Stamped log log' → IsUnique log → Grown log log'
Stamped-Grown log log' h u = (IsUnique-Stamped log log' h u, Stamped-Extends log log' h)

mark_task_completed-Grown :
    (now worker wave : ℕ) (t : Tables)
    → IsUnique t.routing_log
    → Grown t.routing_log (mark_task_completed now worker wave t).1.routing_log
mark_task_completed-Grown now worker wave t u = elim (mark_task_completed-log now worker wave t) [
  | inl e ↦ same-Grown t.routing_log (mark_task_completed now worker wave t).1.routing_log u e
  | inr e ↦ subst (Grown t.routing_log) (sym e) (
      Stamped-Grown t.routing_log (complete_row now wave worker t.routing_log)
        (complete_row-Stamped now wave worker t.routing_log) u)
]

act-Grown :
    (c : Codec) (a : Action) (k : Cluster)
    → IsTimed a
    → IsUnique k.tables.routing_log
    → Grown k.tables.routing_log (act c a k).tables.routing_log
unfolding act mark_routing_complete
act-Grown c (routing router r req) k pos u =
    Outcome-Grown router r req (active_in router r k.tables) k.transport k.tables.routing_log
      (route c router r req k).0 (route c router r req k).1.tables.routing_log u
      (route-Outcome c router r req k pos u)
act-Grown c (retiring now route_id) k pos u =
    Stamped-Grown k.tables.routing_log (retire now route_id k.tables.routing_log).1
      (retire-Stamped now route_id k.tables.routing_log) u
act-Grown c (starting worker wave) k pos u =
    same-Grown k.tables.routing_log (mark_task_started worker wave k.tables).1.routing_log u
      (mark_task_started-log worker wave k.tables)
act-Grown c (completing now worker wave) k pos u =
    mark_task_completed-Grown now worker wave k.tables u
act-Grown c (beating now worker tasks) k pos u =
    same-Grown k.tables.routing_log (heartbeat now worker tasks k.tables).1.routing_log u
      (heartbeat-log now worker tasks k.tables)
act-Grown c (leaving worker) k pos u =
    same-Grown k.tables.routing_log (mark_offline worker k.tables).1.routing_log u
      (mark_offline-log worker k.tables)

-- The log is an append-only audit with one row for each wave and worker: along any calls of route,
-- mark_routing_complete, mark_task_started, mark_task_completed, heartbeat and mark_offline, by any
-- routers with a positive grace period, it begins with the decisions that were in it, each with its
-- id, wave, worker, reason and instant, and no wave and worker get a second row.
pub act_all-Grown :
    (c : Codec) (actions : List Action) (k : Cluster)
    → All IsTimed actions
    → IsUnique k.tables.routing_log
    → IsUnique (act_all c actions k).tables.routing_log
      × Extends k.tables.routing_log (act_all c actions k).tables.routing_log
unfolding act_all
act_all-Grown c [] k h u = (u, Extends-refl k.tables.routing_log)
act_all-Grown c (a ∷ rest) k h u =
    let (u', ext) = act-Grown c a k h.0 u in
    let (u'', ext') = act_all-Grown c rest (act c a k) h.1 u' in
    (
      u'',
      Extends-trans k.tables.routing_log (act c a k).tables.routing_log
          (act_all c (a ∷ rest) k).tables.routing_log ext ext',
    )
