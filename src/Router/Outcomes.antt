-- ===== src/Router/Outcomes.antt =====
-- All answers of `route` of core/mission/distributed_router.py.
use jarvis.Prelude.{
  nat_eq, ℕ, String, Bool, true, false, Option, none, some, List, ◌≡◌, refl, sym, subst, All, keep,
  Result, ok, raise, ◌<◌,
}
use jarvis.Prelude.Sort.{sort}
use jarvis.Envelope.{Codec, make_envelope}
use jarvis.Transport.{Transport, TransportError}
use jarvis.WorkerRegistry.{Worker, Routing, Tables, rows, is_active, sweep}
use jarvis.WorkerRegistry.Liveness.{later_first, list_active_lem}
use jarvis.Router.{
  RouterError, no_eligible_worker, remote_transport_not_implemented, registry_error,
  transport_error, envelope_error, Request, RoutingDecision, Router, Cluster, Draws, decide,
  nowhere, route_nowhere, reason_no_eligible_worker, reason_routed_local, reason_routed_remote,
  reason_remote_preferred_not_implemented,
}
use jarvis.Router.Routes.{
  local_to, choose, local_from, route_local, sent_to, is_remote, envelope_for, send_to, remote_to,
  remote_from, route_remote, route_by, route,
}
use jarvis.Router.Log.{IsUnique, Extends}
use jarvis.Router.Routed.{HasRow, insert_routing-Inserted, Picked, Suits, choose-Picked}

abbrev pub worker_id_of : Draws → Option Worker → ℕ
worker_id_of r none = r.nobody
worker_id_of r (some w) = w.worker_id

abbrev pub MayGo : Request → Option Worker → Type 0
MayGo req none = req.allow_no_worker ≡ true
MayGo req (some w) = Unit

-- What an answer means, by the active workers, the transport and the log before and after.
abbrev pub Outcome :
    Router
    → Draws
    → Request
    → (active : List Worker) → Option Transport
    → (log : List Routing) → Result RouterError RoutingDecision
    → (log' : List Routing) → Type 0
Outcome router r req active wired log (ok d) log' =
    Picked router req active d.worker
    × MayGo req d.worker
    × (d.wave_run_id ≡ req.wave_run_id)
    × IsUnique log'
    × Extends log log'
    × HasRow req.wave_run_id (worker_id_of r d.worker) d.route_id d.routed_at log'
Outcome router r req active wired log (raise no_eligible_worker) log' =
    (req.allow_no_worker ≡ false) × All (λ w. ¬ (Suits req w)) active × (log' ≡ log)
Outcome router r req active wired log (raise remote_transport_not_implemented) log' =
    (is_remote req.policy ≡ true) × (wired ≡ none) × IsUnique log' × Extends log log'
Outcome router r req active wired log (raise (registry_error e)) log' = ⊥
Outcome router r req active wired log (raise (transport_error e)) log' =
    (is_remote req.policy ≡ true) × (log' ≡ log)
Outcome router r req active wired log (raise (envelope_error e)) log' = ⊥

module _ (router : Router) (r : Draws) (req : Request) (active : List Worker)
    (wired : Option Transport) where
  nowhere-Outcome :
      (b : Bool) (t : Tables)
      → req.allow_no_worker ≡ b
      → IsUnique t.routing_log
      → Picked router req active none
      → Outcome router r req active wired t.routing_log
          (nowhere b r req t).0
          (nowhere b r req t).1.routing_log
  unfolding nowhere decide
  nowhere-Outcome true t allowed u none_fits =
      let (u', ext, row) =
        insert_routing-Inserted r req.wave_run_id r.nobody reason_no_eligible_worker t u in
      (none_fits, allowed, refl, u', ext, row)
  nowhere-Outcome false t refused u none_fits = (refused, none_fits, refl)

  route_nowhere-Outcome :
      (t : Tables)
      → IsUnique t.routing_log
      → Picked router req active none
      → Outcome router r req active wired t.routing_log
          (route_nowhere r req t).0
          (route_nowhere r req t).1.routing_log
  unfolding route_nowhere
  route_nowhere-Outcome t u none_fits = nowhere-Outcome req.allow_no_worker t refl u none_fits

  decide-Outcome :
      (t : Tables) (w : Worker) (reason : String)
      → IsUnique t.routing_log
      → Picked router req active (some w)
      → Outcome router r req active wired t.routing_log
          (ok (decide r req w.worker_id (some w) reason t).0)
          (decide r req w.worker_id (some w) reason t).1.routing_log
  unfolding decide
  decide-Outcome t w reason u picked =
      let (u', ext, row) = insert_routing-Inserted r req.wave_run_id w.worker_id reason t u in
      (picked, tt, refl, u', ext, row)

  local_to-Outcome :
      (o : Option Worker) (t : Tables)
      → IsUnique t.routing_log
      → Picked router req active o
      → Outcome router r req active wired t.routing_log
          (local_to r req o t).0
          (local_to r req o t).1.routing_log
  unfolding local_to
  local_to-Outcome none t u picked = route_nowhere-Outcome t u picked
  local_to-Outcome (some w) t u picked = decide-Outcome t w reason_routed_local u picked

  local_from-Outcome :
      (t t' : Tables)
      → t'.routing_log ≡ t.routing_log
      → IsUnique t.routing_log
      → Outcome router r req active wired t.routing_log
          (local_from router r req (ok (sort later_first active)) t').0
          (local_from router r req (ok (sort later_first active)) t').1.routing_log
  unfolding local_from
  local_from-Outcome t t' same u =
      let o = choose router req (sort later_first active) in
      subst
        (λ log.
          Outcome router r req active wired log (local_to r req o t').0
            (local_to r req o t').1.routing_log)
        same
        (local_to-Outcome o t' (subst IsUnique (sym same) u)
          (choose-Picked router req active o refl))

  sent_to-Outcome :
      (w : Worker) (answer : Result TransportError (Unit {0}) × Transport) (t : Tables)
      → is_remote req.policy ≡ true
      → IsUnique t.routing_log
      → Picked router req active (some w)
      → Outcome router r req active wired t.routing_log
          (sent_to r req w answer t).0
          (sent_to r req w answer t).1.tables.routing_log
  unfolding sent_to
  sent_to-Outcome w (raise e, s) t remote u picked = (remote, refl)
  sent_to-Outcome w (ok _, s) t remote u picked = decide-Outcome t w reason_routed_remote u picked

  module _ (c : Codec) (s : Transport) where
    send_to-Outcome :
        (w : Worker) (t : Tables)
        → is_remote req.policy ≡ true
        → IsUnique t.routing_log
        → Picked router req active (some w)
        → Outcome router r req active wired t.routing_log
            (send_to c r req w (envelope_for c r req w.worker_id) s t).0
            (send_to c r req w (envelope_for c r req w.worker_id) s t).1.tables.routing_log
    unfolding send_to envelope_for make_envelope
    send_to-Outcome w t remote u picked = sent_to-Outcome w _ t remote u picked

    remote_to-Outcome :
        (o : Option Worker) (t : Tables)
        → is_remote req.policy ≡ true
        → IsUnique t.routing_log
        → Picked router req active o
        → Outcome router r req active wired t.routing_log
            (remote_to c r req o s t).0
            (remote_to c r req o s t).1.tables.routing_log
    unfolding remote_to
    remote_to-Outcome none t remote u picked = route_nowhere-Outcome t u picked
    remote_to-Outcome (some w) t remote u picked = send_to-Outcome w t remote u picked

abbrev pub active_in : Router → Draws → Tables → List Worker
active_in router r t = keep (is_active r.listed_at router.heartbeat_grace) (rows t.workers)

module _ (c : Codec) (router : Router) (r : Draws) (req : Request)
    (pos : 0 < router.heartbeat_grace) where
  route_local-Outcome :
      (wired : Option Transport) (t : Tables)
      → IsUnique t.routing_log
      → Outcome router r req
          (active_in router r t)
          wired
          t.routing_log
          (route_local router r req t).0
          (route_local router r req t).1.routing_log
  unfolding route_local
  route_local-Outcome wired t u = rw (list_active_lem r.listed_at router.heartbeat_grace t pos) (
      local_from-Outcome router r req (active_in router r t) wired t
        (record t { workers = sweep r.listed_at router.heartbeat_grace t.workers }) refl u)

  route_remote-Outcome :
      (wired : Option Transport) (t : Tables)
      → is_remote req.policy ≡ true
      → IsUnique t.routing_log
      → Outcome router r req
          (active_in router r t)
          wired
          t.routing_log
          (route_remote c router r req wired t).0
          (route_remote c router r req wired t).1.tables.routing_log
  unfolding route_remote remote_from
  route_remote-Outcome none t remote u =
      let (u', ext, row) =
        insert_routing-Inserted r req.wave_run_id r.nobody reason_remote_preferred_not_implemented t
          u in
      (remote, refl, u', ext)
  route_remote-Outcome (some s) t remote u =
      let active = active_in router r t in
      let o = choose router req (sort later_first active) in
      let swept = record t { workers = sweep r.listed_at router.heartbeat_grace t.workers } in
      rw (list_active_lem r.listed_at router.heartbeat_grace t pos) (
        remote_to-Outcome router r req active (some s) c s o swept remote u
          (choose-Picked router req active o refl))

  route_by-Outcome :
      (b : Bool) (k : Cluster)
      → is_remote req.policy ≡ b
      → IsUnique k.tables.routing_log
      → Outcome router r req
          (active_in router r k.tables)
          k.transport
          k.tables.routing_log
          (route_by c b router r req k).0
          (route_by c b router r req k).1.tables.routing_log
  unfolding route_by
  route_by-Outcome true k e u = route_remote-Outcome k.transport k.tables e u
  route_by-Outcome false k e u = route_local-Outcome k.transport k.tables u

-- Every answer of `route`, for each policy and with or without a transport, if the grace period is
-- positive and the log has no wave and worker twice: a decision for a worker names one that is ONLINE
-- with a heartbeat in the grace period and that has what is required, and none of those has a smaller
-- load, or the same load and a later heartbeat (without load_aware: none has a later heartbeat); a
-- decision for no worker is made only if that is allowed and none of them has what is required; either
-- is in the log afterwards under its id and instant. NoEligibleWorkerError says that none has it and
-- that this is not allowed. The other errors come for REMOTE_PREFERRED only, without a transport or
-- from the transport. The log keeps all its decisions and has no wave and worker twice.
pub route-Outcome :
    (c : Codec) (router : Router) (r : Draws) (req : Request) (k : Cluster)
    → 0 < router.heartbeat_grace
    → IsUnique k.tables.routing_log
    → Outcome router r req
        (active_in router r k.tables)
        k.transport
        k.tables.routing_log
        (route c router r req k).0
        (route c router r req k).1.tables.routing_log
unfolding route
route-Outcome c router r req k pos u =
    route_by-Outcome c router r req pos (is_remote req.policy) k refl u
