-- ===== src/Router/Again.antt =====
-- What core/mission/distributed_router.py answers when a wave is routed again.
use jarvis.Prelude.{
  nat_eq, ℕ, true, ap, Bool-cases, Option, some, List, [], ◌∷◌, ◌≡◌, refl, sym, subst, ◌∙◌, arith,
  All, inl, inr, ok, ◌<◌,
}
use jarvis.Envelope.{Codec}
use jarvis.WorkerRegistry.{Worker, Routing}
use jarvis.WorkerRegistry.Tasks.{find_routing, is_routed}
use jarvis.Router.{Request, RoutingDecision, Router, Cluster, Draws}
use jarvis.Router.Routes.{route}
use jarvis.Router.Log.{IsUnique, Extends, Extends-trans}
use jarvis.Router.Routed.{HasRow}
use jarvis.Router.Outcomes.{Outcome, active_in, worker_id_of, route-Outcome}
use jarvis.Router.History.{Action, act_all, IsTimed, Grown, act_all-Grown}

-- A row that was found is still found.
find_routing-Extends :
    (wave worker : ℕ) (log log' : List Routing) (row : Routing)
    → Extends log log'
    → find_routing wave worker log ≡ some row
    → HasRow wave worker row.route_id row.routed_at log'
unfolding find_routing
find_routing-Extends wave worker [] log' row h e = cc
find_routing-Extends wave worker (a ∷ log) [] row h e = absurd h
find_routing-Extends wave worker (a ∷ log) (b ∷ log') row (s, h) e =
    elim (Bool-cases (is_routed wave worker a)) [
      | inl is ↦ (
        b,
        rw (sym s.1, sym s.2, is) refl,
        sym s.0 ∙ ap (λ x. x.route_id) (the_row is),
        sym s.4 ∙ ap (λ x. x.routed_at) (the_row is),
      )
      | inr other ↦
          let (r', found, id, at) =
            find_routing-Extends wave worker log log' row h (rw other at e) in
          (r', rw (sym s.1, sym s.2, other) found, id, at)
    ]
  where
    the_row : is_routed wave worker a ≡ true → a ≡ row
    the_row is = ground (arith, is, e)

HasRow-unique :
    (wave worker wave' worker' : ℕ) (log : List Routing) (id at id' at' : ℕ)
    → wave' ≡ wave
    → worker' ≡ worker
    → HasRow wave' worker' id at log
    → HasRow wave worker id' at' log
    → (id ≡ id') × (at ≡ at')
HasRow-unique wave worker wave' worker' log id at id' at' e f (x, fx, ix, ax) (y, fy, iy, ay) =
    (cc, cc)

Outcome-HasRow :
    (router : Router) (r : Draws) (req : Request) (k : Cluster) (c : Codec) (d : RoutingDecision)
    (w : Worker)
    → 0 < router.heartbeat_grace
    → IsUnique k.tables.routing_log
    → (route c router r req k).0 ≡ ok d
    → d.worker ≡ some w
    → Grown k.tables.routing_log (route c router r req k).1.tables.routing_log
      × HasRow req.wave_run_id w.worker_id d.route_id d.routed_at
          (route c router r req k).1.tables.routing_log
Outcome-HasRow router r req k c d w pos u answer chosen =
    let log' = (route c router r req k).1.tables.routing_log in
    let o =
      subst
        (λ a.
          Outcome router r req (active_in router r k.tables) k.transport k.tables.routing_log a
            log')
        answer (route-Outcome c router r req k pos u) in
    (
      (o.3, o.4),
      subst
          (λ (x : Option Worker).
            HasRow req.wave_run_id (worker_id_of r x) d.route_id d.routed_at log')
          chosen o.5,
    )

-- A wave that is routed to the same worker again keeps its decision: whatever calls come in between,
-- by any routers with a positive grace period, and whatever the policies, the second answer has the
-- id and the instant of the first one.
pub reroute :
    (c : Codec) (router router' : Router) (r r' : Draws) (req req' : Request)
    (actions : List Action) (k : Cluster) (d d' : RoutingDecision) (w w' : Worker)
    → 0 < router.heartbeat_grace
    → 0 < router'.heartbeat_grace
    → All IsTimed actions
    → IsUnique k.tables.routing_log
    → (route c router r req k).0 ≡ ok d
    → d.worker ≡ some w
    → (route c router' r' req' (act_all c actions (route c router r req k).1)).0 ≡ ok d'
    → d'.worker ≡ some w'
    → req'.wave_run_id ≡ req.wave_run_id
    → w'.worker_id ≡ w.worker_id
    → (d'.route_id ≡ d.route_id) × (d'.routed_at ≡ d.routed_at)
reroute c router router' r r' req req' actions k d d' w w' pos pos' timed u h hw h' hw' wave
      worker =
    let k' = (route c router r req k).1 in
    let k'' = act_all c actions k' in
    let last = (route c router' r' req' k'').1.tables.routing_log in
    let (grown, (row, found, id, at)) = Outcome-HasRow router r req k c d w pos u h hw in
    let (u'', ext) = act_all-Grown c actions k' timed grown.0 in
    let (grown'', own) = Outcome-HasRow router' r' req' k'' c d' w' pos' u'' h' hw' in
    let kept =
      find_routing-Extends req.wave_run_id w.worker_id k'.tables.routing_log last row
        (Extends-trans k'.tables.routing_log k''.tables.routing_log last ext grown''.1) found in
    let (ids, ats) =
      HasRow-unique req.wave_run_id w.worker_id req'.wave_run_id w'.worker_id last d'.route_id
        d'.routed_at row.route_id row.routed_at wave worker own kept in
    (ids ∙ id, ats ∙ at)
