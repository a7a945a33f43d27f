-- ===== src/Router/Marks.antt =====
-- The other operations of core/mission/distributed_router.py on the log.
use jarvis.Prelude.{
  nat_eq, string_eq, ℕ, suc, Bool, false, ◌&&◌, none, some, List, [], ◌∷◌, ◌==◌, if◌then◌else◌, ltb,
  leb, keep,
}
use jarvis.Prelude.Dict.{Dict, get}
use jarvis.Prelude.Sort.{sort}
use jarvis.WorkerRegistry.{Worker, Routing, Tables}
use jarvis.WorkerRegistry.Tasks.{is_open}
use jarvis.Router.{RoutingDecision, local_only}

-- UPDATE … WHERE route_id = … AND completed_at IS NULL, and how many rows it changed.
unfoldable pub retire : (now route_id : ℕ) → List Routing → ℕ × List Routing
retire now route_id [] = (0, [])
retire now route_id (row ∷ log) =
    let (count, log') = retire now route_id log in
    if row.route_id == route_id && is_open row.completed_at
    then (suc count, record row { completed_at = some now } ∷ log')
    else (count, row ∷ log')

unfoldable pub mark_routing_complete : (now route_id : ℕ) → Tables → Bool × Tables
unfolding retire
mark_routing_complete now route_id t =
    let (count, log) = retire now route_id t.routing_log in
    (ltb 0 count, record t { routing_log = log })

-- The join of a row of the log with the worker's row.
unfoldable pub joined : (wave_run_id : ℕ) → Dict ℕ Worker → List Routing → List RoutingDecision
joined wave_run_id workers [] = []
joined wave_run_id workers (row ∷ log) =
    let rest = joined wave_run_id workers log in
    elim (get workers row.chosen_worker_id) [
      | none ↦ rest
      | some w ↦
          record {
            worker = some w;
            wave_run_id = wave_run_id;
            policy = local_only;
            decision_reason = row.decision_reason;
            route_id = row.route_id;
            dedup_hit = false;
            routed_at = row.routed_at;
          }
          ∷ rest
    ]

unfoldable pub get_routing_for_wave : (wave_run_id : ℕ) → Tables → List RoutingDecision
unfolding joined keep sort
get_routing_for_wave wave_run_id t = joined wave_run_id t.workers (
    sort (λ a b. leb a.routed_at b.routed_at)
      (keep (λ row. row.wave_run_id == wave_run_id) t.routing_log))
