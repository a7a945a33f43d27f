-- ===== src/Router/Routes.antt =====
-- `route` of core/mission/distributed_router.py, with and without a transport.
use jarvis.Prelude.{
  nat_eq, string_eq, ℕ, String, Bool, true, false, Option, none, some, List, [], ◌∷◌, keep, Result,
  ok, raise,
}
use Prim.Native.String.{◌++◌ as append_text}
use jarvis.Envelope.{
  EnvelopeError, Codec, Fields, Value, text, nil, EnvelopeV1, make_envelope, pack,
  payload_type_task_assignment,
}
use jarvis.Transport.{Transport, TransportError, publish}
use jarvis.WorkerRegistry.{Worker, Tables, RegistryError, list_active}
use jarvis.Router.{
  RoutingPolicy, RouterError, Request, RoutingDecision, Router, Cluster, Draws,
  reason_remote_preferred_not_implemented, reason_routed_local, reason_routed_remote,
  worker_matches, chosen_of, insert_routing, decide, route_nowhere, local_only, remote_preferred,
  any, remote_transport_not_implemented, registry_error, transport_error, envelope_error,
}

unfoldable pub local_to :
    Draws → Request → Option Worker → Tables → Result RouterError RoutingDecision × Tables
unfolding route_nowhere decide
local_to r req none t = route_nowhere r req t
local_to r req (some w) t =
    let (d, t') = decide r req w.worker_id (some w) reason_routed_local t in (ok d, t')

-- The best of the candidates that match.
unfoldable pub choose : Router → Request → List Worker → Option Worker
unfolding chosen_of worker_matches keep
choose router req candidates = chosen_of router.load_aware (keep (worker_matches req) candidates)

unfoldable pub local_from :
    Router
    → Draws
    → Request
    → Result RegistryError (List Worker)
    → Tables
    → Result RouterError RoutingDecision × Tables
unfolding local_to choose
local_from router r req (raise e) t = (raise (registry_error e), t)
local_from router r req (ok candidates) t = local_to r req (choose router req candidates) t

unfoldable pub route_local :
    Router → Draws → Request → Tables → Result RouterError RoutingDecision × Tables
unfolding local_from
route_local router r req t =
    let (listed, t') = list_active r.listed_at router.heartbeat_grace t in
    local_from router r req listed t'

abbrev pub or_nil : Option String → Value
or_nil none = nil
or_nil (some s) = text s

unfoldable pub is_remote : RoutingPolicy → Bool
is_remote local_only = false
is_remote remote_preferred = true
is_remote any = false

abbrev pub keeping :
    Transport
    → Result RouterError RoutingDecision × Tables
    → Result RouterError RoutingDecision × Cluster
keeping s (answer, t) = (answer, record { tables = t; transport = some s })

unfoldable pub sent_to :
    Draws
    → Request
    → Worker
    → Result TransportError (Unit {0}) × Transport
    → Tables
    → Result RouterError RoutingDecision × Cluster
unfolding decide
sent_to r req w (raise e, s) t =
    (raise (transport_error e), record { tables = t; transport = some s })
sent_to r req w (ok _, s) t =
    let (d, t') = decide r req w.worker_id (some w) reason_routed_remote t in
    (ok d, record { tables = t'; transport = some s })

module _ (c : Codec) where
  unfoldable pub worker_channel : (worker_id : ℕ) → String
  worker_channel worker_id = append_text "worker:" (c.uuid_text worker_id)

  unfoldable pub assignment : Draws → Request → (worker_id : ℕ) → Fields
  assignment r req worker_id =
      ("wave_run_id", text (c.uuid_text req.wave_run_id))
      ∷ ("chosen_worker_id", text (c.uuid_text worker_id))
      ∷ ("required_platform", or_nil req.required_platform)
      ∷ ("required_skill", or_nil req.required_skill)
      ∷ ("routed_at", text r.sent_at)
      ∷ []

  unfoldable pub envelope_for : Draws → Request → (worker_id : ℕ) → Result EnvelopeError EnvelopeV1
  unfolding make_envelope
  envelope_for r req worker_id =
      make_envelope payload_type_task_assignment (c.packb (assignment r req worker_id)) "router"
        req.wave_run_id r.created_at

  -- The envelope is published before the decision is logged.
  unfoldable pub send_to :
      Draws
      → Request
      → Worker
      → Result EnvelopeError EnvelopeV1
      → Transport
      → Tables
      → Result RouterError RoutingDecision × Cluster
  unfolding sent_to publish
  send_to r req w (raise e) s t =
      (raise (envelope_error e), record { tables = t; transport = some s })
  send_to r req w (ok e) s t = sent_to r req w (publish s (worker_channel w.worker_id) (pack c e)) t

  unfoldable pub remote_to :
      Draws
      → Request
      → Option Worker
      → Transport
      → Tables
      → Result RouterError RoutingDecision × Cluster
  unfolding send_to envelope_for route_nowhere
  remote_to r req none s t = keeping s (route_nowhere r req t)
  remote_to r req (some w) s t = send_to r req w (envelope_for r req w.worker_id) s t

  unfoldable pub remote_from :
      Router
      → Draws
      → Request
      → Result RegistryError (List Worker)
      → Transport
      → Tables
      → Result RouterError RoutingDecision × Cluster
  unfolding remote_to choose
  remote_from router r req (raise e) s t =
      (raise (registry_error e), record { tables = t; transport = some s })
  remote_from router r req (ok candidates) s t = remote_to r req (choose router req candidates) s t

  unfoldable pub route_remote :
      Router
      → Draws
      → Request
      → Option Transport
      → Tables
      → Result RouterError RoutingDecision × Cluster
  unfolding remote_from insert_routing
  route_remote router r req none t =
      let (row, t') =
        insert_routing r req.wave_run_id r.nobody reason_remote_preferred_not_implemented t in
      (raise remote_transport_not_implemented, record { tables = t'; transport = none })
  route_remote router r req (some s) t =
      let (listed, t') = list_active r.listed_at router.heartbeat_grace t in
      remote_from router r req listed s t'

  unfoldable pub route_by :
      (remote : Bool)
      → Router
      → Draws
      → Request
      → Cluster
      → Result RouterError RoutingDecision × Cluster
  unfolding route_remote route_local
  route_by true router r req k = route_remote router r req k.transport k.tables
  route_by false router r req k =
      let (answer, t) = route_local router r req k.tables in
      (answer, record { tables = t; transport = k.transport })

  unfoldable pub route :
      Router → Draws → Request → Cluster → Result RouterError RoutingDecision × Cluster
  unfolding route_by is_remote
  route router r req k = route_by (is_remote req.policy) router r req k
