-- ===== src/Router.antt =====
-- core/mission/distributed_router.py: DistributedRouter, over the tables of WorkerRegistry and, for
-- REMOTE_PREFERRED, a LocalTransport. One call is one step. What it reads from clocks and draws at
-- random comes in a `Draws`. A heartbeat of None counts as instant 0.
pub mod Routes
pub mod Marks
pub mod Choice
pub mod Log
pub mod Routed
pub mod Outcomes
pub mod History
pub mod Again
pub mod Delivery
use jarvis.Prelude.{
  nat_eq, string_eq, ℕ, suc, String, Bool, true, false, not, ◌&&◌, ◌||◌, Option, none, some, List,
  [], ◌∷◌, ◌++◌, ◌==◌, if◌then◌else◌, ltb, leb, keep, member, Result, ok, raise,
}
use Prim.Native.String.{◌++◌ as append_text}
use jarvis.Prelude.Dict.{Dict, get}
use jarvis.Prelude.Sort.{sort}
use jarvis.Envelope.{
  EnvelopeError, Codec, Fields, Value, text, nil, EnvelopeV1, make_envelope, pack,
  payload_type_task_assignment,
}
use jarvis.Transport.{Transport, TransportError, publish}
use jarvis.WorkerRegistry.{
  Worker, Capabilities, Routing, Tables, RegistryError, list_active, heartbeat_of,
}
use jarvis.WorkerRegistry.Tasks.{find_routing, is_open}

pub data RoutingPolicy : Type 0 where
  local_only remote_preferred any : RoutingPolicy

pub data RouterError : Type 0 where
  no_eligible_worker : RouterError
  remote_transport_not_implemented : RouterError
  registry_error : RegistryError → RouterError
  transport_error : TransportError → RouterError
  -- EnvelopeV1 refuses its arguments.
  envelope_error : EnvelopeError → RouterError

pub record Request : Type 0 where
  pub wave_run_id : ℕ
  pub required_platform : Option String
  pub required_skill : Option String
  pub policy : RoutingPolicy
  pub allow_no_worker : Bool

pub record RoutingDecision : Type 0 where
  pub worker : Option Worker
  pub wave_run_id : ℕ
  pub policy : RoutingPolicy
  pub decision_reason : String
  pub route_id : ℕ
  pub dedup_hit : Bool
  pub routed_at : ℕ

pub record Router : Type 0 where
  pub load_aware : Bool
  -- of its WorkerRegistry
  pub heartbeat_grace : ℕ

pub record Cluster : Type 0 where
  pub tables : Tables
  pub transport : Option Transport

pub record Draws : Type 0 where
  -- the clock of list_active, of the payload, of the envelope and of the log
  pub listed_at : ℕ
  pub sent_at : String
  pub created_at : String
  pub logged_at : ℕ
  -- uuid4
  pub route_id : ℕ
  pub nobody : ℕ

abbrev pub reason_no_eligible_worker : String
reason_no_eligible_worker = "NO_ELIGIBLE_WORKER"

abbrev pub reason_remote_preferred_not_implemented : String
reason_remote_preferred_not_implemented = "REMOTE_PREFERRED_NOT_IMPLEMENTED_M6_4_B"

abbrev pub reason_routed_local : String
reason_routed_local = "ROUTED_LOCAL"

abbrev pub reason_routed_remote : String
reason_routed_remote = "ROUTED_REMOTE"

abbrev pub has_required : Option String → List String → Bool
has_required none offered = true
has_required (some required) offered = member required offered

unfoldable pub worker_matches : Request → Worker → Bool
worker_matches req w =
    has_required req.required_platform w.capabilities.platforms
    && has_required req.required_skill w.capabilities.skills

-- Whether `x` has a smaller key than `w`.
unfoldable pub prefers : (load_aware : Bool) → Worker → Worker → Bool
prefers true x w =
    ltb x.active_tasks w.active_tasks
    || (x.active_tasks == w.active_tasks && ltb (heartbeat_of w) (heartbeat_of x))
prefers false x w = ltb (heartbeat_of w) (heartbeat_of x)

-- min and max keep the first of the best.
unfoldable pub pick_best : (load_aware : Bool) → Worker → List Worker → Worker
unfolding prefers
pick_best load_aware w [] = w
pick_best load_aware w (x ∷ xs) = pick_best load_aware (if prefers load_aware x w then x else w) xs

-- The candidates that match, and the best of them.
unfoldable pub chosen_of : (load_aware : Bool) → List Worker → Option Worker
unfolding pick_best
chosen_of load_aware [] = none
chosen_of load_aware (w ∷ ws) = some (pick_best load_aware w ws)

unfoldable pub inserted :
    (logged_at route_id wave worker : ℕ) → String → Option Routing → Tables → (ℕ × ℕ) × Tables
inserted logged_at route_id wave worker reason (some r) t = ((r.route_id, r.routed_at), t)
inserted logged_at route_id wave worker reason none t = (
  (route_id, logged_at),
  record t {
    routing_log =
        t.routing_log
        ++ record {
          route_id = route_id;
          wave_run_id = wave;
          chosen_worker_id = worker;
          decision_reason = reason;
          routed_at = logged_at;
          completed_at = none;
        }
          ∷ [];
  },
)

-- The unique index on wave and worker turns a second insert into a read of the first row.
unfoldable pub insert_routing : Draws → (wave worker : ℕ) → String → Tables → (ℕ × ℕ) × Tables
unfolding inserted find_routing
insert_routing r wave worker reason t =
    inserted r.logged_at r.route_id wave worker reason (find_routing wave worker t.routing_log) t

-- A decision that is written to the log.
unfoldable pub decide :
    Draws → Request → (worker_id : ℕ) → Option Worker → String → Tables → RoutingDecision × Tables
unfolding insert_routing
decide r req worker_id worker reason t =
    let ((route_id, routed_at), t') = insert_routing r req.wave_run_id worker_id reason t in
    (
      record {
        worker = worker;
        wave_run_id = req.wave_run_id;
        policy = req.policy;
        decision_reason = reason;
        route_id = route_id;
        dedup_hit = false;
        routed_at = routed_at;
      },
      t',
    )

unfoldable pub nowhere :
    (allow_no_worker : Bool)
    → Draws
    → Request
    → Tables
    → Result RouterError RoutingDecision × Tables
unfolding decide
nowhere true r req t =
    let (d, t') = decide r req r.nobody none reason_no_eligible_worker t in (ok d, t')
nowhere false r req t = (raise no_eligible_worker, t)

unfoldable pub route_nowhere :
    Draws → Request → Tables → Result RouterError RoutingDecision × Tables
unfolding nowhere
route_nowhere r req t = nowhere req.allow_no_worker r req t
