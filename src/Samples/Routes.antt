-- ===== src/Samples/Routes.antt =====
-- Runs of core/mission/distributed_router.py and core/mission/transports/envelope.py.
use jarvis.Prelude.{
  nat_eq, string_eq, ℕ, String, true, false, Option, none, some, List, [], ◌∷◌, ◌++◌, ◌≡◌, refl,
  sym, subst, arith, member, ok, ◌==◌, if◌then◌else◌, All,
}
use jarvis.Prelude.Dict.{get, put}
use jarvis.Envelope.{
  Codec, EnvelopeV1, Fields, Value, text, Unpacked, dict, make_envelope, pack, unpack, dump,
}
use jarvis.Envelope.RoundTrip.{Carries, Lawful, unpack-pack}
use jarvis.Transport.{Transport, opened, payload, subscribers_for_channel}
use jarvis.Transport.Channels.{waiting, IsRegistered, IsDistinct}
use jarvis.WorkerRegistry.{Worker, online, list_active}
use jarvis.WorkerRegistry.Tasks.{mark_task_started, mark_task_completed}
use jarvis.Router.{
  remote_preferred, Request, RoutingDecision, Router, Cluster, Draws, reason_routed_remote,
}
use jarvis.Router.Routes.{route, is_remote, assignment, worker_channel}
use jarvis.Router.Log.{IsUnique, Extends}
use jarvis.Router.Outcomes.{Outcome, active_in, route-Outcome}
use jarvis.Router.Again.{reroute}
use jarvis.Router.History.{Action, IsTimed, starting, completing, act_all, act_all-Grown}
use jarvis.Router.Delivery.{assigned, Delivers, channel_of, route-Delivers, route-twice}

abbrev near : Worker
near = record {
  worker_id = 1;
  hostname = "h";
  pid = 9;
  capabilities = record { platforms = "linux" ∷ []; skills = [] };
  status = online;
  active_tasks = 0;
  last_heartbeat = some 50;
  started_at = 0;
}

abbrev far : Worker
far = record near { worker_id = 2; hostname = "g"; active_tasks = 3 }

abbrev wired : Transport
wired = record opened {
  channels = ("worker:1", 7 ∷ []) ∷ [];
  subscribers = 7 ∷ [];
  queues = (7, []) ∷ [];
}

abbrev cluster : Cluster
cluster = record {
  tables = record { workers = (2, far) ∷ (1, near) ∷ []; routing_log = [] };
  transport = some wired;
}

abbrev router : Router
router = record { load_aware = true; heartbeat_grace = 15 }

abbrev draws : Draws
draws = record {
  listed_at = 60;
  sent_at = "noon";
  created_at = "noon";
  logged_at = 61;
  route_id = 500;
  nobody = 900;
}

abbrev later_draws : Draws
later_draws = record draws { listed_at = 62; created_at = "one"; logged_at = 63; route_id = 501 }

abbrev request : Request
request = record {
  wave_run_id = 100;
  required_platform = some "linux";
  required_skill = none;
  policy = remote_preferred;
  allow_no_worker = false;
}

-- A codec that carries two envelopes, told apart by their instants: a dictionary is packed as one
-- number.
abbrev id_text : ℕ → String
id_text n = if n == 1 then "1" else "100"

abbrev envelope : String → EnvelopeV1
envelope at = record {
  envelope_version = 1;
  payload_type = "mission.task.assignment";
  payload_bytes = 0 ∷ [];
  idempotency_key = 100;
  producer_id = "router";
  created_at = at;
}

abbrev fields_at : String → Fields
fields_at at =
    ("envelope_version", Value.int 1)
    ∷ ("payload_type", text "mission.task.assignment")
    ∷ ("payload_bytes", Value.bin (0 ∷ []))
    ∷ ("idempotency_key", text "100")
    ∷ ("producer_id", text "router")
    ∷ ("created_at", text at)
    ∷ []

abbrev numbered : Option Value → List ℕ
numbered (some (text at)) = if at == "noon" then 1 ∷ [] else 2 ∷ []
numbered _ = 0 ∷ []

abbrev of_number : List ℕ → Option Unpacked
of_number [] = none
of_number (n ∷ _) =
    if n == 1
    then some (dict (fields_at "noon"))
    else if n == 2
    then some (dict (fields_at "one"))
    else none

abbrev id_of : String → Option ℕ
id_of s = if s == "100" then some 100 else if s == "1" then some 1 else none

abbrev built : ℕ → String → List ℕ → Option ℕ → String → String → Option EnvelopeV1
built v t b none p at = none
built v t b (some k) p at = some (record {
  envelope_version = v;
  payload_type = t;
  payload_bytes = b;
  idempotency_key = k;
  producer_id = p;
  created_at = at;
})

-- The fields by their names; none where one is missing or has another type.
abbrev checked :
    Option Value
    → Option Value
    → Option Value
    → Option Value
    → Option Value
    → Option Value
    → Option EnvelopeV1
checked (some (Value.int v)) (some (text t)) (some (Value.bin b)) (some (text k)) (some (text p))
      (some (text at)) =
    built v t b (id_of k) p at
checked _ _ _ _ _ _ = none

abbrev read_back : Fields → Option EnvelopeV1
read_back fields =
    checked (get fields "envelope_version") (get fields "payload_type") (get fields "payload_bytes")
      (get fields "idempotency_key") (get fields "producer_id") (get fields "created_at")

abbrev codec : Codec
codec = record {
  packb = λ fields. numbered (get fields "created_at");
  unpackb = of_number;
  compress = λ bytes. 9 ∷ bytes;
  decompress = unzipped;
  uuid_text = id_text;
  model_validate = read_back;
}
  where
    unzipped : List ℕ → Option (List ℕ)
    unzipped [] = none
    unzipped (_ ∷ bytes) = some bytes

make_envelope-noon :
    make_envelope "mission.task.assignment" (0 ∷ []) "router" 100 "noon" ≡ ok (envelope "noon")
unfolding make_envelope
make_envelope-noon = refl

noon-Carries : Carries codec (envelope "noon")
unfolding dump pack get
noon-Carries = record { decompresses = refl; unpacks = refl; validates = refl }

one-Carries : Carries codec (envelope "one")
unfolding dump pack get
one-Carries = record { decompresses = refl; unpacks = refl; validates = refl }

noon-Lawful : Lawful codec id_of (envelope "noon")
unfolding dump get
noon-Lawful = record {
  decompresses = λ bytes. refl;
  reads_uuid = refl;
  unpacks = refl;
  validates =
      λ fields v t b key id p at hv ht hb hk hid hp hat. rw (hv, ht, hb, hk, hp, hat, hid) refl;
}

unpack-pack_example : unpack codec (pack codec (envelope "noon")) ≡ ok (envelope "noon")
unpack-pack_example =
    unpack-pack codec id_of "mission.task.assignment" (0 ∷ []) "router" 100 "noon" (envelope "noon")
      make_envelope-noon noon-Lawful

route-Outcome_example :
    Outcome router draws request
      (active_in router draws cluster.tables)
      cluster.transport
      []
      (route codec router draws request cluster).0
      (route codec router draws request cluster).1.tables.routing_log
route-Outcome_example = route-Outcome codec router draws request cluster (omega arith) tt

abbrev actions : List Action
actions = Action.routing router draws request ∷ starting 1 100 ∷ completing 62 1 100 ∷ []

actions-IsTimed : All IsTimed actions
actions-IsTimed = (omega arith, (tt, (tt, tt)))

act_all-Grown_example :
    IsUnique (act_all codec actions cluster).tables.routing_log
    × Extends [] (act_all codec actions cluster).tables.routing_log
act_all-Grown_example = act_all-Grown codec actions cluster actions-IsTimed tt

abbrev decision : RoutingDecision
decision = record {
  worker = some near;
  wave_run_id = 100;
  policy = remote_preferred;
  decision_reason = reason_routed_remote;
  route_id = 500;
  dedup_hit = false;
  routed_at = 61;
}

route-cluster : (route codec router draws request cluster).0 ≡ ok decision
unfolding route list_active member
route-cluster = refl

-- The wave is routed again to the same worker: it answers with the id of the first decision.
route-cluster_again :
    (route codec router later_draws request
      (act_all codec actions (route codec router draws request cluster).1)).0
    ≡ ok decision
unfolding route list_active member act_all mark_task_completed mark_task_started get put
route-cluster_again = refl

reroute_example :
    (decision.route_id ≡ decision.route_id) × (decision.routed_at ≡ decision.routed_at)
reroute_example =
    reroute codec router router draws later_draws request request actions cluster decision decision
      near near (omega arith) (omega arith) actions-IsTimed tt route-cluster refl
      route-cluster_again refl refl refl

wired-IsDistinct : (channel : String) → IsDistinct (subscribers_for_channel wired channel)
unfolding subscribers_for_channel get member
wired-IsDistinct channel = ground arith

wired-IsRegistered : IsRegistered wired
wired-IsRegistered = record { distinct = wired-IsDistinct }

request-is_remote : is_remote request.policy ≡ true
unfolding is_remote
request-is_remote = refl

route-Delivers_example :
    Delivers codec draws request wired
      (route codec router draws request cluster).0
      (route codec router draws request cluster).1.transport
route-Delivers_example =
    route-Delivers codec router draws request cluster wired request-is_remote refl
      wired-IsRegistered

wired-subscribed : member 7 (subscribers_for_channel wired (channel_of codec near)) ≡ true
unfolding subscribers_for_channel get member worker_channel
wired-subscribed = refl

route-cluster_twice :
    (route codec router later_draws request (route codec router draws request cluster).1).0
    ≡ ok decision
unfolding route list_active member
route-cluster_twice = refl

assigned-noon : assigned codec draws request 1 ≡ envelope "noon"
unfolding assignment get
assigned-noon = refl

assigned-one : assigned codec later_draws request 1 ≡ envelope "one"
unfolding assignment get
assigned-one = refl

assigned-Carries : Carries codec (assigned codec draws request 1)
assigned-Carries = subst (Carries codec) (sym assigned-noon) noon-Carries

assigned_later-Carries : Carries codec (assigned codec later_draws request 1)
assigned_later-Carries = subst (Carries codec) (sym assigned-one) one-Carries

route-twice_example :
    ((s' : Transport) × ((route codec router later_draws request
          (route codec router draws request cluster).1).1.transport
        ≡ some s')
      × (waiting s' 7
          ≡ (waiting wired 7 ++ payload (pack codec (assigned codec draws request 1)) ∷ [])
            ++ payload (pack codec (assigned codec later_draws request 1)) ∷ []))
    × (unpack codec (pack codec (assigned codec draws request 1))
        ≡ ok (assigned codec draws request 1))
    × (unpack codec (pack codec (assigned codec later_draws request 1))
        ≡ ok (assigned codec later_draws request 1))
    × (request.wave_run_id ≡ request.wave_run_id)
route-twice_example =
    route-twice codec router router draws later_draws request request cluster wired decision
      decision near near 7 request-is_remote request-is_remote refl wired-IsRegistered
      wired-subscribed route-cluster refl route-cluster_twice refl refl refl assigned-Carries
      assigned_later-Carries
