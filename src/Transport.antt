-- ===== src/Transport.antt =====
-- core/mission/transports/local.py: the in-process mission transport, its leases and its channels.
-- Instants are whole nanoseconds of the monotonic clock, and reach an operation as an argument;
-- so do the fresh lease token (`uuid.uuid4().hex`) and the fresh subscriber queue.
-- A lease time of zero or less is one case, 0, since every operation refuses both alike.
pub mod Leases
pub mod Channels
use jarvis.Prelude.{
  ℕ, ◌+◌, ◌*◌, ◌<◌, String, Bool, true, false, ◌||◌, Option, none, some, List, [], ◌∷◌, ◌++◌, ltb,
  leb, if◌then◌else◌, ◌==◌, nat_eq, string_eq, member, add, discard, Result, ok, raise,
}
use jarvis.Prelude.Dict.{Dict, get, put, remove}

pub data TransportError : Type 0 where
  transport_closed value_error : TransportError

abbrev pub Token : Type 0
Token = ℕ

abbrev pub QueueId : Type 0
QueueId = ℕ

abbrev pub second : ℕ
second = 1_000_000_000

pub record LeaseEntry : Type 0 where
  pub token : Token
  pub expires_at : ℕ

-- What a subscriber's queue holds: a published payload, or the mark of the end.
pub data Item : Type 0 where
  payload : List ℕ → Item
  end_sentinel : Item

-- The queues are the `asyncio.Queue` objects, which outlive their registration.
pub record Transport : Type 0 where
  pub leases : Dict String LeaseEntry
  pub channels : Dict String (List QueueId)
  pub subscribers : List QueueId
  pub queues : Dict QueueId (List Item)
  pub closed : Bool

abbrev pub opened : Transport
opened = record { leases = []; channels = []; subscribers = []; queues = []; closed = false }

claim :
    (now : ℕ) (fresh : Token)
    → Transport
    → (key : String) (ttl_seconds : ℕ) → Result TransportError (Option Token) × Transport
claim now fresh s key ttl_seconds = (
  ok (some fresh),
  record s {
    leases = put s.leases key (record { token = fresh; expires_at = now + ttl_seconds * second });
  },
)

lease_existing :
    (now : ℕ) (fresh : Token)
    → Transport
    → (key : String) (ttl_seconds : ℕ) → Option LeaseEntry
    → Result TransportError (Option Token) × Transport
unfolding claim
lease_existing now fresh s key ttl_seconds none = claim now fresh s key ttl_seconds
lease_existing now fresh s key ttl_seconds (some existing) =
    if ltb now existing.expires_at then (ok none, s) else claim now fresh s key ttl_seconds

unfoldable pub lease :
    (now : ℕ) (fresh : Token)
    → Transport
    → (key : String) (ttl_seconds : ℕ) → Result TransportError (Option Token) × Transport
unfolding lease_existing
lease now fresh s key ttl_seconds =
    if ttl_seconds == 0
    then (raise value_error, s)
    else if s.closed
    then (ok none, s)
    else lease_existing now fresh s key ttl_seconds (get s.leases key)

renew_existing :
    (now : ℕ)
    → Transport
    → (key : String) (token : Token) (ttl_seconds : ℕ) → Option LeaseEntry
    → Result TransportError Bool × Transport
renew_existing now s key token ttl_seconds none = (ok false, s)
renew_existing now s key token ttl_seconds (some existing) =
    if existing.token == token
    then (if leb existing.expires_at now
        then (ok false, record s { leases = remove s.leases key })
        else (
          ok true,
          record s {
            leases = put s.leases key (record existing { expires_at = now + ttl_seconds * second });
          },
        ))
    else (ok false, s)

-- A closed transport answers before it looks at the lease time.
unfoldable pub renew_lease :
    (now : ℕ)
    → Transport
    → (key : String) (token : Token) (ttl_seconds : ℕ) → Result TransportError Bool × Transport
unfolding renew_existing
renew_lease now s key token ttl_seconds =
    if s.closed
    then (ok false, s)
    else if ttl_seconds == 0
    then (raise value_error, s)
    else renew_existing now s key token ttl_seconds (get s.leases key)

release_existing : Transport → (key : String) (token : Token) → Option LeaseEntry → Transport
release_existing s key token none = s
release_existing s key token (some existing) =
    if existing.token == token then record s { leases = remove s.leases key } else s

unfoldable pub release_lease : Transport → (key : String) (token : Token) → Transport
unfolding release_existing
release_lease s key token = release_existing s key token (get s.leases key)

-- queue.put: queue `q` of `queues` gets `item` at its end.
unfoldable pub enqueue : Item → QueueId → Dict QueueId (List Item) → Dict QueueId (List Item)
enqueue item q queues = elim (get queues q) [
  | none ↦ put queues q (item ∷ [])
  | some items ↦ put queues q (items ++ item ∷ [])
]

unfoldable pub enqueue_all :
    Item → List QueueId → Dict QueueId (List Item) → Dict QueueId (List Item)
enqueue_all item [] queues = queues
enqueue_all item (q ∷ qs) queues = enqueue_all item qs (enqueue item q queues)

unfoldable pub subscribers_for_channel : Transport → String → List QueueId
subscribers_for_channel s channel = elim (get s.channels channel) [ none ↦ [] | some qs ↦ qs ]

unfoldable pub publish : Transport → String → List ℕ → Result TransportError (Unit {0}) × Transport
unfolding subscribers_for_channel
publish s channel bytes = if s.closed then (raise transport_closed, s) else (
  ok tt,
  record s { queues = enqueue_all (payload bytes) (subscribers_for_channel s channel) s.queues },
)

unfoldable pub subscribe :
    (fresh : QueueId) → Transport → String → Result TransportError QueueId × Transport
unfolding subscribers_for_channel
subscribe fresh s channel = if s.closed then (raise transport_closed, s) else (
  ok fresh,
  record s {
    channels = put s.channels channel (add fresh (subscribers_for_channel s channel));
    subscribers = add fresh s.subscribers;
    queues = put s.queues fresh [];
  },
)

-- A channel whose last subscriber leaves is dropped.
without_subscriber :
    Dict String (List QueueId)
    → String
    → QueueId
    → Option (List QueueId)
    → Dict String (List QueueId)
without_subscriber channels channel queue none = channels
without_subscriber channels channel queue (some subs) =
    if member queue subs
    then elim (discard queue subs) [
      | [] ↦ remove channels channel
      | q ∷ qs ↦ put channels channel (q ∷ qs)
    ]
    else channels

unfoldable pub unregister_subscriber : Transport → String → QueueId → Transport
unfolding without_subscriber
unregister_subscriber s channel queue = if s.closed then s else record s {
  channels = without_subscriber s.channels channel queue (get s.channels channel);
  subscribers = discard queue s.subscribers;
}

unfoldable pub close : Transport → Transport
close s = if s.closed then s else record s {
  closed = true;
  queues = enqueue_all end_sentinel s.subscribers s.queues;
  subscribers = [];
  channels = [];
  leases = [];
}
