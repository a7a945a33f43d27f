-- ===== src/Router/Delivery.antt =====
-- What a REMOTE_PREFERRED call of core/mission/distributed_router.py sends.
use jarvis.Prelude.{
  nat_eq, string_eq, ℕ, String, Bool, true, false, Option, none, some, List, [], ◌∷◌, ◌++◌, ◌≡◌,
  refl, sym, subst, ◌∙◌, ap, arith, member, Bool-cases, ◌⊎◌, inl, inr, Result, ok, raise,
  if◌then◌else◌,
}
use jarvis.Envelope.{Codec, EnvelopeV1, make_envelope, pack, unpack, payload_type_task_assignment}
use jarvis.Envelope.RoundTrip.{Carries, unpack-carried}
use jarvis.Transport.{
  Transport, TransportError, transport_closed, payload, publish, subscribers_for_channel,
}
use jarvis.Transport.Channels.{waiting, IsRegistered, IsDistinct, waiting-publish}
use jarvis.WorkerRegistry.{Worker, Tables, RegistryError, list_active}
use jarvis.Router.{
  RouterError, Request, RoutingDecision, Router, Cluster, Draws, decide, nowhere, route_nowhere,
}
use jarvis.Router.Routes.{
  choose, worker_channel, assignment, sent_to, keeping, envelope_for, send_to, remote_to,
  remote_from, route_remote, route_by, is_remote, route,
}

-- The envelope of an assignment.
abbrev pub assigned : Codec → Draws → Request → (worker_id : ℕ) → EnvelopeV1
assigned c r req worker_id = record {
  envelope_version = 1;
  payload_type = payload_type_task_assignment;
  payload_bytes = c.packb (assignment c r req worker_id);
  idempotency_key = req.wave_run_id;
  producer_id = "router";
  created_at = r.created_at;
}

-- The transport after one message: the queues of the subscribers of the channel have it at the end.
abbrev pub Posted : Transport → String → List ℕ → Option Transport → Type 0
Posted s channel bytes none = ⊥
Posted s channel bytes (some s') =
    ((q : ℕ)
      → waiting s' q ≡ (
          if member q (subscribers_for_channel s channel)
          then waiting s q ++ payload bytes ∷ []
          else waiting s q))
    × (s'.channels ≡ s.channels)
    × (s'.closed ≡ false)

abbrev pub Sends : Codec → Draws → Request → Transport → Option Worker → Option Transport → Type 0
Sends c r req s none wired' = wired' ≡ some s
Sends c r req s (some w) wired' =
    Posted s (worker_channel c w.worker_id) (pack c (assigned c r req w.worker_id)) wired'

-- By the answer: a decision for a worker has sent it the assignment, any other answer nothing.
abbrev pub Delivers :
    Codec
    → Draws
    → Request
    → Transport
    → Result RouterError RoutingDecision
    → Option Transport
    → Type 0
Delivers c r req s (ok d) wired' = Sends c r req s d.worker wired'
Delivers c r req s (raise e) wired' = wired' ≡ some s

module _ (c : Codec) (r : Draws) (req : Request) (s : Transport) (sets : IsRegistered s) where
  publish-Posted :
      (channel : String) (bytes : List ℕ)
      → s.closed ≡ false
      → Posted s channel bytes (some (publish s channel bytes).1)
  unfolding publish
  publish-Posted channel bytes o =
      (λ q. waiting-publish s channel bytes q sets o, ground (arith, o), ground (arith, o))

  publish-answer :
      (channel : String) (bytes : List ℕ)
      → (publish s channel bytes ≡ (raise transport_closed, s))
        ⊎ ((s.closed ≡ false) × (publish s channel bytes ≡ (ok tt, (publish s channel bytes).1)))
  unfolding publish
  publish-answer channel bytes = elim (Bool-cases s.closed) [
    | inl shut ↦ inl (simp shut refl)
    | inr open_still ↦ inr (open_still, simp open_still refl)
  ]

  -- What the transport has answered, and what it then is.
  abbrev Fits : String → List ℕ → Result TransportError (Unit {0}) × Transport → Type 0
  Fits channel bytes (raise e, s') = s' ≡ s
  Fits channel bytes (ok _, s') = Posted s channel bytes (some s')

  publish-Fits : (channel : String) (bytes : List ℕ) → Fits channel bytes (publish s channel bytes)
  publish-Fits channel bytes = elim (publish-answer channel bytes) [
    | inl e ↦ subst (Fits channel bytes) (sym e) refl
    | inr (o, e) ↦ subst (Fits channel bytes) (sym e) (publish-Posted channel bytes o)
  ]

  sent_to-Delivers :
      (w : Worker) (answer : Result TransportError (Unit {0}) × Transport) (t : Tables)
      → Fits (worker_channel c w.worker_id) (pack c (assigned c r req w.worker_id)) answer
      → Delivers c r req s (sent_to r req w answer t).0 (sent_to r req w answer t).1.transport
  unfolding sent_to decide
  sent_to-Delivers w (raise e, s') t h = ap some h
  sent_to-Delivers w (ok _, s') t h = h

  nowhere-Delivers :
      (b : Bool) (t : Tables)
      → Delivers c r req s
          (keeping s (nowhere b r req t)).0
          (keeping s (nowhere b r req t)).1.transport
  unfolding nowhere decide
  nowhere-Delivers true t = refl
  nowhere-Delivers false t = refl

  remote_to-Delivers :
      (o : Option Worker) (t : Tables)
      → Delivers c r req s (remote_to c r req o s t).0 (remote_to c r req o s t).1.transport
  unfolding remote_to send_to envelope_for make_envelope route_nowhere
  remote_to-Delivers none t = nowhere-Delivers req.allow_no_worker t
  remote_to-Delivers (some w) t =
      let channel = worker_channel c w.worker_id in
      let bytes = pack c (assigned c r req w.worker_id) in
      sent_to-Delivers w (publish s channel bytes) t (publish-Fits channel bytes)

  remote_from-Delivers :
      (router : Router) (listed : Result RegistryError (List Worker)) (t : Tables)
      → Delivers c r req s
          (remote_from c router r req listed s t).0
          (remote_from c router r req listed s t).1.transport
  unfolding remote_from
  remote_from-Delivers router (raise e) t = refl
  remote_from-Delivers router (ok ws) t = remote_to-Delivers (choose router req ws) t

-- REMOTE_PREFERRED over an open or closed transport whose channels hold sets: a decision for a worker
-- has put the envelope of the assignment, with the wave as its idempotency key, once at the end of the
-- queue of each subscriber of that worker's channel and into no other queue; every other answer, an
-- error or a decision for no worker, has sent nothing.
pub route-Delivers :
    (c : Codec) (router : Router) (r : Draws) (req : Request) (k : Cluster) (s : Transport)
    → is_remote req.policy ≡ true
    → k.transport ≡ some s
    → IsRegistered s
    → Delivers c r req s (route c router r req k).0 (route c router r req k).1.transport
unfolding route route_by route_remote
route-Delivers c router r req k s remote wired sets =
    let (listed, t) = list_active r.listed_at router.heartbeat_grace k.tables in
    let same : route c router r req k ≡ remote_from c router r req listed s t =
      ap (λ b. route_by c b router r req k) remote
      ∙ ap (λ o. route_remote c router r req o k.tables) wired in
    subst
      (λ (p : Result RouterError RoutingDecision × Cluster). Delivers c r req s p.0 p.1.transport)
      (sym same) (remote_from-Delivers c r req s sets router listed t)

abbrev pub channel_of : Codec → Worker → String
channel_of c w = worker_channel c w.worker_id

-- A decision for a worker over a transport: the message is posted.
route-Posted :
    (c : Codec) (router : Router) (r : Draws) (req : Request) (k : Cluster) (s : Transport)
    (d : RoutingDecision) (w : Worker)
    → is_remote req.policy ≡ true
    → k.transport ≡ some s
    → IsRegistered s
    → (route c router r req k).0 ≡ ok d
    → d.worker ≡ some w
    → (s' : Transport) × ((route c router r req k).1.transport ≡ some s')
      × Posted s (channel_of c w) (pack c (assigned c r req w.worker_id)) (some s')
route-Posted c router r req k s d w remote wired sets answer chosen =
    let wired' = (route c router r req k).1.transport in
    let sent =
      subst (λ a. Delivers c r req s a wired') answer
        (route-Delivers c router r req k s remote wired sets) in
    posted wired' (subst (λ o. Sends c r req s o wired') chosen sent)
  where
    posted :
        (o : Option Transport)
        → Posted s (channel_of c w) (pack c (assigned c r req w.worker_id)) o
        → (s' : Transport) × (o ≡ some s')
          × Posted s (channel_of c w) (pack c (assigned c r req w.worker_id)) (some s')
    posted none h = absurd h
    posted (some s') h = (s', refl, h)

subscribers-same :
    (s s' : Transport) (channel : String)
    → s'.channels ≡ s.channels
    → subscribers_for_channel s' channel ≡ subscribers_for_channel s channel
unfolding subscribers_for_channel
subscribers-same s s' channel e = rw e refl

-- A wave that is routed twice over the transport, to the same worker and with nothing in between, is
-- sent twice: a subscriber of the worker's channel, where a channel's subscribers are a set and the
-- codec carries both envelopes, gets both at the end of its queue, and both can be read back and have
-- the wave as their idempotency key.
pub route-twice :
    (c : Codec) (router router' : Router) (r r' : Draws) (req req' : Request) (k : Cluster)
    (s : Transport) (d d' : RoutingDecision) (w w' : Worker) (q : ℕ)
    → is_remote req.policy ≡ true
    → is_remote req'.policy ≡ true
    → k.transport ≡ some s
    → IsRegistered s
    → member q (subscribers_for_channel s (channel_of c w)) ≡ true
    → (route c router r req k).0 ≡ ok d
    → d.worker ≡ some w
    → (route c router' r' req' (route c router r req k).1).0 ≡ ok d'
    → d'.worker ≡ some w'
    → w'.worker_id ≡ w.worker_id
    → req'.wave_run_id ≡ req.wave_run_id
    → Carries c (assigned c r req w.worker_id)
    → Carries c (assigned c r' req' w'.worker_id)
    → ((s' : Transport) × ((route c router' r' req' (route c router r req k).1).1.transport
          ≡ some s')
        × (waiting s' q
            ≡ (waiting s q ++ payload (pack c (assigned c r req w.worker_id)) ∷ [])
              ++ payload (pack c (assigned c r' req' w'.worker_id)) ∷ []))
      × (unpack c (pack c (assigned c r req w.worker_id)) ≡ ok (assigned c r req w.worker_id))
      × (unpack c (pack c (assigned c r' req' w'.worker_id)) ≡ ok (assigned c r' req' w'.worker_id))
      × ((assigned c r' req' w'.worker_id).idempotency_key
          ≡ (assigned c r req w.worker_id).idempotency_key)
unfolding make_envelope
route-twice c router router' r r' req req' k s d d' w w' q rem rem' wired sets subscribed h hw h'
      hw' worker wave carried carried' =
    let k' = (route c router r req k).1 in
    let (s1, wired1, (first, channels, still)) =
      route-Posted c router r req k s d w rem wired sets h hw in
    let sets1 : IsRegistered s1 = record {
      distinct = λ channel.
          subst IsDistinct (sym (subscribers-same s s1 channel channels)) (sets.distinct channel);
    } in
    let (s2, wired2, (second, channels2, still2)) =
      route-Posted c router' r' req' k' s1 d' w' rem' wired1 sets1 h' hw' in
    let e = assigned c r req w.worker_id in
    let e' = assigned c r' req' w'.worker_id in
    let subscribed' : member q (subscribers_for_channel s1 (channel_of c w')) ≡ true =
      ap (λ id. member q (subscribers_for_channel s1 (worker_channel c id))) worker
      ∙ ap (member q) (subscribers-same s s1 (channel_of c w) channels)
      ∙ subscribed in
    (
      (s2, wired2, second q ∙ rw (subscribed', first q, subscribed) refl),
      unpack-carried c e.payload_type e.payload_bytes "router" req.wave_run_id r.created_at e refl
          carried,
      unpack-carried c e'.payload_type e'.payload_bytes "router" req'.wave_run_id r'.created_at e'
          refl carried',
      wave,
    )
