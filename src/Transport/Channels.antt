-- ===== src/Transport/Channels.antt =====
-- What subscribers receive: the channels of core/mission/transports/local.py.
use jarvis.Prelude.{
  ℕ, String, ◌≡◌, refl, false, Option, none, some, List, [], ◌∷◌, ◌++◌, if◌then◌else◌, ◌==◌, nat_eq,
  string_eq, nat_beq_iff, arith, member, discard, add, sym, append-nil, append_assoc,
  member-discard,
}
use jarvis.Prelude.Dict.{Dict, get, get-put, get-remove, get-nil}
use jarvis.Transport.{
  Transport, QueueId, Item, payload, enqueue, enqueue_all, subscribers_for_channel, publish,
}
use jarvis.Transport.Leases.{Call, after}
use jarvis.Prelude.{eq_iff}

-- No queue stands twice in the list: it is a set.
abbrev pub IsDistinct : List QueueId → Type 0
IsDistinct [] = Unit
IsDistinct (q ∷ qs) = (member q qs ≡ false) × IsDistinct qs

abbrev pub items : Option (List Item) → List Item
items none = []
items (some xs) = xs

-- What waits in a queue.
abbrev pub waiting : Transport → QueueId → List Item
waiting s q = items (get s.queues q)

items-enqueue :
    (item : Item) (p q : QueueId) (d : Dict QueueId (List Item))
    → items (get (enqueue item p d) q)
      ≡ (if p == q then items (get d q) ++ item ∷ [] else items (get d q))
unfolding enqueue
items-enqueue item p q d = ground (
  arith,
  get-put d p q (item ∷ []),
  get-put d p q (items (get d p) ++ item ∷ []),
  nat_beq_iff p q,
)

items-enqueue_all :
    (item : Item) (qs : List QueueId) (q : QueueId) (d : Dict QueueId (List Item))
    → IsDistinct qs
    → items (get (enqueue_all item qs d) q)
      ≡ (if member q qs then items (get d q) ++ item ∷ [] else items (get d q))
unfolding enqueue_all member
items-enqueue_all item [] q d h = refl
items-enqueue_all item (p ∷ qs) q d h =
    ground (arith, items-enqueue_all item qs q (enqueue item p d) h.1, items-enqueue item p q d)

-- The subscribers of each channel are a set.
pub record IsRegistered (s : Transport) : Type 0 where
  pub distinct : (channel : String) → IsDistinct (subscribers_for_channel s channel)

-- publish on an open transport puts one copy of the payload at the end of the queue of each
-- subscriber of the channel, and leaves every other queue as it was.
pub waiting-publish :
    (s : Transport) (channel : String) (bytes : List ℕ) (q : QueueId)
    → IsRegistered s
    → s.closed ≡ false
    → waiting (publish s channel bytes).1 q ≡ (
        if member q (subscribers_for_channel s channel)
        then waiting s q ++ payload bytes ∷ []
        else waiting s q)
unfolding publish
waiting-publish s channel bytes q r o = rw o (
    items-enqueue_all (payload bytes) (subscribers_for_channel s channel) q s.queues
      (r.distinct channel))

discard-IsDistinct : (p : QueueId) (qs : List QueueId) → IsDistinct qs → IsDistinct (discard p qs)
unfolding discard
discard-IsDistinct p [] h = tt
discard-IsDistinct p (q ∷ qs) h = ground (arith, discard-IsDistinct p qs h.1, member-discard p q qs)

add-IsDistinct : (p : QueueId) (qs : List QueueId) → IsDistinct qs → IsDistinct (add p qs)
unfolding add
add-IsDistinct p qs h = ground arith

abbrev registered : Option (List QueueId) → List QueueId
registered none = []
registered (some qs) = qs

subscribers_for_channel_lem :
    (s : Transport) (c : String) → subscribers_for_channel s c ≡ registered (get s.channels c)
unfolding subscribers_for_channel
subscribers_for_channel_lem s c = ground arith

-- Every call on the transport keeps the subscribers of each channel a set.
pub after-IsRegistered : (s : Transport) (c : Call) → IsRegistered s → IsRegistered (after s c)
unfolding after
after-IsRegistered s (Call.join fresh channel) r = record {
  distinct = λ c. rw subscribers_for_channel_lem (
      ground (
        arith,
        get-put s.channels channel c (add fresh (subscribers_for_channel s channel)),
        eq_iff channel c,
        add-IsDistinct fresh (subscribers_for_channel s channel) (r.distinct channel),
        r.distinct c,
        subscribers_for_channel_lem s c,
      ));
}
after-IsRegistered s (Call.leave channel queue) r = record {
  distinct = λ c. rw subscribers_for_channel_lem (
      ground (
        arith,
        get-put s.channels channel c (discard queue (subscribers_for_channel s channel)),
        get-remove s.channels channel c,
        eq_iff channel c,
        discard-IsDistinct queue (subscribers_for_channel s channel) (r.distinct channel),
        r.distinct c,
        subscribers_for_channel_lem s channel,
        subscribers_for_channel_lem s c,
      ));
}
after-IsRegistered s Call.shut r = record {
  distinct = λ c. ground (
    arith,
    r.distinct c,
    get-nil {V = List QueueId} c,
    subscribers_for_channel_lem s c,
    subscribers_for_channel_lem (after s Call.shut) c,
  );
}
after-IsRegistered s _ r = record {
  distinct = λ c. ground (arith, r.distinct c, subscribers_for_channel_lem s c);
}

-- The payloads of the messages that go to a channel, in the order in which they are sent.
abbrev pub addressed : String → List (String × List ℕ) → List Item
addressed channel [] = []
addressed channel ((c, bytes) ∷ sent) =
    if c == channel then payload bytes ∷ addressed channel sent else addressed channel sent

unfoldable pub publish_all : Transport → List (String × List ℕ) → Transport
publish_all s [] = s
publish_all s ((channel, bytes) ∷ sent) = publish_all (publish s channel bytes).1 sent

-- A queue that is subscribed to one channel only, on an open transport whose channels hold sets.
pub record IsSubscriberOf (s : Transport) (channel : String) (q : QueueId) : Type 0 where
  pub open_still : s.closed ≡ false
  pub sets : (c : String) → IsDistinct (subscribers_for_channel s c)
  pub only : (c : String) → member q (subscribers_for_channel s c) ≡ (c == channel)

publish-IsSubscriberOf :
    (s : Transport) (channel c : String) (bytes : List ℕ) (q : QueueId)
    → IsSubscriberOf s channel q
    → IsSubscriberOf (publish s c bytes).1 channel q
unfolding publish subscribers_for_channel
publish-IsSubscriberOf s channel c bytes q h = record {
  open_still = ground arith;
  sets = λ d. simp h.open_still (h.sets d);
  only = λ d. simp h.open_still (h.only d);
}

-- After any messages to any channels, the queue of a subscriber of one channel holds what it held
-- before and then the messages to its channel, each once, in the order in which they were sent.
pub waiting-publish_all :
    (s : Transport) (channel : String) (q : QueueId) (sent : List (String × List ℕ))
    → IsSubscriberOf s channel q
    → waiting (publish_all s sent) q ≡ waiting s q ++ addressed channel sent
unfolding publish_all
waiting-publish_all s channel q [] h = sym (append-nil (waiting s q))
waiting-publish_all s channel q ((c, bytes) ∷ sent) h = ground (
  arith,
  waiting-publish_all (publish s c bytes).1 channel q sent
      (publish-IsSubscriberOf s channel c bytes q h),
  waiting-publish s c bytes q (record { distinct = h.sets }) h.open_still,
  h.only c,
  append_assoc (waiting s q) (payload bytes ∷ []) (addressed channel sent),
)
