-- ===== src/Transport/Leases.antt =====
-- Who holds a lease: the operations of core/mission/transports/local.py as calls on a transport,
-- and what holds along every sequence of them.
use jarvis.Prelude.{
  ℕ, ◌+◌, ◌*◌, ◌≤◌, ◌<◌, String, ◌≡◌, false, Option, none, some, List, [], ◌∷◌, nat_eq, string_eq,
  ok, arith, eq_iff, true, All, ◌↔◌,
}
use jarvis.Prelude.Dict.{get, get-put, get-remove, get-put_self, get-remove_self}
use jarvis.Transport.{
  Transport, LeaseEntry, Token, QueueId, second, lease, renew_lease, release_lease, publish,
  subscribe, unregister_subscriber, close,
}

-- A call on the transport by anyone.
pub data Call : Type 0 where
  acquire : (now : ℕ) (fresh : Token) (key : String) (ttl_seconds : ℕ) → Call
  renew : (now : ℕ) (key : String) (token : Token) (ttl_seconds : ℕ) → Call
  release : (key : String) (token : Token) → Call
  send : (channel : String) (bytes : List ℕ) → Call
  join : (fresh : QueueId) (channel : String) → Call
  leave : (channel : String) (queue : QueueId) → Call
  shut : Call

unfoldable pub after : Transport → Call → Transport
unfolding lease renew_lease release_lease publish subscribe unregister_subscriber close
after s (acquire now fresh key ttl) = (lease now fresh s key ttl).1
after s (renew now key token ttl) = (renew_lease now s key token ttl).1
after s (release key token) = release_lease s key token
after s (send channel bytes) = (publish s channel bytes).1
after s (join fresh channel) = (subscribe fresh s channel).1
after s (leave channel queue) = unregister_subscriber s channel queue
after s shut = close s

unfoldable pub after_all : Transport → List Call → Transport
after_all s [] = s
after_all s (c ∷ cs) = after_all (after s c) cs

abbrev pub IsLease : (token : Token) (until : ℕ) → Option LeaseEntry → Type 0
IsLease token until none = ⊥
IsLease token until (some e) = (e.token ≡ token) × (until ≤ e.expires_at)

abbrev pub IsFree : (now : ℕ) → Option LeaseEntry → Type 0
IsFree now none = Unit
IsFree now (some e) = e.expires_at ≤ now

-- `key` is leased with `token` until `until` at least.
pub record HeldUntil (s : Transport) (key : String) (token : Token) (until : ℕ) : Type 0 where
  pub open_still : s.closed ≡ false
  pub entry : IsLease token until (get s.leases key)

-- A call that comes before `until`, and is no close, no release with this token, and no renewal
-- with this token that ends before `until`.
abbrev pub Respects : (until : ℕ) (token : Token) → Call → Type 0
Respects until token (acquire now fresh key ttl) = now < until
Respects until token (renew now key t ttl) =
    t ≡ token → (now < until) × (until ≤ now + ttl * second)
Respects until token (release key t) = t ≡ token → ⊥
Respects until token shut = ⊥
Respects until token _ = Unit

module _ (s : Transport) (key : String) (token : Token) (until : ℕ) where
  -- A held key is refused to everybody.
  pub lease-held :
      (now : ℕ) (fresh : Token) (ttl : ℕ)
      → HeldUntil s key token until
      → now < until
      → 0 < ttl
      → lease now fresh s key ttl ≡ (ok none, s)
  unfolding lease
  lease-held now fresh ttl h p q = ground arith

  after-HeldUntil :
      (c : Call)
      → Respects until token c
      → HeldUntil s key token until
      → HeldUntil (after s c) key token until
  unfolding after
  after-HeldUntil (acquire now fresh k ttl) r h = ground (
    arith,
    get-put s.leases k key (record { token = fresh; expires_at = now + ttl * second }),
    eq_iff k key,
  )
  after-HeldUntil (renew now k t ttl) r h = ground (
    arith,
    get-put s.leases k key (record { token = t; expires_at = now + ttl * second }),
    get-remove s.leases k key,
    eq_iff k key,
  )
  after-HeldUntil (release k t) r h = ground (arith, get-remove s.leases k key, eq_iff k key)
  after-HeldUntil (send channel bytes) r h = ground arith
  after-HeldUntil shut r h = absurd r
  after-HeldUntil _ r h = ground arith

pub after_all-HeldUntil :
    (s : Transport) (key : String) (token : Token) (until : ℕ) (cs : List Call)
    → All (Respects until token) cs
    → HeldUntil s key token until
    → HeldUntil (after_all s cs) key token until
unfolding after_all
after_all-HeldUntil s key token until [] r h = h
after_all-HeldUntil s key token until (c ∷ cs) r h =
    after_all-HeldUntil (after s c) key token until cs r.1
      (after-HeldUntil s key token until c r.0 h)

pub lease-HeldUntil :
    (s t : Transport) (key : String) (token : Token) (now ttl : ℕ)
    → lease now token s key ttl ≡ (ok (some token), t)
    → HeldUntil t key token (now + ttl * second)
unfolding lease
lease-HeldUntil s t key token now ttl h =
    ground
      (arith, get-put_self s.leases key (record { token = token; expires_at = now + ttl * second }))

-- A lease that was given keeps everybody else out for its whole time: after any calls by anyone,
-- all before the lease ends, that neither close the transport, nor release the lease's token, nor
-- renew it for a shorter time, every further attempt before the end is answered by None and changes
-- nothing.
pub lease-lease_exclusive :
    (s t : Transport) (key : String) (token : Token) (now ttl : ℕ) (cs : List Call) (later : ℕ)
    (other : Token) (other_ttl : ℕ)
    → lease now token s key ttl ≡ (ok (some token), t)
    → All (Respects (now + ttl * second) token) cs
    → later < now + ttl * second
    → 0 < other_ttl
    → lease later other (after_all t cs) key other_ttl ≡ (ok none, after_all t cs)
lease-lease_exclusive s t key token now ttl cs later other other_ttl given r h p =
    lease-held (after_all t cs) key token (now + ttl * second) later other other_ttl
      (after_all-HeldUntil t key token (now + ttl * second) cs r
        (lease-HeldUntil s t key token now ttl given))
      h p

-- When a lease attempt succeeds: exactly if the time asked for is positive, the transport is open,
-- and the key has no entry or an entry that has run out.
pub lease-some_iff :
    (s : Transport) (key : String) (fresh : Token) (now ttl : ℕ)
    → ((lease now fresh s key ttl).0 ≡ ok (some fresh))
      ↔ ((0 < ttl) × (s.closed ≡ false) × IsFree now (get s.leases key))
unfolding lease
lease-some_iff s key fresh now ttl = (λ h. ground arith, λ h. ground arith)

-- When a renewal succeeds: exactly if the transport is open, the time asked for is positive, and
-- the key is leased with the given token at that instant; the lease then lasts for the new time.
pub renew_lease-true_iff :
    (s : Transport) (key : String) (token : Token) (now ttl : ℕ)
    → (((renew_lease now s key token ttl).0 ≡ ok true)
        ↔ ((0 < ttl) × (s.closed ≡ false) × IsLease token (now + 1) (get s.leases key)))
      × ((renew_lease now s key token ttl).0 ≡ ok true
          → HeldUntil (renew_lease now s key token ttl).1 key token (now + ttl * second))
unfolding renew_lease
renew_lease-true_iff s key token now ttl = (
  (λ h. ground arith, λ h. ground arith),
  λ h. ground (
    arith,
    get-put_self s.leases key (record { token = token; expires_at = now + ttl * second }),
  ),
)

-- A release with the holder's token frees the key at once, and with any other token it changes
-- nothing.
pub release_lease-get :
    (s : Transport) (key : String) (token : Token)
    → (IsLease token 0 (get s.leases key) → get (release_lease s key token).leases key ≡ none)
      × ((IsLease token 0 (get s.leases key) → ⊥) → release_lease s key token ≡ s)
unfolding release_lease
release_lease-get s key token =
    (λ h. ground (arith, get-remove_self s.leases key), λ h. ground arith)
