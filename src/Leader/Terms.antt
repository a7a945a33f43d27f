-- ===== src/Leader/Terms.antt =====
-- Rival candidates of core/mission/leader_election.py for one lease key.
use jarvis.Prelude.{
  string_eq, nat_eq, ℕ, List, some, true, false, arith, All, ◌≡◌, ◌<◌, ◌≢◌, ◌+◌, ◌*◌,
}
use jarvis.Prelude.Dict.{get, get-put_self}
use jarvis.Transport.{Transport, Token, second}
use jarvis.Transport.Leases.{Call, after_all, Respects, lease-lease_exclusive, IsFree}
use jarvis.Transport
use jarvis.Leader.{
  leader, follower, stepped_down, Candidate, re_acquirable, try_acquire, renew, is_leader, ok, none,
}

try_acquire-lease :
    (now : ℕ) (token : Token) (t t' : Transport) (c c' : Candidate)
    → try_acquire now token t c ≡ (ok true, t', c')
    → Transport.lease now token t c.lease_key c.ttl_seconds ≡ (ok (some token), t')
unfolding try_acquire Transport.lease
try_acquire-lease now token t t' c c' h = ground arith

-- Split-brain prevention within a term: once a candidate has won the key, every attempt of a rival
-- on the same key before the lease time is over fails and leaves the rival a follower, whatever
-- calls were made on the transport in between, if none of them closes it, releases the winner's
-- token or renews it for a shorter time, and all come before the end.
pub try_acquire-rival :
    (now : ℕ) (token : Token) (t t' : Transport) (c c' rival : Candidate) (calls : List Call)
    (later : ℕ) (other : Token)
    → try_acquire now token t c ≡ (ok true, t', c')
    → All (Respects (now + c.ttl_seconds * second) token) calls
    → later < now + c.ttl_seconds * second
    → rival.lease_key ≡ c.lease_key
    → 0 < rival.ttl_seconds
    → re_acquirable rival.role ≡ true
    → (after_all t' calls).closed ≡ false
    → try_acquire later other (after_all t' calls) rival
      ≡ (ok false, after_all t' calls, record rival { role = follower; token = none })
unfolding try_acquire
try_acquire-rival now token t t' c c' rival calls later other won r h key pos free open_still =
    let refused =
      lease-lease_exclusive t t' c.lease_key token now c.ttl_seconds calls later other
        rival.ttl_seconds (try_acquire-lease now token t t' c c' won) r h pos in
    ground (arith, refused)

-- Failover: when the lease of a leader has run out, the first attempt of a rival with another token
-- succeeds, although the old leader still reports to be the leader; the old leader's next renewal
-- fails, changes nothing in the transport and makes it step down.
pub try_acquire-takeover :
    (now later : ℕ) (token fresh : Token) (t : Transport) (old rival : Candidate)
    → t.closed ≡ false
    → old.role ≡ leader
    → old.token ≡ some token
    → IsFree now (get t.leases old.lease_key)
    → rival.lease_key ≡ old.lease_key
    → 0 < rival.ttl_seconds
    → 0 < old.ttl_seconds
    → re_acquirable rival.role ≡ true
    → fresh ≢ token
    → ((try_acquire now fresh t rival).0 ≡ ok true)
      × (is_leader (try_acquire now fresh t rival).2 ≡ true)
      × (is_leader old ≡ true)
      × (renew later (try_acquire now fresh t rival).1 old ≡ (
        ok false,
        (try_acquire now fresh t rival).1,
        record old { role = stepped_down; token = none },
      ))
unfolding try_acquire renew Transport.lease Transport.renew_lease is_leader
try_acquire-takeover now later token fresh t old rival o r tk free key pos pos' re ne = ground (
  arith,
  get-put_self t.leases old.lease_key
      (record { token = fresh; expires_at = now + rival.ttl_seconds * second }),
)
