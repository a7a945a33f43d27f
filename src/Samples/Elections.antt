-- ===== src/Samples/Elections.antt =====
-- Runs of core/mission/leader_election.py.
use jarvis.Prelude.{
  [], ◌∷◌, none, some, ok, true, false, refl, nat_eq, string_eq, List, arith, ◌≡◌, ◌*◌,
}
use jarvis.Prelude.Dict.{get, put}
use jarvis.Transport
use jarvis.Transport.{Transport, opened, second}
use jarvis.Transport.Leases.{Call, acquire, release, after, after_all}
use jarvis.Leader.{
  Candidate, candidate, follower, leader, try_acquire, campaign, Wait, slept, cancelled,
}
use jarvis.Leader.Terms.{try_acquire-rival}
use jarvis.Leader.Campaigns.{EndsWell, campaign-EndsWell}

abbrev fresh_candidate : Candidate
fresh_candidate = record { lease_key = "m"; ttl_seconds = 10; role = candidate; token = none }

abbrev winner : Candidate
winner = record fresh_candidate { role = leader; token = some 7 }

abbrev leased : Transport
leased = record opened { leases = ("m", record { token = 7; expires_at = 10 * second }) ∷ [] }

try_acquire-opened : try_acquire 0 7 opened fresh_candidate ≡ (ok true, leased, winner)
unfolding try_acquire Transport.lease get put
try_acquire-opened = refl

abbrev noise : List Call
noise = acquire 3 8 "m" 5 ∷ release "m" 8 ∷ []

noise-closed : (after_all leased noise).closed ≡ false
unfolding after_all after get
noise-closed = refl

try_acquire-rival_example :
    try_acquire 5 9 (after_all leased noise) fresh_candidate
    ≡ (ok false, after_all leased noise, record fresh_candidate { role = follower; token = none })
try_acquire-rival_example =
    try_acquire-rival 0 7 opened leased fresh_candidate winner fresh_candidate noise 5 9
      try_acquire-opened (omega arith) (omega arith) refl (omega arith) refl noise-closed

abbrev waits : List Wait
waits = slept noise (3 * second) ∷ slept [] (6 * second) ∷ cancelled [] ∷ []

campaign-EndsWell_example :
    EndsWell
      (campaign true none waits 0 7 opened fresh_candidate).0
      (campaign true none waits 0 7 opened fresh_candidate).2
campaign-EndsWell_example =
    campaign-EndsWell none waits 0 7 opened fresh_candidate refl (omega arith)
