-- ===== src/Leader/Campaigns.antt =====
-- The campaign of core/mission/leader_election.py: how it ends.
use jarvis.Prelude.{
  ℕ, List, [], ◌∷◌, Option, none, some, arith, ◌<◌, ◌≡◌, ◌+◌, ◌≤◌, length, ◌≢◌, ◌⊎◌,
}
use jarvis.Transport.{Transport, Token}
use jarvis.Transport
use jarvis.Leader.{
  LeaderRole, leader, released, Candidate, Wait, slept, cancelled, CampaignEnd, returned, raised,
  cancellation, still_running, campaign_loop, renew, is_leader, try_acquire, campaign, is_candidate,
  candidate, true, ok, false,
}
use jarvis.Transport.Leases.{after_all}

abbrev pub Leads : Option Token → LeaderRole → Type 0
Leads none r = ⊥
Leads (some token) r = r ≡ leader

-- How a campaign may end, and the candidate that it leaves.
abbrev pub EndsWell : CampaignEnd → Candidate → Type 0
EndsWell (returned leader) c = Leads c.token c.role
EndsWell (returned r) c = (c.role ≡ r) × (c.token ≡ none)
EndsWell (raised e) c = ⊥
EndsWell cancellation c = (c.role ≡ released) × (c.token ≡ none)
EndsWell still_running c = Leads c.token c.role

campaign_loop-EndsWell :
    (m : Option ℕ) (i : ℕ) (waits : List Wait) (t : Transport) (c : Candidate)
    → Leads c.token c.role
    → 0 < c.ttl_seconds
    → EndsWell (campaign_loop m i waits t c).0 (campaign_loop m i waits t c).2
unfolding campaign_loop is_leader Transport.renew_lease
campaign_loop-EndsWell m i [] t c l p = ground arith
campaign_loop-EndsWell m i (cancelled calls ∷ waits) t c l p = ground arith
campaign_loop-EndsWell m i (slept calls now ∷ waits) t c l p = ground (
  arith,
  campaign_loop-EndsWell m (i + 1) waits (renew now (after_all t calls) c).1
      (renew now (after_all t calls) c).2,
)

try_acquire-ends :
    (now : ℕ) (fresh : Token) (t : Transport) (c : Candidate)
    → 0 < c.ttl_seconds
    → is_candidate c.role ≡ true
    → (((try_acquire now fresh t c).0 ≡ ok true)
        × Leads (try_acquire now fresh t c).2.token (try_acquire now fresh t c).2.role
        × ((try_acquire now fresh t c).2.ttl_seconds ≡ c.ttl_seconds)
        × (Transport.lease now fresh t c.lease_key c.ttl_seconds
            ≡ (ok (some fresh), (try_acquire now fresh t c).1)))
      ⊎ (((try_acquire now fresh t c).0 ≡ ok false)
          × ((try_acquire now fresh t c).2.token ≡ none)
          × ((try_acquire now fresh t c).2.role ≢ leader))
unfolding try_acquire Transport.lease
try_acquire-ends now fresh t c p r = grind arith

-- A campaign of a fresh candidate, with a positive lease time and interval, ends in one of these
-- ways only, whatever others do while it sleeps: it returns LEADER and holds a token; it returns
-- another role, which is then its own, and holds none; it is cancelled, is RELEASED and holds none;
-- or it is still running and leads. It never raises anything but the cancellation.
pub campaign-EndsWell :
    (m : Option ℕ) (waits : List Wait) (now : ℕ) (fresh : Token) (t : Transport) (c : Candidate)
    → c.role ≡ candidate
    → 0 < c.ttl_seconds
    → EndsWell (campaign true m waits now fresh t c).0 (campaign true m waits now fresh t c).2
unfolding campaign
campaign-EndsWell m waits now fresh t c r p = ground (
  arith,
  try_acquire-ends now fresh t c p,
  campaign_loop-EndsWell m 0 waits (try_acquire now fresh t c).1 (try_acquire now fresh t c).2,
)

campaign_loop-ne-still_running :
    (n i : ℕ) (waits : List Wait) (t : Transport) (c : Candidate)
    → n ≤ i + length waits
    → (campaign_loop (some n) i waits t c).0 ≢ still_running
unfolding campaign_loop
campaign_loop-ne-still_running n i [] t c h = ground arith
campaign_loop-ne-still_running n i (cancelled calls ∷ waits) t c h = ground arith
campaign_loop-ne-still_running n i (slept calls now ∷ waits) t c h = ground (
  arith,
  campaign_loop-ne-still_running n (i + 1) waits (renew now (after_all t calls) c).1
      (renew now (after_all t calls) c).2,
)

-- With a limit of n iterations a campaign stops after at most n waits.
pub campaign-ne-still_running :
    (n : ℕ) (waits : List Wait) (now : ℕ) (fresh : Token) (t : Transport) (c : Candidate)
    → n ≤ length waits
    → (campaign true (some n) waits now fresh t c).0 ≢ still_running
unfolding campaign
campaign-ne-still_running n waits now fresh t c h = ground (
  arith,
  campaign_loop-ne-still_running n 0 waits (try_acquire now fresh t c).1
      (try_acquire now fresh t c).2,
)
