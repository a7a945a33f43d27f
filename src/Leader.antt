-- ===== src/Leader.antt =====
-- core/mission/leader_election.py: one candidate in one election, over the in-process transport.
-- The instant and the fresh token of a lease attempt are arguments, as in `Transport`.
pub mod Roles
pub mod Terms
pub mod Campaigns
use jarvis.Prelude.{
  string_eq, nat_eq, [], ◌∷◌, ℕ, none, String, Result, List, Option, Bool, raise, false, some, true,
  if◌then◌else◌, ok, ◌+◌, ◌==◌, leb,
}
use jarvis.Transport
use jarvis.Transport.{Transport, TransportError, Token}
use jarvis.Transport.Leases.{Call, after_all}

pub data LeaderRole : Type 0 where
  candidate follower leader stepped_down released closed : LeaderRole

pub data ElectionError : Type 0 where
  misuse : ElectionError
  transport_error : TransportError → ElectionError

pub record Candidate : Type 0 where
  pub lease_key : String
  pub ttl_seconds : ℕ
  pub role : LeaderRole
  pub token : Option Token

-- The constructor. A time to live of zero or less is one case, 0.
unfoldable pub new_candidate : Transport → String → ℕ → Result ElectionError Candidate
new_candidate t lease_key ttl_seconds =
    if lease_key == ""
    then raise misuse
    else if ttl_seconds == 0
    then raise misuse
    else if t.closed
    then raise misuse
    else ok (record {
      lease_key = lease_key;
      ttl_seconds = ttl_seconds;
      role = candidate;
      token = none;
    })

unfoldable pub is_leader : Candidate → Bool
is_leader c = elim c.role [ leader ↦ true | _ ↦ false ]

abbrev pub re_acquirable : LeaderRole → Bool
re_acquirable candidate = true
re_acquirable follower = true
re_acquirable _ = false

-- What a method returns: its value or exception, the transport and the candidate after it.
abbrev pub Outcome : Type 0 → Type 0
Outcome A = Result ElectionError A × Transport × Candidate

take_lease : Candidate → Result TransportError (Option Token) × Transport → Outcome Bool
take_lease c (raise e, t) = (raise (transport_error e), t, c)
take_lease c (ok none, t) = (ok false, t, record c { role = follower; token = none })
take_lease c (ok (some token), t) = (ok true, t, record c { role = leader; token = some token })

unfoldable pub try_acquire : (now : ℕ) (fresh : Token) → Transport → Candidate → Outcome Bool
unfolding take_lease
try_acquire now fresh t c =
    if re_acquirable c.role
    then (if t.closed
        then (ok false, t, record c { role = closed; token = none })
        else take_lease c (Transport.lease now fresh t c.lease_key c.ttl_seconds))
    else (raise misuse, t, c)

keep_lease : Candidate → Result TransportError Bool × Transport → Outcome Bool
keep_lease c (raise e, t) = (raise (transport_error e), t, c)
keep_lease c (ok true, t) = (ok true, t, c)
keep_lease c (ok false, t) = (ok false, t, record c { role = stepped_down; token = none })

-- `assert self._token is not None` raises when there is no token.
renew_token : (now : ℕ) → Transport → Candidate → Option Token → Outcome Bool
unfolding keep_lease
renew_token now t c none = (raise misuse, t, c)
renew_token now t c (some token) =
    keep_lease c (Transport.renew_lease now t c.lease_key token c.ttl_seconds)

unfoldable pub renew : (now : ℕ) → Transport → Candidate → Outcome Bool
unfolding is_leader renew_token
renew now t c =
    if is_leader c
    then (if t.closed
        then (ok false, t, record c { role = closed; token = none })
        else renew_token now t c c.token)
    else (ok false, t, c)

release_token : Transport → Candidate → Option Token → Transport
release_token t c none = t
release_token t c (some token) =
    if is_leader c then (if t.closed then t else Transport.release_lease t c.lease_key token) else t

abbrev pub released_role : LeaderRole → LeaderRole
released_role closed = closed
released_role _ = released

unfoldable pub release : Transport → Candidate → Transport × Candidate
unfolding is_leader release_token
release t c = (release_token t c c.token, record c { token = none; role = released_role c.role })

-- While the campaign sleeps, others call the transport; then it is cancelled, or wakes.
pub data Wait : Type 0 where
  slept : (calls : List Call) (now : ℕ) → Wait
  cancelled : (calls : List Call) → Wait

pub data CampaignEnd : Type 0 where
  returned : LeaderRole → CampaignEnd
  raised : ElectionError → CampaignEnd
  cancellation : CampaignEnd
  -- The waits that are given have all been used, and the loop goes on.
  still_running : CampaignEnd

abbrev pub limit_reached : Option ℕ → ℕ → Bool
limit_reached none iteration = false
limit_reached (some max_iterations) iteration = leb max_iterations iteration

-- What the loop does with the result of a renewal; `again` goes round.
after_renew :
    Outcome Bool
    → (Transport → Candidate → CampaignEnd × Transport × Candidate)
    → CampaignEnd × Transport × Candidate
after_renew (raise e, t, c) again = (raised e, t, c)
after_renew (ok true, t, c) again = again t c
after_renew (ok false, t, c) again = (returned c.role, t, c)

-- The `while True` loop, over the waits.
unfoldable pub campaign_loop :
    (max_iterations : Option ℕ) (iteration : ℕ)
    → List Wait
    → Transport
    → Candidate
    → CampaignEnd × Transport × Candidate
unfolding after_renew renew release
campaign_loop m iteration [] t c =
    if limit_reached m iteration then (returned leader, t, c) else (still_running, t, c)
campaign_loop m iteration (cancelled calls ∷ waits) t c =
    if limit_reached m iteration
    then (returned leader, t, c)
    else (let (t', c') = release (after_all t calls) c in (cancellation, t', c'))
campaign_loop m iteration (slept calls now ∷ waits) t c =
    if limit_reached m iteration
    then (returned leader, t, c)
    else after_renew (renew now (after_all t calls) c) (campaign_loop m (iteration + 1) waits)

first_lease :
    Outcome Bool
    → (Transport → Candidate → CampaignEnd × Transport × Candidate)
    → CampaignEnd × Transport × Candidate
first_lease (raise e, t, c) loop = (raised e, t, c)
first_lease (ok true, t, c) loop = loop t c
first_lease (ok false, t, c) loop = (returned c.role, t, c)

abbrev pub is_candidate : LeaderRole → Bool
is_candidate candidate = true
is_candidate _ = false

-- `interval_ok`: `renew_interval` is left out, or a positive number.
unfoldable pub campaign :
    (interval_ok : Bool) (max_iterations : Option ℕ)
    → List Wait
    → (now : ℕ) (fresh : Token) → Transport
    → Candidate
    → CampaignEnd × Transport × Candidate
unfolding first_lease campaign_loop try_acquire
campaign interval_ok m waits now fresh t c =
    if is_candidate c.role
    then (if interval_ok
        then first_lease (try_acquire now fresh t c) (campaign_loop m 0 waits)
        else (raised misuse, t, c))
    else (raised misuse, t, c)
