-- ===== src/Consensus.antt =====
-- core/runtime/consensus.py: proposals, signed votes and their resolution. An instant is a whole
-- number of microseconds. The federation's peers and the vault's secret are read anew at each
-- call, so they are arguments of it; `sign` stands for HMAC-SHA256 in hexadecimal over the text that is
-- signed, and `to_sign` for that text. The event that announces a resolution is left out.
pub mod Votes
use jarvis.Prelude.{
  string_eq, nat_eq, ℕ, String, [], ◌∷◌, none, some, Bool, if◌then◌else◌, Result, ◌/◌, true, Option,
  not, List, ◌==◌, length, false, ok, add, map, raise, ◌+◌, ltb, ◌*◌, ◌-◌, leb, ◌&&◌,
}
use jarvis.Prelude.Dict.{Dict, get, put}

pub data ProposalStatus : Type 0 where
  pending approved rejected expired : ProposalStatus

pub data ConsensusError : Type 0 where
  not_found invalid_signature : ConsensusError

abbrev pub NodeId : Type 0
NodeId = ℕ

pub record Proposal : Type 0 where
  pub proposer_node_id : NodeId
  pub status : ProposalStatus
  pub votes : Dict NodeId Bool
  pub yes_votes : ℕ
  pub no_votes : ℕ
  pub expires_at : ℕ

pub record Federation : Type 0 where
  pub peers : List NodeId
  pub local_node_id : NodeId

-- What the vault and the HMAC give.
pub record Signing : Type 0 where
  pub sign : (secret : String) (proposal_id : ℕ) (voter_node_id : NodeId) (vote : Bool) → String
  pub secret : Option String

abbrev pub Proposals : Type 0
Proposals = Dict ℕ Proposal

unfoldable pub union : List NodeId → List NodeId → List NodeId
union [] ids = ids
union (k ∷ ks) ids = union ks (add k ids)

-- The ids of the peers, the local node, the proposer and the voters, each once.
unfoldable pub members : Federation → Proposal → List NodeId
unfolding union
members f p =
    union (map (λ v. v.0) p.votes) (add p.proposer_node_id (add f.local_node_id (union f.peers [])))

abbrev pub majority : ℕ → ℕ
majority n = n / 2 + 1

abbrev pub is_pending : ProposalStatus → Bool
is_pending pending = true
is_pending _ = false

unfoldable pub check_resolution : Federation → Proposal → Proposal
check_resolution f p =
    if is_pending p.status
    then (let n = length (members f p) in
        if leb (majority n) p.yes_votes
        then record p { status = approved }
        else if ltb (n - majority n) p.no_votes
        then record p { status = rejected }
        else p)
    else p

abbrev pub second : ℕ
second = 1_000_000

unfoldable pub create_proposal :
    (now fresh_id : ℕ) → Federation → NodeId → Proposals → Proposal × Proposals
create_proposal now fresh_id f proposer ps =
    let p = check_resolution f (record {
      proposer_node_id = proposer;
      status = pending;
      votes = (proposer, true) ∷ [];
      yes_votes = 1;
      no_votes = 0;
      expires_at = now + 30 * second;
    }) in
    (p, put ps fresh_id p)

abbrev pub is_vote : Bool → Bool → Bool
is_vote true v = v
is_vote false v = not v

-- The counts, by the voter's previous vote.
unfoldable pub count_vote : Option Bool → Bool → Proposal → Proposal
count_vote none true p = record p { yes_votes = p.yes_votes + 1 }
count_vote none false p = record p { no_votes = p.no_votes + 1 }
count_vote (some before) vote p =
    if is_vote before vote
    then p
    else if vote
    then record p { yes_votes = p.yes_votes + 1; no_votes = p.no_votes - 1 }
    else record p { no_votes = p.no_votes + 1; yes_votes = p.yes_votes - 1 }

-- `secret or "default_shared_secret"`
abbrev pub secret_of : Option String → String
secret_of none = "default_shared_secret"
secret_of (some s) = if s == "" then "default_shared_secret" else s

vote_counted : Federation → NodeId → Bool → Proposal → Proposal
unfolding count_vote check_resolution
vote_counted f voter vote p =
    check_resolution f
      (count_vote (get p.votes voter) vote (record p { votes = put p.votes voter vote }))

-- The vote on a proposal that exists: the proposal after it, or the error.
unfoldable pub vote_on :
    (now : ℕ)
    → Federation
    → Signing
    → (proposal_id : ℕ) → NodeId
    → Bool
    → (signature : String) → Proposal
    → Result ConsensusError Proposal
unfolding vote_counted
vote_on now f k proposal_id voter vote signature p =
    if ltb p.expires_at now
    then ok (record p { status = expired })
    else if is_pending p.status
    then (if k.sign (secret_of k.secret) proposal_id voter vote == signature
        then ok (vote_counted f voter vote p)
        else raise invalid_signature)
    else ok p

store_vote :
    ℕ → Result ConsensusError Proposal → Proposals → Result ConsensusError Proposal × Proposals
store_vote proposal_id (ok p) ps = (ok p, put ps proposal_id p)
store_vote proposal_id (raise e) ps = (raise e, ps)

unfoldable pub cast_vote :
    (now : ℕ)
    → Federation
    → Signing
    → (proposal_id : ℕ) → NodeId
    → Bool
    → (signature : String) → Proposals
    → Result ConsensusError Proposal × Proposals
unfolding store_vote
cast_vote now f k proposal_id voter vote signature ps = elim (get ps proposal_id) [
  | none ↦ (raise not_found, ps)
  | some p ↦ store_vote proposal_id (vote_on now f k proposal_id voter vote signature p) ps
]

unfoldable pub get_proposal_status :
    (now proposal_id : ℕ) → Proposals → Result ConsensusError Proposal × Proposals
get_proposal_status now proposal_id ps = elim (get ps proposal_id) [
  | none ↦ (raise not_found, ps)
  | some p ↦
      if is_pending p.status && ltb p.expires_at now
      then (ok (record p { status = expired }), put ps proposal_id (record p { status = expired }))
      else (ok p, ps)
]
