-- ===== src/Consensus/Votes.antt =====
-- The counts of core/runtime/consensus.py are those of the votes, and what a resolution rests on.
use jarvis.Prelude.{
  ℕ, string_eq, nat_eq, [], ◌∷◌, none, some, String, arith, Bool, ◌≡◌, if◌then◌else◌, ok, true,
  Option, ◌+◌, suc, false, ◌<◌, length, ◌≤◌, ◌↔◌, ◌≢◌, raise, ◌*◌, eq_iff, Any, ◌⊎◌, inl, inr, map,
  List, Once, member, add, Bool-cases, ◌==◌, refl,
}
use jarvis.Prelude.Dict.{Dict, get, put}
use jarvis.Prelude.Missing.{member-add}
use jarvis.Consensus.{
  union, NodeId, Proposal, pending, approved, rejected, expired, Federation, Signing,
  invalid_signature, members, check_resolution, cast_vote, count_vote, vote_on, secret_of, is_vote,
}

-- How many votes are `v`.
unfoldable pub count : Bool → Dict NodeId Bool → ℕ
count v [] = 0
count v ((k, w) ∷ votes) = if is_vote v w then suc (count v votes) else count v votes

-- The counts agree with the votes.
pub record IsCounted (p : Proposal) : Type 0 where
  pub yes_is : p.yes_votes ≡ count true p.votes
  pub no_is : p.no_votes ≡ count false p.votes

abbrev was : Bool → Option Bool → ℕ
was v none = 0
was v (some w) = if is_vote v w then 1 else 0

-- A vote replaces the voter's previous one.
count-put :
    (v w : Bool) (k : NodeId) (votes : Dict NodeId Bool)
    → count v (put votes k w) + was v (get votes k) ≡ count v votes + was v (some w)
unfolding count put get
count-put v w k [] = ground arith
count-put v w k ((j, x) ∷ votes) = ground (arith, count-put v w k votes)

check_resolution-IsCounted :
    (f : Federation) (p : Proposal) → IsCounted p → IsCounted (check_resolution f p)
unfolding check_resolution
check_resolution-IsCounted f p c = ground arith

count_vote-IsCounted :
    (voter : NodeId) (vote : Bool) (p : Proposal)
    → IsCounted p
    → IsCounted (count_vote (get p.votes voter) vote (record p { votes = put p.votes voter vote }))
unfolding count_vote
count_vote-IsCounted voter vote p c =
    ground (arith, count-put true vote voter p.votes, count-put false vote voter p.votes)

-- No vote counts twice, and a changed vote is moved: after any answer to a vote, the yes and no
-- counts are the numbers of nodes whose last accepted vote is yes and no, if they were before.
pub vote_on-IsCounted :
    (now : ℕ) (f : Federation) (k : Signing) (id voter : ℕ) (vote : Bool) (signature : String)
    (p q : Proposal)
    → IsCounted p
    → vote_on now f k id voter vote signature p ≡ ok q
    → IsCounted q
unfolding vote_on
vote_on-IsCounted now f k id voter vote signature p q c h =
    let counted =
      count_vote (get p.votes voter) vote (record p { votes = put p.votes voter vote }) in
    ground (arith, check_resolution-IsCounted f counted, count_vote-IsCounted voter vote p c)

-- The nodes that may vote: a peer, the local node, the proposer, or a node that has voted.
abbrev pub IsMember : Federation → Proposal → NodeId → Type 0
IsMember f p k =
    Any (λ peer. peer ≡ k) f.peers
    ⊎ (f.local_node_id ≡ k)
    ⊎ (p.proposer_node_id ≡ k)
    ⊎ Any (λ v. v ≡ k) (map (λ v. v.0) p.votes)

-- A list of the members, each once.
abbrev pub Lists : Federation → Proposal → List NodeId → Type 0
Lists f p ns = Once ns × ((k : NodeId) → (member k ns ≡ true) ↔ IsMember f p k)

add-Once : (k : NodeId) (ids : List NodeId) → Once ids → Once (add k ids)
unfolding add
add-Once k ids h = ground (arith, h)

union-Once : (ks ids : List NodeId) → Once ids → Once (union ks ids)
unfolding union
union-Once [] ids h = h
union-Once (k ∷ ks) ids h = union-Once ks (add k ids) (add-Once k ids h)

added :
    (k j : NodeId) (ids : List NodeId)
    → (member j (add k ids) ≡ true) ↔ ((k ≡ j) ⊎ (member j ids ≡ true))
added k j ids = rw (member-add j k ids) (elim (Bool-cases (k == j)) [
  | inl e ↦ rw e (λ h. inl ((nat_eq.same_iff k j).0 e), λ h. refl)
  | inr e ↦ rw e (
    λ h. inr h,
    λ h. elim h [
      | inl is ↦ absurd (ground (arith, e, (nat_eq.same_iff k j).1 is))
      | inr in_ids ↦ in_ids
    ],
  )
])

united :
    (ks : List NodeId) (j : NodeId) (ids : List NodeId)
    → (member j (union ks ids) ≡ true) ↔ (Any (λ k. k ≡ j) ks ⊎ (member j ids ≡ true))
unfolding union
united [] j ids = (λ h. inr h, λ h. elim h [ inl no_one ↦ absurd no_one | inr in_ids ↦ in_ids ])
united (k ∷ ks) j ids =
    let one = added k j ids in
    let rest = united ks j (add k ids) in
    (
      λ h. elim (rest.0 h) [
        | inl later ↦ inl (inr later)
        | inr here ↦ elim (one.0 here) [ inl is ↦ inl (inl is) | inr in_ids ↦ inr in_ids ]
      ],
      λ h. elim h [
        | inl some_k ↦ elim some_k [
          | inl is ↦ rest.1 (inr (one.1 (inl is)))
          | inr later ↦ rest.1 (inl later)
        ]
        | inr in_ids ↦ rest.1 (inr (one.1 (inr in_ids)))
      ],
    )

members-Lists : (f : Federation) (p : Proposal) → Lists f p (members f p)
unfolding members member
members-Lists f p =
    let peers = union f.peers [] in
    let two = add f.local_node_id peers in
    let three = add p.proposer_node_id two in
    (
      union-Once (map (λ v. v.0) p.votes) three (
          add-Once p.proposer_node_id two
            (add-Once f.local_node_id peers (union-Once f.peers [] tt))),
      λ k.
          let by_votes = united (map (λ v. v.0) p.votes) k three in
          let by_proposer = added p.proposer_node_id k two in
          let by_local = added f.local_node_id k peers in
          let by_peers = united f.peers k [] in
          (
            λ h. elim (by_votes.0 h) [
              | inl v ↦ inr (inr (inr v))
              | inr h3 ↦ elim (by_proposer.0 h3) [
                | inl is ↦ inr (inr (inl is))
                | inr h2 ↦ elim (by_local.0 h2) [
                  | inl is ↦ inr (inl is)
                  | inr h1 ↦ elim (by_peers.0 h1) [
                    | inl peer ↦ inl peer
                    | inr nil ↦ absurd (ground (arith, nil))
                  ]
                ]
              ]
            ],
            λ h. elim h [
              | inl peer ↦
                  by_votes.1 (inr (by_proposer.1 (inr (by_local.1 (inr (by_peers.1 (inl peer)))))))
              | inr h1 ↦ elim h1 [
                | inl is ↦ by_votes.1 (inr (by_proposer.1 (inr (by_local.1 (inl is)))))
                | inr h2 ↦ elim h2 [
                  | inl is ↦ by_votes.1 (inr (by_proposer.1 (inl is)))
                  | inr v ↦ by_votes.1 (inl v)
                ]
              ]
            ],
          ),
    )

-- What an open proposal becomes when n nodes are its members, by the votes.
abbrev pub IsOutcome : (n : ℕ) → Proposal → Proposal → Type 0
IsOutcome n p q =
    ((q.status ≡ approved) ↔ (n < 2 * count true p.votes))
    × ((q.status ≡ rejected) ↔ (
        (2 * count true p.votes ≤ n) × (0 < count false p.votes) × (n ≤ 2 * count false p.votes)))
    × ((q.status ≡ pending) → q ≡ p)

check_resolution-IsOutcome :
    (f : Federation) (p : Proposal)
    → IsCounted p
    → p.status ≡ pending
    → IsOutcome (length (members f p)) p (check_resolution f p)
unfolding check_resolution
check_resolution-IsOutcome f p c h = (
  (λ e. ground (arith, c.yes_is), λ e. ground (arith, c.yes_is)),
  (λ e. ground (arith, c.yes_is, c.no_is), λ e. ground (arith, c.yes_is, c.no_is)),
  λ e. ground arith,
)

-- What a resolution rests on: with the nodes that are a peer, the local node, the proposer or a voter
-- listed once each, an open proposal whose counts agree with its votes is approved exactly if more
-- than half of these nodes voted yes, and is rejected exactly if it is not approved, some node voted no
-- and at least half of these nodes voted no; while it is pending it stays as it is.
pub check_resolution-decides :
    (f : Federation) (p : Proposal)
    → IsCounted p
    → p.status ≡ pending
    → (ns : List NodeId) × Lists f p ns × IsOutcome (length ns) p (check_resolution f p)
check_resolution-decides f p c h =
    (members f p, members-Lists f p, check_resolution-IsOutcome f p c h)

-- A vote on an open proposal with a signature other than the one that the secret gives is refused,
-- and no proposal changes.
pub cast_vote-invalid_signature :
    (now : ℕ) (f : Federation) (k : Signing) (id voter : ℕ) (vote : Bool) (signature : String)
    (ps : Dict ℕ Proposal) (p : Proposal)
    → get ps id ≡ some p
    → now ≤ p.expires_at
    → p.status ≡ pending
    → k.sign (secret_of k.secret) id voter vote ≢ signature
    → cast_vote now f k id voter vote signature ps ≡ (raise invalid_signature, ps)
unfolding cast_vote vote_on
cast_vote-invalid_signature now f k id voter vote signature ps p found early open_still forged =
    ground (arith, eq_iff (k.sign (secret_of k.secret) id voter vote) signature)

-- Any vote that comes after the end of a proposal makes it EXPIRED, whatever it was before and
-- whatever the signature: an approved proposal loses its approval to a late, unsigned vote.
pub cast_vote-late :
    (now : ℕ) (f : Federation) (k : Signing) (id voter : ℕ) (vote : Bool) (signature : String)
    (ps : Dict ℕ Proposal) (p : Proposal)
    → get ps id ≡ some p
    → p.expires_at < now
    → cast_vote now f k id voter vote signature ps
      ≡ (ok (record p { status = expired }), put ps id (record p { status = expired }))
unfolding cast_vote vote_on
cast_vote-late now f k id voter vote signature ps p found late = ground arith
