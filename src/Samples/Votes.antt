-- ===== src/Samples/Votes.antt =====
-- Runs of core/runtime/consensus.py.
use jarvis.Prelude.{
  [], ◌∷◌, List, none, ok, true, refl, nat_eq, string_eq, ◌≡◌, length, add, member,
}
use jarvis.Prelude.Dict.{get, put}
use jarvis.Consensus.{
  NodeId, Proposal, pending, Federation, Signing, members, check_resolution, vote_on,
}
use jarvis.Consensus.Votes.{
  IsCounted, Lists, IsOutcome, count, vote_on-IsCounted, check_resolution-decides,
}

abbrev federation : Federation
federation = record { peers = 2 ∷ 3 ∷ 4 ∷ []; local_node_id = 1 }

abbrev signing : Signing
signing = record { sign = λ secret proposal_id voter vote. "signed"; secret = none }

abbrev proposal : Proposal
proposal = record {
  proposer_node_id = 1;
  status = pending;
  votes = (1, true) ∷ [];
  yes_votes = 1;
  no_votes = 0;
  expires_at = 100;
}

abbrev seconded : Proposal
seconded = record proposal { votes = (1, true) ∷ (2, true) ∷ []; yes_votes = 2 }

proposal-IsCounted : IsCounted proposal
unfolding count
proposal-IsCounted = record { yes_is = refl; no_is = refl }

vote_on-proposal : vote_on 9 federation signing 50 2 true "signed" proposal ≡ ok seconded
unfolding vote_on get put members add member
vote_on-proposal = refl

vote_on-IsCounted_example : IsCounted seconded
vote_on-IsCounted_example =
    vote_on-IsCounted 9 federation signing 50 2 true "signed" proposal seconded proposal-IsCounted
      vote_on-proposal

seconded-IsCounted : IsCounted seconded
unfolding count
seconded-IsCounted = record { yes_is = refl; no_is = refl }

check_resolution-decides_example :
    (ns : List NodeId) × Lists federation seconded ns
    × IsOutcome (length ns) seconded (check_resolution federation seconded)
check_resolution-decides_example =
    check_resolution-decides federation seconded seconded-IsCounted refl
