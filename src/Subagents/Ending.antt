-- ===== src/Subagents/Ending.antt =====
-- How a termination ends a subagent in core/runtime/subagent.py, and what the loops of terminations
-- leave.
use jarvis.Prelude.{
  nat_eq, ℕ, Bool, true, false, Option, none, some, List, [], ◌∷◌, ◌++◌, ◌≡◌, refl, sym, ap, ◌∙◌,
  subst, All, Any, Bool-cases, inl, inr, arith, ◌==◌, member,
}
use jarvis.Prelude.Dict.{get, put, get-put_self, get-remove_self}
use jarvis.Subagents.{
  destroyed, SubagentInstance, SubagentManager, cancel_token, Waiting, beat_all, left, waited,
  at_driver, terminated, terminate_subagent, run_all, Interlude, terminate_each,
}
use jarvis.Subagents.Beats.{IsActive, beat_all-IsActive}
use jarvis.Subagents.Spared.{
  Spares, IsIn, IsSpared, IsSpared-refl, IsSpared-trans, terminate_subagent-IsSpared,
  run_all-IsSpared,
}

-- DESTROYED with its token cancelled, whatever its last heartbeat was.
abbrev pub ended : (beat : ℕ) → SubagentInstance → SubagentInstance
ended beat i = record i { last_heartbeat = beat; is_cancelled = true; state = destroyed }

abbrev pub HasEnded : (subagent_id : ℕ) → SubagentInstance → SubagentManager → Type 0
HasEnded k i m = (get m.active_subagents k ≡ none) × (beat : ℕ) × IsIn (ended beat i) m.gone

spared-HasEnded :
    (k : ℕ) (i : SubagentInstance) (m m' : SubagentManager)
    → IsSpared k m m'
    → HasEnded k i m
    → HasEnded k i m'
spared-HasEnded k i m m' (stays, away, past) (absent, beat, is) =
    (away absent, beat, past (ended beat i) is)

Any-snoc_last : {A : Type 0} (P : A → Type 0) (xs : List A) (x : A) → P x → Any P (xs ++ x ∷ [])
Any-snoc_last P [] x p = inl p
Any-snoc_last P (y ∷ xs) x p = inr (Any-snoc_last P xs x p)

waited-HasEnded :
    (is_cut : Bool) (k : ℕ) (i : SubagentInstance) (m : SubagentManager)
    → (waited is_cut k m).0 ≡ true
    → IsActive k (cancel_token i) m
    → HasEnded k i (waited is_cut k m).1
unfolding waited left
waited-HasEnded true k i m returns h = absurd (cc returns)
waited-HasEnded false k i m returns (beat, is) = rw is (
  get-remove_self m.active_subagents k,
  beat,
  Any-snoc_last (λ x. x ≡ ended beat i) m.gone (ended beat i) refl,
)

at_driver-HasEnded :
    (driver : Bool) (w : Waiting) (k : ℕ) (i : SubagentInstance) (m : SubagentManager)
    → (at_driver driver w k m).0 ≡ true
    → IsActive k (cancel_token i) m
    → HasEnded k i (at_driver driver w k m).1
unfolding at_driver
at_driver-HasEnded true w k i m returns h =
    waited-HasEnded w.is_cut k i (beat_all w.beats m) returns
      (beat_all-IsActive w.beats k (cancel_token i) m h)
at_driver-HasEnded false w k i m returns h = waited-HasEnded false k i m returns h

terminated-HasEnded :
    (w : Waiting) (k : ℕ) (i : SubagentInstance) (o : Option SubagentInstance) (m : SubagentManager)
    → get m.active_subagents k ≡ o
    → (terminated w k o m).0 ≡ true
    → IsActive k i m
    → HasEnded k i (terminated w k o m).1
unfolding terminated
terminated-HasEnded w k i none m found returns (beat, is) = absurd (cc (sym found ∙ is))
terminated-HasEnded w k i (some j) m found returns (beat, is) =
    let same : some j ≡ some (record i { last_heartbeat = beat }) = sym found ∙ is in
    let like : j ≡ record i { last_heartbeat = beat } = cc same in
    at_driver-HasEnded m.driver w k i
      (record m { active_subagents = put m.active_subagents k (cancel_token j) }) returns
      (
        beat,
        get-put_self m.active_subagents k (cancel_token j)
            ∙ ap {A = SubagentInstance} (λ x. some (cancel_token x)) like,
      )

terminate_subagent-HasEnded :
    (w : Waiting) (k : ℕ) (i : SubagentInstance) (m : SubagentManager)
    → (terminate_subagent w k m).0 ≡ true
    → IsActive k i m
    → HasEnded k i (terminate_subagent w k m).1
unfolding terminate_subagent
terminate_subagent-HasEnded w k i m returns h =
    terminated-HasEnded w k i (get m.active_subagents k) m refl returns h

terminate_subagent-gone :
    (w : Waiting) (j k : ℕ) (i : SubagentInstance) (m : SubagentManager)
    → HasEnded k i m
    → HasEnded k i (terminate_subagent w j m).1
unfolding terminate_subagent terminated
terminate_subagent-gone w j k i m h = elim (Bool-cases (j == k)) [
  | inl e ↦
      let absent : get m.active_subagents j ≡ none =
        ap (get m.active_subagents) ((nat_eq.same_iff j k).0 e) ∙ h.0 in
      rw absent h
  | inr e ↦
      spared-HasEnded k i m (terminate_subagent w j m).1 (terminate_subagent-IsSpared w j k m e) h
]

module _ (interludes : ℕ → Interlude) (k : ℕ)
    (spares : (j : ℕ) → All (Spares k) (interludes j).before) where
  -- What stands before the termination of j in a loop.
  abbrev others : ℕ → SubagentManager → SubagentManager
  others j m = run_all (interludes j).before m

  others-IsSpared : (j : ℕ) (m : SubagentManager) → IsSpared k m (others j m)
  others-IsSpared j m = run_all-IsSpared (interludes j).before k m (spares j)

  terminate_each-gone :
      (ids : List ℕ) (i : SubagentInstance) (m : SubagentManager)
      → HasEnded k i m
      → HasEnded k i (terminate_each interludes ids m).1
  unfolding terminate_each
  terminate_each-gone [] i m h = h
  terminate_each-gone (j ∷ ids) i m h =
      let after : HasEnded k i (terminate_subagent (interludes j).waiting j (others j m)).1 =
        terminate_subagent-gone (interludes j).waiting j k i (others j m)
          (spared-HasEnded k i m (others j m) (others-IsSpared j m) h) in
      elim (Bool-cases (terminate_subagent (interludes j).waiting j (others j m)).0) [
        | inl e ↦
            rw (terminate_each, e)
              (terminate_each-gone ids i
                (terminate_subagent (interludes j).waiting j (others j m)).1 after)
        | inr e ↦ rw (terminate_each, e) after
      ]

  pub terminate_each-IsSpared :
      (ids : List ℕ) (m : SubagentManager)
      → member k ids ≡ false
      → IsSpared k m (terminate_each interludes ids m).1
  unfolding terminate_each member
  terminate_each-IsSpared [] m h = IsSpared-refl k m
  terminate_each-IsSpared (j ∷ ids) m h =
      let m' = (terminate_subagent (interludes j).waiting j (others j m)).1 in
      let other : (j == k) ≡ false = ground (arith, h) in
      let after : IsSpared k m m' =
        IsSpared-trans k m (others j m) m' (others-IsSpared j m)
          (terminate_subagent-IsSpared (interludes j).waiting j k (others j m) other) in
      elim (Bool-cases (terminate_subagent (interludes j).waiting j (others j m)).0) [
        | inl e ↦
            rw (terminate_each, e)
              (IsSpared-trans k m m' (terminate_each interludes ids m').1 after
                (terminate_each-IsSpared ids m' (ground (arith, h))))
        | inr e ↦ rw (terminate_each, e) after
      ]

  pub terminate_each-HasEnded :
      (ids : List ℕ) (i : SubagentInstance) (m : SubagentManager)
      → member k ids ≡ true
      → (terminate_each interludes ids m).0 ≡ true
      → IsActive k i m
      → HasEnded k i (terminate_each interludes ids m).1
  unfolding terminate_each member
  terminate_each-HasEnded [] i m h returns is = absurd (cc h)
  terminate_each-HasEnded (j ∷ ids) i m h returns is =
      let w = (interludes j).waiting in
      let m' = (terminate_subagent w j (others j m)).1 in
      let before : IsActive k i (others j m) = (others-IsSpared j m).0 i is in
      elim (Bool-cases (terminate_subagent w j (others j m)).0) [
        | inr cut ↦ absurd (cc (rw (terminate_each, cut) at returns))
        | inl goes ↦
            let rest : (terminate_each interludes ids m').0 ≡ true =
              rw (terminate_each, goes) at returns in
            elim (Bool-cases (j == k)) [
              | inl e ↦
                  rw (terminate_each, goes)
                    (terminate_each-gone ids i m' (
                      subst (λ n. HasEnded n i m') ((nat_eq.same_iff j k).0 e)
                        (terminate_subagent-HasEnded w j i (others j m) goes (
                          subst (λ n. IsActive n i (others j m)) (sym ((nat_eq.same_iff j k).0 e))
                            before))))
              | inr e ↦
                  rw (terminate_each, goes)
                    (terminate_each-HasEnded ids i m' (ground (arith, h, e)) rest
                      ((terminate_subagent-IsSpared w j k (others j m) e).0 i before))
            ]
      ]
