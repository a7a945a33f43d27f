-- ===== src/Subagents/Timeouts.antt =====
-- Which subagents check_timeouts of core/runtime/subagent.py stops.
use jarvis.Prelude.{
  nat_eq, ℕ, ◌+◌, ◌<◌, ◌⊎◌, true, false, some, List, [], ◌∷◌, ◌≡◌, refl, subst, All, Bool-cases,
  inl, inr, arith, ◌==◌, map, member, Once,
}
use jarvis.Prelude.Dict.{Dict, get}
use jarvis.Subagents.{
  SubagentInstance, SubagentManager, Interlude, has_timed_out, to_terminate, check_timeouts,
}
use jarvis.Subagents.Beats.{IsActive}
use jarvis.Subagents.Spared.{Spares}
use jarvis.Subagents.Ending.{HasEnded, terminate_each-IsSpared, terminate_each-HasEnded}

abbrev pub keys : {V : Type 0} → Dict ℕ V → List ℕ
keys d = map (λ e. e.0) d

-- It has lived longer than the longest life, or sent no heartbeat for longer than the timeout.
abbrev pub IsLate : (now : ℕ) → SubagentManager → SubagentInstance → Type 0
IsLate now m i =
    (i.created_at + m.max_lifespan < now) ⊎ (i.last_heartbeat + m.heartbeat_timeout < now)

module _ (now life beat : ℕ) where
  member-to_terminate_absent :
      (d : Dict ℕ SubagentInstance) (j : ℕ)
      → member j (keys d) ≡ false
      → member j (to_terminate now life beat d) ≡ false
  unfolding member to_terminate
  member-to_terminate_absent [] j h = refl
  member-to_terminate_absent ((k, v) ∷ d) j h = ground (arith, h, member-to_terminate_absent d j)

  member-to_terminate :
      (d : Dict ℕ SubagentInstance) (j : ℕ) (v : SubagentInstance)
      → Once (keys d)
      → get d j ≡ some v
      → member j (to_terminate now life beat d) ≡ has_timed_out now life beat v
  unfolding member to_terminate get
  member-to_terminate [] j v h found = absurd (ground (arith, found))
  member-to_terminate ((k, w) ∷ d) j v h found = elim (Bool-cases (k == j)) [
    | inl e ↦
        let same : some w ≡ some v = rw e at found in
        let is : w ≡ v = cc same in
        let absent : member j (to_terminate now life beat d) ≡ false =
          member-to_terminate_absent d j
            (subst (λ n. member n (keys d) ≡ false) ((nat_eq.same_iff k j).0 e) h.0) in
        subst
          (λ x. member j (to_terminate now life beat ((k, w) ∷ d)) ≡ has_timed_out now life beat x)
          is (ground (arith, e, absent))
    | inr e ↦ ground (arith, e, member-to_terminate d j v h.1 (rw e at found))
  ]

late :
    (now : ℕ) (m : SubagentManager) (i : SubagentInstance)
    → has_timed_out now m.max_lifespan m.heartbeat_timeout i ≡ true
    → IsLate now m i
late now m i h = ground (arith, h)

in_time :
    (now : ℕ) (m : SubagentManager) (i : SubagentInstance)
    → has_timed_out now m.max_lifespan m.heartbeat_timeout i ≡ false
    → ¬ IsLate now m i
in_time now m i h = λ l. ground (arith, h, l)

-- If the watchdog's check returns, and nothing that runs between its terminations updates or
-- terminates this subagent or takes its id: it was late, having lived longer than the longest life or
-- sent no heartbeat for longer than the timeout, and is no longer active but gone, DESTROYED with its
-- token cancelled; or it was not late, and is active as it was but for its last heartbeat. The keys of
-- the dictionary are distinct. Other subagents may be spawned, updated and terminated in between, and
-- heartbeats come in, also while the driver works.
pub check_timeouts-exact :
    (now : ℕ) (interludes : ℕ → Interlude) (m : SubagentManager) (subagent_id : ℕ)
    → (i : SubagentInstance) → Once (keys m.active_subagents)
    → get m.active_subagents subagent_id ≡ some i
    → ((k : ℕ) → All (Spares subagent_id) (interludes k).before)
    → (check_timeouts now interludes m).0 ≡ true
    → (IsLate now m i × HasEnded subagent_id i (check_timeouts now interludes m).1)
      ⊎ (¬ IsLate now m i × IsActive subagent_id i (check_timeouts now interludes m).1)
unfolding check_timeouts
check_timeouts-exact now interludes m k i once found spares returns =
    let d = m.active_subagents in
    let ids = to_terminate now m.max_lifespan m.heartbeat_timeout d in
    let chosen : member k ids ≡ has_timed_out now m.max_lifespan m.heartbeat_timeout i =
      member-to_terminate now m.max_lifespan m.heartbeat_timeout d k i once found in
    elim (Bool-cases (has_timed_out now m.max_lifespan m.heartbeat_timeout i)) [
      | inl e ↦ inl (
        late now m i e,
        terminate_each-HasEnded interludes k spares ids i m (rw e at chosen) returns
            (i.last_heartbeat, found),
      )
      | inr e ↦ inr (
        in_time now m i e,
        (terminate_each-IsSpared interludes k spares ids m (rw e at chosen)).0 i
            (i.last_heartbeat, found),
      )
    ]
