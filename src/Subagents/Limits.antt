-- ===== src/Subagents/Limits.antt =====
-- What any calls on SubagentManager of core/runtime/subagent.py keep.
use jarvis.Prelude.{
  nat_eq, ℕ, Bool, true, false, Option, none, some, List, [], ◌∷◌, ◌≡◌, refl, All, Bool-cases, inl,
  inr, arith, length, leb, map, ◌&&◌,
}
use jarvis.Prelude.Dict.{get, put, get-put_self}
use jarvis.Prelude.Entries.{All-put, All-get, length-put-new}
use jarvis.Subagents.{
  SubagentState, is_path, SubagentInstance, SubagentManager, cancel_token, spawned, spawn_subagent,
  is_destroyed, updated, update_state, register_heartbeat, Waiting, beat_all, waited, at_driver,
  terminated, terminate_subagent, Section, spawning, updating, beating, terminating, run, run_all,
  Interlude, terminate_each, to_terminate, check_timeouts, shutdown,
}
use jarvis.Subagents.Beats.{IsActive, beat_all-IsActive}
use jarvis.Subagents.Sound.{
  path-live, IsServed, IsSound, popped-IsSound, replaced-IsSound, beaten-IsSound, beat_all-IsSound,
  or_this, cancelled-IsSound, cut-IsSound, left-IsSound,
}

-- Where a termination of a subagent may be cut, in a section or in the loops of check_timeouts and
-- of shutdown.
abbrev pub Allows : (may_cut : ℕ → Bool) → Section → Type 0
Allows may_cut (terminating w k) = w.is_cut ≡ true → may_cut k ≡ true
Allows may_cut (spawning fresh now driver_raises task) = Unit
Allows may_cut (updating k target) = Unit
Allows may_cut (beating now k) = Unit

abbrev pub AllowsEach : (may_cut : ℕ → Bool) → (ℕ → Interlude) → Type 0
AllowsEach may_cut interludes =
    (k : ℕ)
    → All (Allows may_cut) (interludes k).before
      × ((interludes k).waiting.is_cut ≡ true → may_cut k ≡ true)

module _ (may_cut : ℕ → Bool) where
  spawn_subagent-IsSound :
      (fresh now task : ℕ) (driver_raises : Bool) (m : SubagentManager)
      → IsSound may_cut m
      → IsSound may_cut (spawn_subagent fresh now driver_raises task m).1
  unfolding spawn_subagent is_path
  spawn_subagent-IsSound fresh now task driver_raises m h =
      elim (Bool-cases (leb m.max_concurrent (length m.active_subagents))) [
        | inl full ↦ rw full h
        | inr free ↦ elim (Bool-cases (m.driver && driver_raises)) [
          | inl fails ↦ rw (free, fails) h
          | inr works ↦
              let one_more = length-put-new m.active_subagents fresh (spawned fresh task now) in
              rw (free, works)
                (
                  ground (arith, free, one_more),
                  All-put (IsServed may_cut) m.active_subagents fresh (spawned fresh task now) h.1
                      (refl, refl, λ c. absurd (cc c)),
                  h.2,
                )
        ]
      ]

  updated-IsSound :
      (k : ℕ) (target : SubagentState) (o : Option SubagentInstance) (m : SubagentManager)
      → get m.active_subagents k ≡ o
      → IsSound may_cut m
      → IsSound may_cut (updated k target o m).1
  unfolding updated
  updated-IsSound k target none m found h = h
  updated-IsSound k target (some i) m found h = elim (Bool-cases (is_path i.state target)) [
    | inr refused ↦ rw refused h
    | inl path ↦ elim (Bool-cases (is_destroyed target)) [
      | inl ends ↦ rw (path, ends) (popped-IsSound may_cut k (cancel_token i) m refl h)
      | inr goes ↦
          let (own, live, holds) = All-get (IsServed may_cut) m.active_subagents k i h.1 found in
          rw (path, goes)
            (replaced-IsSound may_cut k i (record i { state = target }) m found
              (own, path-live i.state target path live goes, holds) h)
    ]
  ]

  waited-IsSound :
      (is_cut : Bool) (k : ℕ) (i : SubagentInstance) (m : SubagentManager)
      → (is_cut ≡ true → may_cut k ≡ true)
      → i.is_cancelled ≡ true
      → IsActive k i m
      → IsSound (or_this may_cut k) m
      → IsSound may_cut (waited is_cut k m).1
  unfolding waited
  waited-IsSound true k i m allowed ends is h = cut-IsSound may_cut k m (allowed refl) h
  waited-IsSound false k i m allowed ends is h = left-IsSound may_cut k i m ends is h

  at_driver-IsSound :
      (driver : Bool) (w : Waiting) (k : ℕ) (i : SubagentInstance) (m : SubagentManager)
      → (w.is_cut ≡ true → may_cut k ≡ true)
      → i.is_cancelled ≡ true
      → IsActive k i m
      → IsSound (or_this may_cut k) m
      → IsSound may_cut (at_driver driver w k m).1
  unfolding at_driver
  at_driver-IsSound true w k i m allowed ends is h =
      waited-IsSound w.is_cut k i (beat_all w.beats m) allowed ends
        (beat_all-IsActive w.beats k i m is) (beat_all-IsSound (or_this may_cut k) w.beats m h)
  at_driver-IsSound false w k i m allowed ends is h =
      waited-IsSound false k i m (λ c. absurd (cc c)) ends is h

  terminated-IsSound :
      (w : Waiting) (k : ℕ) (o : Option SubagentInstance) (m : SubagentManager)
      → (w.is_cut ≡ true → may_cut k ≡ true)
      → get m.active_subagents k ≡ o
      → IsSound may_cut m
      → IsSound may_cut (terminated w k o m).1
  unfolding terminated
  terminated-IsSound w k none m allowed found h = h
  terminated-IsSound w k (some i) m allowed found h =
      at_driver-IsSound m.driver w k (cancel_token i)
        (record m { active_subagents = put m.active_subagents k (cancel_token i) }) allowed refl
        (i.last_heartbeat, get-put_self m.active_subagents k (cancel_token i))
        (cancelled-IsSound may_cut k i m found h)

  run-IsSound :
      (c : Section) (m : SubagentManager)
      → Allows may_cut c
      → IsSound may_cut m
      → IsSound may_cut (run c m)
  unfolding run update_state register_heartbeat terminate_subagent
  run-IsSound (spawning fresh now driver_raises task) m a h =
      spawn_subagent-IsSound fresh now task driver_raises m h
  run-IsSound (updating k target) m a h =
      updated-IsSound k target (get m.active_subagents k) m refl h
  run-IsSound (beating now k) m a h =
      beaten-IsSound may_cut now k (get m.active_subagents k) m refl h
  run-IsSound (terminating w k) m a h = terminated-IsSound w k (get m.active_subagents k) m a refl h

  run_all-IsSound :
      (cs : List Section) (m : SubagentManager)
      → All (Allows may_cut) cs
      → IsSound may_cut m
      → IsSound may_cut (run_all cs m)
  unfolding run_all
  run_all-IsSound [] m a h = h
  run_all-IsSound (c ∷ cs) m a h = run_all-IsSound cs (run c m) a.1 (run-IsSound c m a.0 h)

  terminate_each-IsSound :
      (interludes : ℕ → Interlude) (ids : List ℕ) (m : SubagentManager)
      → AllowsEach may_cut interludes
      → IsSound may_cut m
      → IsSound may_cut (terminate_each interludes ids m).1
  unfolding terminate_each terminate_subagent
  terminate_each-IsSound interludes [] m a h = h
  terminate_each-IsSound interludes (k ∷ ids) m a h =
      let others = run_all (interludes k).before m in
      let sound : IsSound may_cut (terminate_subagent (interludes k).waiting k others).1 =
        terminated-IsSound (interludes k).waiting k (get others.active_subagents k) others (a k).1
          refl (run_all-IsSound (interludes k).before m (a k).0 h) in
      elim (Bool-cases (terminate_subagent (interludes k).waiting k others).0) [
        | inl e ↦
            rw (terminate_each, e)
              (terminate_each-IsSound interludes ids
                (terminate_subagent (interludes k).waiting k others).1 a sound)
        | inr e ↦ rw (terminate_each, e) sound
      ]

-- A call on the manager.
pub data Call : Type 0 where
  section : Section → Call
  checking : (now : ℕ) (interludes : ℕ → Interlude) → Call
  closing : (interludes : ℕ → Interlude) → Call

abbrev pub AllowsCall : (may_cut : ℕ → Bool) → Call → Type 0
AllowsCall may_cut (section c) = Allows may_cut c
AllowsCall may_cut (checking now interludes) = AllowsEach may_cut interludes
AllowsCall may_cut (closing interludes) = AllowsEach may_cut interludes

unfoldable pub called : Call → SubagentManager → SubagentManager
called (section c) m = run c m
called (checking now interludes) m = (check_timeouts now interludes m).1
called (closing interludes) m = (shutdown interludes m).1

unfoldable pub call_all : List Call → SubagentManager → SubagentManager
unfolding called
call_all [] m = m
call_all (c ∷ calls) m = call_all calls (called c m)

called-IsSound :
    (may_cut : ℕ → Bool) (c : Call) (m : SubagentManager)
    → AllowsCall may_cut c
    → IsSound may_cut m
    → IsSound may_cut (called c m)
unfolding called check_timeouts shutdown
called-IsSound may_cut (section c) m a h = run-IsSound may_cut c m a h
called-IsSound may_cut (checking now interludes) m a h =
    terminate_each-IsSound may_cut interludes
      (to_terminate now m.max_lifespan m.heartbeat_timeout m.active_subagents) m a h
called-IsSound may_cut (closing interludes) m a h =
    terminate_each-IsSound may_cut interludes (map (λ e. e.0) m.active_subagents) m a h

-- Along any calls of the methods of the manager, and any sections that come in between the
-- terminations of a loop, from a sound one: there are never more active subagents than the limit;
-- each stands under its own id, in a state between READY and ARCHIVED, and its token is not cancelled
-- unless may_cut holds of it; and each that has left is DESTROYED and its token is cancelled. May_cut
-- holds of the subagents whose termination is cancelled while it waits for the driver.
pub call_all-IsSound :
    (may_cut : ℕ → Bool) (calls : List Call) (m : SubagentManager)
    → All (AllowsCall may_cut) calls
    → IsSound may_cut m
    → IsSound may_cut (call_all calls m)
unfolding call_all
call_all-IsSound may_cut [] m a h = h
call_all-IsSound may_cut (c ∷ calls) m a h =
    call_all-IsSound may_cut calls (called c m) a.1 (called-IsSound may_cut c m a.0 h)
