-- ===== src/Samples/Subagents.antt =====
-- Runs of core/runtime/subagent.py.
use jarvis.Prelude.{
  nat_eq, ℕ, ◌⊎◌, Bool, true, false, List, [], ◌∷◌, ◌≡◌, refl, arith, Once, member, ◌==◌,
}
use jarvis.Prelude.Dict.{get}
use jarvis.Subagents.{
  spawn_subagent, SubagentInstance, SubagentManager, ready, working, destroyed, Interlude, spawning,
  updating, terminating, check_timeouts,
}
use jarvis.Subagents.Beats.{IsActive}
use jarvis.Subagents.Sound.{IsSound}
use jarvis.Subagents.Ending.{HasEnded}
use jarvis.Subagents.Limits.{Call, section, checking, closing, call_all, call_all-IsSound}
use jarvis.Subagents.Timeouts.{keys, IsLate, check_timeouts-exact}

abbrev instance_of : ℕ → ℕ → SubagentInstance
instance_of id beat = record {
  id = id;
  task_id = id;
  is_cancelled = false;
  state = ready;
  created_at = 0;
  last_heartbeat = beat;
}

abbrev manager : SubagentManager
manager = record {
  max_concurrent = 2;
  max_lifespan = 900;
  heartbeat_timeout = 180;
  driver = true;
  active_subagents = (1, instance_of 1 0) ∷ (2, instance_of 2 100) ∷ [];
  gone = [];
}

-- A heartbeat comes in while the driver works, and a new subagent before each termination.
abbrev quiet : ℕ → Interlude
quiet k = record {
  before = spawning 9 200 false 7 ∷ [];
  waiting = record { beats = (201, k) ∷ (201, 2) ∷ []; is_cut = false };
}

abbrev only_three : ℕ → Bool
only_three k = k == 3

-- The termination of the third is cancelled at the driver.
abbrev calls : List Call
calls =
    section (spawning 3 10 false 7)
    ∷ section (updating 1 working)
    ∷ checking 200 quiet
    ∷ section (updating 9 destroyed)
    ∷ section (spawning 3 201 false 7)
    ∷ section (terminating (record { beats = (202, 3) ∷ []; is_cut = true }) 3)
    ∷ section (updating 2 destroyed)
    ∷ closing quiet
    ∷ []

call_all-IsSound_example : IsSound only_three (call_all calls manager)
call_all-IsSound_example =
    call_all-IsSound only_three calls manager
      (
        tt,
        (
          tt,
          (
            (λ k. ((tt, tt), λ c. absurd (cc c))),
            (tt, (tt, ((λ c. refl), (tt, ((λ k. ((tt, tt), λ c. absurd (cc c))), tt))))),
          ),
        ),
      )
      (omega arith, ((refl, refl, λ c. absurd (cc c)), ((refl, refl, λ c. absurd (cc c)), tt)), tt)

manager-Once : Once (keys manager.active_subagents)
unfolding member
manager-Once = (refl, (refl, tt))

check_timeouts-returns : (check_timeouts 200 quiet manager).0 ≡ true
unfolding check_timeouts get spawn_subagent
check_timeouts-returns = refl

check_timeouts-exact_example :
    (IsLate 200 manager (instance_of 1 0)
      × HasEnded 1 (instance_of 1 0) (check_timeouts 200 quiet manager).1)
    ⊎ (¬ IsLate 200 manager (instance_of 1 0)
        × IsActive 1 (instance_of 1 0) (check_timeouts 200 quiet manager).1)
unfolding get
check_timeouts-exact_example =
    check_timeouts-exact 200 quiet manager 1 (instance_of 1 0) manager-Once refl (λ k. (refl, tt))
      check_timeouts-returns
