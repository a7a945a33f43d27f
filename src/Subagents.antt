-- ===== src/Subagents.antt =====
-- core/runtime/subagent.py (SubagentManager), with the life cycle of core/runtime/state.py. A section
-- under the lock excludes all others, but heartbeats come in while it waits for the container driver;
-- between the sections of _check_timeouts and of shutdown any others run. What comes in, whether the
-- driver raises and where the coroutine is cancelled are arguments. The watchdog is calls of
-- check_timeouts. An instance that has left the dictionary is kept in `gone`, since the task that it
-- runs still holds its token.
pub mod Beats
pub mod Limits
pub mod Sound
pub mod Spared
pub mod Ending
pub mod Timeouts
use jarvis.Prelude.{
  nat_eq, ℕ, ◌+◌, Bool, true, false, not, ◌||◌, ◌&&◌, Option, none, some, List, [], ◌∷◌, ◌++◌, ◌==◌,
  if◌then◌else◌, ltb, leb, length, map, keep, Result, ok, raise,
}
use jarvis.Prelude.Dict.{Dict, get, put, remove}

pub data SubagentState : Type 0 where
  create initialize ready working waiting completed archived destroyed : SubagentState

pub data SubagentError : Type 0 where
  -- AGENT_001, AGENT_002, AGENT_004, AGENT_999
  invalid_path limit_exceeded driver_failed not_found : SubagentError

-- _SUBAGENT_TRANSITIONS
unfoldable pub is_path : SubagentState → SubagentState → Bool
is_path create initialize = true
is_path initialize ready = true
is_path ready working = true
is_path working waiting = true
is_path working completed = true
is_path waiting working = true
is_path completed archived = true
is_path _ destroyed = true
is_path _ _ = false

pub record SubagentInstance : Type 0 where
  pub id : ℕ
  pub task_id : ℕ
  -- whether its token is cancelled
  pub is_cancelled : Bool
  pub state : SubagentState
  pub created_at : ℕ
  pub last_heartbeat : ℕ

pub record SubagentManager : Type 0 where
  pub max_concurrent : ℕ
  pub max_lifespan : ℕ
  pub heartbeat_timeout : ℕ
  -- whether there is a container driver
  pub driver : Bool
  pub active_subagents : Dict ℕ SubagentInstance
  pub gone : List SubagentInstance

abbrev pub spawned : (fresh task_id now : ℕ) → SubagentInstance
spawned fresh task_id now = record {
  id = fresh;
  task_id = task_id;
  is_cancelled = false;
  state = ready;
  created_at = now;
  last_heartbeat = now;
}

unfoldable pub spawn_subagent :
    (fresh now : ℕ) (driver_raises : Bool)
    → (task_id : ℕ) → SubagentManager
    → Result SubagentError ℕ × SubagentManager
unfolding is_path
spawn_subagent fresh now driver_raises task_id m =
    if leb m.max_concurrent (length m.active_subagents)
    then (raise limit_exceeded, m)
    else if not (is_path create initialize)
    then (raise invalid_path, m)
    else if m.driver && driver_raises
    then (raise driver_failed, m)
    else if not (is_path initialize ready)
    then (raise invalid_path, m)
    else (
      ok fresh,
      record m { active_subagents = put m.active_subagents fresh (spawned fresh task_id now) },
    )

abbrev pub is_destroyed : SubagentState → Bool
is_destroyed destroyed = true
is_destroyed _ = false

-- DESTROYED, and out of the dictionary
abbrev pub popped : (subagent_id : ℕ) → SubagentInstance → SubagentManager → SubagentManager
popped subagent_id i m = record m {
  active_subagents = remove m.active_subagents subagent_id;
  gone = m.gone ++ record i { state = destroyed } ∷ [];
}

abbrev pub cancel_token : SubagentInstance → SubagentInstance
cancel_token i = record i { is_cancelled = true }

unfoldable pub updated :
    (subagent_id : ℕ)
    → SubagentState
    → Option SubagentInstance
    → SubagentManager
    → Result SubagentError (Unit {0}) × SubagentManager
unfolding is_path
updated subagent_id target none m = (raise not_found, m)
updated subagent_id target (some i) m =
    if is_path i.state target
    then (
      ok tt,
      if is_destroyed target then popped subagent_id (cancel_token i) m else record m {
        active_subagents = put m.active_subagents subagent_id (record i { state = target });
      },
    )
    else (raise invalid_path, m)

unfoldable pub update_state :
    (subagent_id : ℕ)
    → SubagentState
    → SubagentManager
    → Result SubagentError (Unit {0}) × SubagentManager
unfolding updated
update_state subagent_id target m =
    updated subagent_id target (get m.active_subagents subagent_id) m

unfoldable pub beaten :
    (now subagent_id : ℕ) → Option SubagentInstance → SubagentManager → SubagentManager
beaten now subagent_id none m = m
beaten now subagent_id (some i) m = record m {
  active_subagents = put m.active_subagents subagent_id (record i { last_heartbeat = now });
}

unfoldable pub register_heartbeat : (now subagent_id : ℕ) → SubagentManager → SubagentManager
unfolding beaten
register_heartbeat now subagent_id m = beaten now subagent_id (get m.active_subagents subagent_id) m

-- While the driver is at work: the heartbeats that come in (the instant, and the subagent), and whether
-- the coroutine is cancelled there.
pub record Waiting : Type 0 where
  pub beats : List (ℕ × ℕ)
  pub is_cut : Bool

unfoldable pub beat_all : List (ℕ × ℕ) → SubagentManager → SubagentManager
unfolding register_heartbeat
beat_all [] m = m
beat_all ((now, subagent_id) ∷ beats) m = beat_all beats (register_heartbeat now subagent_id m)

unfoldable pub left :
    (subagent_id : ℕ) → Option SubagentInstance → SubagentManager → SubagentManager
left subagent_id none m = m
left subagent_id (some i) m = popped subagent_id i m

-- After the driver, whose exceptions are swallowed; a CancelledError is not.
unfoldable pub waited :
    (is_cut : Bool) → (subagent_id : ℕ) → SubagentManager → Bool × SubagentManager
unfolding left
waited true subagent_id m = (false, m)
waited false subagent_id m = (true, left subagent_id (get m.active_subagents subagent_id) m)

unfoldable pub at_driver :
    (driver : Bool) → Waiting → (subagent_id : ℕ) → SubagentManager → Bool × SubagentManager
unfolding waited beat_all
at_driver true w subagent_id m = waited w.is_cut subagent_id (beat_all w.beats m)
at_driver false w subagent_id m = waited false subagent_id m

unfoldable pub terminated :
    Waiting → (subagent_id : ℕ) → Option SubagentInstance → SubagentManager → Bool × SubagentManager
unfolding at_driver
terminated w subagent_id none m = (true, m)
terminated w subagent_id (some i) m =
    at_driver m.driver w subagent_id
      (record m { active_subagents = put m.active_subagents subagent_id (cancel_token i) })

-- Whether it returns, or the coroutine was cancelled.
unfoldable pub terminate_subagent :
    Waiting → (subagent_id : ℕ) → SubagentManager → Bool × SubagentManager
unfolding terminated
terminate_subagent w subagent_id m = terminated w subagent_id (get m.active_subagents subagent_id) m

-- What runs on its own: a section under the lock, or a heartbeat.
pub data Section : Type 0 where
  spawning : (fresh now : ℕ) (driver_raises : Bool) (task_id : ℕ) → Section
  updating : (subagent_id : ℕ) → SubagentState → Section
  beating : (now subagent_id : ℕ) → Section
  terminating : Waiting → (subagent_id : ℕ) → Section

unfoldable pub run : Section → SubagentManager → SubagentManager
run (spawning fresh now driver_raises task) m = (spawn_subagent fresh now driver_raises task m).1
run (updating k target) m = (update_state k target m).1
run (beating now k) m = register_heartbeat now k m
run (terminating w k) m = (terminate_subagent w k m).1

unfoldable pub run_all : List Section → SubagentManager → SubagentManager
unfolding run
run_all [] m = m
run_all (c ∷ rest) m = run_all rest (run c m)

-- Before the termination of one subagent in a loop: what others run, and the wait in it.
pub record Interlude : Type 0 where
  pub before : List Section
  pub waiting : Waiting

-- for sid in …: await self.terminate_subagent(sid, …)
unfoldable pub terminate_each :
    (interludes : ℕ → Interlude) → List ℕ → SubagentManager → Bool × SubagentManager
unfolding terminate_subagent run_all
terminate_each interludes [] m = (true, m)
terminate_each interludes (k ∷ ids) m =
    let (returns, m') =
      terminate_subagent (interludes k).waiting k (run_all (interludes k).before m) in
    elim returns [ true ↦ terminate_each interludes ids m' | false ↦ (false, m') ]

abbrev pub has_timed_out : (now max_lifespan heartbeat_timeout : ℕ) → SubagentInstance → Bool
has_timed_out now max_lifespan heartbeat_timeout i =
    ltb (i.created_at + max_lifespan) now || ltb (i.last_heartbeat + heartbeat_timeout) now

-- The ids that the scan under the lock collects.
unfoldable pub to_terminate :
    (now max_lifespan heartbeat_timeout : ℕ) → Dict ℕ SubagentInstance → List ℕ
to_terminate now max_lifespan heartbeat_timeout [] = []
to_terminate now max_lifespan heartbeat_timeout ((k, i) ∷ d) =
    let rest = to_terminate now max_lifespan heartbeat_timeout d in
    if has_timed_out now max_lifespan heartbeat_timeout i then k ∷ rest else rest

unfoldable pub check_timeouts :
    (now : ℕ) → (interludes : ℕ → Interlude) → SubagentManager → Bool × SubagentManager
unfolding terminate_each to_terminate
check_timeouts now interludes m =
    terminate_each interludes
      (to_terminate now m.max_lifespan m.heartbeat_timeout m.active_subagents) m

-- shutdown(), after the watchdog is cancelled
unfoldable pub shutdown : (interludes : ℕ → Interlude) → SubagentManager → Bool × SubagentManager
unfolding terminate_each
shutdown interludes m = terminate_each interludes (map (λ e. e.0) m.active_subagents) m
