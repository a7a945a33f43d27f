-- ===== src/Lifecycle.antt =====
-- core/lifecycle.py: the boot and the shutdown of the services. A service is a number; whether one
-- of its hooks raises is the parameter `raises`; and the calls that are made are kept in a log.
pub mod Orders
use mathlib.Core.List.{reverse}
use jarvis.Prelude.{
  ℕ, [], ◌∷◌, Bool, ◌++◌, List, if◌then◌else◌, true, map, Result, Option, false, none, raise, ok,
  some,
}

pub data Hook : Type 0 where
  initialize start stop shutdown : Hook

pub data LifecycleState : Type 0 where
  uninitialized initialized running stopped shut_down : LifecycleState

-- SYSTEM_001 (wrong state) and SYSTEM_999 (a service failed).
pub data SystemError : Type 0 where
  wrong_state : LifecycleState → SystemError
  service_failed : ℕ → SystemError

abbrev pub Log : Type 0
Log = List (ℕ × Hook)

pub record Manager : Type 0 where
  pub services : List ℕ
  pub state : LifecycleState
  pub log : Log

abbrev pub new_manager : Manager
new_manager = record { services = []; state = uninitialized; log = [] }

unfoldable pub add_service : ℕ → Manager → Manager
add_service service m = record m { services = m.services ++ service ∷ [] }

abbrev pub called : List ℕ → Hook → Log
called services hook = map (λ s. (s, hook)) services

abbrev pub is_uninitialized : LifecycleState → Bool
is_uninitialized uninitialized = true
is_uninitialized _ = false

abbrev pub is_initialized : LifecycleState → Bool
is_initialized initialized = true
is_initialized _ = false

abbrev pub is_running : LifecycleState → Bool
is_running running = true
is_running _ = false

module _ (raises : ℕ → Hook → Bool) where
  -- Calls a hook of each service until one raises: the log, and the service that failed.
  unfoldable pub call_until : Hook → List ℕ → Log → Log × Option ℕ
  call_until hook [] log = (log, none)
  call_until hook (s ∷ services) log =
      let log' : Log = log ++ (s, hook) ∷ [] in
      let rest = call_until hook services log' in if raises s hook then (log', some s) else rest

  -- Calls a hook of each service; what is raised is logged and dropped.
  unfoldable pub call_each : Hook → List ℕ → Log → Log
  call_each hook [] log = log
  call_each hook (s ∷ services) log = call_each hook services (log ++ (s, hook) ∷ [])

  unfoldable pub stop_all : Manager → Manager
  unfolding call_each
  stop_all m =
      if is_running m.state
      then record m { log = call_each stop (reverse m.services) m.log; state = stopped }
      else m

  shut : Manager → Manager
  unfolding call_each
  shut m = record {
    services = [];
    state = shut_down;
    log = call_each shutdown (reverse m.services) m.log;
  }

  unfoldable pub shutdown_all : Manager → Manager
  unfolding shut stop_all
  shutdown_all m = elim m.state [
    | initialized ↦ shut m
    | stopped ↦ shut m
    | running ↦ shut (stop_all m)
    | _ ↦ m
  ]

  initialized_until : Manager → Log × Option ℕ → Result SystemError (Unit {0}) × Manager
  unfolding shutdown_all
  initialized_until m (log, none) = (ok tt, record m { log = log; state = initialized })
  initialized_until m (log, some s) =
      (raise (service_failed s), shutdown_all (record m { log = log; state = initialized }))

  unfoldable pub initialize_all : Manager → Result SystemError (Unit {0}) × Manager
  unfolding initialized_until call_until
  initialize_all m =
      if is_uninitialized m.state
      then initialized_until m (call_until initialize m.services m.log)
      else (raise (wrong_state m.state), m)

  started_until : Manager → Log × Option ℕ → Result SystemError (Unit {0}) × Manager
  unfolding stop_all
  started_until m (log, none) = (ok tt, record m { log = log; state = running })
  started_until m (log, some s) =
      (raise (service_failed s), stop_all (record m { log = log; state = running }))

  unfoldable pub start_all : Manager → Result SystemError (Unit {0}) × Manager
  unfolding started_until call_until
  start_all m =
      if is_initialized m.state
      then started_until m (call_until start m.services m.log)
      else (raise (wrong_state m.state), m)
