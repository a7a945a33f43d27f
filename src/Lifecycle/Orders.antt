-- ===== src/Lifecycle/Orders.antt =====
-- In which order core/lifecycle.py calls the hooks of the services.
use mathlib.Core.List.{reverse}
use jarvis.Prelude.{
  ℕ, [], ◌∷◌, Bool, List, All, ◌≡◌, true, false, ◌++◌, sym, none, some, raise, ◌∙◌, append-nil,
  append_assoc, ok,
}
use jarvis.Lifecycle.{
  Hook, initialize, start, stop, shutdown, uninitialized, initialized, running, stopped, shut_down,
  service_failed, Log, Manager, called, call_until, call_each, initialize_all, start_all, stop_all,
  shutdown_all,
}

module _ (raises : ℕ → Hook → Bool) where
  call_each-called :
      (hook : Hook) (services : List ℕ) (log : Log)
      → call_each raises hook services log ≡ log ++ called services hook
  unfolding call_each
  call_each-called hook [] log = sym (append-nil log)
  call_each-called hook (s ∷ services) log =
      call_each-called hook services (log ++ (s, hook) ∷ []) ∙ append_assoc log _ _

  -- None of the services raises.
  abbrev pub NoneRaises : Hook → List ℕ → Type 0
  NoneRaises hook services = All (λ s. raises s hook ≡ false) services

  call_until-none :
      (hook : Hook) (services : List ℕ) (log : Log)
      → NoneRaises hook services
      → call_until raises hook services log ≡ (log ++ called services hook, none)
  unfolding call_until
  call_until-none hook [] log h = rw append-nil
  call_until-none hook (s ∷ services) log h =
      rw h.0 (call_until-none hook services (log ++ (s, hook) ∷ []) h.1 ∙ rw append_assoc)

  call_until-some :
      (hook : Hook) (before : List ℕ) (bad : ℕ) (after : List ℕ) (log : Log)
      → NoneRaises hook before
      → raises bad hook ≡ true
      → call_until raises hook (before ++ bad ∷ after) log
        ≡ (log ++ called (before ++ bad ∷ []) hook, some bad)
  unfolding call_until
  call_until-some hook [] bad after log h e = rw e
  call_until-some hook (s ∷ before) bad after log h e =
      rw h.0 (call_until-some hook before bad after (log ++ (s, hook) ∷ []) h.1 e ∙ rw append_assoc)

  initialize_all-ok :
      (services : List ℕ) (log : Log)
      → NoneRaises initialize services
      → initialize_all raises (record { services = services; state = uninitialized; log = log }) ≡ (
        ok tt,
        record {
          services = services;
          state = initialized;
          log = log ++ called services initialize;
        },
      )
  unfolding initialize_all
  initialize_all-ok services log h = rw (call_until-none initialize services log h)

  start_all-ok :
      (services : List ℕ) (log : Log)
      → NoneRaises start services
      → start_all raises (record { services = services; state = initialized; log = log }) ≡ (
        ok tt,
        record { services = services; state = running; log = log ++ called services start },
      )
  unfolding start_all
  start_all-ok services log h = rw (call_until-none start services log h)

  -- A whole life: if no service fails to initialise or to start, booting and shutting down calls
  -- initialize and start of every service in the order in which they were added, and then stop and
  -- shutdown of every service in the reverse order, whatever these raise; the system ends shut down
  -- and without services.
  pub whole_life :
      (services : List ℕ)
      → NoneRaises initialize services
      → NoneRaises start services
      → let boot : Manager = record { services = services; state = uninitialized; log = [] } in
        shutdown_all raises (stop_all raises (start_all raises (initialize_all raises boot).1).1)
        ≡ record {
          services = [];
          state = shut_down;
          log =
              ((called services initialize ++ called services start)
                ++ called (reverse services) stop)
              ++ called (reverse services) shutdown;
        }
  unfolding shutdown_all stop_all
  whole_life services hi hs =
      rw (initialize_all-ok services [] hi, start_all-ok services (called services initialize) hs)
        (rw (call_each-called, call_each-called))

  -- A service that fails to initialise ends the boot: the services after it are never initialised,
  -- the error names it, and every registered service is shut down in reverse order, also those that
  -- were not initialised; the system ends shut down.
  pub initialize_all-failed :
      (before after : List ℕ) (bad : ℕ) (log : Log)
      → NoneRaises initialize before
      → raises bad initialize ≡ true
      → let services = before ++ bad ∷ after in
        initialize_all raises (record { services = services; state = uninitialized; log = log }) ≡ (
          raise (service_failed bad),
          record {
            services = [];
            state = shut_down;
            log =
                (log ++ called (before ++ bad ∷ []) initialize)
                ++ called (reverse services) shutdown;
          },
        )
  unfolding shutdown_all initialize_all
  initialize_all-failed before after bad log h e =
      rw (call_until-some initialize before bad after log h e) (rw (call_each-called shutdown))

  -- A service that fails to start ends the start: the services after it are never started, the
  -- error names it, and stop is called on every service in reverse order, also on those that were
  -- not started; the system ends stopped, with its services.
  pub start_all-failed :
      (before after : List ℕ) (bad : ℕ) (log : Log)
      → NoneRaises start before
      → raises bad start ≡ true
      → let services = before ++ bad ∷ after in
        start_all raises (record { services = services; state = initialized; log = log }) ≡ (
          raise (service_failed bad),
          record {
            services = services;
            state = stopped;
            log = (log ++ called (before ++ bad ∷ []) start) ++ called (reverse services) stop;
          },
        )
  unfolding stop_all start_all
  start_all-failed before after bad log h e =
      rw (call_until-some start before bad after log h e) (rw (call_each-called stop))
