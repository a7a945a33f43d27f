-- ===== src/WorkerRegistry.antt =====
-- core/mission/worker_registry.py: the tables worker_registry and task_routing_log, and the
-- operations on them. Each operation is one transaction. An instant is a whole number of
-- microseconds. The capabilities are opaque to the registry; of them stand here the two lists that
-- the router reads.
pub mod Liveness
pub mod Load
pub mod Tasks
use jarvis.Prelude.{
  nat_eq, string_eq, ℕ, String, [], ◌∷◌, none, some, List, Option, Result, Bool, if◌then◌else◌,
  false, true, ◌==◌, length, ◌&&◌, map, leb, raise, not, ◌+◌, keep, ◌-◌, ltb, ok,
}
use jarvis.Prelude.Sort.{sort}
use jarvis.Prelude.Dict.{Dict, get, put}

pub data WorkerStatus : Type 0 where
  online busy offline : WorkerStatus

pub data RegistryError : Type 0 where
  value_error : RegistryError

-- capabilities["platforms"] and capabilities["skills"], empty where the key is missing.
pub record Capabilities : Type 0 where
  pub platforms : List String
  pub skills : List String

pub record Worker : Type 0 where
  pub worker_id : ℕ
  pub hostname : String
  pub pid : ℕ
  pub capabilities : Capabilities
  pub status : WorkerStatus
  pub active_tasks : ℕ
  pub last_heartbeat : Option ℕ
  pub started_at : ℕ

pub record Routing : Type 0 where
  pub route_id : ℕ
  pub wave_run_id : ℕ
  pub chosen_worker_id : ℕ
  pub decision_reason : String
  pub routed_at : ℕ
  pub completed_at : Option ℕ

pub record Tables : Type 0 where
  pub workers : Dict ℕ Worker
  pub routing_log : List Routing

abbrev pub is_offline : WorkerStatus → Bool
is_offline offline = true
is_offline _ = false

abbrev pub is_online : WorkerStatus → Bool
is_online online = true
is_online _ = false

unfoldable pub get_worker : ℕ → Tables → Option Worker
get_worker worker_id t = get t.workers worker_id

abbrev pub rows : Dict ℕ Worker → List Worker
rows d = map (λ e. e.1) d

-- ORDER BY started_at DESC
unfoldable pub list_all : Tables → List Worker
unfolding sort
list_all t = sort (λ a b. leb b.started_at a.started_at) (rows t.workers)

-- No heartbeat, or one that is older than the grace period.
abbrev pub is_stale : (now grace : ℕ) → Option ℕ → Bool
is_stale now grace none = true
is_stale now grace (some heartbeat) = ltb (heartbeat + grace) now

abbrev pub swept_row : (now grace : ℕ) → Worker → Worker
swept_row now grace w =
    if is_offline w.status
    then w
    else if is_stale now grace w.last_heartbeat
    then record w { status = offline }
    else w

unfoldable pub sweep : (now grace : ℕ) → Dict ℕ Worker → Dict ℕ Worker
sweep now grace [] = []
sweep now grace ((k, w) ∷ d) = (k, swept_row now grace w) ∷ sweep now grace d

abbrev pub is_active : (now grace : ℕ) → Worker → Bool
is_active now grace w = is_online w.status && not (is_stale now grace w.last_heartbeat)

abbrev pub heartbeat_of : Worker → ℕ
heartbeat_of w = elim w.last_heartbeat [ none ↦ 0 | some at ↦ at ]

-- The sweep, and then the read, ORDER BY last_heartbeat DESC.
unfoldable pub list_active : (now grace : ℕ) → Tables → Result RegistryError (List Worker) × Tables
unfolding sort sweep
list_active now grace t =
    if grace == 0
    then (raise value_error, t)
    else (let swept = sweep now grace t.workers in
        (
          ok (
              sort (λ a b. leb (heartbeat_of b) (heartbeat_of a))
                (keep (is_active now grace) (rows swept))),
          record t { workers = swept },
        ))

abbrev pub registered_row :
    (now : ℕ) → ℕ → String → ℕ → Capabilities → WorkerStatus → Option Worker → Worker
registered_row now worker_id hostname pid capabilities status none = record {
  worker_id = worker_id;
  hostname = hostname;
  pid = pid;
  capabilities = capabilities;
  status = status;
  active_tasks = 0;
  last_heartbeat = some now;
  started_at = now;
}
registered_row now worker_id hostname pid capabilities status (some existing) = record existing {
  hostname = hostname;
  pid = pid;
  capabilities = capabilities;
  status = status;
}

unfoldable pub register :
    (now : ℕ)
    → (worker_id : ℕ) (hostname : String) (pid : ℕ) (capabilities : Capabilities) → WorkerStatus
    → Tables
    → Result RegistryError Worker × Tables
register now worker_id hostname pid capabilities status t =
    if hostname == ""
    then (raise value_error, t)
    else if pid == 0
    then (raise value_error, t)
    else (let row =
          registered_row now worker_id hostname pid capabilities status (get t.workers worker_id) in
        (ok row, record t { workers = put t.workers worker_id row }))

abbrev pub promoted : WorkerStatus → WorkerStatus
promoted offline = online
promoted status = status

abbrev pub or_kept : Option ℕ → ℕ → ℕ
or_kept none kept = kept
or_kept (some n) kept = n

abbrev pub beaten : (now : ℕ) → Option ℕ → Worker → Worker
beaten now active_tasks w = record w {
  last_heartbeat = some now;
  status = promoted w.status;
  active_tasks = or_kept active_tasks w.active_tasks;
}

unfoldable pub heartbeat :
    (now : ℕ) → (worker_id : ℕ) → (active_tasks : Option ℕ) → Tables → Option WorkerStatus × Tables
heartbeat now worker_id active_tasks t = elim (get t.workers worker_id) [
  | none ↦ (none, t)
  | some w ↦
      let w' = beaten now active_tasks w in
      (some w'.status, record t { workers = put t.workers worker_id w' })
]

unfoldable pub mark_offline : (worker_id : ℕ) → Tables → Bool × Tables
mark_offline worker_id t = elim (get t.workers worker_id) [
  | none ↦ (false, t)
  | some w ↦ (true, record t { workers = put t.workers worker_id (record w { status = offline }) })
]
