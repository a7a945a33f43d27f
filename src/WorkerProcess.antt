-- ===== src/WorkerProcess.antt =====
-- core/mission/worker_process.py: WorkerProcessConfig and WorkerProcess over the tables of
-- WorkerRegistry. The command line, the environment and the signals are left out: a signal is a call
-- of `stop`.
pub mod Life
use jarvis.Prelude.{
  nat_eq, string_eq, ℕ, String, Bool, true, false, not, ◌&&◌, Option, none, some, List, [], ◌∷◌,
  ◌==◌, if◌then◌else◌, Result, ok, raise,
}
use jarvis.WorkerRegistry.{
  WorkerStatus, online, busy, offline, Capabilities, Worker, Tables, RegistryError, register,
  heartbeat, mark_offline,
}

pub record WorkerProcessConfig : Type 0 where
  pub worker_id : ℕ
  pub hostname : String
  pub pid : ℕ
  pub capabilities : Capabilities
  pub heartbeat_interval : ℕ
  pub initial_status : WorkerStatus

pub data WorkerProcessError : Type 0 where
  no_hostname no_pid no_interval bad_status : WorkerProcessError

abbrev pub is_busy : WorkerStatus → Bool
is_busy busy = true
is_busy _ = false

-- __post_init__
unfoldable pub check_config : WorkerProcessConfig → Result WorkerProcessError WorkerProcessConfig
check_config c =
    if c.hostname == ""
    then raise no_hostname
    else if c.pid == 0
    then raise no_pid
    else if c.heartbeat_interval == 0
    then raise no_interval
    else if is_busy c.initial_status
    then raise bad_status
    else ok c

-- None, a task that runs, a task that is done.
pub data HeartbeatTask : Type 0 where
  absent alive done : HeartbeatTask

pub record WorkerProcess : Type 0 where
  pub config : WorkerProcessConfig
  pub registered : Bool
  pub heartbeat_task : HeartbeatTask
  pub stop_event : Bool

abbrev pub new_process : WorkerProcessConfig → WorkerProcess
new_process c = record {
  config = c;
  registered = false;
  heartbeat_task = absent;
  stop_event = false;
}

abbrev pub is_alive : HeartbeatTask → Bool
is_alive alive = true
is_alive _ = false

abbrev pub is_absent : HeartbeatTask → Bool
is_absent absent = true
is_absent _ = false

unfoldable pub is_running : WorkerProcess → Bool
is_running p = p.registered && is_alive p.heartbeat_task

unfoldable pub register_self :
    (now : ℕ) → WorkerProcessConfig → Tables → Result RegistryError Worker × Tables
unfolding register
register_self now c t = register now c.worker_id c.hostname c.pid c.capabilities c.initial_status t

unfoldable pub started :
    WorkerProcess
    → Result RegistryError Worker × Tables
    → Result RegistryError (Unit {0}) × WorkerProcess × Tables
started p (raise e, t) = (raise e, p, t)
started p (ok w, t) =
    (ok tt, record p { registered = true; stop_event = false; heartbeat_task = alive }, t)

unfoldable pub start :
    (now : ℕ) → WorkerProcess → Tables → Result RegistryError (Unit {0}) × WorkerProcess × Tables
unfolding started register_self is_running
start now p t = if is_running p then (ok tt, p, t) else started p (register_self now p.config t)

unfoldable pub stop : WorkerProcess → Tables → WorkerProcess × Tables
unfolding mark_offline
stop p t = if not p.registered && is_absent p.heartbeat_task then (p, t) else (
  record p { stop_event = true; heartbeat_task = absent; registered = false },
  (mark_offline p.config.worker_id t).1,
)

-- A row that is gone is registered again; what `register` raises is logged.
unfoldable pub beaten_or_missing :
    (now : ℕ) → WorkerProcessConfig → Option WorkerStatus × Tables → Tables
unfolding register_self
beaten_or_missing now c (some status, t) = t
beaten_or_missing now c (none, t) = (register_self now c t).1

-- One turn of `_heartbeat_loop`.
unfoldable pub heartbeat_turn : (now : ℕ) → WorkerProcessConfig → Tables → Tables
unfolding beaten_or_missing heartbeat
heartbeat_turn now c t = beaten_or_missing now c (heartbeat now c.worker_id none t)

unfoldable pub run_once_from :
    (now : ℕ)
    → Result RegistryError (Unit {0}) × WorkerProcess × Tables
    → Result RegistryError (Unit {0}) × WorkerProcess × Tables
unfolding heartbeat stop
run_once_from now (raise e, p, t) = (raise e, p, t)
run_once_from now (ok _, p, t) =
    let (p', t') = stop p (heartbeat now p.config.worker_id none t).1 in (ok tt, p', t')

unfoldable pub run_once :
    (now later : ℕ)
    → WorkerProcess
    → Tables
    → Result RegistryError (Unit {0}) × WorkerProcess × Tables
unfolding run_once_from start
run_once now later p t = run_once_from later (start now p t)
