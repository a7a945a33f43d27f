-- ===== src/Samples/Processes.antt =====
-- Runs of core/mission/worker_process.py.
use jarvis.Prelude.{nat_eq, [], ◌≡◌, refl, arith, ok}
use jarvis.Prelude.Dict.{get}
use jarvis.WorkerRegistry.{Tables, online, list_active}
use jarvis.WorkerProcess.{WorkerProcessConfig, check_config, heartbeat_turn}
use jarvis.WorkerProcess.Life.{IsLive, Reported, list_active-heartbeat_turn}

abbrev empty : Tables
empty = record { workers = []; routing_log = [] }

abbrev config : WorkerProcessConfig
config = record {
  worker_id = 3;
  hostname = "w";
  pid = 44;
  capabilities = record { platforms = []; skills = [] };
  heartbeat_interval = 5;
  initial_status = online;
}

check_config-config : check_config config ≡ ok config
unfolding check_config
check_config-config = refl

list_active-heartbeat_turn_example :
    let turned = heartbeat_turn 60 config empty in
    IsLive 60 (get turned.workers 3) × Reported 3 (get turned.workers 3) (list_active 70 15 turned)
list_active-heartbeat_turn_example =
    list_active-heartbeat_turn 60 70 15 config config empty check_config-config refl (omega arith)
      (omega arith)
