-- ===== src/Samples/Workers.antt =====
-- Runs of core/mission/worker_registry.py.
use jarvis.Prelude.{ℕ, [], ◌∷◌, none, some, nat_eq, string_eq, ◌+◌}
use jarvis.WorkerRegistry.{Worker, Routing, Tables, online}

abbrev worker : Worker
worker = record {
  worker_id = 1;
  hostname = "h";
  pid = 9;
  capabilities = record { platforms = "linux" ∷ []; skills = [] };
  status = online;
  active_tasks = 0;
  last_heartbeat = some 50;
  started_at = 0;
}

abbrev routed : ℕ → Routing
routed wave = record {
  route_id = wave + 1000;
  wave_run_id = wave;
  chosen_worker_id = 1;
  decision_reason = "ROUTED_LOCAL";
  routed_at = 0;
  completed_at = none;
}

abbrev tables : Tables
tables = record { workers = (1, worker) ∷ []; routing_log = routed 100 ∷ routed 101 ∷ [] }
