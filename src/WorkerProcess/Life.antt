-- ===== src/WorkerProcess/Life.antt =====
-- How the registry sees a worker of core/mission/worker_process.py.
use jarvis.Prelude.{
  keep, Any, List, [], ◌∷◌, ◌↔◌, nat_eq, ◌==◌, Result, true, Bool-cases, string_eq, ℕ, ◌+◌, ◌≤◌,
  ◌<◌, false, Option, none, some, ◌≡◌, ◌≢◌, refl, sym, subst, ◌∙◌, ap, arith, Option-cases, inl,
  inr, ok,
}
use jarvis.Prelude.Dict.{get, put, Dict, get-put_self}
use jarvis.Prelude.Sort.{sort, Any-sort, Any-sort_inv}
use jarvis.WorkerRegistry.{
  is_online, is_active, rows, Tables, RegistryError, WorkerStatus, online, busy, offline, Worker,
  register, heartbeat, mark_offline, list_active, swept_row, registered_row, beaten, promoted,
  is_offline,
}
use jarvis.WorkerRegistry.Liveness.{
  Any-keep, Any-keep_inv, later_first, list_active_lem, list_active-exact, swept,
}
use jarvis.WorkerProcess.{
  WorkerProcessConfig, alive, absent, is_running, check_config, WorkerProcess, new_process,
  register_self, started, start, stop, beaten_or_missing, heartbeat_turn, run_once_from, run_once,
}

-- What `check_config` accepts, `register` accepts.
register_self-ok :
    (now : ℕ) (c c' : WorkerProcessConfig) (t : Tables)
    → check_config c ≡ ok c'
    → let row =
        registered_row now c.worker_id c.hostname c.pid c.capabilities c.initial_status
          (get t.workers c.worker_id) in
      register_self now c t ≡ (ok row, record t { workers = put t.workers c.worker_id row })
unfolding check_config register_self register
register_self-ok now c c' t h = elim (Bool-cases (c.hostname == "")) [
  | inl e ↦ absurd (ground (arith, e, h))
  | inr named ↦ elim (Bool-cases (c.pid == 0)) [
    | inl e ↦ absurd (ground (arith, named, e, h))
    | inr e ↦ simp (named, e) refl
  ]
]

-- The row is there, its last heartbeat is at this instant, and it is not OFFLINE.
abbrev pub IsLive : (now : ℕ) → Option Worker → Type 0
IsLive now none = ⊥
IsLive now (some w) = (w.last_heartbeat ≡ some now) × (w.status ≢ offline)

abbrev pub At : Dict ℕ Worker → ℕ → (Option Worker → Type 0) → Type 0
At d k P = P (get d k)

At-put :
    (d : Dict ℕ Worker) (k : ℕ) (w : Worker) (P : Option Worker → Type 0)
    → P (some w)
    → At (put d k w) k P
At-put d k w P holds = subst P (sym (get-put_self d k w)) holds

promoted-online : (s : WorkerStatus) → promoted s ≢ offline
promoted-online online = ground arith
promoted-online busy = ground arith
promoted-online offline = ground arith

heartbeat-none :
    (now worker_id : ℕ) (t : Tables)
    → get t.workers worker_id ≡ none
    → heartbeat now worker_id none t ≡ (none, t)
unfolding heartbeat
heartbeat-none now worker_id t missing = rw (heartbeat, missing) refl

heartbeat-some :
    (now worker_id : ℕ) (t : Tables) (w : Worker)
    → get t.workers worker_id ≡ some w
    → heartbeat now worker_id none t ≡ (
      some (beaten now none w).status,
      record t { workers = put t.workers worker_id (beaten now none w) },
    )
unfolding heartbeat
heartbeat-some now worker_id t w found = rw (heartbeat, found) refl

online-offline : (s : WorkerStatus) → s ≡ online → s ≢ offline
online-offline online e = ground arith
online-offline busy e = ground arith
online-offline offline e = ground (arith, e)

-- A turn of the loop leaves the row of the worker live, whether the row was there or not.
heartbeat_turn-IsLive :
    (now : ℕ) (c c' : WorkerProcessConfig) (t : Tables)
    → check_config c ≡ ok c'
    → c.initial_status ≡ online
    → At (heartbeat_turn now c t).workers c.worker_id (IsLive now)
unfolding heartbeat_turn beaten_or_missing
heartbeat_turn-IsLive now c c' t valid initial = elim (Option-cases (get t.workers c.worker_id)) [
  | inl missing ↦
      subst (λ x. At (beaten_or_missing now c x).workers c.worker_id (IsLive now))
        (sym (heartbeat-none now c.worker_id t missing))
        (subst (λ x. At x.1.workers c.worker_id (IsLive now))
          (sym (register_self-ok now c c' t valid))
          (At-put t.workers c.worker_id
            (registered_row now c.worker_id c.hostname c.pid c.capabilities c.initial_status
              (get t.workers c.worker_id))
            (IsLive now)
            (subst
              (λ o. IsLive now (
                some (
                  registered_row now c.worker_id c.hostname c.pid c.capabilities c.initial_status
                    o)))
              (sym missing) (refl, online-offline c.initial_status initial))))
  | inr (w, found) ↦
      subst (λ x. At (beaten_or_missing now c x).workers c.worker_id (IsLive now))
        (sym (heartbeat-some now c.worker_id t w found))
        (At-put t.workers c.worker_id (beaten now none w) (IsLive now)
          (refl, promoted-online w.status))
]

is_offline-false : (s : WorkerStatus) → s ≢ offline → is_offline s ≡ false
is_offline-false online up = refl
is_offline-false busy up = refl
is_offline-false offline up = absurd (up refl)

swept_row-kept :
    (now later grace : ℕ) (w : Worker)
    → later ≤ now + grace
    → w.last_heartbeat ≡ some now
    → w.status ≢ offline
    → swept_row later grace w ≡ w
swept_row-kept now later grace w soon beat up =
    ground (arith, is_offline-false w.status up, soon, beat)

swept-IsLive :
    (now later grace : ℕ) (row : Option Worker)
    → later ≤ now + grace
    → IsLive now row
    → swept later grace row ≡ row
swept-IsLive now later grace none soon live = refl
swept-IsLive now later grace (some w) soon (beat, up) =
    ap some (swept_row-kept now later grace w soon beat up)

-- What list_active makes of a worker that has turned its heartbeat loop: it answers with a list, it
-- leaves the worker's row as it was, and the row stands in the list exactly if its status is ONLINE.
abbrev pub Reported : ℕ → Option Worker → Result RegistryError (List Worker) × Tables → Type 0
Reported worker_id none (answer, t) = ⊥
Reported worker_id (some w) (answer, t) =
    (get t.workers worker_id ≡ some w)
    × ((active : List Worker) × (answer ≡ ok active)
        × (Any (λ x. x ≡ w) active ↔ (w.status ≡ online)))

Any-rows : (d : Dict ℕ Worker) (k : ℕ) (w : Worker) → get d k ≡ some w → Any (λ x. x ≡ w) (rows d)
unfolding get
Any-rows [] k w h = absurd (ground (arith, h))
Any-rows ((j, x) ∷ d) k w h = elim (Bool-cases (j == k)) [
  | inl e ↦ let same : some x ≡ some w = rw e at h in inl (cc same)
  | inr e ↦ inr (Any-rows d k w (rw e at h))
]

is_online-online : (s : WorkerStatus) → is_online s ≡ true → s ≡ online
is_online-online online h = refl
is_online-online busy h = absurd (ground (arith, h))
is_online-online offline h = absurd (ground (arith, h))

active-online : (now grace : ℕ) (w : Worker) → is_active now grace w ≡ true → w.status ≡ online
active-online now grace w h = is_online-online w.status (ground (arith, h))

online-active :
    (now later grace : ℕ) (w : Worker)
    → later ≤ now + grace
    → w.last_heartbeat ≡ some now
    → w.status ≡ online
    → is_active later grace w ≡ true
online-active now later grace w soon beat up = ground (arith, soon, beat, ap is_online up)

reported :
    (now later grace worker_id : ℕ) (t : Tables) (row : Option Worker)
    → get t.workers worker_id ≡ row
    → IsLive now row
    → 0 < grace
    → later ≤ now + grace
    → Reported worker_id row (list_active later grace t)
reported now later grace worker_id t none found live pos soon = live
reported now later grace worker_id t (some w) found (beat, up) pos soon =
    let ws = keep (is_active later grace) (rows t.workers) in
    (
      (list_active-exact later grace t pos).1 worker_id
          ∙ ap (swept later grace) found
          ∙ swept-IsLive now later grace (some w) soon (beat, up),
      (
        sort later_first ws,
        ap (λ x. x.0) (list_active_lem later grace t pos),
        (
          λ listed.
              let (stands, act) =
                Any-keep (is_active later grace) w (rows t.workers)
                  (Any-sort later_first (λ x. x ≡ w) ws listed) in
              active-online later grace w act,
          λ is_online.
              Any-sort_inv later_first (λ x. x ≡ w) ws
                (Any-keep_inv (is_active later grace) w (rows t.workers)
                  (Any-rows t.workers worker_id w found)
                  (online-active now later grace w soon beat is_online)),
        ),
      ),
    )

-- A worker that turns its heartbeat loop is in the table and is reported: with a checked configuration
-- that starts ONLINE, whether its row was there or not, the row has a heartbeat at this instant and is
-- not OFFLINE; and the next list_active within a positive grace period leaves it as it is and answers
-- with a list in which the row stands exactly if it is ONLINE (a BUSY worker is not listed).
pub list_active-heartbeat_turn :
    (now later grace : ℕ) (c c' : WorkerProcessConfig) (t : Tables)
    → check_config c ≡ ok c'
    → c.initial_status ≡ online
    → 0 < grace
    → later ≤ now + grace
    → let turned = heartbeat_turn now c t in
      IsLive now (get turned.workers c.worker_id)
      × Reported c.worker_id (get turned.workers c.worker_id) (list_active later grace turned)
list_active-heartbeat_turn now later grace c c' t valid initial pos soon =
    let turned = heartbeat_turn now c t in
    let live : IsLive now (get turned.workers c.worker_id) =
      heartbeat_turn-IsLive now c c' t valid initial in
    (
      live,
      reported now later grace c.worker_id turned (get turned.workers c.worker_id) refl live pos
          soon,
    )

-- The row is there and is OFFLINE.
abbrev pub IsDown : Option Worker → Type 0
IsDown none = ⊥
IsDown (some w) = w.status ≡ offline

mark_offline-IsDown :
    (worker_id : ℕ) (t : Tables) (w : Worker)
    → get t.workers worker_id ≡ some w
    → At (mark_offline worker_id t).1.workers worker_id IsDown
unfolding mark_offline
mark_offline-IsDown worker_id t w found =
    let down = record w { status = offline } in
    let marked : mark_offline worker_id t
        ≡ (true, record t { workers = put t.workers worker_id down }) =
      rw (mark_offline, found) refl in
    subst (λ x. At x.1.workers worker_id IsDown) (sym marked)
      (At-put t.workers worker_id down IsDown refl)

-- The process is not registered, and nothing beats for it.
abbrev pub IsStopped : WorkerProcess → Type 0
IsStopped p = (p.registered ≡ false) × (p.heartbeat_task ≡ absent)

abbrev pub IsOver : ℕ → Result RegistryError (Unit {0}) × WorkerProcess × Tables → Type 0
IsOver worker_id (answer, p, t) = (answer ≡ ok tt) × IsStopped p × At t.workers worker_id IsDown

stop-registered :
    (p : WorkerProcess) (t : Tables)
    → p.registered ≡ true
    → stop p t ≡ (
      record p { stop_event = true; heartbeat_task = absent; registered = false },
      (mark_offline p.config.worker_id t).1,
    )
unfolding stop
stop-registered p t registered = rw (registered) refl

run_once_from-IsOver :
    (now : ℕ) (p : WorkerProcess) (t : Tables) (w : Worker)
    → p.registered ≡ true
    → get t.workers p.config.worker_id ≡ some w
    → IsOver p.config.worker_id (run_once_from now (ok tt, p, t))
unfolding run_once_from stop
run_once_from-IsOver now p t w registered found =
    let id = p.config.worker_id in
    subst (λ x. IsOver id (ok tt, (stop p x.1).0, (stop p x.1).1))
      (sym (heartbeat-some now id t w found))
      (let beat = record t { workers = put t.workers id (beaten now none w) } in
        subst (λ x. IsOver id (ok tt, x.0, x.1)) (sym (stop-registered p beat registered))
          (
            refl,
            (refl, refl),
            mark_offline-IsDown id beat (beaten now none w)
                (get-put_self t.workers id (beaten now none w)),
          ))

-- One whole life of a process with a checked configuration, on any tables: it registers, beats once
-- and stops without an error, and leaves its row OFFLINE and itself neither registered nor beating.
pub run_once-IsOver :
    (now later : ℕ) (c c' : WorkerProcessConfig) (t : Tables)
    → check_config c ≡ ok c'
    → IsOver c.worker_id (run_once now later (new_process c) t)
unfolding run_once start started is_running
run_once-IsOver now later c c' t valid =
    let row =
      registered_row now c.worker_id c.hostname c.pid c.capabilities c.initial_status
        (get t.workers c.worker_id) in
    subst (λ x. IsOver c.worker_id (run_once_from later (started (new_process c) x)))
      (sym (register_self-ok now c c' t valid))
      (run_once_from-IsOver later
        (record (new_process c) { registered = true; stop_event = false; heartbeat_task = alive })
        (record t { workers = put t.workers c.worker_id row }) row refl
        (get-put_self t.workers c.worker_id row))
