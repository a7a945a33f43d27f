-- ===== src/WorkerRegistry/Liveness.antt =====
-- Which workers core/mission/worker_registry.py reports as active.
use mathlib.Core.List.{Perm}
use jarvis.Prelude.{
  nat_eq, nat_beq_iff, ℕ, [], ◌∷◌, none, some, refl, keep, ◌<◌, List, ◌≡◌, arith, ok, Option, ◌≤◌,
  Bool, leb, ◌+◌, Bool-cases, ◌≢◌, ◌==◌, inl, inr, Any, true, sym, subst,
}
use jarvis.Prelude.Sort.{sort, sort-perm}
use jarvis.Prelude.Dict.{Dict, get, get-put_self}
use jarvis.WorkerRegistry.{
  Worker, WorkerStatus, offline, Tables, rows, swept_row, sweep, is_active, list_active, heartbeat,
  heartbeat_of, beaten,
}

abbrev pub swept : (now grace : ℕ) → Option Worker → Option Worker
swept now grace none = none
swept now grace (some w) = some (swept_row now grace w)

get-sweep :
    (now grace k : ℕ) (d : Dict ℕ Worker) → get (sweep now grace d) k ≡ swept now grace (get d k)
unfolding get sweep
get-sweep now grace k [] = refl
get-sweep now grace k ((j, w) ∷ d) = ground (arith, get-sweep now grace k d)

keep-sweep :
    (now grace : ℕ) (d : Dict ℕ Worker)
    → keep (is_active now grace) (rows (sweep now grace d)) ≡ keep (is_active now grace) (rows d)
unfolding keep sweep
keep-sweep now grace [] = refl
keep-sweep now grace ((j, w) ∷ d) = ground (arith, keep-sweep now grace d)

abbrev pub later_first : Worker → Worker → Bool
later_first a b = leb (heartbeat_of b) (heartbeat_of a)

pub list_active_lem :
    (now grace : ℕ) (t : Tables)
    → 0 < grace
    → list_active now grace t ≡ (
      ok (sort later_first (keep (is_active now grace) (rows t.workers))),
      record t { workers = sweep now grace t.workers },
    )
unfolding list_active
list_active_lem now grace t pos = elim (Bool-cases (grace == 0)) [
  | inl none_given ↦ absurd (omega (arith, (nat_beq_iff grace 0).0 none_given))
  | inr given ↦ rw (given, keep-sweep now grace t.workers) refl
]

abbrev pub status_of : Option Worker → Option WorkerStatus
status_of none = none
status_of (some w) = some w.status

-- list_active reports exactly the workers that are ONLINE and whose last heartbeat is within the
-- grace period, each as it is in the table; and it leaves every other worker with no heartbeat in
-- that period OFFLINE, and nothing else of any worker changed.
pub list_active-exact :
    (now grace : ℕ) (t : Tables)
    → 0 < grace
    → ((active : List Worker) × ((list_active now grace t).0 ≡ ok active)
        × Perm active (keep (is_active now grace) (rows t.workers)))
      × ((k : ℕ) → get (list_active now grace t).1.workers k ≡ swept now grace (get t.workers k))
list_active-exact now grace t pos = rw (list_active_lem now grace t pos) (
  (
    sort later_first (keep (is_active now grace) (rows t.workers)),
    refl,
    sort-perm later_first (keep (is_active now grace) (rows t.workers)),
  ),
  λ k. get-sweep now grace k t.workers,
)

-- A heartbeat makes a worker live: whatever the worker's status was, the next list_active within
-- the grace period leaves the worker's row as the heartbeat wrote it, and it is not OFFLINE.
pub list_active-heartbeat :
    (now later grace worker : ℕ) (active_tasks : Option ℕ) (t : Tables) (w : Worker)
    → get t.workers worker ≡ some w
    → 0 < grace
    → later ≤ now + grace
    → let beaten_now = (heartbeat now worker active_tasks t).1 in
      (get (list_active later grace beaten_now).1.workers worker ≡ get beaten_now.workers worker)
      × (status_of (get beaten_now.workers worker) ≢ some offline)
unfolding heartbeat
list_active-heartbeat now later grace worker active_tasks t w found pos soon = ground (
  arith,
  (list_active-exact later grace (heartbeat now worker active_tasks t).1 pos).1 worker,
  get-put_self t.workers worker (beaten now active_tasks w),
)

pub Any-keep :
    (p : Worker → Bool) (best : Worker) (ws : List Worker)
    → Any (λ w. w ≡ best) (keep p ws)
    → Any (λ w. w ≡ best) ws × (p best ≡ true)
unfolding keep
Any-keep p best [] h = absurd h
Any-keep p best (w ∷ ws) h = elim (Bool-cases (p w)) [
  | inl e ↦ elim (rw e at h) [
    | inl is ↦ (inl is, subst (λ x. p x ≡ true) is e)
    | inr later ↦ let (stands, yes_p) = Any-keep p best ws later in (inr stands, yes_p)
  ]
  | inr e ↦ let (stands, yes_p) = Any-keep p best ws (rw e at h) in (inr stands, yes_p)
]

pub Any-keep_inv :
    (p : Worker → Bool) (best : Worker) (ws : List Worker)
    → Any (λ w. w ≡ best) ws
    → p best ≡ true
    → Any (λ w. w ≡ best) (keep p ws)
unfolding keep
Any-keep_inv p best [] h good = absurd h
Any-keep_inv p best (w ∷ ws) h good = elim (Bool-cases (p w)) [
  | inl e ↦ rw e (elim h [ inl is ↦ inl is | inr later ↦ inr (Any-keep_inv p best ws later good) ])
  | inr e ↦ rw e (elim h [
    | inl is ↦ absurd (ground (arith, e, subst (λ x. p x ≡ true) (sym is) good))
    | inr later ↦ Any-keep_inv p best ws later good
  ])
]
