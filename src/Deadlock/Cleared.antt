-- ===== src/Deadlock/Cleared.antt =====
-- What the resolution of deadlocks of core/runtime/deadlock_detector.py leaves of the edges and of
-- the locks.
use jarvis.Prelude.{
  string_eq, String, Bool, true, false, List, [], ◌∷◌, ◌==◌, member, ◌≡◌, inl, inr, refl, arith,
  eq_iff, Bool-cases, if◌then◌else◌, none, some, not, ◌&&◌, ◌||◌, keep, Option, ap, Option-cases,
}
use jarvis.Prelude.Dict.{get, get-remove}
use jarvis.MemoryLock.{Locks, release, owned_by}
use jarvis.Deadlock.{WaitForEdge, DeadlockInfo, DeadlockDetector, has_edge, same_edge, clear_agent}
use jarvis.Deadlock.Detection.{resolve_deadlock, resolve_all, release_all, release_locks}

-- An agent whose edges the resolution of the deadlocks clears.
unfoldable pub is_cleared : String → List DeadlockInfo → Bool
is_cleared a [] = false
is_cleared a (dl ∷ dls) =
    if dl.victim == "" then is_cleared a dls else if dl.victim == a then true else is_cleared a dls

pub same_edge→eq : (x e : WaitForEdge) → same_edge x e ≡ true → x ≡ e
same_edge→eq x e h =
    ground
      (arith, h, eq_iff x.waiter e.waiter, eq_iff x.holder e.holder, eq_iff x.resource e.resource)

has_edge-keep :
    (p : WaitForEdge → Bool) (e : WaitForEdge) (es : List WaitForEdge)
    → has_edge e (keep p es) ≡ (if p e then has_edge e es else false)
unfolding has_edge keep
has_edge-keep p e [] = ground arith
has_edge-keep p e (x ∷ es) = elim (Bool-cases (same_edge x e)) [
  | inl same ↦ ground (arith, ap p (same_edge→eq x e same), same, has_edge-keep p e es)
  | inr other ↦ ground (arith, has_edge-keep p e es, other)
]

has_edge-clear :
    (agent : String) (e : WaitForEdge) (d : DeadlockDetector)
    → has_edge e (clear_agent agent d).wait_for_edges
      ≡ (if agent == e.waiter || agent == e.holder then false else has_edge e d.wait_for_edges)
unfolding clear_agent
has_edge-clear agent e d = ground (
  arith,
  has_edge-keep (λ x. not (x.waiter == agent) && not (x.holder == agent)) e d.wait_for_edges,
  eq_iff e.waiter agent,
  eq_iff e.holder agent,
  eq_iff agent e.waiter,
  eq_iff agent e.holder,
)

has_edge-resolve :
    (dl : DeadlockInfo) (d : DeadlockDetector) (e : WaitForEdge)
    → has_edge e (resolve_deadlock dl d).wait_for_edges ≡ (
        if dl.victim == ""
        then has_edge e d.wait_for_edges
        else (if dl.victim == e.waiter || dl.victim == e.holder
            then false
            else has_edge e d.wait_for_edges))
unfolding resolve_deadlock
has_edge-resolve dl d e = elim (Bool-cases (dl.victim == "")) [
  | inl nobody ↦ ground (arith, nobody)
  | inr somebody ↦ rw somebody (
      has_edge-clear dl.victim e
        (record d { lock_manager = release_locks dl.cycle dl.victim d.lock_manager }))
]

pub has_edge-resolve_all :
    (dls : List DeadlockInfo) (d : DeadlockDetector) (e : WaitForEdge)
    → has_edge e (resolve_all dls d).wait_for_edges ≡ (
        if is_cleared e.waiter dls || is_cleared e.holder dls
        then false
        else has_edge e d.wait_for_edges)
unfolding resolve_all is_cleared
has_edge-resolve_all [] d e = refl
has_edge-resolve_all (dl ∷ dls) d e =
    ground (arith, has_edge-resolve_all dls (resolve_deadlock dl d) e, has_edge-resolve dl d e)

release-get :
    (r victim : String) (locks : Locks) (k : String)
    → get (release r victim locks).1 k
      ≡ (if r == k && owned_by (get locks k) victim then none else get locks k)
unfolding release
release-get r victim locks k = elim (Bool-cases (r == k)) [
  | inl same ↦
      rw ((eq_iff r k).0 same) (
        ground
          (arith, get-remove locks k k, eq_iff k k, Bool-cases (owned_by (get locks k) victim)))
  | inr other ↦ ground (arith, get-remove locks r k, other)
]

release_all-get :
    (rs : List String) (victim : String) (locks : Locks) (k : String)
    → get (release_all rs victim locks) k
      ≡ (if member k rs && owned_by (get locks k) victim then none else get locks k)
unfolding release_all member
release_all-get [] victim locks k = ground arith
release_all-get (r ∷ rs) victim locks k =
    ground
      (arith, release_all-get rs victim (release r victim locks).1 k, release-get r victim locks k)

-- A lock on a resource of a deadlock whose victim owns it.
unfoldable pub is_released : String → Option String → List DeadlockInfo → Bool
is_released k owner [] = false
is_released k owner (dl ∷ dls) =
    if not (dl.victim == "") && (member k dl.cycle && owned_by owner dl.victim)
    then true
    else is_released k owner dls

is_released-none : (k : String) (dls : List DeadlockInfo) → is_released k none dls ≡ false
unfolding is_released
is_released-none k [] = refl
is_released-none k (dl ∷ dls) = ground (arith, is_released-none k dls)

-- The locks after a resolution, if there is a lock manager.
abbrev pub owner_in : Option Locks → String → Option String
owner_in none k = none
owner_in (some locks) k = get locks k

owner_in-resolve :
    (dl : DeadlockInfo) (d : DeadlockDetector) (k : String)
    → owner_in (resolve_deadlock dl d).lock_manager k ≡ (
        if not (dl.victim == "")
          && (member k dl.cycle && owned_by (owner_in d.lock_manager k) dl.victim)
        then none
        else owner_in d.lock_manager k)
unfolding resolve_deadlock clear_agent release_locks
owner_in-resolve dl d k = elim (Option-cases d.lock_manager) [
  | inl off ↦ rw off (ground (arith, off))
  | inr (locks, on) ↦ ground (arith, on, release_all-get dl.cycle dl.victim locks k)
]

pub owner_in-resolve_all :
    (dls : List DeadlockInfo) (d : DeadlockDetector) (k : String)
    → owner_in (resolve_all dls d).lock_manager k
      ≡ (if is_released k (owner_in d.lock_manager k) dls then none else owner_in d.lock_manager k)
unfolding resolve_all is_released
owner_in-resolve_all [] d k = refl
owner_in-resolve_all (dl ∷ dls) d k = ground (
  arith,
  owner_in-resolve_all dls (resolve_deadlock dl d) k,
  owner_in-resolve dl d k,
  is_released-none k dls,
)
