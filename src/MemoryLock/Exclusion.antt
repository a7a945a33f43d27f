-- ===== src/MemoryLock/Exclusion.antt =====
-- Mutual exclusion of the locks of core/runtime/lock.py.
use jarvis.Prelude.{
  string_eq, String, false, List, [], ◌∷◌, some, ◌≡◌, ◌≢◌, arith, eq_iff, All, Bool-cases, inl, inr,
  ◌==◌, Option-cases,
}
use jarvis.Prelude.Dict.{get, get-put, get-remove}
use jarvis.MemoryLock.{Locks, acquire, release, acquire_from}

-- A call of the lock manager, by anyone.
pub data Call : Type 0 where
  acquiring : (lock_key owner_id : String) → Call
  releasing : (lock_key owner_id : String) → Call

unfoldable pub call : Call → Locks → Locks
call (acquiring lock_key owner_id) locks = (acquire lock_key owner_id locks).1
call (releasing lock_key owner_id) locks = (release lock_key owner_id locks).1

unfoldable pub call_all : List Call → Locks → Locks
unfolding call
call_all [] locks = locks
call_all (c ∷ cs) locks = call_all cs (call c locks)

call-owner :
    (c : Call) (locks : Locks) (key owner : String)
    → get locks key ≡ some owner
    → c ≢ releasing key owner
    → get (call c locks) key ≡ some owner
unfolding call acquire acquire_from release
call-owner (acquiring k o) locks key owner held other = elim (Option-cases (get locks k)) [
  | inl free ↦ ground (arith, get-put locks k key o, eq_iff k key, held, free)
  | inr (w, taken) ↦ ground (arith, taken, held)
]
call-owner (releasing k o) locks key owner held other = elim (Bool-cases (k == key)) [
  | inl same ↦
      let e = (eq_iff k key).0 same in
      let foreign : owner ≢ o = λ p. other (cc) in
      ground (arith, eq_iff owner o, e, held, foreign, get-remove locks k key)
  | inr apart ↦ ground (arith, get-remove locks k key, apart, held)
]

-- While an owner does not release its key, nobody else gets it, whatever calls are made: after them
-- the key is still its own, and any other's attempt to acquire it fails and changes nothing.
pub call_all-exclusive :
    (cs : List Call) (locks : Locks) (key owner other : String)
    → get locks key ≡ some owner
    → All (λ c. c ≢ releasing key owner) cs
    → other ≢ owner
    → (get (call_all cs locks) key ≡ some owner)
      × (acquire key other (call_all cs locks) ≡ (false, call_all cs locks))
unfolding call_all acquire acquire_from
call_all-exclusive [] locks key owner other held h apart =
    (held, ground (arith, held, eq_iff owner other, apart))
call_all-exclusive (c ∷ cs) locks key owner other held h apart =
    call_all-exclusive cs (call c locks) key owner other (call-owner c locks key owner held h.0) h.1
      apart
