-- ===== src/MemoryLock.antt =====
-- core/runtime/lock.py: MemoryLock, and RedisLock, whose text is the same. The lease time is left
-- out: both classes ignore it.
pub mod Exclusion
use jarvis.Prelude.{string_eq, String, Bool, true, false, Option, none, some, ◌==◌, if◌then◌else◌}
use jarvis.Prelude.Dict.{Dict, get, put, remove}

-- `_locks`: the owner of each key that is locked.
abbrev pub Locks : Type 0
Locks = Dict String String

abbrev pub owned_by : Option String → String → Bool
owned_by none owner_id = false
owned_by (some owner) owner_id = owner == owner_id

unfoldable pub acquire_from : Option String → String → String → Locks → Bool × Locks
acquire_from none lock_key owner_id locks = (true, put locks lock_key owner_id)
acquire_from (some owner) lock_key owner_id locks = (owner == owner_id, locks)

unfoldable pub acquire : String → String → Locks → Bool × Locks
unfolding acquire_from
acquire lock_key owner_id locks = acquire_from (get locks lock_key) lock_key owner_id locks

unfoldable pub release : String → String → Locks → Bool × Locks
release lock_key owner_id locks =
    if owned_by (get locks lock_key) owner_id then (true, remove locks lock_key) else (false, locks)
