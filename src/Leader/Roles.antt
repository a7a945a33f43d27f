-- ===== src/Leader/Roles.antt =====
-- The roles of a candidate of core/mission/leader_election.py, along any calls of its methods.
use jarvis.Prelude.{ℕ, [], ◌∷◌, none, some, true, false, arith, List, Option, ◌≡◌}
use jarvis.Transport.{Transport, Token}
use jarvis.Transport.Leases.{Call, after_all}
use jarvis.Leader.{
  LeaderRole, candidate, follower, leader, stepped_down, released, closed, Candidate, Outcome,
  try_acquire, renew, release, is_leader, Bool,
}

-- A token is held by a leader, and by nobody else.
abbrev pub TokenFits : LeaderRole → Option Token → Type 0
TokenFits leader none = ⊥
TokenFits leader (some token) = Unit
TokenFits _ none = Unit
TokenFits _ (some token) = ⊥

-- The state machine of the roles.
abbrev pub may_move : LeaderRole → LeaderRole → Bool
may_move candidate stepped_down = false
may_move candidate to = true
may_move follower stepped_down = false
may_move follower candidate = false
may_move follower to = true
may_move leader candidate = false
may_move leader follower = false
may_move leader to = true
may_move stepped_down stepped_down = true
may_move stepped_down released = true
may_move stepped_down to = false
may_move released released = true
may_move released to = false
may_move closed closed = true
may_move closed to = false

abbrev pub is_terminal : LeaderRole → Bool
is_terminal candidate = false
is_terminal follower = false
is_terminal leader = false
is_terminal _ = true

-- A call of a method, after calls of others on the transport.
pub data Method : Type 0 where
  acquiring : (now : ℕ) (fresh : Token) → Method
  renewing : (now : ℕ) → Method
  releasing : Method

pub record World : Type 0 where
  pub transport : Transport
  pub self : Candidate

abbrev world_of : {A : Type 0} → Outcome A → World
world_of o = record { transport = o.1; self = o.2 }

unfoldable pub call : World → Method → World
unfolding try_acquire renew release
call w (acquiring now fresh) = world_of (try_acquire now fresh w.transport w.self)
call w (renewing now) = world_of (renew now w.transport w.self)
call w releasing = let (t, c) = release w.transport w.self in record { transport = t; self = c }

-- The candidate after any of its methods, each after calls of others on the transport.
unfoldable pub run : World → List (List Call × Method) → World
run w [] = w
run w ((others, m) ∷ ms) = run (call (record w { transport = after_all w.transport others }) m) ms

-- Each method moves the role along the state machine, whatever the transport answers: only a leader
-- steps down, a leader never becomes a candidate or a follower again, no follower becomes a
-- candidate, what has stepped down stays so or is released, and what is released or closed stays so.
pub call-may_move : (w : World) (m : Method) → may_move w.self.role (call w m).self.role ≡ true
unfolding call
call-may_move w (acquiring now fresh) = ground arith
call-may_move w _ = ground arith

call-TokenFits :
    (w : World) (m : Method)
    → TokenFits w.self.role w.self.token
    → TokenFits (call w m).self.role (call w m).self.token
unfolding call
call-TokenFits w (acquiring now fresh) h = ground arith
call-TokenFits w _ h = ground arith

-- Along any calls of its methods, with anything that others do to the transport in between, a
-- candidate has a token exactly while its role is LEADER, if that is so at the start.
pub run-TokenFits :
    (w : World) (ms : List (List Call × Method))
    → TokenFits w.self.role w.self.token
    → TokenFits (run w ms).self.role (run w ms).self.token
unfolding run
run-TokenFits w [] h = h
run-TokenFits w ((others, m) ∷ ms) h =
    let w' = record w { transport = after_all w.transport others } in
    run-TokenFits (call w' m) ms (call-TokenFits w' m h)

-- A candidate that has stepped down, was released or saw the transport close never leads again,
-- along any calls of its methods and whatever others do to the transport.
pub run-is_terminal :
    (w : World) (ms : List (List Call × Method))
    → is_terminal w.self.role ≡ true
    → (is_terminal (run w ms).self.role ≡ true) × (is_leader (run w ms).self ≡ false)
unfolding run is_leader
run-is_terminal w [] h = ground arith
run-is_terminal w ((others, m) ∷ ms) h =
    let w' : World = record w { transport = after_all w.transport others } in
    run-is_terminal (call w' m) ms (ground (arith, call-may_move w' m))
