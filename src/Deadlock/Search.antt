-- ===== src/Deadlock/Search.antt =====
-- core/runtime/deadlock_detector.py: `_find_cycles`, a depth-first search. The recursion of `dfs` runs
-- on fuel: each call within a call visits one more node.
use jarvis.Prelude.{
  string_eq, String, Bool, true, false, List, [], ◌∷◌, ◌++◌, ◌==◌, if◌then◌else◌, ℕ, zero, suc,
  member, add, discard, length, Result, ok, raise, ◌>>=◌,
}
use jarvis.Prelude.Dict.{Dict}
use jarvis.Deadlock.{Graph, neighbours}

pub data Fault : Type 0 where
  -- `path.index` does not find the node.
  value_error : Fault
  out_of_fuel : Fault

-- The local variables that `dfs` shares.
pub record Search : Type 0 where
  pub visited : List String
  pub rec_stack : List String
  pub cycles : List (List String)
  pub path : List String

unfoldable pub list_beq : List String → List String → Bool
list_beq [] [] = true
list_beq [] (y ∷ ys) = false
list_beq (x ∷ xs) [] = false
list_beq (x ∷ xs) (y ∷ ys) = if x == y then list_beq xs ys else false

-- cycle in cycles
unfoldable pub has_cycle : List String → List (List String) → Bool
unfolding list_beq
has_cycle c [] = false
has_cycle c (d ∷ ds) = if list_beq d c then true else has_cycle c ds

-- path[path.index(node):]
unfoldable pub path_from : String → List String → Result Fault (List String)
path_from node [] = raise value_error
path_from node (x ∷ xs) = if x == node then ok (x ∷ xs) else path_from node xs

unfoldable pub record_cycle : List String → Search → Search
unfolding has_cycle
record_cycle cycle s =
    if has_cycle cycle s.cycles then s else record s { cycles = s.cycles ++ cycle ∷ [] }

unfoldable pub enter : String → Search → Search
enter node s = record s {
  visited = add node s.visited;
  rec_stack = add node s.rec_stack;
  path = s.path ++ node ∷ [];
}

-- path.pop()
unfoldable pub drop_last : List String → List String
drop_last [] = []
drop_last (x ∷ []) = []
drop_last (x ∷ y ∷ ys) = x ∷ drop_last (y ∷ ys)

unfoldable pub leave : String → Search → Search
unfolding drop_last
leave node s = record s { path = drop_last s.path; rec_stack = discard node s.rec_stack }

-- One neighbour, where `visit` is the call of `dfs`.
unfoldable pub look :
    (String → Search → Result Fault Search) → String → Search → Result Fault Search
unfolding path_from record_cycle
look visit neighbor s =
    if member neighbor s.visited
    then (if member neighbor s.rec_stack
        then (do cycle ← path_from neighbor s.path; ok (record_cycle cycle s))
        else ok s)
    else visit neighbor s

unfoldable pub look_all :
    (String → Search → Result Fault Search) → List String → Search → Result Fault Search
unfolding look
look_all visit [] s = ok s
look_all visit (n ∷ ns) s = look visit n s >>= look_all visit ns

unfoldable pub dfs : ℕ → Graph → String → Search → Result Fault Search
unfolding enter look_all leave
dfs zero graph node s = raise out_of_fuel
dfs (suc fuel) graph node s = do
  s' ← look_all (dfs fuel graph) (neighbours graph node) (enter node s)
  ok (leave node s')

-- for node in graph
unfoldable pub search_from : ℕ → Graph → Dict String (List String) → Search → Result Fault Search
unfolding dfs
search_from fuel graph [] s = ok s
search_from fuel graph ((node, holders) ∷ rest) s =
    (if member node s.visited then ok s else dfs fuel graph node s) >>= search_from fuel graph rest

-- Every node that can be visited, some of them more than once.
unfoldable pub nodes_of : Dict String (List String) → List String
nodes_of [] = []
nodes_of ((node, holders) ∷ rest) = node ∷ holders ++ nodes_of rest

abbrev pub start : Search
start = record { visited = []; rec_stack = []; cycles = []; path = [] }

unfoldable pub find_cycles : Graph → Result Fault (List (List String))
unfolding search_from nodes_of
find_cycles graph = do
  s ← search_from (suc (length (nodes_of graph))) graph graph start
  ok s.cycles
