-- ===== src/Workflow/Scheduler/Complete.antt =====
-- What core/workflow/dag_scheduler.py yields for a graph that `validate` accepts.
use jarvis.Prelude.{
  string_eq, String, Bool, true, List, [], ◌∷◌, ℕ, zero, suc, ◌≤◌, ◌<◌, member, length, map, ok,
  Result, ◌≡◌, refl, arith, ◌∙◌, ap,
}
use jarvis.Prelude.Dict.{Dict}
use jarvis.Prelude.Missing.{missing, missing-lt, missing-le-length, not-member-nil, member-head}
use jarvis.Workflow.{WorkflowNode, WorkflowGraph, Fault, is_node, validate}
use jarvis.Workflow.Order.{AreKnown, InOrder}
use jarvis.Workflow.Search.{is_node-keys}
use jarvis.Workflow.Validity.{
  Verdict, valid, dangling, cyclic, validate-Verdict, length-keys, keys-is_node,
}
use jarvis.Workflow.Scheduler.{
  Schedule, done, stalled, yield_wave, complete, strike, schedule_loop, schedule,
}
use jarvis.Workflow.Scheduler.Waves.{IsGraph, ids, is_ready, AreWaves}
use jarvis.Workflow.Scheduler.Progress.{
  complete-member, IsSplit, wave_of, wave_of-IsWave, IsSplit-next, some_ready,
}

abbrev keys : Dict String WorkflowNode → List String
keys nodes = map (λ entry. entry.0) nodes

yielded : List WorkflowNode → Schedule → Schedule
yielded wave rest = elim wave [ [] ↦ stalled [] | n ∷ ns ↦ yield_wave (n ∷ ns) rest ]

yielded-done :
    (k : String) (wave : List WorkflowNode) (ws : List (List WorkflowNode))
    → member k (ids wave) ≡ true
    → yielded wave (done ws) ≡ done (wave ∷ ws)
unfolding yielded
yielded-done k [] ws h = absurd (cc (not-member-nil k))
yielded-done k (n ∷ wave) ws h = refl

schedule_loop-step :
    (fuel : ℕ) (nodes : Dict String WorkflowNode) (completed : List String) (r : String)
    (rs : List String)
    → schedule_loop (suc fuel) nodes completed (r ∷ rs)
      ≡ yielded (wave_of nodes completed (r ∷ rs)) (
          schedule_loop fuel nodes
            (complete (wave_of nodes completed (r ∷ rs)) completed)
            (strike (wave_of nodes completed (r ∷ rs)) (r ∷ rs)))
unfolding schedule_loop yielded
schedule_loop-step fuel nodes completed r rs = refl

-- What the loop assumes of the graph.
record IsOrdered (nodes : Dict String WorkflowNode) (f : List String) : Type 0 where
  graph : IsGraph nodes
  refs : AreKnown nodes
  order : InOrder nodes f
  all : (k : String) → is_node nodes k ≡ true → member k f ≡ true

fewer_missing :
    (nodes : Dict String WorkflowNode) (completed : List String) (wave : List WorkflowNode)
    (k : String)
    → member k (ids wave) ≡ true
    → is_ready nodes completed k ≡ true
    → missing (complete wave completed) (keys nodes) < missing completed (keys nodes)
fewer_missing nodes completed wave k m h =
    missing-lt completed (complete wave completed) (keys nodes) k
      (λ j x. ground (arith, complete-member wave completed j, x))
      (is_node-keys nodes k (ground (arith, h))) (ground (arith, h))
      (ground (arith, complete-member wave completed k, m))

schedule_loop-AreWaves :
    (fuel : ℕ) (nodes : Dict String WorkflowNode) (completed remaining f : List String)
    → IsOrdered nodes f
    → IsSplit nodes completed remaining
    → missing completed (keys nodes) ≤ fuel
    → (ws : List (List WorkflowNode)) × (schedule_loop fuel nodes completed remaining ≡ done ws)
      × AreWaves nodes completed ws
schedule_loop-AreWaves fuel nodes completed [] f h split enough =
    ([], unfold schedule_loop in refl, λ k is. ground (arith, split k, not-member-nil k, is))
schedule_loop-AreWaves zero nodes completed (r ∷ rs) f h split enough =
    let (k, now) =
      some_ready nodes completed (r ∷ rs) f r h.refs h.order h.all split (member-head r rs) in
    let is = (wave_of-IsWave nodes completed (r ∷ rs) h.graph split).exact k in
    let fewer = fewer_missing nodes completed (wave_of nodes completed (r ∷ rs)) k (is ∙ now) now in
    absurd (omega (arith, fewer, enough))
schedule_loop-AreWaves (suc fuel) nodes completed (r ∷ rs) f h split enough =
    let wave = wave_of nodes completed (r ∷ rs) in
    let (k, now) =
      some_ready nodes completed (r ∷ rs) f r h.refs h.order h.all split (member-head r rs) in
    let is_wave = wave_of-IsWave nodes completed (r ∷ rs) h.graph split in
    let m = is_wave.exact k ∙ now in
    let fewer = fewer_missing nodes completed wave k m now in
    let (ws, e, waves) =
      schedule_loop-AreWaves fuel nodes (complete wave completed) (strike wave (r ∷ rs)) f h
        (IsSplit-next nodes completed (r ∷ rs) wave split) (omega (arith, fewer, enough)) in
    (
      wave ∷ ws,
      schedule_loop-step fuel nodes completed r rs ∙ ap (yielded wave) e ∙ yielded-done k wave ws m,
      (is_wave, waves),
    )

start-IsSplit : (nodes : Dict String WorkflowNode) → IsSplit nodes [] (keys nodes)
start-IsSplit nodes k = ground (arith, keys-is_node nodes k, is_node-keys nodes k, not-member-nil k)

Verdict-IsOrdered :
    (nodes : Dict String WorkflowNode) {r : Result Fault Bool}
    → IsGraph nodes
    → Verdict nodes r
    → r ≡ ok true
    → (f : List String) × IsOrdered nodes f
Verdict-IsOrdered nodes g (valid refs free f order all) e = (
  f,
  record { graph = g; refs = refs; order = order; all = λ k is. all k (is_node-keys nodes k is) },
)
Verdict-IsOrdered nodes g (dangling n dep i v m off) e = absurd (cc)
Verdict-IsOrdered nodes g (cyclic a w) e = absurd (cc)

-- A graph that add_node has built and that validate accepts is never stalled: the scheduler yields
-- waves until all nodes have stood in one. Each wave has exactly the nodes that are not completed and
-- whose dependencies all stand in earlier waves, each of them once and as it is in the graph.
pub schedule-AreWaves :
    (g : WorkflowGraph)
    → IsGraph g.nodes
    → validate g ≡ ok true
    → (ws : List (List WorkflowNode)) × (schedule g ≡ done ws) × AreWaves g.nodes [] ws
unfolding schedule
schedule-AreWaves g is e =
    let (f, ordered) = Verdict-IsOrdered g.nodes is (validate-Verdict g) e in
    schedule_loop-AreWaves (length g.nodes) g.nodes [] (keys g.nodes) f ordered
      (start-IsSplit g.nodes)
      (omega (arith, missing-le-length [] (keys g.nodes), length-keys g.nodes))
