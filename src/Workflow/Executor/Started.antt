-- ===== src/Workflow/Executor/Started.antt =====
-- Which nodes core/workflow/workflow_executor.py starts in a wave, and which it has completed after it.
use jarvis.Prelude.{
  string_eq, String, Bool, true, false, Option, some, List, [], ◌∷◌, if◌then◌else◌, not, keep,
  member, All, All-imp, All-both, All-keep, All-keep-true, Any, Once, raise, Result-cases, ◌≡◌, ◌⊎◌,
  inl, inr, refl, arith, eq_iff, Bool-cases, ◌∙◌, ap,
}
use jarvis.Prelude.Dict.{Dict, get, put}
use jarvis.Prelude.Missing.{member-head, member-tail}
use jarvis.Workflow.{WorkflowNode, is_node, all_in}
use jarvis.Workflow.Scheduler.{complete}
use jarvis.Workflow.Scheduler.Waves.{ids, IsWave}
use jarvis.Workflow.Scheduler.Progress.{complete-member}
use jarvis.Workflow.Retry.{Exc}
use jarvis.Workflow.Executor.{WorkflowExecutor, WorkflowResult, execute_node, gather, pending}

-- A node of the graph that is not completed and whose dependencies are.
abbrev pub MayStart : Dict String WorkflowNode → List String → WorkflowNode → Type 0
MayStart nodes completed n =
    (get nodes n.node_id ≡ some n)
    × (member n.node_id completed ≡ false)
    × (all_in n.depends_on completed ≡ true)

-- Nodes that are started at the same time.
abbrev pub AreStarted : Dict String WorkflowNode → List String → List WorkflowNode → Type 0
AreStarted nodes completed w = All (MayStart nodes completed) w × Once (ids w)

module _ {V : Type 0} (ex : WorkflowExecutor V) where
  -- A run that starts the waves of nodes, from the completed ones: the nodes of each wave may start.
  -- Either it goes on with all of them completed, to success when all nodes of the graph are; or a
  -- node of the last wave raises the error that is reported, with what was completed before.
  unfoldable pub Ran :
      Dict String WorkflowNode → List String → List (List WorkflowNode) → WorkflowResult V → Type 0
  Ran nodes completed [] r =
      (r.success ≡ true)
      × (r.completed_nodes ≡ completed)
      × ((k : String) → is_node nodes k ≡ true → member k completed ≡ true)
  Ran nodes completed (w ∷ ws) r =
      AreStarted nodes completed w
      × (((ws ≡ [])
            × (r.success ≡ false)
            × (r.completed_nodes ≡ completed)
            × ((e : Exc) × (r.error ≡ some e) × Any (λ n. execute_node ex n ≡ raise e) w))
          ⊎ Ran nodes (complete w completed) ws r)

all_in-more :
    (deps before completed : List String)
    → ((k : String) → member k before ≡ true → member k completed ≡ true)
    → all_in deps before ≡ true
    → all_in deps completed ≡ true
unfolding all_in
all_in-more [] before completed more h = refl
all_in-more (d ∷ deps) before completed more h =
    ground (arith, more d, all_in-more deps before completed more, h)

member-ids : (w : List WorkflowNode) → All (λ n. member n.node_id (ids w) ≡ true) w
member-ids [] = tt
member-ids (n ∷ w) = (
  member-head n.node_id (ids w),
  All-imp (λ m. member m.node_id (ids w) ≡ true) (λ m. member m.node_id (n.node_id ∷ ids w) ≡ true)
      w (λ m h. member-tail m.node_id n.node_id (ids w) h) (member-ids w),
)

member-ids-keep :
    (p : WorkflowNode → Bool) (k : String) (w : List WorkflowNode)
    → member k (ids w) ≡ false
    → member k (ids (keep p w)) ≡ false
unfolding keep member
member-ids-keep p k [] h = refl
member-ids-keep p k (n ∷ w) h = ground (arith, member-ids-keep p k w, h)

Once-keep : (p : WorkflowNode → Bool) (w : List WorkflowNode) → Once (ids w) → Once (ids (keep p w))
unfolding keep
Once-keep p [] h = tt
Once-keep p (n ∷ w) h = elim (Bool-cases (p n)) [
  | inl stays ↦ rw stays (member-ids-keep p n.node_id w h.0, Once-keep p w h.1)
  | inr goes ↦ rw goes (Once-keep p w h.1)
]

-- What is kept of a wave may start.
pub pending-AreStarted :
    (nodes : Dict String WorkflowNode) (before completed : List String) (w : List WorkflowNode)
    → IsWave nodes before w
    → ((k : String) → member k before ≡ true → member k completed ≡ true)
    → AreStarted nodes completed (pending w completed)
pending-AreStarted nodes before completed w h more =
    let open_yet = λ (n : WorkflowNode). not (member n.node_id completed) in
    let known = All-both _ _ w h.own (member-ids w) in
    let kept =
      All-both _ _ (keep open_yet w) (All-keep _ open_yet w known) (All-keep-true open_yet w) in
    (
      All-imp _ (MayStart nodes completed) (keep open_yet w)
          (λ n x. (
            x.0.0,
            ground (arith, x.1),
            all_in-more n.depends_on before completed more
                (ground (arith, h.exact n.node_id, x.0.1, x.0.0)),
          ))
          kept,
      Once-keep open_yet w h.once,
    )

pending-member :
    (w : List WorkflowNode) (completed : List String) (k : String)
    → member k (ids (pending w completed))
      ≡ (if member k completed then false else member k (ids w))
unfolding keep member
pending-member [] completed k = ground arith
pending-member (n ∷ w) completed k =
    ground (arith, pending-member w completed k, eq_iff n.node_id k)

-- After a wave everything that stands in it is completed.
pub completed_after :
    (w : List WorkflowNode) (before completed : List String)
    → ((k : String) → member k before ≡ true → member k completed ≡ true)
    → (k : String) → member k (complete w before) ≡ true
    → member k (complete (pending w completed) completed) ≡ true
completed_after w before completed more k m = ground (
  arith,
  complete-member w before k,
  complete-member (pending w completed) completed k,
  pending-member w completed k,
  more k,
  m,
)

pub complete-nil : (completed : List String) → complete [] completed ≡ completed
unfolding complete
complete-nil completed = refl

pub gather-Any :
    {V : Type 0} (ex : WorkflowExecutor V) (l : List WorkflowNode)
    (outputs : Dict String (Option V)) (e : Exc)
    → (gather ex l outputs).0 ≡ some e
    → Any (λ n. execute_node ex n ≡ raise e) l
unfolding gather
gather-Any ex [] outputs e h = cc
gather-Any ex (n ∷ l) outputs e h = elim (Result-cases (execute_node ex n)) [
  | inl (v, good) ↦ inr (gather-Any ex l (put outputs n.node_id v) e (rw (good, gather) at h))
  | inr (x, bad) ↦ inl (bad ∙ ap raise (ground (arith, h, bad)))
]
