-- ===== src/Workflow/Scheduler/Progress.antt =====
-- One turn of the loop of core/workflow/dag_scheduler.py.
use jarvis.Prelude.{
  string_eq, String, true, false, some, List, [], ◌∷◌, if◌then◌else◌, ◌&&◌, not, member, add,
  discard, All, Once, ◌≡◌, ◌⊎◌, inl, inr, refl, arith, eq_iff, Bool-cases, member-discard, All-imp,
}
use jarvis.Prelude.Dict.{Dict, get}
use jarvis.Prelude.Missing.{member-add, not-member-nil, member-head, member-tail}
use jarvis.Prelude.Walks.{Edge}
use jarvis.Prelude.Sort.{sort, member-map-sort, Once-sort, All-sort}
use jarvis.Workflow.{WorkflowNode, is_node, all_in}
use jarvis.Workflow.Order.{next, AreKnown, InOrder}
use jarvis.Workflow.Scheduler.{id_le, ready, complete, strike}
use jarvis.Workflow.Scheduler.Waves.{IsGraph, ids, is_ready, IsWave, ready-member}

ready-Once :
    (remaining completed : List String) (nodes : Dict String WorkflowNode)
    → IsGraph nodes
    → Once (ids (ready remaining completed nodes))
unfolding ready
ready-Once remaining completed [] h = tt
ready-Once remaining completed ((j, n) ∷ rest) h =
    elim (Bool-cases (member j remaining && all_in n.depends_on completed)) [
      | inl goes ↦ rw goes (
        ground (arith, ready-member remaining completed rest n.node_id h.2, h.0, h.1),
        ready-Once remaining completed rest h.2,
      )
      | inr stays ↦ rw stays (ready-Once remaining completed rest h.2)
    ]

own_below :
    (j : String) (n : WorkflowNode) (rest : Dict String WorkflowNode)
    → is_node rest j ≡ false
    → (m : WorkflowNode) → get rest m.node_id ≡ some m
    → get ((j, n) ∷ rest) m.node_id ≡ some m
unfolding get
own_below j n rest new m own = ground (arith, own, new, eq_iff j m.node_id)

own_head :
    (j : String) (n : WorkflowNode) (rest : Dict String WorkflowNode)
    → n.node_id ≡ j
    → get ((j, n) ∷ rest) n.node_id ≡ some n
unfolding get
own_head j n rest e = ground (arith, e, eq_iff j n.node_id)

ready-own :
    (remaining completed : List String) (nodes : Dict String WorkflowNode)
    → IsGraph nodes
    → All (λ n. get nodes n.node_id ≡ some n) (ready remaining completed nodes)
unfolding ready
ready-own remaining completed [] h = tt
ready-own remaining completed ((j, n) ∷ rest) h =
    let below =
      All-imp (λ m. get rest m.node_id ≡ some m) (λ m. get ((j, n) ∷ rest) m.node_id ≡ some m)
        (ready remaining completed rest) (own_below j n rest h.1)
        (ready-own remaining completed rest h.2) in
    elim (Bool-cases (member j remaining && all_in n.depends_on completed)) [
      | inl goes ↦ rw goes (own_head j n rest h.0, below)
      | inr stays ↦ rw stays below
    ]

pub complete-member :
    (wave : List WorkflowNode) (completed : List String) (k : String)
    → member k (complete wave completed)
      ≡ (if member k (ids wave) then true else member k completed)
unfolding complete member
complete-member [] completed k = refl
complete-member (n ∷ wave) completed k =
    ground
      (arith, complete-member wave (add n.node_id completed) k, member-add k n.node_id completed)

strike-member :
    (wave : List WorkflowNode) (remaining : List String) (k : String)
    → member k (strike wave remaining) ≡ (if member k (ids wave) then false else member k remaining)
unfolding strike member
strike-member [] remaining k = refl
strike-member (n ∷ wave) remaining k = ground (
  arith,
  strike-member wave (discard n.node_id remaining) k,
  member-discard n.node_id k remaining,
)

-- The nodes are those that are completed and those that remain.
abbrev pub IsSplit : Dict String WorkflowNode → (completed remaining : List String) → Type 0
IsSplit nodes completed remaining =
    (k : String) → member k remaining ≡ (is_node nodes k && not (member k completed))

abbrev pub wave_of :
    Dict String WorkflowNode → (completed remaining : List String) → List WorkflowNode
wave_of nodes completed remaining = sort id_le (ready remaining completed nodes)

pub wave_of-IsWave :
    (nodes : Dict String WorkflowNode) (completed remaining : List String)
    → IsGraph nodes
    → IsSplit nodes completed remaining
    → IsWave nodes completed (wave_of nodes completed remaining)
wave_of-IsWave nodes completed remaining g split = record {
  exact = λ k. ground (
    arith,
    member-map-sort id_le (λ n. n.node_id) k (ready remaining completed nodes),
    ready-member remaining completed nodes k g,
    split k,
  );
  once =
      Once-sort id_le (λ n. n.node_id) (ready remaining completed nodes)
        (ready-Once remaining completed nodes g);
  own =
      All-sort id_le (λ n. get nodes n.node_id ≡ some n) (ready remaining completed nodes)
        (ready-own remaining completed nodes g);
}

pub IsSplit-next :
    (nodes : Dict String WorkflowNode) (completed remaining : List String)
    (wave : List WorkflowNode)
    → IsSplit nodes completed remaining
    → IsSplit nodes (complete wave completed) (strike wave remaining)
IsSplit-next nodes completed remaining wave split k =
    ground (arith, split k, complete-member wave completed k, strike-member wave remaining k)

closed_head :
    (remaining : List String) (n : String) (f : List String)
    → ((k : String) → member k f ≡ true → member k remaining ≡ false)
    → member n remaining ≡ false
    → (k : String) → member k (n ∷ f) ≡ true
    → member k remaining ≡ false
unfolding member
closed_head remaining n f closed off k m = ground (arith, closed k, eq_iff n k, off, m)

-- Of the nodes in order one that remains has no dependency that remains, unless none of them remains.
first_open :
    (nodes : Dict String WorkflowNode) (remaining f : List String)
    → InOrder nodes f
    → ((k : String) → member k f ≡ true → member k remaining ≡ false)
      ⊎ ((r : String) × (member r remaining ≡ true)
          × ((m : String) → Edge (next nodes) r m → member m remaining ≡ false))
first_open nodes remaining [] order = inl (λ k m. absurd (cc (not-member-nil k)))
first_open nodes remaining (n ∷ f) order = elim (first_open nodes remaining f order.2) [
  | inr found ↦ inr found
  | inl closed ↦ elim (Bool-cases (member n remaining)) [
    | inl here ↦ inr (n, here, λ m e. elim (order.0 m e) [ inl d ↦ closed m d | inr x ↦ absurd x ])
    | inr off ↦ inl (closed_head remaining n f closed off)
  ]
]

all_in-true :
    (deps completed : List String)
    → ((d : String) → member d deps ≡ true → member d completed ≡ true)
    → all_in deps completed ≡ true
unfolding all_in
all_in-true [] completed h = refl
all_in-true (d ∷ deps) completed h = ground (
  arith,
  h d (member-head d deps),
  all_in-true deps completed (λ k m. h k (member-tail k d deps m)),
)

-- While nodes remain, one of them is ready.
pub some_ready :
    (nodes : Dict String WorkflowNode) (completed remaining f : List String) (r : String)
    → AreKnown nodes
    → InOrder nodes f
    → ((k : String) → is_node nodes k ≡ true → member k f ≡ true)
    → IsSplit nodes completed remaining
    → member r remaining ≡ true
    → (k : String) × (is_ready nodes completed k ≡ true)
some_ready nodes completed remaining f r known order all split here =
    elim (first_open nodes remaining f order) [
      | inl closed ↦ absurd (ground (arith, closed r, all r, split r, here))
      | inr (k, m, deps) ↦ (
        k,
        ground (
          arith,
          split k,
          m,
          all_in-true (next nodes k) completed
              (λ d e. ground (arith, deps d e, split d, known k d e)),
        ),
      )
    ]
