-- ===== src/Workflow/Validity.antt =====
-- When `validate` of core/workflow/workflow_graph.py accepts a graph.
use jarvis.Prelude.{
  string_eq, String, Bool, true, false, none, some, List, [], ◌∷◌, if◌then◌else◌, suc, member,
  length, map, Result, ok, raise, ◌>>=◌, ◌≡◌, ◌⊎◌, inl, inr, refl, arith, eq_iff, Bool-cases,
}
use jarvis.Prelude.Dict.{Dict, get, get-put}
use jarvis.Prelude.Missing.{missing-le-length, not-member-nil}
use jarvis.Prelude.Walks.{Edge, Walk-falls}
use jarvis.Workflow.{
  WorkflowNode, WorkflowGraph, Fault, unknown, cycle, white, Colors, is_node, check_deps,
  check_refs, all_white, search_from, validate,
}
use jarvis.Workflow.Order.{
  next, Requires, AreKnown, InOrder, IsPainted, Outcome, well, stuck, AllDone,
}
use jarvis.Workflow.Search.{search_from-Outcome}

-- The node is a value of the dictionary.
abbrev pub IsValue : WorkflowNode → Dict String WorkflowNode → Type 0
IsValue node [] = ⊥
IsValue node ((k, n) ∷ rest) = (n ≡ node) ⊎ IsValue node rest

-- What `validate` may say of a graph.
pub data Verdict (nodes : Dict String WorkflowNode) : Result Fault Bool → Type 0 where
  -- All dependencies are nodes, no node requires itself, and there is an order of all nodes in which
  -- each comes after its dependencies.
  valid :
      AreKnown nodes
      → ((a : String) → ¬ Requires nodes a a)
      → (f : List String) → InOrder nodes f
      → AllDone (map (λ entry. entry.0) nodes) f
      → Verdict nodes (ok true)
  -- A node depends on something that is no node.
  dangling :
      {node_id : String} (node : WorkflowNode) (dep : String)
      → node.node_id ≡ node_id
      → IsValue node nodes
      → member dep node.depends_on ≡ true
      → is_node nodes dep ≡ false
      → Verdict nodes (raise (unknown node_id dep))
  -- A node requires itself.
  cyclic : (a : String) → Requires nodes a a → Verdict nodes (raise (cycle a))

-- The first loop, over the values `rest`.
data Checked (nodes rest : Dict String WorkflowNode) : Result Fault (Unit {0}) → Type 0 where
  known :
      ((n dep : String) → Edge (next rest) n dep → is_node nodes dep ≡ true)
      → Checked nodes rest (ok tt)
  missed :
      {node_id : String} (node : WorkflowNode) (dep : String)
      → node.node_id ≡ node_id
      → IsValue node rest
      → member dep node.depends_on ≡ true
      → is_node nodes dep ≡ false
      → Checked nodes rest (raise (unknown node_id dep))

check_deps-result :
    (nodes : Dict String WorkflowNode) (node_id : String) (deps : List String)
    → ((check_deps nodes node_id deps ≡ ok tt)
        × ((dep : String) → member dep deps ≡ true → is_node nodes dep ≡ true))
      ⊎ ((dep : String) × (check_deps nodes node_id deps ≡ raise (unknown node_id dep))
          × (member dep deps ≡ true)
          × (is_node nodes dep ≡ false))
unfolding check_deps member
check_deps-result nodes node_id [] = inl (refl, λ dep m. absurd (cc (not-member-nil dep)))
check_deps-result nodes node_id (d ∷ deps) = elim (Bool-cases (is_node nodes d)) [
  | inr no_node ↦ inr (d, ground (arith, no_node), ground (arith, eq_iff d d), no_node)
  | inl there ↦ elim (check_deps-result nodes node_id deps) [
    | inl (e, all) ↦
        inl (ground (arith, there, e), λ dep m. ground (arith, all dep, eq_iff d dep, there, m))
    | inr (dep, e, m, off) ↦ inr (dep, ground (arith, there, e), ground (arith, m), off)
  ]
]

check_refs-Checked :
    (nodes rest : Dict String WorkflowNode) → Checked nodes rest (check_refs nodes rest)
unfolding check_refs member get
check_refs-Checked nodes [] = known (λ n dep m. absurd (cc (not-member-nil dep)))
check_refs-Checked nodes ((k, node) ∷ rest) =
    elim (check_deps-result nodes node.node_id node.depends_on) [
      | inl (e, all) ↦ rw e (later (check_refs-Checked nodes rest) all)
      | inr (dep, e, m, off) ↦ rw e (missed node dep refl (inl refl) m off)
    ]
  where
    later :
        {r : Result Fault (Unit {0})}
        → Checked nodes rest r
        → ((dep : String) → member dep node.depends_on ≡ true → is_node nodes dep ≡ true)
        → Checked nodes ((k, node) ∷ rest) r
    later (known others) all =
        known (λ n dep m. ground (arith, all dep, others n dep, eq_iff k n, m))
    later (missed n dep e v m off) all = missed n dep e (inr v) m off

all_white-get :
    (nodes : Dict String WorkflowNode) (k : String)
    → get (all_white nodes) k ≡ (if is_node nodes k then some white else none)
unfolding all_white get
all_white-get [] k = refl
all_white-get ((j, node) ∷ rest) k =
    ground (arith, all_white-get rest k, get-put (all_white rest) j k white)

start-IsPainted : (nodes : Dict String WorkflowNode) → IsPainted nodes (all_white nodes) [] []
unfolding member
start-IsPainted nodes = record {
  paint = λ k. all_white-get nodes k;
  apart = λ k m. refl;
  in_order = tt;
}

pub keys-is_node :
    (nodes : Dict String WorkflowNode) (k : String)
    → member k (map (λ entry. entry.0) nodes) ≡ true
    → is_node nodes k ≡ true
unfolding get member
keys-is_node [] k h = ground (arith, h)
keys-is_node ((j, node) ∷ rest) k h = ground (arith, keys-is_node rest k, h)

pub length-keys :
    (nodes : Dict String WorkflowNode) → length (map (λ entry. entry.0) nodes) ≡ length nodes
length-keys [] = refl
length-keys (entry ∷ rest) = omega (arith, length-keys rest)

Edge-key :
    (nodes : Dict String WorkflowNode) (n m : String)
    → Edge (next nodes) n m
    → member n (map (λ entry. entry.0) nodes) ≡ true
unfolding get member
Edge-key [] n m h = ground (arith, h)
Edge-key ((k, node) ∷ rest) n m h = ground (arith, Edge-key rest n m, h)

-- An order of the nodes with every dependency first leaves no node that requires itself.
pub InOrder-acyclic :
    (nodes : Dict String WorkflowNode) (f : List String)
    → InOrder nodes f
    → AllDone (map (λ entry. entry.0) nodes) f
    → (a : String) → ¬ Requires nodes a a
InOrder-acyclic nodes f order all a w =
    let falls =
      Walk-falls (next nodes) (λ n. ⊥) f a a order (λ n m e. (all n (Edge-key nodes n m e), λ v. v))
        w in
    absurd (omega (arith, falls))

search-Verdict :
    (nodes : Dict String WorkflowNode) (r : Result Fault Colors)
    → AreKnown nodes
    → Outcome nodes [] [] (AllDone (map (λ entry. entry.0) nodes)) r
    → Verdict nodes (r >>= λ _. ok true)
search-Verdict nodes r refs (well color f h kept all) =
    valid refs (InOrder-acyclic nodes f h.in_order all) f h.in_order all
search-Verdict nodes r refs (stuck a w) = cyclic a w

checked-Verdict :
    (nodes : Dict String WorkflowNode) (r : Result Fault (Unit {0}))
    → Checked nodes nodes r
    → Verdict nodes
        (r >>= λ _. search_from (suc (length nodes)) nodes nodes (all_white nodes) >>= λ _. ok true)
checked-Verdict nodes r (known all) =
    let le = missing-le-length [] (map (λ entry. entry.0) nodes) in
    search-Verdict nodes _ all (
      search_from-Outcome nodes (suc (length nodes)) nodes (all_white nodes) [] all
        (start-IsPainted nodes) (keys-is_node nodes) (omega (arith, le, length-keys nodes)))
checked-Verdict nodes r (missed node dep e v m off) = dangling node dep e v m off

-- validate always returns, and what it says is true: it returns True only if every dependency is a
-- node, no node requires itself, directly or through others, and the nodes have an order in which
-- each comes after its dependencies; otherwise it names a node with a dependency that is no node, or
-- a node that requires itself.
pub validate-Verdict : (g : WorkflowGraph) → Verdict g.nodes (validate g)
unfolding validate
validate-Verdict g = checked-Verdict g.nodes _ (check_refs-Checked g.nodes g.nodes)
