-- ===== src/Workflow/Order.antt =====
-- The depth-first search of `validate` of core/workflow/workflow_graph.py: it finishes all nodes in an
-- order in which dependencies come first, or it names a node that requires itself.
use jarvis.Prelude.{
  string_eq, String, true, false, Option, none, some, List, [], ◌∷◌, ◌++◌, if◌then◌else◌, ℕ, ◌<◌,
  member, map, Result, ok, raise, ◌>>=◌, ◌≡◌, inl, inr, arith, eq_iff, Bool-cases,
}
use jarvis.Prelude.Dict.{Dict, get}
use jarvis.Prelude.Missing.{
  missing, missing-le, member-append, member-head, member-tail, not-member-nil,
}
use jarvis.Prelude.Walks.{Edge, Linked, Linked-snoc, Linked-cycle, Walk, Finished}
use jarvis.Workflow.{
  WorkflowNode, Fault, cycle, Color, white, grey, black, Colors, is_node, look_at, look_all,
}

-- What a node depends on.
abbrev pub next : Dict String WorkflowNode → String → List String
next nodes n = elim (get nodes n) [ none ↦ [] | some node ↦ node.depends_on ]

-- One node requires another, directly or through others.
abbrev pub Requires : Dict String WorkflowNode → String → String → Type 0
Requires nodes a b = Walk (next nodes) a b

-- Each dependency is a node.
abbrev pub AreKnown : Dict String WorkflowNode → Type 0
AreKnown nodes = (n dep : String) → Edge (next nodes) n dep → is_node nodes dep ≡ true

-- The finished nodes, the latest first, each after all its dependencies.
abbrev pub InOrder : Dict String WorkflowNode → List String → Type 0
InOrder nodes f = Finished (next nodes) (λ n. ⊥) f

abbrev pub painted : Dict String WorkflowNode → (f p : List String) → String → Option Color
painted nodes f p k =
    if member k f
    then some black
    else if member k p
    then some grey
    else if is_node nodes k
    then some white
    else none

-- The finished nodes f are black, those on the path p are grey, the others are white.
pub record IsPainted (nodes : Dict String WorkflowNode) (color : Colors) (f p : List String)
    : Type 0 where
  pub paint : (k : String) → get color k ≡ painted nodes f p k
  pub apart : (k : String) → member k f ≡ true → member k p ≡ false
  pub in_order : InOrder nodes f

-- A part of the search from the finished nodes f on the path p: it goes well, with f' finished, or
-- it names a node that requires itself.
pub data Outcome (nodes : Dict String WorkflowNode) (f p : List String)
    (Done : List String → Type 0) : Result Fault Colors → Type 0 where
  well :
      (color : Colors) (f' : List String)
      → IsPainted nodes color f' p
      → ((k : String) → member k f ≡ true → member k f' ≡ true)
      → Done f'
      → Outcome nodes f p Done (ok color)
  stuck : (a : String) → Requires nodes a a → Outcome nodes f p Done (raise (cycle a))

-- The nodes that are still white.
abbrev pub whites : Dict String WorkflowNode → (f p : List String) → ℕ
whites nodes f p = missing (f ++ p) (map (λ entry. entry.0) nodes)

abbrev pub Visits : Dict String WorkflowNode → ℕ → (String → Colors → Result Fault Colors) → Type 0
Visits nodes fuel visit =
    (nid : String) (color : Colors) (f p : List String)
    → IsPainted nodes color f p
    → member nid f ≡ false
    → member nid p ≡ false
    → is_node nodes nid ≡ true
    → Linked (next nodes) (p ++ nid ∷ [])
    → whites nodes f p < fuel
    → Outcome nodes f p (λ f'. member nid f' ≡ true) (visit nid color)

look_at-Outcome :
    (nodes : Dict String WorkflowNode) (fuel : ℕ) (visit : String → Colors → Result Fault Colors)
    (dep n : String) (color : Colors) (f p : List String)
    → Visits nodes fuel visit
    → IsPainted nodes color f (p ++ n ∷ [])
    → Linked (next nodes) (p ++ n ∷ [])
    → Edge (next nodes) n dep
    → is_node nodes dep ≡ true
    → whites nodes f (p ++ n ∷ []) < fuel
    → Outcome nodes f
        (p ++ n ∷ [])
        (λ f'. member dep f' ≡ true)
        (look_at visit dep (get color dep) color)
unfolding look_at
look_at-Outcome nodes fuel visit dep n color f p visits h linked edge known enough =
    let q = p ++ n ∷ [] in
    rw (h.paint dep) (elim (Bool-cases (member dep f)) [
      | inl done ↦ rw done (well color f h (λ k m. m) done)
      | inr open_yet ↦ rw open_yet (elim (Bool-cases (member dep q)) [
        | inl on_path ↦ rw on_path (
            stuck dep (
              Linked-cycle (next nodes) dep q on_path
                (Linked-snoc (next nodes) p n dep linked edge)))
        | inr off ↦
            rw (off, known)
              (visits dep color f q h open_yet off known
                (Linked-snoc (next nodes) p n dep linked edge) enough)
      ])
    ])

widen :
    (nodes : Dict String WorkflowNode) (f f' p : List String) (Done : List String → Type 0)
    {r : Result Fault Colors}
    → ((k : String) → member k f ≡ true → member k f' ≡ true)
    → Outcome nodes f' p Done r
    → Outcome nodes f p Done r
widen nodes f f' p Done kept (well color f'' h kept' done) =
    well color f'' h (λ k m. kept' k (kept k m)) done
widen nodes f f' p Done kept (stuck a r) = stuck a r

-- One part of the search after another.
pub then-Outcome :
    (nodes : Dict String WorkflowNode) (f p : List String) (Done Done' : List String → Type 0)
    {r : Result Fault Colors} (rest : Colors → Result Fault Colors)
    → Outcome nodes f p Done r
    → ((color : Colors) (f' : List String)
        → IsPainted nodes color f' p
        → ((k : String) → member k f ≡ true → member k f' ≡ true)
        → Done f'
        → Outcome nodes f' p Done' (rest color))
    → Outcome nodes f p Done' (r >>= rest)
then-Outcome nodes f p Done Done' rest (well color f' h kept done) then_this =
    widen nodes f f' p Done' kept (then_this color f' h kept done)
then-Outcome nodes f p Done Done' rest (stuck a r) then_this = stuck a r

pub fewer_whites :
    (nodes : Dict String WorkflowNode) (f f' p : List String) (fuel : ℕ)
    → ((k : String) → member k f ≡ true → member k f' ≡ true)
    → whites nodes f p < fuel
    → whites nodes f' p < fuel
fewer_whites nodes f f' p fuel kept enough =
    let le =
      missing-le (f ++ p) (f' ++ p) (map (λ entry. entry.0) nodes)
        (λ k m. ground (arith, member-append k f p, member-append k f' p, kept k, m)) in
    omega (arith, le)

abbrev pub AllDone : List String → List String → Type 0
AllDone deps f = (k : String) → member k deps ≡ true → member k f ≡ true

add_done :
    (dep : String) (deps f f' : List String)
    → member dep f ≡ true
    → ((k : String) → member k f ≡ true → member k f' ≡ true)
    → AllDone deps f'
    → AllDone (dep ∷ deps) f'
unfolding member
add_done dep deps f f' d kept all k m = ground (arith, d, kept dep, all k, eq_iff dep k, m)

pub and_done :
    (nodes : Dict String WorkflowNode) (dep : String) (deps f q : List String)
    {r : Result Fault Colors}
    → member dep f ≡ true
    → Outcome nodes f q (AllDone deps) r
    → Outcome nodes f q (AllDone (dep ∷ deps)) r
and_done nodes dep deps f q d (well color f' h kept done) =
    well color f' h kept (add_done dep deps f f' d kept done)
and_done nodes dep deps f q d (stuck a r) = stuck a r

pub look_all-Outcome :
    (nodes : Dict String WorkflowNode) (fuel : ℕ) (visit : String → Colors → Result Fault Colors)
    (deps : List String) (n : String) (color : Colors) (f p : List String)
    → Visits nodes fuel visit
    → IsPainted nodes color f (p ++ n ∷ [])
    → Linked (next nodes) (p ++ n ∷ [])
    → ((dep : String) → member dep deps ≡ true → Edge (next nodes) n dep)
    → AreKnown nodes
    → whites nodes f (p ++ n ∷ []) < fuel
    → Outcome nodes f (p ++ n ∷ []) (AllDone deps) (look_all visit deps color)
unfolding look_all
look_all-Outcome nodes fuel visit [] n color f p visits h linked edges known enough =
    well color f h (λ k m. m) (λ k m. absurd (cc (not-member-nil k)))
look_all-Outcome nodes fuel visit (dep ∷ deps) n color f p visits h linked edges known enough =
    let q = p ++ n ∷ [] in
    let edge = edges dep (member-head dep deps) in
    then-Outcome nodes f q (λ f'. member dep f' ≡ true) (AllDone (dep ∷ deps)) (look_all visit deps)
      (look_at-Outcome nodes fuel visit dep n color f p visits h linked edge (known n dep edge)
        enough)
      λ color' f' h' kept done. and_done nodes dep deps f' q done (
        look_all-Outcome nodes fuel visit deps n color' f' p visits h' linked
          (λ k m. edges k (member-tail k dep deps m)) known
          (fewer_whites nodes f f' q fuel kept enough))
