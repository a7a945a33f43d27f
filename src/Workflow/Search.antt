-- ===== src/Workflow/Search.antt =====
-- `validate` of core/workflow/workflow_graph.py: its search from all nodes.
use jarvis.Prelude.{
  string_eq, String, true, false, List, [], ◌∷◌, ◌++◌, ℕ, zero, suc, ◌<◌, member, map, Result, ok,
  ◌>>=◌, ◌≡◌, inl, inr, arith, eq_iff, Bool-cases,
}
use jarvis.Prelude.Dict.{Dict, get, put, get-put}
use jarvis.Prelude.Missing.{missing-lt, member-append, member-head, member-tail, not-member-nil}
use jarvis.Workflow.{
  WorkflowNode, Fault, grey, black, Colors, is_node, deps_of, dfs, start_at, search_from,
}
use jarvis.Workflow.Order.{
  next, AreKnown, IsPainted, Outcome, well, stuck, whites, Visits, AllDone, then-Outcome,
  fewer_whites, look_all-Outcome, and_done,
}

deps_of-next :
    (nodes : Dict String WorkflowNode) (nid : String)
    → is_node nodes nid ≡ true
    → deps_of nodes nid ≡ ok (next nodes nid)
unfolding deps_of
deps_of-next nodes nid h = ground (arith, h)

enter-IsPainted :
    (nodes : Dict String WorkflowNode) (color : Colors) (f p : List String) (nid : String)
    → IsPainted nodes color f p
    → member nid f ≡ false
    → IsPainted nodes (put color nid grey) f (p ++ nid ∷ [])
unfolding member
enter-IsPainted nodes color f p nid h new = record {
  paint = λ k.
      ground (
        arith,
        h.paint k,
        get-put color nid k grey,
        member-append k p (nid ∷ []),
        eq_iff nid k,
        new,
      );
  apart = λ k m. ground (arith, h.apart k, m, new, eq_iff nid k, member-append k p (nid ∷ []));
  in_order = h.in_order;
}

finish-IsPainted :
    (nodes : Dict String WorkflowNode) (color : Colors) (f p : List String) (nid : String)
    → IsPainted nodes color f (p ++ nid ∷ [])
    → member nid p ≡ false
    → AllDone (next nodes nid) f
    → IsPainted nodes (put color nid black) (nid ∷ f) p
unfolding member
finish-IsPainted nodes color f p nid h off all = record {
  paint = λ k.
      ground
        (arith, h.paint k, get-put color nid k black, member-append k p (nid ∷ []), eq_iff nid k);
  apart = λ k m. ground (arith, h.apart k, m, off, eq_iff nid k, member-append k p (nid ∷ []));
  in_order = (
    λ m e. inl (all m e),
    ground (arith, h.apart nid, member-append nid p (nid ∷ []), eq_iff nid nid),
    h.in_order,
  );
}

finish-Outcome :
    (nodes : Dict String WorkflowNode) (f p : List String) (nid : String) {r : Result Fault Colors}
    → member nid p ≡ false
    → Outcome nodes f (p ++ nid ∷ []) (AllDone (next nodes nid)) r
    → Outcome nodes f p (λ f'. member nid f' ≡ true) (r >>= λ color. ok (put color nid black))
finish-Outcome nodes f p nid off (well color f' h kept all) =
    well (put color nid black) (nid ∷ f') (finish-IsPainted nodes color f' p nid h off all)
      (λ k m. member-tail k nid f' (kept k m)) (member-head nid f')
finish-Outcome nodes f p nid off (stuck a r) = stuck a r

pub is_node-keys :
    (nodes : Dict String WorkflowNode) (k : String)
    → is_node nodes k ≡ true
    → member k (map (λ entry. entry.0) nodes) ≡ true
unfolding get member
is_node-keys [] k h = ground (arith, h)
is_node-keys ((j, node) ∷ rest) k h = ground (arith, is_node-keys rest k, h)

dfs-Visits :
    (nodes : Dict String WorkflowNode) (fuel : ℕ)
    → AreKnown nodes
    → Visits nodes fuel (dfs fuel nodes)
unfolding dfs
dfs-Visits nodes zero known nid color f p h new off is linked enough =
    absurd (omega (arith, enough))
dfs-Visits nodes (suc fuel) known nid color f p h new off is linked enough =
    let q = p ++ nid ∷ [] in
    let fewer =
      missing-lt (f ++ p) (f ++ q) (map (λ entry. entry.0) nodes) nid
        (λ k m.
          ground (arith, member-append k f p, member-append k f q, member-append k p (nid ∷ []), m))
        (is_node-keys nodes nid is) (ground (arith, member-append nid f p, new, off))
        (ground
          (arith, member-append nid f q, member-append nid p (nid ∷ []), member-head nid [])) in
    rw (deps_of-next nodes nid is) (
      finish-Outcome nodes f p nid off (
        look_all-Outcome nodes fuel (dfs fuel nodes) (next nodes nid) nid (put color nid grey) f p
          (dfs-Visits nodes fuel known) (enter-IsPainted nodes color f p nid h new) linked
          (λ d m. m) known (omega (arith, fewer, enough))))

-- One turn of `for nid in self.nodes`.
start_at-Outcome :
    (nodes : Dict String WorkflowNode) (fuel : ℕ) (nid : String) (color : Colors) (f : List String)
    → AreKnown nodes
    → IsPainted nodes color f []
    → is_node nodes nid ≡ true
    → whites nodes f [] < fuel
    → Outcome nodes f []
        (λ f'. member nid f' ≡ true)
        (start_at fuel nodes nid (get color nid) color)
unfolding start_at
start_at-Outcome nodes fuel nid color f known h is enough =
    rw (h.paint nid, not-member-nil nid, is)
      (elim (Bool-cases (member nid f)) [
        | inl done ↦ rw done (well color f h (λ k m. m) done)
        | inr new ↦
            rw new
              (dfs-Visits nodes fuel known nid color f [] h new (not-member-nil nid) is tt enough)
      ])

pub search_from-Outcome :
    (nodes : Dict String WorkflowNode) (fuel : ℕ) (rest : Dict String WorkflowNode) (color : Colors)
    (f : List String)
    → AreKnown nodes
    → IsPainted nodes color f []
    → ((k : String) → member k (map (λ entry. entry.0) rest) ≡ true → is_node nodes k ≡ true)
    → whites nodes f [] < fuel
    → Outcome nodes f [] (AllDone (map (λ entry. entry.0) rest)) (search_from fuel nodes rest color)
unfolding search_from
search_from-Outcome nodes fuel [] color f known h are enough =
    well color f h (λ k m. m) (λ k m. absurd (cc (not-member-nil k)))
search_from-Outcome nodes fuel ((nid, node) ∷ rest) color f known h are enough =
    let others = map (λ entry. entry.0) rest in
    then-Outcome nodes f [] (λ f'. member nid f' ≡ true) (AllDone (nid ∷ others))
      (search_from fuel nodes rest)
      (start_at-Outcome nodes fuel nid color f known h (are nid (member-head nid others)) enough)
      λ color' f' h' kept done. and_done nodes nid others f' [] done (
        search_from-Outcome nodes fuel rest color' f' known h'
          (λ k m. are k (member-tail k nid others m)) (fewer_whites nodes f f' [] fuel kept enough))
