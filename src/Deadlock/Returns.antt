-- ===== src/Deadlock/Returns.antt =====
-- The search of core/runtime/deadlock_detector.py as a whole returns, and finishes every waiter.
use jarvis.Prelude.{
  string_eq, String, true, false, List, [], ◌∷◌, ◌++◌, ℕ, zero, suc, ◌<◌, member, map, ok, ◌≡◌, inl,
  inr, refl, arith, eq_iff, All, Bool-cases, subst, sym, ◌∙◌, ap, if◌then◌else◌, length,
}
use jarvis.Prelude.Dict.{Dict, get}
use jarvis.Prelude.Missing.{
  missing, missing-lt, missing-le, member-append, member-add, missing-le-length, member-head,
}
use jarvis.Deadlock.{Graph, neighbours}
use jarvis.Deadlock.Search.{Search, enter, leave, dfs, search_from, nodes_of, start, find_cycles}
use jarvis.Deadlock.Circles.{Edge, Linked, IsCircle}
use jarvis.Deadlock.Finished.{Finished, IsSearched, Ran, Ran-refl, Ran-trans, visited-Ran}
use jarvis.Deadlock.Steps.{Visits, look_all-Ran, enter-IsSearched, leave-IsSearched}

-- All that the nodes of `all` wait for is in `all`.
abbrev IsClosed : Graph → List String → Type 0
IsClosed g all = (n m : String) → Edge g n m → member m all ≡ true

enter_fewer :
    (s : Search) (all : List String) (node : String)
    → member node s.visited ≡ false
    → member node all ≡ true
    → missing (enter node s).visited all < missing s.visited all
unfolding enter
enter_fewer s all node new known =
    missing-lt s.visited _ all node (λ k m. ground (arith, member-add k node s.visited, m)) known
      new (ground (arith, member-add node node s.visited, eq_iff node node))

enter-path : (s : Search) (node : String) → (enter node s).path ≡ s.path ++ node ∷ []
unfolding enter
enter-path s node = refl

leave-Ran :
    (g : Graph) (s t : Search) (f f' : List String) (node : String)
    → Ran g (enter node s) t f f'
    → IsSearched g (leave node t) (node ∷ f')
    → (leave node t).path ≡ s.path
    → Ran g s (leave node t) f (node ∷ f')
unfolding enter leave member
leave-Ran g s t f f' node ran h path = record {
  searched = h;
  same_path = path;
  kept = λ k m. ground (arith, ran.kept k, m);
  more = ran.more;
}

-- With enough fuel dfs does what a visit is to do.
dfs-Visits :
    (g : Graph) (all : List String) (fuel : ℕ) → IsClosed g all → Visits g all fuel (dfs fuel g)
unfolding dfs
dfs-Visits g all zero closed node s f h new known linked enough = absurd (omega (arith, enough))
dfs-Visits g all (suc fuel) closed node s f h new known linked enough =
    let fewer = enter_fewer s all node new known in
    let off : member node s.path ≡ false = ground (arith, h.seen node, new) in
    let (t, f', e, ran, waits) =
      look_all-Ran g all fuel (dfs fuel g) (neighbours g node) node s.path (enter node s) f
        (dfs-Visits g all fuel closed) (enter-IsSearched g s f node h new) (enter-path s node)
        linked (λ m x. x) (closed node) (omega (arith, fewer)) in
    let (h', path) =
      leave-IsSearched g t f' s.path node ran.searched (ran.same_path ∙ enter-path s node) off
        waits in
    (leave node t, node ∷ f', rw e, leave-Ran g s t f f' node ran h' path, member-head node f')

-- One node of `for node in graph`.
node-Ran :
    (g : Graph) (all : List String) (fuel : ℕ) (n : String) (s : Search) (f : List String)
    → IsClosed g all
    → IsSearched g s f
    → s.path ≡ []
    → missing s.visited all < fuel
    → member n all ≡ true
    → (s' : Search) × (f' : List String) × ((if member n s.visited then ok s else dfs fuel g n s)
        ≡ ok s')
      × Ran g s s' f f'
      × (member n f' ≡ true)
unfolding member
node-Ran g all fuel n s f closed h path enough known = elim (Bool-cases (member n s.visited)) [
  | inl old ↦ (s, f, rw old, Ran-refl g s f h, ground (arith, h.seen n, ap (member n) path, old))
  | inr new ↦
      let linked = subst (λ q. Linked g (q ++ n ∷ [])) (sym path) tt in
      let (s', f', e, ran, done) = dfs-Visits g all fuel closed n s f h new known linked enough in
      (s', f', rw new e, ran, done)
]

abbrev keys : Dict String (List String) → List String
keys d = map (λ entry. entry.0) d

-- `for node in graph`: all of its nodes are finished in the end.
search_from-Ran :
    (g : Graph) (all : List String) (fuel : ℕ) (rest : Dict String (List String)) (s : Search)
    (f : List String)
    → IsClosed g all
    → IsSearched g s f
    → s.path ≡ []
    → missing s.visited all < fuel
    → ((k : String) → member k (keys rest) ≡ true → member k all ≡ true)
    → (s' : Search) × (f' : List String) × (search_from fuel g rest s ≡ ok s')
      × Ran g s s' f f'
      × ((k : String) → member k (keys rest) ≡ true → member k f' ≡ true)
unfolding search_from member
search_from-Ran g all fuel [] s f closed h path enough known =
    (s, f, refl, Ran-refl g s f h, λ k e. ground (arith, e))
search_from-Ran g all fuel ((n, v) ∷ rest) s f closed h path enough known =
    let (t, f', e, ran, done) =
      node-Ran g all fuel n s f closed h path enough (known n (member-head n (keys rest))) in
    let fewer = missing-le s.visited t.visited all (visited-Ran g s t f f' h ran) in
    let (u, f'', e', ran', all_done) =
      search_from-Ran g all fuel rest t f' closed ran.searched (ran.same_path ∙ path)
        (omega (arith, fewer)) (λ k m. known k (ground (arith, m))) in
    (
      u,
      f'',
      rw e e',
      Ran-trans g s t u f f' f'' ran ran',
      λ k m. ground (arith, eq_iff n k, done, ran'.kept n, all_done k, m),
    )

nodes_of-member :
    (d : Dict String (List String)) (n m : String)
    → member m (neighbours d n) ≡ true
    → member m (nodes_of d) ≡ true
unfolding get nodes_of member
nodes_of-member [] n m h = ground (arith, h)
nodes_of-member ((k, v) ∷ d) n m h =
    ground (arith, member-append m v (nodes_of d), nodes_of-member d n m, h)

nodes_of-keys :
    (d : Dict String (List String)) (k : String)
    → member k (keys d) ≡ true
    → member k (nodes_of d) ≡ true
unfolding nodes_of member
nodes_of-keys [] k h = ground (arith, h)
nodes_of-keys ((j, v) ∷ d) k h =
    ground (arith, member-append k v (nodes_of d), nodes_of-keys d k, h)

keys_of-Edge :
    (d : Dict String (List String)) (n m : String)
    → member m (neighbours d n) ≡ true
    → member n (keys d) ≡ true
unfolding get member
keys_of-Edge [] n m h = ground (arith, h)
keys_of-Edge ((k, v) ∷ d) n m h = ground (arith, keys_of-Edge d n m, h)

start-IsSearched : (g : Graph) → IsSearched g start []
unfolding member
start-IsSearched g = record {
  seen = λ k. refl;
  stack = λ k. refl;
  apart = λ k m. refl;
  finished = tt;
  real = tt;
}

-- What `_find_cycles` returns: circles, and behind them an order in which every node with an edge has
-- been finished.
pub record AreFound (g : Graph) (cycles : List (List String)) (f : List String) : Type 0 where
  pub finished : Finished g cycles f
  pub all_of_them : (n m : String) → Edge g n m → member n f ≡ true
  pub real : All (IsCircle g) cycles

pub find_cycles-AreFound :
    (g : Graph)
    → (cycles : List (List String)) × (f : List String) × (find_cycles g ≡ ok cycles)
      × AreFound g cycles f
unfolding find_cycles
find_cycles-AreFound g =
    let le = missing-le-length [] (nodes_of g) in
    let (s, f, e, ran, done) =
      search_from-Ran g (nodes_of g) (suc (length (nodes_of g))) g start [] (nodes_of-member g)
        (start-IsSearched g) refl (omega (arith, le)) (nodes_of-keys g) in
    (
      s.cycles,
      f,
      rw e,
      record {
        finished = ran.searched.finished;
        all_of_them = λ n m x. done n (keys_of-Edge g n m x);
        real = ran.searched.real;
      },
    )
