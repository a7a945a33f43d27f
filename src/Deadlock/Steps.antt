-- ===== src/Deadlock/Steps.antt =====
-- The steps of `_find_cycles` of core/runtime/deadlock_detector.py, and its search as a whole.
use jarvis.Prelude.{
  string_eq, String, true, false, List, [], ◌∷◌, ◌++◌, ◌==◌, ℕ, ◌<◌, member, map, Result, ok, ◌≡◌,
  ◌⊎◌, inl, inr, refl, arith, eq_iff, All, Bool-cases, member-discard, subst, sym, ◌∙◌, ap,
  if◌then◌else◌,
}
use jarvis.Prelude.Missing.{missing, missing-le, member-append, member-add}
use jarvis.Prelude.Walks.{Linked-snoc, Finished-more}
use jarvis.Deadlock.{Graph, neighbours}
use jarvis.Deadlock.Search.{
  Search, Fault, enter, leave, look, look_all, record_cycle, has_cycle, drop_last,
}
use jarvis.Deadlock.Detection.{select_victim}
use jarvis.Deadlock.Circles.{Edge, Linked, IsCircle, drop_last-snoc, path_from-IsCut}
use jarvis.Deadlock.Finished.{
  IsVictim, IsSearched, Ran, Ran-refl, Ran-trans, visited-Ran, has_cycle-IsVictim,
}

All-snoc :
    {A : Type 0} (P : A → Type 0) (xs : List A) (x : A) → All P xs → P x → All P (xs ++ x ∷ [])
All-snoc P [] x h p = (p, tt)
All-snoc P (y ∷ ys) x h p = (h.0, All-snoc P ys x h.1 p)

IsVictim-snoc :
    (cs : List (List String)) (c : List String) (k : String)
    → member k (map select_victim (cs ++ c ∷ []))
      ≡ (if member k (map select_victim cs) then true else select_victim c == k)
unfolding member
IsVictim-snoc [] c k = ground arith
IsVictim-snoc (d ∷ ds) c k = ground (arith, IsVictim-snoc ds c k)

kept-IsVictim :
    (cs : List (List String)) (c : List String) (k : String)
    → IsVictim cs k
    → IsVictim (cs ++ c ∷ []) k
kept-IsVictim cs c k v = ground (arith, IsVictim-snoc cs c k, v)

-- Recording a cycle, if it is not recorded yet.
record_cycle-Ran :
    (g : Graph) (s : Search) (f : List String) (c : List String)
    → IsSearched g s f
    → IsCircle g c
    → Ran g s (record_cycle c s) f f × IsVictim (record_cycle c s).cycles (select_victim c)
unfolding record_cycle
record_cycle-Ran g s f c h circle = elim (Bool-cases (has_cycle c s.cycles)) [
  | inl old ↦ rw old (Ran-refl g s f h, has_cycle-IsVictim c s.cycles old)
  | inr new ↦
      let more = λ (k : String) (v : IsVictim s.cycles k). kept-IsVictim s.cycles c k v in
      rw new (
        record {
          searched = record {
            seen = h.seen;
            stack = h.stack;
            apart = h.apart;
            finished =
                Finished-more (neighbours g) (IsVictim s.cycles) (IsVictim (s.cycles ++ c ∷ [])) f
                  more h.finished;
            real = All-snoc (IsCircle g) s.cycles c h.real circle;
          };
          same_path = refl;
          kept = λ k m. m;
          more = more;
        },
        ground (
          arith,
          IsVictim-snoc s.cycles c (select_victim c),
          eq_iff (select_victim c) (select_victim c),
        ),
      )
]

pub enter-IsSearched :
    (g : Graph) (s : Search) (f : List String) (node : String)
    → IsSearched g s f
    → member node s.visited ≡ false
    → IsSearched g (enter node s) f
unfolding enter member
enter-IsSearched g s f node h new = record {
  seen = λ k.
      ground (arith, h.seen k, member-add k node s.visited, member-append k s.path (node ∷ []));
  stack = λ k.
      ground (arith, h.stack k, member-add k node s.rec_stack, member-append k s.path (node ∷ []));
  apart = λ k m.
      ground (
        arith,
        h.apart k m,
        h.seen node,
        new,
        m,
        eq_iff node k,
        member-append k s.path (node ∷ []),
      );
  finished = h.finished;
  real = h.real;
}

-- After all that the node waits for has been looked at, it is finished.
pub leave-IsSearched :
    (g : Graph) (s : Search) (f p : List String) (node : String)
    → IsSearched g s f
    → s.path ≡ p ++ node ∷ []
    → member node p ≡ false
    → ((m : String) → Edge g node m → (member m f ≡ true) ⊎ IsVictim s.cycles node)
    → IsSearched g (leave node s) (node ∷ f) × ((leave node s).path ≡ p)
unfolding leave member
leave-IsSearched g s f p node h path apart waits =
    let on_path = λ (k : String). ap (member k) path ∙ member-append k p (node ∷ []) in
    let left = ap drop_last path ∙ drop_last-snoc p node in
    (
      record {
        seen = λ k. ground (arith, h.seen k, on_path k, ap (member k) left, eq_iff node k, apart);
        stack = λ k. ground (
          arith,
          h.stack k,
          on_path k,
          ap (member k) left,
          eq_iff node k,
          apart,
          member-discard node k s.rec_stack,
        );
        apart = λ k m.
            ground (arith, h.apart k, on_path k, ap (member k) left, eq_iff node k, apart, m);
        finished =
            (waits, ground (arith, h.apart node, on_path node, eq_iff node node), h.finished);
        real = h.real;
      },
      left,
    )

-- What a call for an unvisited node on the path does, if it has more fuel than there are nodes of
-- `all` that are not visited.
abbrev pub Visits :
    Graph → (all : List String) → ℕ → (String → Search → Result Fault Search) → Type 0
Visits g all fuel visit =
    (node : String) (s : Search) (f : List String)
    → IsSearched g s f
    → member node s.visited ≡ false
    → member node all ≡ true
    → Linked g (s.path ++ node ∷ [])
    → missing s.visited all < fuel
    → (s' : Search) × (f' : List String) × (visit node s ≡ ok s')
      × Ran g s s' f f'
      × (member node f' ≡ true)

-- One neighbour m of the node n at the end of the path.
look-Ran :
    (g : Graph) (all : List String) (fuel : ℕ) (visit : String → Search → Result Fault Search)
    (m n : String) (p : List String) (s : Search) (f : List String)
    → Visits g all fuel visit
    → IsSearched g s f
    → s.path ≡ p ++ n ∷ []
    → Linked g (p ++ n ∷ [])
    → Edge g n m
    → member m all ≡ true
    → missing s.visited all < fuel
    → (s' : Search) × (f' : List String) × (look visit m s ≡ ok s')
      × Ran g s s' f f'
      × ((member m f' ≡ true) ⊎ IsVictim s'.cycles n)
unfolding look
look-Ran g all fuel visit m n p s f visits h path linked edge known enough =
    elim (Bool-cases (member m s.visited)) [
      | inl old ↦ elim (Bool-cases (member m s.rec_stack)) [
        | inl on ↦
            let (c, found, cut) =
              path_from-IsCut g p n m (ap (member m) (sym path) ∙ sym (h.stack m) ∙ on)
                (Linked-snoc (neighbours g) p n m linked edge) in
            let (ran, victim) = record_cycle-Ran g s f c h cut.circle in
            (
              record_cycle c s,
              f,
              rw (old, on, path, found),
              ran,
              inr (subst (IsVictim (record_cycle c s).cycles) cut.last victim),
            )
        | inr off ↦ (
          s,
          f,
          rw (old, off),
          Ran-refl g s f h,
          inl (ground (arith, h.seen m, h.stack m, old, off)),
        )
      ]
      | inr new ↦
          let linked' =
            subst (λ q. Linked g (q ++ m ∷ [])) (sym path)
              (Linked-snoc (neighbours g) p n m linked edge) in
          let (s', f', e, ran, done) = visits m s f h new known linked' enough in
          (s', f', (rw new e), ran, inl done)
    ]

pub look_all-Ran :
    (g : Graph) (all : List String) (fuel : ℕ) (visit : String → Search → Result Fault Search)
    (ms : List String) (n : String) (p : List String) (s : Search) (f : List String)
    → Visits g all fuel visit
    → IsSearched g s f
    → s.path ≡ p ++ n ∷ []
    → Linked g (p ++ n ∷ [])
    → ((m : String) → member m ms ≡ true → Edge g n m)
    → ((m : String) → member m ms ≡ true → member m all ≡ true)
    → missing s.visited all < fuel
    → (s' : Search) × (f' : List String) × (look_all visit ms s ≡ ok s')
      × Ran g s s' f f'
      × ((m : String) → member m ms ≡ true → (member m f' ≡ true) ⊎ IsVictim s'.cycles n)
unfolding look_all member
look_all-Ran g all fuel visit [] n p s f visits h path linked edges known enough =
    (s, f, refl, Ran-refl g s f h, λ m x. ground (arith, x))
look_all-Ran g all fuel visit (m ∷ ms) n p s f visits h path linked edges known enough =
    let here : (if m == m then true else member m ms) ≡ true = ground (arith, eq_iff m m) in
    let (t, f', e, ran, waits) =
      look-Ran g all fuel visit m n p s f visits h path linked (edges m here) (known m here)
        enough in
    let fewer = missing-le s.visited t.visited all (visited-Ran g s t f f' h ran) in
    let (u, f'', e', ran', waits') =
      look_all-Ran g all fuel visit ms n p t f' visits ran.searched (ran.same_path ∙ path) linked
        (λ k x. edges k (ground (arith, x))) (λ k x. known k (ground (arith, x)))
        (omega (arith, fewer)) in
    (
      u,
      f'',
      rw e e',
      Ran-trans g s t u f f' f'' ran ran',
      λ k x. elim (Bool-cases (m == k)) [
        | inl same ↦
            elim (subst (λ j. (member j f' ≡ true) ⊎ IsVictim t.cycles n) ((eq_iff m k).0 same)
              waits) [ inl done ↦ inl (ran'.kept k done) | inr victim ↦ inr (ran'.more n victim) ]
        | inr other ↦ waits' k (ground (arith, other, x))
      ],
    )
