-- ===== src/Deadlock/Finished.antt =====
-- The depth-first search of core/runtime/deadlock_detector.py: it returns, what it records are
-- circles, and a node that it has finished waits for earlier finished ones, or is a victim.
use jarvis.Prelude.{
  string_eq, String, true, false, List, [], ◌∷◌, member, map, ◌≡◌, inl, inr, refl, arith, eq_iff,
  All, Bool-cases, if◌then◌else◌, ◌∙◌, ap,
}
use jarvis.Prelude.Walks
use jarvis.Deadlock.{Graph, neighbours}
use jarvis.Deadlock.Search.{Search, has_cycle, list_beq}
use jarvis.Deadlock.Detection.{select_victim}
use jarvis.Deadlock.Circles.{IsCircle}

abbrev pub IsVictim : List (List String) → String → Type 0
IsVictim cycles n = member n (map select_victim cycles) ≡ true

-- Each finished node waits only for nodes that finished before it, or is the victim of a cycle.
abbrev pub Finished : Graph → List (List String) → List String → Type 0
Finished g cycles f = Walks.Finished (neighbours g) (IsVictim cycles) f

-- `f` are the finished nodes; those that are visited and not finished stand on the path.
pub record IsSearched (g : Graph) (s : Search) (f : List String) : Type 0 where
  pub seen : (k : String) → member k s.visited ≡ (if member k f then true else member k s.path)
  pub stack : (k : String) → member k s.rec_stack ≡ member k s.path
  pub apart : (k : String) → member k f ≡ true → member k s.path ≡ false
  pub finished : Finished g s.cycles f
  pub real : All (IsCircle g) s.cycles

-- What a part of the search does from s to s'.
pub record Ran (g : Graph) (s s' : Search) (f f' : List String) : Type 0 where
  pub searched : IsSearched g s' f'
  pub same_path : s'.path ≡ s.path
  pub kept : (k : String) → member k f ≡ true → member k f' ≡ true
  pub more : (k : String) → IsVictim s.cycles k → IsVictim s'.cycles k

pub Ran-refl : (g : Graph) (s : Search) (f : List String) → IsSearched g s f → Ran g s s f f
Ran-refl g s f h = record { searched = h; same_path = refl; kept = λ k m. m; more = λ k v. v }

pub Ran-trans :
    (g : Graph) (s t u : Search) (f f' f'' : List String)
    → Ran g s t f f'
    → Ran g t u f' f''
    → Ran g s u f f''
Ran-trans g s t u f f' f'' a b = record {
  searched = b.searched;
  same_path = b.same_path ∙ a.same_path;
  kept = λ k m. b.kept k (a.kept k m);
  more = λ k v. b.more k (a.more k v);
}

-- What is visited stays so.
pub visited-Ran :
    (g : Graph) (s t : Search) (f f' : List String)
    → IsSearched g s f
    → Ran g s t f f'
    → (k : String) → member k s.visited ≡ true
    → member k t.visited ≡ true
visited-Ran g s t f f' h r k m =
    ground (arith, h.seen k, r.searched.seen k, r.kept k, ap (member k) r.same_path, m)

list_beq→eq : (c d : List String) → list_beq c d ≡ true → c ≡ d
unfolding list_beq
list_beq→eq [] [] h = refl
list_beq→eq [] (y ∷ ys) h = ground (arith, h)
list_beq→eq (x ∷ xs) [] h = ground (arith, h)
list_beq→eq (x ∷ xs) (y ∷ ys) h = ground (arith, eq_iff x y, list_beq→eq xs ys, h)

pub has_cycle-IsVictim :
    (c : List String) (cs : List (List String))
    → has_cycle c cs ≡ true
    → IsVictim cs (select_victim c)
unfolding has_cycle member
has_cycle-IsVictim c [] h = ground (arith, h)
has_cycle-IsVictim c (d ∷ ds) h = elim (Bool-cases (list_beq d c)) [
  | inl same ↦
      let e = eq_iff (select_victim d) (select_victim c) in
      ground (arith, e.1 (ap select_victim (list_beq→eq d c same)))
  | inr other ↦ ground (arith, has_cycle-IsVictim c ds, other, h)
]
