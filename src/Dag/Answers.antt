-- ===== src/Dag/Answers.antt =====
-- What NewDAG of internal/task/task.go answers on every branch.
use heros_agent.Base.{
  ◌≡◌, ◌≢◌, refl, sym, none, some, List, [], ◌∷◌, ◌++◌, String, Map, lookup, insert, arith, ◌⊎◌,
  inl, inr, Bool-cases, Option-cases, str_eq, str_eq-true, lookup-insert, ap, subst,
}
use mathlib.Core.List.{Memᴰ}
use heros_agent.Errors.{Result, ok, err}
use heros_agent.Task.{Task}
use heros_agent.Dag.{Dag}
use heros_agent.Dag.Build.{
  fill, known_deps, all_known, detect_cycle, new_dag, twice, unknown, circular,
}
use heros_agent.Dag.Closed.{Has}
use heros_agent.Dag.Cycles.{Grounded, Reaches}
use heros_agent.Dag.Searched.{detect_cycle_lem}
use heros_agent.Dag.Valid.{IsBuilt, fill_complete, nothing_in_empty, filled-IsClosed, filled_only}

-- Two tasks of the list, one before the other, share an id; or the map had the later one's id already.
abbrev Repeats : Map Task → List Task → Task → Type 0
Repeats acc ts t =
    (before : List Task) × (after : List Task) × (ts ≡ before ++ (t ∷ after))
    × (((u : Task) × Memᴰ u before × (u.id ≡ t.id)) ⊎ Has acc t.id)

Repeats-later :
    (acc : Map Task) (u : Task) (ts : List Task) (t : Task)
    → Repeats (insert u.id u acc) ts t
    → Repeats acc (u ∷ ts) t
Repeats-later acc u ts t (before, after, split, why) =
    (u ∷ before, after, ap (λ l. u ∷ l) split, back why)
  where
    back :
        ((v : Task) × Memᴰ v before × (v.id ≡ t.id)) ⊎ Has (insert u.id u acc) t.id
        → ((v : Task) × Memᴰ v (u ∷ before) × (v.id ≡ t.id)) ⊎ Has acc t.id
    back (inl (v, m, e)) = inl (v, Memᴰ.tail m, e)
    back (inr (v, at)) = elim (Bool-cases (str_eq u.id t.id)) [
      | inl e ↦ inl (u, Memᴰ.head refl, str_eq-true u.id t.id e)
      | inr ne ↦ inr (v, ground (arith, lookup-insert u.id t.id u acc))
    ]

fill_cases :
    (ts : List Task) (acc : Map Task)
    → ((m : Map Task) × (fill ts acc ≡ ok m))
      ⊎ ((t : Task) × (fill ts acc ≡ err (twice t.id)) × Repeats acc ts t)
unfolding fill
fill_cases [] acc = inl (acc, refl)
fill_cases (u ∷ ts) acc = elim (Option-cases (lookup u.id acc)) [
  | inr (v, at) ↦ inr (u, ground arith, ([], ts, refl, inr (v, at)))
  | inl fresh ↦ elim (fill_cases ts (insert u.id u acc)) [
    | inl (m, e) ↦ inl (m, ground arith)
    | inr (t, e, why) ↦ inr (t, ground arith, Repeats-later acc u ts t why)
  ]
]

known_deps_cases :
    (m : Map Task) (t : Task) (deps : List String)
    → (known_deps m t deps ≡ ok tt)
      ⊎ ((dep : String) × (known_deps m t deps ≡ err (unknown t dep))
          × Memᴰ dep deps
          × (lookup dep m ≡ none))
unfolding known_deps
known_deps_cases m t [] = inl refl
known_deps_cases m t (d ∷ deps) = elim (Option-cases (lookup d m)) [
  | inl absent ↦ inr (d, ground arith, Memᴰ.head refl, absent)
  | inr (u, at) ↦ elim (known_deps_cases m t deps) [
    | inl e ↦ inl (ground arith)
    | inr (dep, e, mem, absent) ↦ inr (dep, ground arith, Memᴰ.tail mem, absent)
  ]
]

all_known_cases :
    (m : Map Task) (ts : List Task)
    → (all_known m ts ≡ ok tt)
      ⊎ ((t : Task) × (dep : String) × (all_known m ts ≡ err (unknown t dep))
          × Memᴰ t ts
          × Memᴰ dep (t.depends_on ++ t.contributes)
          × (lookup dep m ≡ none))
unfolding all_known
all_known_cases m [] = inl refl
all_known_cases m (u ∷ ts) = elim (known_deps_cases m u (u.depends_on ++ u.contributes)) [
  | inr (dep, e, mem, absent) ↦ inr (u, dep, ground arith, Memᴰ.head refl, mem, absent)
  | inl first ↦ elim (all_known_cases m ts) [
    | inl e ↦ inl (ground arith)
    | inr (t, dep, e, mt, mem, absent) ↦ inr (t, dep, ground arith, Memᴰ.tail mt, mem, absent)
  ]
]

-- The answers of NewDAG.
pub data Answered (goal_id : String) (ts : List Task) : Result Dag → Type 0 where
  built : (d : Dag) → IsBuilt goal_id ts d → Answered goal_id ts (ok d)
  repeated :
      (u t : Task) (before after : List Task)
      → ts ≡ before ++ (t ∷ after)
      → Memᴰ u before
      → u.id ≡ t.id
      → Answered goal_id ts (err (twice t.id))
  dangling :
      (t : Task) (dep : String)
      → Memᴰ t ts
      → Memᴰ dep (t.depends_on ++ t.contributes)
      → ((u : Task) → Memᴰ u ts → u.id ≢ dep)
      → Answered goal_id ts (err (unknown t dep))
  looped :
      (tasks : Map Task) (cur dep : String)
      → ((t : Task) → Memᴰ t ts → lookup t.id tasks ≡ some t)
      → ((k : String) (t : Task) → lookup k tasks ≡ some t → Memᴰ t ts × (t.id ≡ k))
      → Reaches tasks cur cur
      → Answered goal_id ts (err (circular cur dep))

module _ (goal_id : String) (ts : List Task) where
  abbrev graph_of : Map Task → Dag
  graph_of m = record { goal_id = goal_id; tasks = m }

  answer_repeated :
      (t : Task)
      → fill ts [] ≡ err (twice t.id)
      → Repeats [] ts t
      → Answered goal_id ts (new_dag goal_id ts)
  unfolding new_dag
  answer_repeated t e (before, after, split, inl (u, mem, same)) =
      let answer : new_dag goal_id ts ≡ err (twice t.id) = ground arith in
      subst (Answered goal_id ts) (sym answer) (repeated u t before after split mem same)
  answer_repeated t e (before, after, split, inr (v, at)) = absurd (nothing_in_empty t.id v at)

  module _ (m : Map Task) (filled : fill ts [] ≡ ok m) where
    answer_dangling :
        (t : Task) (dep : String)
        → all_known m ts ≡ err (unknown t dep)
        → Memᴰ t ts
        → Memᴰ dep (t.depends_on ++ t.contributes)
        → lookup dep m ≡ none
        → Answered goal_id ts (new_dag goal_id ts)
    unfolding new_dag
    answer_dangling t dep e mt mem absent =
        let answer : new_dag goal_id ts ≡ err (unknown t dep) = ground arith in
        subst (Answered goal_id ts) (sym answer) (
          dangling t dep mt mem (λ u mu same.
            let at : lookup u.id m ≡ some u = fill_complete ts [] m u filled mu in
            ground (arith, ap (λ k. lookup k m) same)))

    answer_searched :
        all_known m ts ≡ ok tt
        → ((detect_cycle (graph_of m) ≡ ok tt) × ((id : String) → Has m id → Grounded m id))
          ⊎ ((cur : String) × (dep : String) × (detect_cycle (graph_of m) ≡ err (circular cur dep))
              × Reaches m cur cur)
        → Answered goal_id ts (new_dag goal_id ts)
    unfolding new_dag
    answer_searched known (inl (e, all)) =
        let answer : new_dag goal_id ts ≡ ok (graph_of m) = ground arith in
        subst (Answered goal_id ts) (sym answer) (
          built (graph_of m) (record {
            goal = refl;
            holds = λ t mem. fill_complete ts [] m t filled mem;
            only = filled_only ts m filled;
            closed = filled-IsClosed ts m filled known;
            acyclic = all;
          }))
    answer_searched known (inr (cur, dep, e, loop)) =
        let answer : new_dag goal_id ts ≡ err (circular cur dep) = ground arith in
        subst (Answered goal_id ts) (sym answer) (
          looped m cur dep (λ t mem. fill_complete ts [] m t filled mem) (filled_only ts m filled)
            loop)

  -- NewDAG answers, on every list of tasks, in one of four ways. It returns the graph of the given
  -- tasks, closed and without a cycle; or it reports that two tasks of the list share an id, that a
  -- task of the list depends on an id that none has, or that the tasks form a cycle, and that is so. It
  -- never reads a missing task, and its search never runs out of fuel.
  pub new_dag_lem : Answered goal_id ts (new_dag goal_id ts)
  new_dag_lem = elim (fill_cases ts []) [
    | inr (t, e, why) ↦ answer_repeated t e why
    | inl (m, filled) ↦ elim (all_known_cases m ts) [
      | inr (t, dep, e, mt, mem, absent) ↦ answer_dangling m filled t dep e mt mem absent
      | inl known ↦
          answer_searched m filled known
            (detect_cycle_lem (graph_of m) (filled-IsClosed ts m filled known))
    ]
  ]

-- A graph that NewDAG returns is the goal's, holds exactly the given tasks, and is closed and acyclic.
pub new_dag-IsBuilt :
    (goal_id : String) (ts : List Task) (d : Dag) → new_dag goal_id ts ≡ ok d → IsBuilt goal_id ts d
new_dag-IsBuilt goal_id ts d h = from_answer (new_dag_lem goal_id ts) h
  where
    from_answer : {r : Result Dag} → Answered goal_id ts r → r ≡ ok d → IsBuilt goal_id ts d
    from_answer (built d' b) e =
        let same : d' ≡ d = ground arith in subst (IsBuilt goal_id ts) same b
    from_answer (repeated u t before after split mem same) e = absurd (ground arith)
    from_answer (dangling t dep mt mem absent) e = absurd (ground arith)
    from_answer (looped m cur dep holds only loop) e = absurd (ground arith)
