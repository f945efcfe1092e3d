-- ===== src/Dag/Valid.antt =====
-- What NewDAG of internal/task/task.go checks of the graph that it returns.
use heros_agent.Base.{
  ◌≡◌, sym, ◌∙◌, some, List, [], ◌∷◌, ◌++◌, String, Map, lookup, insert, arith, ◌⊎◌, inl, inr,
  Bool-cases, Option-cases, str_eq, str_eq-true, lookup-insert_self, lookup-insert_ne,
  lookup-insert, eq_iff, ap,
}
use mathlib.Core.List.{Memᴰ}
use mathlib.Core.List.Memᴰ
use heros_agent.Errors.{ok, >>-eq-ok}
use heros_agent.Task.{Task}
use heros_agent.Dag.{Dag}
use heros_agent.Dag.Build.{fill, known_deps, all_known}
use heros_agent.Dag.Closed.{AllKnown, IsClosed, Has}
use heros_agent.Dag.Cycles.{Grounded}

pub nothing_in_empty : (k : String) (t : Task) → ¬ (lookup k [] ≡ some t)
unfolding lookup
nothing_in_empty k t h = ground arith

-- The map holds tasks of the list, each under its own id.
fill_sound :
    (ts : List Task) (acc m : Map Task)
    → fill ts acc ≡ ok m
    → (k : String) (t : Task) → lookup k m ≡ some t
    → (lookup k acc ≡ some t) ⊎ (Memᴰ t ts × (t.id ≡ k))
unfolding fill
fill_sound [] acc m h k t at = inl (ground arith)
fill_sound (u ∷ ts) acc m h k t at = elim (Option-cases (lookup u.id acc)) [
  | inr (v, dup) ↦ absurd (ground arith)
  | inl fresh ↦ elim (fill_sound ts (insert u.id u acc) m (ground arith) k t at) [
    | inr (m', e) ↦ inr (Memᴰ.tail m', e)
    | inl old ↦ elim (Bool-cases (str_eq u.id k)) [
      | inr ne ↦ inl (sym (lookup-insert_ne u.id k u acc ne) ∙ old)
      | inl e ↦
          let same : u ≡ t = ground (arith, lookup-insert u.id k u acc) in
          inr (Memᴰ.head (sym same), ap (λ (x : Task). x.id) (sym same) ∙ str_eq-true u.id k e)
    ]
  ]
]

-- A list that was filled in has each of its tasks under its id.
fill-keeps :
    (ts : List Task) (acc m : Map Task) (k : String) (v : Task)
    → fill ts acc ≡ ok m
    → lookup k acc ≡ some v
    → lookup k m ≡ some v
unfolding fill
fill-keeps [] acc m k v h at = ground arith
fill-keeps (u ∷ ts) acc m k v h at = elim (Option-cases (lookup u.id acc)) [
  | inr (w, dup) ↦ absurd (ground arith)
  | inl fresh ↦
      fill-keeps ts (insert u.id u acc) m k v (ground arith)
        (ground (arith, lookup-insert u.id k u acc, eq_iff u.id k))
]

pub fill_complete :
    (ts : List Task) (acc m : Map Task) (t : Task)
    → fill ts acc ≡ ok m
    → Memᴰ t ts
    → lookup t.id m ≡ some t
unfolding fill
fill_complete [] acc m t h mem = elim mem [ ]
fill_complete (u ∷ ts) acc m t h mem = elim (Option-cases (lookup u.id acc)) [
  | inr (w, dup) ↦ absurd (ground arith)
  | inl fresh ↦ elim (Memᴰ.cases_cons mem) [
    | inr later ↦ fill_complete ts (insert u.id u acc) m t (ground arith) later
    | inl e ↦
        rw e (
          fill-keeps ts (insert u.id u acc) m u.id u (ground arith) (lookup-insert_self u.id u acc))
  ]
]

known_deps_sound :
    (m : Map Task) (t : Task) (deps : List String) → known_deps m t deps ≡ ok tt → AllKnown m deps
unfolding known_deps
known_deps_sound m t [] h dep mem = elim mem [ ]
known_deps_sound m t (d ∷ deps) h dep mem = elim (Option-cases (lookup d m)) [
  | inl e ↦ absurd (ground arith)
  | inr (u, e) ↦ elim (Memᴰ.cases_cons mem) [
    | inl same ↦ (u, rw same e)
    | inr later ↦ known_deps_sound m t deps (ground arith) dep later
  ]
]

all_known_sound :
    (m : Map Task) (ts : List Task) (t : Task)
    → all_known m ts ≡ ok tt
    → Memᴰ t ts
    → AllKnown m (t.depends_on ++ t.contributes)
unfolding all_known
all_known_sound m [] t h mem = elim mem [ ]
all_known_sound m (u ∷ ts) t h mem =
    let (first, rest) =
      >>-eq-ok (known_deps m u (u.depends_on ++ u.contributes)) (all_known m ts) h in
    elim (Memᴰ.cases_cons mem) [
      | inl e ↦ rw e (known_deps_sound m u (u.depends_on ++ u.contributes) first)
      | inr later ↦ all_known_sound m ts t rest later
    ]

-- A graph of exactly the given tasks, each under its id, that is closed and has no cycle.
pub record IsBuilt (goal_id : String) (ts : List Task) (d : Dag) : Type 0 where
  pub goal : d.goal_id ≡ goal_id
  pub holds : (t : Task) → Memᴰ t ts → lookup t.id d.tasks ≡ some t
  pub only : (k : String) (t : Task) → lookup k d.tasks ≡ some t → Memᴰ t ts × (t.id ≡ k)
  pub closed : IsClosed d.tasks
  pub acyclic : (id : String) → Has d.tasks id → Grounded d.tasks id

module _ (ts : List Task) (m : Map Task) (filled : fill ts [] ≡ ok m) where
  pub filled_only : (k : String) (t : Task) → lookup k m ≡ some t → Memᴰ t ts × (t.id ≡ k)
  filled_only k t at = elim (fill_sound ts [] m filled k t at) [
    | inl e ↦ absurd (nothing_in_empty k t e)
    | inr r ↦ r
  ]

  pub filled-IsClosed : all_known m ts ≡ ok tt → IsClosed m
  filled-IsClosed known = record {
    keyed = λ k t at. (filled_only k t at).1;
    required = λ k t at dep mem.
        all_known_sound m ts t known (filled_only k t at).0 dep
          (Memᴰ.append_left t.contributes mem);
    contributory = λ k t at dep mem.
        all_known_sound m ts t known (filled_only k t at).0 dep
          (Memᴰ.append_right t.depends_on mem);
  }
