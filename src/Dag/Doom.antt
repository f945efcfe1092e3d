-- ===== src/Dag/Doom.antt =====
-- The specification of PropagateFailure (internal/task/task.go): which tasks can never run, by an
-- inductive relation on the graph before it, and what one visit of the loop does.
use heros_agent.Base.{
  ◌+◌, ◌≡◌, refl, sym, ◌∙◌, true, false, Option, none, some, List, [], ◌∷◌, String, Map, lookup,
  insert, arith, ◌⊎◌, inl, inr, Option-cases, Bool-cases, str_eq, subst, lookup-insert_self,
  lookup-insert_ne, str_eq-true,
}
use mathlib.Core.List.{Memᴰ}
use heros_agent.Errors.{ok}
use heros_agent.Task.{Task}
use heros_agent.Task.States.{State, terminal}
use heros_agent.Dag.{broken_dependency, breaks, block, Pass, visit}
use heros_agent.Dag.Closed.{AllKnown, broken_dependency_total}

-- A task that has not ended is doomed by a required dependency that failed, was blocked or cancelled,
-- or that is doomed itself.
pub data IsDoomed (before : Map Task) : String → Type 0 where
  by_end :
      {k : String} (t u : Task) (dep : String)
      → lookup k before ≡ some t
      → terminal t.state ≡ false
      → Memᴰ dep t.depends_on
      → lookup dep before ≡ some u
      → breaks u.state ≡ true
      → IsDoomed before k
  by_doomed :
      {k : String} (t : Task) (dep : String)
      → lookup k before ≡ some t
      → terminal t.state ≡ false
      → Memᴰ dep t.depends_on
      → IsDoomed before dep
      → IsDoomed before k

-- A doomed task has not ended.
pub IsDoomed-open :
    {before : Map Task} {k : String}
    → IsDoomed before k
    → (t : Task) × (lookup k before ≡ some t) × (terminal t.state ≡ false)
IsDoomed-open (by_end t u dep at open_ m du bu) = (t, at, open_)
IsDoomed-open (by_doomed t dep at open_ m d) = (t, at, open_)

-- What has become of one task: nothing, or it was doomed and is blocked.
pub data Fate (before now : Map Task) (k : String) : Type 0 where
  untouched : lookup k now ≡ lookup k before → Fate before now k
  doomed :
      (t : Task) (dep : String) (ds : State)
      → lookup k before ≡ some t
      → IsDoomed before k
      → lookup k now ≡ some (block t dep ds)
      → Fate before now k

abbrev pub Fates : Map Task → Map Task → Type 0
Fates before now = (k : String) → Fate before now k

-- The first broken dependency is one of the list, with its state.
broken_dependency_sound :
    (tasks : Map Task) (deps : List String) (dep : String) (ds : State)
    → broken_dependency tasks deps ≡ ok (some (dep, ds))
    → Memᴰ dep deps × (u : Task) × (lookup dep tasks ≡ some u) × (breaks u.state ≡ true)
unfolding broken_dependency
broken_dependency_sound tasks [] dep ds h = absurd (ground arith)
broken_dependency_sound tasks (d ∷ rest) dep ds h = elim (Option-cases (lookup d tasks)) [
  | inl e ↦ absurd (ground arith)
  | inr (u, e) ↦ elim (Bool-cases (breaks u.state)) [
    | inl b ↦ let same : dep ≡ d = ground arith in (Memᴰ.head same, u, rw same e, b)
    | inr b ↦
        let (m, v, at, bv) = broken_dependency_sound tasks rest dep ds (ground arith) in
        (Memᴰ.tail m, v, at, bv)
  ]
]

-- No broken dependency was found, so none is broken.
pub broken_dependency-none :
    (tasks : Map Task) (deps : List String) (dep : String) (u : Task)
    → broken_dependency tasks deps ≡ ok none
    → Memᴰ dep deps
    → lookup dep tasks ≡ some u
    → breaks u.state ≡ false
unfolding broken_dependency
broken_dependency-none tasks [] dep u h m at = elim m [ ]
broken_dependency-none tasks (d ∷ rest) dep u h (Memᴰ.head e) at =
    let here : lookup d tasks ≡ some u = rw e at at in ground arith
broken_dependency-none tasks (d ∷ rest) dep u h (Memᴰ.tail m) at =
    broken_dependency-none tasks rest dep u (ground arith) m at

-- A broken dependency of the map as it is now dooms the task by the map as it was.
doom-now :
    {before now : Map Task} (k dep : String) (t u : Task)
    → Fates before now
    → lookup k before ≡ some t
    → terminal t.state ≡ false
    → Memᴰ dep t.depends_on
    → lookup dep now ≡ some u
    → breaks u.state ≡ true
    → IsDoomed before k
doom-now k dep t u fates at open_ m du bu = elim (fates dep) [
  | untouched same ↦ by_end t u dep at open_ m (sym same ∙ du) bu
  | doomed v d ds dv doom now_ ↦ by_doomed t dep at open_ m doom
]

-- One visit leaves the pass as it is, or blocks the task it visits.
pub data Visited (p : Pass) (id : String) (q : Pass) : Type 0 where
  rests :
      (t : Task)
      → q ≡ p
      → lookup id p.tasks ≡ some t
      → (terminal t.state ≡ true) ⊎ (broken_dependency p.tasks t.depends_on ≡ ok none)
      → Visited p id q
  blocks :
      (t u : Task) (dep : String) (ds : State)
      → lookup id p.tasks ≡ some t
      → terminal t.state ≡ false
      → Memᴰ dep t.depends_on
      → lookup dep p.tasks ≡ some u
      → breaks u.state ≡ true
      → q
        ≡ record { tasks = insert id (block t dep ds) p.tasks; count = p.count + 1; changed = true }
      → Visited p id q

visit_broken :
    (p : Pass) (id : String) (t : Task) (o : Option (String × State))
    → lookup id p.tasks ≡ some t
    → terminal t.state ≡ false
    → broken_dependency p.tasks t.depends_on ≡ ok o
    → (q : Pass) × (visit p id ≡ ok q) × Visited p id q
unfolding visit
visit_broken p id t none at open_ h = (p, ground arith, rests t refl at (inr h))
visit_broken p id t (some (dep, ds)) at open_ h =
    let (m, u, du, bu) = broken_dependency_sound p.tasks t.depends_on dep ds h in
    (
      record { tasks = insert id (block t dep ds) p.tasks; count = p.count + 1; changed = true },
      ground arith,
      blocks t u dep ds at open_ m du bu refl,
    )

-- A visit never reads through a missing key, where the visited task and its dependencies are there.
pub visit_total :
    (p : Pass) (id : String) (t : Task)
    → lookup id p.tasks ≡ some t
    → AllKnown p.tasks t.depends_on
    → (q : Pass) × (visit p id ≡ ok q) × Visited p id q
unfolding visit
visit_total p id t at known = elim (Bool-cases (terminal t.state)) [
  | inl e ↦ (p, ground arith, rests t refl at (inl e))
  | inr e ↦
      let (o, h) = broken_dependency_total p.tasks t.depends_on known in
      visit_broken p id t o at e h
]

-- The task that a visit blocks was untouched until then, so it was doomed from the start.
Fate-block :
    {before now : Map Task} (id dep : String) (t u : Task) (ds : State)
    → Fates before now
    → lookup id now ≡ some t
    → terminal t.state ≡ false
    → Memᴰ dep t.depends_on
    → lookup dep now ≡ some u
    → breaks u.state ≡ true
    → Fate before (insert id (block t dep ds) now) id
Fate-block {now} id dep t u ds fates at open_ m du bu = elim (fates id) [
  | untouched same ↦
      doomed t dep ds (sym same ∙ at) (doom-now id dep t u fates (sym same ∙ at) open_ m du bu)
        (lookup-insert_self id (block t dep ds) now)
  | doomed v d s dv doom now_ ↦ absurd (ground arith)
]

Fate-insert_ne :
    {before now : Map Task} (id k : String) (v : Task)
    → str_eq id k ≡ false
    → Fate before now k
    → Fate before (insert id v now) k
Fate-insert_ne {now} id k v ne (untouched same) = untouched (lookup-insert_ne id k v now ne ∙ same)
Fate-insert_ne {now} id k v ne (doomed t dep ds at doom now_) =
    doomed t dep ds at doom (lookup-insert_ne id k v now ne ∙ now_)

-- A visit keeps every task's fate.
pub Visited-Fates :
    {before : Map Task} {p q : Pass} (id : String)
    → Visited p id q
    → Fates before p.tasks
    → Fates before q.tasks
Visited-Fates id (rests t same at why) fates = rw same fates
Visited-Fates {before} {p} id (blocks t u dep ds at open_ m du bu made) fates = rw made λ k.
    elim (Bool-cases (str_eq id k)) [
      | inl e ↦
          subst (Fate before (insert id (block t dep ds) p.tasks)) (str_eq-true id k e)
            (Fate-block id dep t u ds fates at open_ m du bu)
      | inr e ↦ Fate-insert_ne id k (block t dep ds) e (fates k)
    ]
