-- ===== src/Dag/Closed.antt =====
-- A task map in which every dependency is a key: what NewDAG checks, and what keeps the reads of
-- internal/task/task.go from a nil dereference.
use heros_agent.Base.{
  ◌≡◌, refl, Bool, true, false, Option, none, some, List, [], ◌∷◌, String, Map, lookup, arith, inl,
  inr, Option-cases, Bool-cases,
}
use mathlib.Core.List.{Memᴰ}
use heros_agent.Errors.{ok}
use heros_agent.Task.{Task}
use heros_agent.Task.States.{State, succeeded, terminal, same_state}
use heros_agent.Dag.{
  all_succeeded, all_terminal, broken_dependency, breaks, Dag, dependencies_succeeded,
}

-- The key has a task.
abbrev pub Has : Map Task → String → Type 0
Has tasks k = (t : Task) × (lookup k tasks ≡ some t)

abbrev pub AllKnown : Map Task → List String → Type 0
AllKnown tasks deps = (dep : String) → Memᴰ dep deps → Has tasks dep

pub record IsClosed (tasks : Map Task) : Type 0 where
  pub keyed : (k : String) (t : Task) → lookup k tasks ≡ some t → t.id ≡ k
  pub required : (k : String) (t : Task) → lookup k tasks ≡ some t → AllKnown tasks t.depends_on
  pub contributory :
      (k : String) (t : Task) → lookup k tasks ≡ some t → AllKnown tasks t.contributes

pub AllKnown-tail :
    (tasks : Map Task) (d : String) (ds : List String) → AllKnown tasks (d ∷ ds) → AllKnown tasks ds
AllKnown-tail tasks d ds h dep m = h dep (Memᴰ.tail m)

pub AllKnown-head :
    (tasks : Map Task) (d : String) (ds : List String) → AllKnown tasks (d ∷ ds) → Has tasks d
AllKnown-head tasks d ds h = h d (Memᴰ.head refl)

pub all_succeeded_total :
    (tasks : Map Task) (deps : List String)
    → AllKnown tasks deps
    → (b : Bool) × (all_succeeded tasks deps ≡ ok b)
unfolding all_succeeded
all_succeeded_total tasks [] h = (true, refl)
all_succeeded_total tasks (d ∷ ds) h =
    let (t, at) = AllKnown-head tasks d ds h in
    let (b, rest) = all_succeeded_total tasks ds (AllKnown-tail tasks d ds h) in
    elim (Bool-cases (same_state t.state succeeded)) [
      | inl e ↦ (b, ground arith)
      | inr e ↦ (false, ground arith)
    ]

pub all_terminal_total :
    (tasks : Map Task) (deps : List String)
    → AllKnown tasks deps
    → (b : Bool) × (all_terminal tasks deps ≡ ok b)
unfolding all_terminal
all_terminal_total tasks [] h = (true, refl)
all_terminal_total tasks (d ∷ ds) h =
    let (t, at) = AllKnown-head tasks d ds h in
    let (b, rest) = all_terminal_total tasks ds (AllKnown-tail tasks d ds h) in
    elim (Bool-cases (terminal t.state)) [
      | inl e ↦ (b, ground arith)
      | inr e ↦ (false, ground arith)
    ]

pub broken_dependency_total :
    (tasks : Map Task) (deps : List String)
    → AllKnown tasks deps
    → (o : Option (String × State)) × (broken_dependency tasks deps ≡ ok o)
unfolding broken_dependency
broken_dependency_total tasks [] h = (none, refl)
broken_dependency_total tasks (d ∷ ds) h =
    let (t, at) = AllKnown-head tasks d ds h in
    let (o, rest) = broken_dependency_total tasks ds (AllKnown-tail tasks d ds h) in
    elim (Bool-cases (breaks t.state)) [
      | inl e ↦ (some (d, t.state), ground arith)
      | inr e ↦ (o, ground arith)
    ]

-- Every required dependency has succeeded, and every contributory one has ended.
pub record IsMet (tasks : Map Task) (t : Task) : Type 0 where
  pub required :
      (dep : String)
      → Memᴰ dep t.depends_on
      → (u : Task) × (lookup dep tasks ≡ some u) × (u.state ≡ succeeded)
  pub contributory :
      (dep : String)
      → Memᴰ dep t.contributes
      → (u : Task) × (lookup dep tasks ≡ some u) × (terminal u.state ≡ true)

-- A check that passed has found the first dependency, succeeded, and passed on the others.
all_succeeded-cons :
    (tasks : Map Task) (d : String) (ds : List String)
    → all_succeeded tasks (d ∷ ds) ≡ ok true
    → (u : Task) × (lookup d tasks ≡ some u)
      × (u.state ≡ succeeded)
      × (all_succeeded tasks ds ≡ ok true)
unfolding all_succeeded
all_succeeded-cons tasks d ds h = elim (Option-cases (lookup d tasks)) [
  | inl e ↦ absurd (ground arith)
  | inr (u, e) ↦ (u, e, ground arith, ground arith)
]

all_terminal-cons :
    (tasks : Map Task) (d : String) (ds : List String)
    → all_terminal tasks (d ∷ ds) ≡ ok true
    → (u : Task) × (lookup d tasks ≡ some u)
      × (terminal u.state ≡ true)
      × (all_terminal tasks ds ≡ ok true)
unfolding all_terminal
all_terminal-cons tasks d ds h = elim (Option-cases (lookup d tasks)) [
  | inl e ↦ absurd (ground arith)
  | inr (u, e) ↦ (u, e, ground arith, ground arith)
]

pub all_succeeded_sound :
    (tasks : Map Task) (deps : List String)
    → all_succeeded tasks deps ≡ ok true
    → (dep : String) → Memᴰ dep deps
    → (u : Task) × (lookup dep tasks ≡ some u) × (u.state ≡ succeeded)
all_succeeded_sound tasks [] h dep m = elim m [ ]
all_succeeded_sound tasks (d ∷ ds) h dep (Memᴰ.head e) =
    let (u, at, done, rest) = all_succeeded-cons tasks d ds h in (u, rw e at, done)
all_succeeded_sound tasks (d ∷ ds) h dep (Memᴰ.tail m) =
    all_succeeded_sound tasks ds (all_succeeded-cons tasks d ds h).3 dep m

pub all_terminal_sound :
    (tasks : Map Task) (deps : List String)
    → all_terminal tasks deps ≡ ok true
    → (dep : String) → Memᴰ dep deps
    → (u : Task) × (lookup dep tasks ≡ some u) × (terminal u.state ≡ true)
all_terminal_sound tasks [] h dep m = elim m [ ]
all_terminal_sound tasks (d ∷ ds) h dep (Memᴰ.head e) =
    let (u, at, done, rest) = all_terminal-cons tasks d ds h in (u, rw e at, done)
all_terminal_sound tasks (d ∷ ds) h dep (Memᴰ.tail m) =
    all_terminal_sound tasks ds (all_terminal-cons tasks d ds h).3 dep m

pub all_succeeded_complete :
    (tasks : Map Task) (deps : List String)
    → ((dep : String)
        → Memᴰ dep deps
        → (u : Task) × (lookup dep tasks ≡ some u) × (u.state ≡ succeeded))
    → all_succeeded tasks deps ≡ ok true
unfolding all_succeeded
all_succeeded_complete tasks [] h = refl
all_succeeded_complete tasks (d ∷ ds) h =
    let (u, at, done) = h d (Memᴰ.head refl) in
    ground (arith, all_succeeded_complete tasks ds (λ dep m. h dep (Memᴰ.tail m)))

pub all_terminal_complete :
    (tasks : Map Task) (deps : List String)
    → ((dep : String)
        → Memᴰ dep deps
        → (u : Task) × (lookup dep tasks ≡ some u) × (terminal u.state ≡ true))
    → all_terminal tasks deps ≡ ok true
unfolding all_terminal
all_terminal_complete tasks [] h = refl
all_terminal_complete tasks (d ∷ ds) h =
    let (u, at, done) = h d (Memᴰ.head refl) in
    ground (arith, all_terminal_complete tasks ds (λ dep m. h dep (Memᴰ.tail m)))

pub dependencies_succeeded_sound :
    (d : Dag) (t : Task) → dependencies_succeeded d t ≡ ok true → IsMet d.tasks t
unfolding dependencies_succeeded
dependencies_succeeded_sound d t h = record {
  required = all_succeeded_sound d.tasks t.depends_on (ground arith);
  contributory = all_terminal_sound d.tasks t.contributes (ground arith);
}

pub dependencies_succeeded_complete :
    (d : Dag) (t : Task) → IsMet d.tasks t → dependencies_succeeded d t ≡ ok true
unfolding dependencies_succeeded
dependencies_succeeded_complete d t h = ground (
  arith,
  all_succeeded_complete d.tasks t.depends_on h.required,
  all_terminal_complete d.tasks t.contributes h.contributory,
)

pub dependencies_succeeded_total :
    (d : Dag) (t : Task)
    → AllKnown d.tasks t.depends_on
    → AllKnown d.tasks t.contributes
    → (b : Bool) × (dependencies_succeeded d t ≡ ok b)
unfolding dependencies_succeeded
dependencies_succeeded_total d t r c =
    let (a, ea) = all_succeeded_total d.tasks t.depends_on r in
    let (b, eb) = all_terminal_total d.tasks t.contributes c in
    elim (Bool-cases a) [ inl e ↦ (b, ground arith) | inr e ↦ (false, ground arith) ]
