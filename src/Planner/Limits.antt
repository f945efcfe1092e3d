-- ===== src/Planner/Limits.antt =====
-- Build and Revise (internal/planner/planner.go) and the ceilings of the goal.
use heros_agent.Base.{
  ℕ, ◌+◌, ◌≡◌, ◌≢◌, refl, ◌∙◌, ap, subst, arith, false, none, some, List, [], ◌∷◌, ◌++◌, lookup,
  length, length-append, ◌⊎◌, inl, inr, Option-cases,
}
use heros_agent.Base.Int64.{pos, ◌≤ℤ◌, leb_ℤ}
use mathlib.Core.List.{Memᴰ}
use mathlib.Core.List.Memᴰ
use heros_agent.Errors.{ok, ◌>>◌, >>=-eq-ok, >>-eq-ok}
use heros_agent.Task.{Task, require_idempotency}
use heros_agent.Dag.{Dag}
use heros_agent.Dag.Build.{new_dag}
use heros_agent.Dag.Valid.{IsBuilt}
use heros_agent.Dag.Answers.{new_dag-IsBuilt}
use heros_agent.Goal.{Goal}
use heros_agent.Planner.{
  Planner, Registry, planner_for, all_keyed, check_size, build, revise_from, revise,
}

-- A task that may be added to the graph: it is new, not too deep, and has its key.
pub record IsAddable (g : Goal) (d : Dag) (t : Task) : Type 0 where
  pub fresh : lookup t.id d.tasks ≡ none
  pub shallow : t.spawn_depth ≤ℤ g.ceilings.max_spawn_depth
  pub keyed : require_idempotency t ≡ ok tt

abbrev pub AllAddable : Goal → Dag → List Task → Type 0
AllAddable g d ts = (t : Task) → Memᴰ t ts → IsAddable g d t

-- What Revise may add: it fits the ceiling with what is there, unless it is nothing.
pub record IsBounded (g : Goal) (d : Dag) (added : List Task) : Type 0 where
  pub addable : AllAddable g d added
  pub fits : (added ≡ []) ⊎ (pos (length d.tasks + length added) ≤ℤ g.ceilings.max_tasks)

snoc-IsBounded :
    (g : Goal) (d : Dag) (added : List Task) (t : Task)
    → IsBounded g d added
    → IsAddable g d t
    → leb_ℤ g.ceilings.max_tasks (pos (length d.tasks + length added)) ≡ false
    → IsBounded g d (added ++ t ∷ [])
snoc-IsBounded g d added t bounded ready room = record {
  addable = λ u m. elim (Memᴰ.append_cases added m) [
    | inl old ↦ bounded.addable u old
    | inr new ↦ elim new [ Memᴰ.head e ↦ rw e ready | Memᴰ.tail none_left ↦ elim none_left [ ] ]
  ];
  fits = inr (ground (arith, length-append added (t ∷ [])));
}

revise_from-IsBounded :
    (g : Goal) (d : Dag) (proposed added result : List Task)
    → IsBounded g d added
    → revise_from g d proposed added ≡ ok result
    → IsBounded g d result
unfolding revise_from
revise_from-IsBounded g d [] added result bounded h = subst (IsBounded g d) (ground arith) bounded
revise_from-IsBounded g d (t ∷ ts) added result bounded h =
    elim (Option-cases (lookup t.id d.tasks)) [
      | inr (old, at) ↦ revise_from-IsBounded g d ts added result bounded (ground arith)
      | inl fresh ↦
          let ready : IsAddable g d t = record {
            fresh = fresh;
            shallow = ground arith;
            keyed = ground arith;
          } in
          revise_from-IsBounded g d ts (added ++ t ∷ []) result
            (snoc-IsBounded g d added t bounded ready (ground arith)) (ground arith)
    ]

-- Revise adds only tasks that are not in the graph, are no deeper than the goal's spawn depth, and have
-- an idempotency key if they need one; and with what it adds the graph fits the task ceiling.
pub revise-IsBounded :
    (r : Registry) (g : Goal) (d : Dag) (now : ℕ) (added : List Task)
    → revise r g d now ≡ ok added
    → IsBounded g d added
unfolding revise
revise-IsBounded r g d now added h = elim (Option-cases (planner_for r g.intent)) [
  | inl e ↦ absurd (ground arith)
  | inr (p, e) ↦
      let (proposed, planned, rest) =
        >>=-eq-ok (p.replan g d now) (λ ts. revise_from g d ts []) (ground arith) in
      revise_from-IsBounded g d proposed [] added
        (record { addable = λ t m. elim m [ ]; fits = inl refl }) rest
]

-- A graph that Build made from a plan.
pub record IsPlanned (p : Planner) (g : Goal) (now : ℕ) (d : Dag) : Type 0 where
  pub tasks : List Task
  pub planned : p.plan g now ≡ ok tasks
  pub some_task : tasks ≢ []
  pub fits : pos (length tasks) ≤ℤ g.ceilings.max_tasks
  pub keyed : (t : Task) → Memᴰ t tasks → require_idempotency t ≡ ok tt
  pub built : IsBuilt g.id tasks d

all_keyed-keyed :
    (ts : List Task) → all_keyed ts ≡ ok tt → (t : Task) → Memᴰ t ts → require_idempotency t ≡ ok tt
unfolding all_keyed
all_keyed-keyed [] h t m = elim m [ ]
all_keyed-keyed (u ∷ ts) h t m =
    let (first, rest) = >>-eq-ok (require_idempotency u) (all_keyed ts) h in
    elim (Memᴰ.cases_cons m) [
      | inl e ↦ ap require_idempotency e ∙ first
      | inr later ↦ all_keyed-keyed ts rest t later
    ]

check_size-fits :
    (g : Goal) (ts : List Task)
    → check_size g ts ≡ ok tt
    → (ts ≢ []) × (pos (length ts) ≤ℤ g.ceilings.max_tasks)
unfolding check_size
check_size-fits g [] h = absurd (ground arith)
check_size-fits g (t ∷ ts) h = (λ e. ground arith, ground arith)

-- A graph that Build returns holds exactly the tasks that the goal's planner planned, at least one and
-- no more than the task ceiling, each with an idempotency key if it needs one; it is closed and acyclic.
pub build-IsPlanned :
    (r : Registry) (g : Goal) (now : ℕ) (d : Dag)
    → build r g now ≡ ok d
    → (p : Planner) × (planner_for r g.intent ≡ some p) × IsPlanned p g now d
unfolding build
build-IsPlanned r g now d h = elim (Option-cases (planner_for r g.intent)) [
  | inl e ↦ absurd (ground arith)
  | inr (p, e) ↦
      let (tasks, planned, rest) =
        >>=-eq-ok (p.plan g now) (λ ts. check_size g ts >> (all_keyed ts >> new_dag g.id ts))
          (ground arith) in
      let (sized, rest1) =
        >>-eq-ok (check_size g tasks) (all_keyed tasks >> new_dag g.id tasks) rest in
      let (keyed, rest2) = >>-eq-ok (all_keyed tasks) (new_dag g.id tasks) rest1 in
      let (some_task, fits) = check_size-fits g tasks sized in
      (
        p,
        e,
        record {
          tasks = tasks;
          planned = planned;
          some_task = some_task;
          fits = fits;
          keyed = all_keyed-keyed tasks keyed;
          built = new_dag-IsBuilt g.id tasks d rest2;
        },
      )
]
