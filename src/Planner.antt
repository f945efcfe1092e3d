-- ===== src/Planner.antt =====
-- internal/planner/planner.go: the registry of planners, Build and Revise with the bounds that stop
-- replanning from running away. The planners themselves are parameters.
pub mod Plans
pub mod FanIn
pub mod Buildable
pub mod Converges
pub mod Limits
use heros_agent.Base.{
  ℕ, ◌+◌, Bool, true, false, not, Option, none, some, List, [], ◌∷◌, ◌++◌, String, Map, lookup,
  length, if◌then◌else◌,
}
use heros_agent.Base.Int64.{ℤ, pos, ltb_ℤ, leb_ℤ}
use heros_agent.Base.Text.{Text, Piece, verbatim, quoted, count, int}
use heros_agent.Errors.{Error, Result, ok, err, ◌>>=◌, ◌>>◌, plain}
use heros_agent.Intent.{Intent, intent_name, same_intent, durable, in_tier, goal}
use heros_agent.Task.{Task, require_idempotency}
use heros_agent.Dag.{Dag}
use heros_agent.Dag.Build.{new_dag}
use heros_agent.Dag.Sort.{sort}
use heros_agent.Goal.{Goal}

pub record Planner : Type 0 where
  pub intent : Intent
  pub plan : Goal → ℕ → Result (List Task)
  pub replan : Goal → Dag → ℕ → Result (List Task)

-- One planner for an intent, as NewRegistry makes it.
abbrev pub Registry : Type 0
Registry = List Planner

unfoldable pub planner_for : Registry → Intent → Option Planner
planner_for [] i = none
planner_for (p ∷ ps) i = if same_intent p.intent i then some p else planner_for ps i

saying : Text → Error
saying words = record { sentinel = plain; message = words }

no_planner : Intent → Error
unfolding saying
no_planner i = saying (verbatim "planner: no planner for " ∷ quoted (intent_name i) ∷ [])

-- The loop over the planners that are given.
unfoldable pub add_planners : List Planner → Registry → Result Registry
unfolding saying
add_planners [] r = ok r
add_planners (p ∷ ps) r =
    let rest = add_planners ps (p ∷ r) in
    if not (durable p.intent)
    then err (
        saying (
          verbatim "planner: "
          ∷ quoted (intent_name p.intent)
          ∷ verbatim " is not a durable goal and does not get a planner"
          ∷ []))
    else (elim (planner_for r p.intent) [
      | some q ↦ err (
          saying
            (verbatim "planner: two planners registered for " ∷ quoted (intent_name p.intent) ∷ []))
      | none ↦ rest
    ])

-- The durable intents without a planner.
unfoldable pub missing : Registry → List Intent → List String
missing r [] = []
missing r (i ∷ is) = elim (planner_for r i) [
  | none ↦ intent_name i ∷ missing r is
  | some p ↦ missing r is
]

in_a_list : List String → Text
in_a_list [] = []
in_a_list (s ∷ ss) = verbatim s ∷ verbatim " " ∷ in_a_list ss

unfoldable pub new_registry : List Planner → Result Registry
unfolding saying in_a_list
new_registry ps = do
  r ← add_planners ps []
  elim (missing r (in_tier goal)) [
    | [] ↦ ok r
    | m ∷ ms ↦ err (
        saying (
          (verbatim "planner: durable intents with no planner: [" ∷ [])
          ++ in_a_list (sort (m ∷ ms))
          ++ verbatim "] — such a goal would admit, plan nothing, and report an idle state forever"
            ∷ []))
  ]

-- The loop that requires the keys.
unfoldable pub all_keyed : List Task → Result (Unit {0})
all_keyed [] = ok tt
all_keyed (t ∷ ts) = do require_idempotency t; all_keyed ts

-- How many tasks an initial plan may have: some, and no more than the ceiling.
unfoldable pub check_size : Goal → List Task → Result (Unit {0})
unfolding saying
check_size g [] = err (
    saying (
      verbatim "planner: "
      ∷ quoted (intent_name g.intent)
      ∷ verbatim " planned no tasks; a goal with an empty plan is idle forever"
      ∷ []))
check_size g (t ∷ ts) =
    if ltb_ℤ g.ceilings.max_tasks (pos (length (t ∷ ts)))
    then err (
        saying (
          verbatim "planner: "
          ∷ quoted (intent_name g.intent)
          ∷ verbatim " planned "
          ∷ count (length (t ∷ ts))
          ∷ verbatim " tasks, ceiling is "
          ∷ int g.ceilings.max_tasks
          ∷ []))
    else ok tt

unfoldable pub build : Registry → Goal → ℕ → Result Dag
unfolding no_planner
build r g now = elim (planner_for r g.intent) [
  | none ↦ err (no_planner g.intent)
  | some p ↦ (do tasks ← p.plan g now; check_size g tasks; all_keyed tasks; new_dag g.id tasks)
]

too_deep : Goal → Task → Error
unfolding saying
too_deep g t = saying (
    verbatim "planner: task "
    ∷ quoted t.id
    ∷ verbatim " at spawn depth "
    ∷ int t.spawn_depth
    ∷ verbatim " exceeds the ceiling of "
    ∷ int g.ceilings.max_spawn_depth
    ∷ [])

too_many : Goal → Task → Error
unfolding saying
too_many g t = saying (
    verbatim "planner: adding "
    ∷ quoted t.id
    ∷ verbatim " would exceed the task ceiling of "
    ∷ int g.ceilings.max_tasks
    ∷ [])

-- The loop of Revise, with the tasks added so far. Its error stands for a nil slice with the error, or
-- for what was added with the error: no caller reads the slice then.
unfoldable pub revise_from : Goal → Dag → List Task → List Task → Result (List Task)
unfolding too_deep too_many
revise_from g d [] added = ok added
revise_from g d (t ∷ ts) added =
    let skipped = revise_from g d ts added in
    let kept = revise_from g d ts (added ++ t ∷ []) in
    elim (lookup t.id d.tasks) [
      | some old ↦ skipped
      | none ↦
          if ltb_ℤ g.ceilings.max_spawn_depth t.spawn_depth
          then err (too_deep g t)
          else if leb_ℤ g.ceilings.max_tasks (pos (length d.tasks + length added))
          then err (too_many g t)
          else (do require_idempotency t; kept)
    ]

unfoldable pub revise : Registry → Goal → Dag → ℕ → Result (List Task)
unfolding no_planner
revise r g d now = elim (planner_for r g.intent) [
  | none ↦ err (no_planner g.intent)
  | some p ↦ (do proposed ← p.replan g d now; revise_from g d proposed [])
]
