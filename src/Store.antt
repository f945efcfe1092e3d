-- ===== src/Store.antt =====
-- internal/store/store.go: the in-process store of goals, task graphs and checkpoints, and the lease
-- by which one worker holds one task. Every method runs under the store's mutex, so it is one step: it
-- takes the store and returns the store after it with its result.
pub mod Leases
pub mod Persons
pub mod Claims
pub mod Holders
pub mod Sound
pub mod SoundPersons
pub mod Settled
pub mod Cancels
pub mod Leasing
pub mod Runs
pub mod Listing
pub mod Scoped
pub mod Slots
pub mod Calls
pub mod Isolation
pub mod Alone
pub mod Owners
pub mod Listed
use heros_agent.Base.{
  ℕ, suc, ◌+◌, ltb, Bool, true, false, not, ◌&&◌, ◌||◌, Option, none, some, List, [], ◌∷◌, ◌++◌,
  String, str_eq, Map, lookup, insert, values, if◌then◌else◌,
}
use heros_agent.Base.Int64.{ℤ, pos, add64}
use heros_agent.Base.Text.{Text, Piece, verbatim, quoted, instant}
use heros_agent.Errors.{
  Error, Sentinel, Result, ok, err, ◌>>=◌, ◌>>◌, goal_not_found, task_not_found, not_claimable,
  lease_lost, no_work, goal_terminal, plain,
}
use heros_agent.Task.{Task, transition}
use heros_agent.Task.States
use heros_agent.Task.States.{
  State, pending, ready, running, awaiting_approval, succeeded, failed, blocked, cancelled,
  terminal, same_state, state_name,
}
use heros_agent.Dag.{Dag, claimable_set, propagate_failure}
use heros_agent.Goal
use heros_agent.Goal.{Goal}
use heros_agent.Goal.States as GoalStates

-- `spend` is what the String of the spend answers; the store never looks at it, and a nil one is none.
pub record Checkpoint : Type 0 where
  pub goal_id : String
  pub iteration : ℤ
  pub spend : Option Text
  pub note : Text
  pub at : ℕ

pub record Memory : Type 0 where
  pub goals : Map Goal
  pub dags : Map Dag
  pub checkpoints : Map (List Checkpoint)

abbrev pub new_memory : Memory
new_memory = record { goals = []; dags = []; checkpoints = [] }

-- A method: the store after it, and its result.
abbrev pub Method : Type 0 → Type 0
Method A = Memory → Memory × Result A

-- `fmt.Errorf("%w: %q", sentinel, id)`.
abbrev pub about : Sentinel → String → String → Error
about s words id = record { sentinel = s; message = verbatim words ∷ quoted id ∷ [] }

abbrev pub goal_missing : String → Error
goal_missing = about goal_not_found "store: goal not found: "

abbrev pub dag_missing : String → Error
dag_missing = about goal_not_found "store: goal not found: no DAG for goal "

abbrev pub find_goal : Memory → String → Result Goal
find_goal m id = elim (lookup id m.goals) [ none ↦ err (goal_missing id) | some g ↦ ok g ]

abbrev pub find_dag : Memory → String → (String → Error) → Result Dag
find_dag m id e = elim (lookup id m.dags) [ none ↦ err (e id) | some d ↦ ok d ]

abbrev pub put_dag : Memory → String → Dag → Memory
put_dag m id d = record m { dags = insert id d m.dags }

abbrev pub put_task : Dag → Task → Dag
put_task d t = record d { tasks = insert t.id t d.tasks }

-- A method whose result carries the graph that replaces the goal's.
abbrev pub commit {ℓ} : {A : Type ℓ} → Memory → String → Result (Dag × A) → Memory × Result A
commit m id (ok (d, a)) = (put_dag m id d, ok a)
commit m id (err e) = (m, err e)

unfoldable pub create_goal : Goal → Method (Unit {0})
create_goal g m = elim (lookup g.id m.goals) [
  | some _ ↦ (
    m,
    err (record {
      sentinel = plain;
      message = verbatim "store: goal " ∷ quoted g.id ∷ verbatim " already exists" ∷ [];
    }),
  )
  | none ↦ (record m { goals = insert g.id g m.goals }, ok tt)
]

unfoldable pub load_goal : String → Method Goal
load_goal id m = (m, find_goal m id)

ended : GoalStates.State → Goal → Error
ended current incoming = record {
  sentinel = goal_terminal;
  message =
      verbatim "store: this run has already ended: "
      ∷ quoted incoming.id
      ∷ verbatim " is "
      ∷ verbatim (GoalStates.state_name current)
      ∷ verbatim " and cannot become "
      ∷ verbatim (GoalStates.state_name incoming.state)
      ∷ [];
}

unfoldable pub refuse_terminal_overwrite : GoalStates.State → Goal → Result (Unit {0})
unfolding ended
refuse_terminal_overwrite current incoming =
    if not (GoalStates.terminal current) || GoalStates.same_state incoming.state current
    then ok tt
    else err (ended current incoming)

unfoldable pub save_goal : Goal → Method (Unit {0})
unfolding refuse_terminal_overwrite
save_goal g m = elim (lookup g.id m.goals) [
  | none ↦ (m, err (goal_missing g.id))
  | some cur ↦ elim (refuse_terminal_overwrite cur.state g) [
    | err e ↦ (m, err e)
    | ok _ ↦ (record m { goals = insert g.id g m.goals }, ok tt)
  ]
]

unfoldable pub save_dag : Dag → Method (Unit {0})
save_dag d m = (put_dag m d.goal_id d, ok tt)

unfoldable pub load_dag : String → Method Dag
load_dag id m = (m, find_dag m id dag_missing)
