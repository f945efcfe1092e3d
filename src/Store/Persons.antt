-- ===== src/Store/Persons.antt =====
-- internal/store/store.go: what a person does to a run, Decide and Cancel, and the checkpoints.
use heros_agent.Base.{
  ℕ, suc, ltb, Bool, true, false, not, ◌&&◌, Option, none, some, List, [], ◌∷◌, ◌++◌, String,
  str_eq, Map, lookup, insert, if◌then◌else◌,
}
use heros_agent.Base.Text.{verbatim, quoted}
use heros_agent.Errors.{Error, Result, ok, err, ◌>>=◌, not_claimable}
use heros_agent.Task.{Task, transition}
use heros_agent.Task.States.{ready, awaiting_approval, cancelled, terminal, same_state, state_name}
use heros_agent.Dag.{Dag, propagate_failure}
use heros_agent.Goal
use heros_agent.Goal.{Goal}
use heros_agent.Store.{Memory, Method, Checkpoint, find_goal, find_dag, put_dag, put_task, commit}
use heros_agent.Store.Leases.{goal_absent, find_task}

not_parked : Task → Error
not_parked t = record {
  sentinel = not_claimable;
  message =
      verbatim "store: task is not claimable: "
      ∷ quoted t.id
      ∷ verbatim " is "
      ∷ verbatim (state_name t.state)
      ∷ verbatim ", not awaiting approval"
      ∷ [];
}

-- What Decide does to the graph, once the task has moved.
unfoldable pub answer : Dag → Task → Bool → Result (Dag × Unit {0})
answer d t approve =
    if approve
    then ok (put_task d (record t { approved = true }), tt)
    else propagate_failure
        (put_task d (record t { approved = false; failure = verbatim "declined" ∷ [] }))
      >>= (λ (r : Dag × ℕ). ok (r.0, tt))

-- Only a parked task can be decided.
unfoldable pub check_parked : Task → Result Task
unfolding not_parked
check_parked t = if same_state t.state awaiting_approval then ok t else err (not_parked t)

unfoldable pub decide_task : Dag → Task → Bool → ℕ → Result (Dag × Unit {0})
decide_task d t approve now = do
  parked ← check_parked t
  t' ← transition parked (if approve then ready else cancelled) now
  answer d t' approve

unfoldable pub decide : String → String → Bool → ℕ → Method (Unit {0})
decide goal_id id approve now m =
    commit m goal_id
      do d ← find_dag m goal_id goal_absent; t ← find_task d id; decide_task d t approve now

unfoldable pub cancellable : Task → ℕ → Bool
cancellable t now =
    not (terminal t.state) && not (not (str_eq t.leased_by "") && ltb now t.lease_expiry)

-- The loop of Cancel: the tasks after it, how many it took, and the error that stopped it.
unfoldable pub cancel_tasks : ℕ → Map Task → Map Task × ℕ × Option Error
cancel_tasks now [] = ([], 0, none)
cancel_tasks now ((id, t) ∷ rest) =
    let (rest', took, failed) = cancel_tasks now rest in
    if not (cancellable t now)
    then ((id, t) ∷ rest', took, failed)
    else (elim (transition t cancelled now) [
      | err e ↦ (
        (id, t) ∷ rest,
        0,
        some (record e {
          message = verbatim "store: cancelling " ∷ quoted t.id ∷ verbatim ": " ∷ e.message;
        }),
      )
      | ok t' ↦ ((id, t') ∷ rest', suc took, failed)
    ])

-- The goal moves first, then the tasks.
unfoldable pub cancel : String → ℕ → Method ℕ
unfolding cancel_tasks
cancel goal_id now m = elim (find_goal m goal_id >>= λ g. Goal.cancel g now) [
  | err e ↦ (m, err e)
  | ok g ↦
      let m' : Memory = record m { goals = insert goal_id g m.goals } in
      elim (lookup goal_id m.dags) [
        | none ↦ (m', ok 0)
        | some d ↦
            let (tasks, took, failed) = cancel_tasks now d.tasks in
            (
              put_dag m' goal_id (record d { tasks = tasks }),
              elim failed [ none ↦ ok took | some e ↦ err e ],
            )
      ]
]

abbrev pub checkpoints_of : Memory → String → List Checkpoint
checkpoints_of m id = elim (lookup id m.checkpoints) [ none ↦ [] | some cps ↦ cps ]

unfoldable pub checkpoint : Checkpoint → Method (Unit {0})
checkpoint cp m = (
  record m {
    checkpoints = insert cp.goal_id (checkpoints_of m cp.goal_id ++ cp ∷ []) m.checkpoints;
  },
  ok tt,
)

abbrev pub last_of : List Checkpoint → Option Checkpoint
last_of [] = none
last_of (cp ∷ []) = some cp
last_of (_ ∷ cp ∷ cps) = last_of (cp ∷ cps)

unfoldable pub latest_checkpoint : String → Method (Option Checkpoint)
latest_checkpoint id m = (m, ok (last_of (checkpoints_of m id)))
