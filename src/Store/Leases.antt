-- ===== src/Store/Leases.antt =====
-- internal/store/store.go: Claim, and what a worker does with a task that it holds: Renew, Complete,
-- Release. Leases are read here and never swept.
use heros_agent.Base.{
  ℕ, ◌+◌, ltb, not, none, some, List, [], ◌∷◌, String, str_eq, lookup, if◌then◌else◌,
}
use heros_agent.Base.Int64.{pos, add64}
use heros_agent.Base.Text.{Text, verbatim, quoted, instant}
use heros_agent.Errors.{
  Error, Result, ok, err, ◌>>=◌, goal_not_found, task_not_found, lease_lost, no_work,
}
use heros_agent.Task.{Task, transition}
use heros_agent.Task.States.{State, pending, ready, running, failed, same_state}
use heros_agent.Dag.{Dag, claimable_set, propagate_failure}
use heros_agent.Goal.{claimable}
use heros_agent.Goal.States as GoalStates
use heros_agent.Store.{Memory, Method, about, find_goal, find_dag, dag_missing, put_task, commit}

pub not_running : GoalStates.State → Error
not_running s = record {
  sentinel = no_work;
  message = verbatim "store: no claimable task: goal is " ∷ verbatim (GoalStates.state_name s) ∷ [];
}

pub nothing_to_claim : Error
nothing_to_claim = record { sentinel = no_work; message = verbatim "store: no claimable task" ∷ [] }

-- A task whose lease has expired goes back to ready first, and so does a pending one.
unfoldable pub to_ready : State → Task → ℕ → Result Task
to_ready from t now = if same_state t.state from then transition t ready now else ok t

unfoldable pub take_lease : Task → String → ℕ → ℕ → Result Task
unfolding to_ready
take_lease t worker lease now = do
  reclaimed ← to_ready running t now
  waiting ← to_ready pending reclaimed now
  started ← transition waiting running now
  ok (record started {
    leased_by = worker;
    lease_expiry = now + lease;
    attempt = add64 started.attempt (pos 1);
  })

-- The first of the claimable set.
unfoldable pub claim_first : Dag → List Task → String → ℕ → ℕ → Result (Dag × Task)
unfolding nothing_to_claim
claim_first d [] worker lease now = err nothing_to_claim
claim_first d (t ∷ ts) worker lease now = do
  t' ← take_lease t worker lease now
  ok (put_task d t', t')

unfoldable pub claim : String → String → ℕ → ℕ → Method Task
unfolding claim_first not_running
claim goal_id worker lease now m = commit m goal_id do
  g ← find_goal m goal_id
  d ← (if claimable g then find_dag m goal_id dag_missing else err (not_running g.state))
  ts ← claimable_set d now
  claim_first d ts worker lease now

pub held_by_another : Task → Error
held_by_another t = record {
  sentinel = lease_lost;
  message =
      verbatim "store: lease is no longer held by this worker: "
      ∷ quoted t.id
      ∷ verbatim " is held by "
      ∷ quoted t.leased_by
      ∷ [];
}

expired : Task → Error
expired t = record {
  sentinel = lease_lost;
  message =
      verbatim "store: lease is no longer held by this worker: "
      ∷ quoted t.id
      ∷ verbatim " expired at "
      ∷ instant t.lease_expiry
      ∷ [];
}

abbrev pub goal_absent : String → Error
goal_absent = about goal_not_found "store: goal not found: "

abbrev pub find_task : Dag → String → Result Task
find_task d id = elim (lookup id d.tasks) [
  | none ↦ err (about task_not_found "store: task not found: " id)
  | some t ↦ ok t
]

-- The two tests of `held` on the task itself.
unfoldable pub check_lease : Task → String → ℕ → Result Task
unfolding held_by_another expired
check_lease t worker now =
    if not (str_eq t.leased_by worker)
    then err (held_by_another t)
    else if not (ltb now t.lease_expiry)
    then err (expired t)
    else ok t

-- `held`: the graph and the task, if this worker still holds a live lease on it.
unfoldable pub held : Memory → String → String → String → ℕ → Result (Dag × Task)
held m goal_id id worker now = do
  d ← find_dag m goal_id goal_absent
  t ← find_task d id
  t' ← check_lease t worker now
  ok (d, t')

unfoldable pub renew : String → String → String → ℕ → ℕ → Method (Unit {0})
renew goal_id id worker lease now m = commit m goal_id do
  (d, t) ← held m goal_id id worker now
  ok (put_task d (record t { lease_expiry = now + lease; updated_at = now }), tt)

-- The task as Complete leaves it, after its transition.
abbrev pub settle : Task → List ℕ → Text → Task
settle t result failure = record t {
  result = result;
  failure = failure;
  leased_by = "";
  lease_expiry = 0;
}

-- A failed task blocks what depends on it.
unfoldable pub spread : State → Dag → Result Dag
spread next d =
    if same_state next failed then propagate_failure d >>= (λ (r : Dag × ℕ). ok r.0) else ok d

unfoldable pub complete : String → String → String → State → List ℕ → Text → ℕ → Method (Unit {0})
unfolding spread
complete goal_id id worker next result failure now m = commit m goal_id do
  (d, t) ← held m goal_id id worker now
  t' ← transition t next now
  d' ← spread next (put_task d (settle t' result failure))
  ok (d', tt)

unfoldable pub release : String → String → String → ℕ → Method (Unit {0})
release goal_id id worker now m = commit m goal_id do
  (d, t) ← held m goal_id id worker now
  t' ← transition t ready now
  ok (put_task d (record t' { leased_by = ""; lease_expiry = 0 }), tt)
