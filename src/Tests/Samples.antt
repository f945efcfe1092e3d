-- ===== src/Tests/Samples.antt =====
-- A graph of two tasks, the second after the first.
use heros_agent.Base.{ℕ, ◌≡◌, refl, true, false, some, List, [], ◌∷◌, String, lookup, insert, ◌↔◌}
use heros_agent.Base.Int64.{pos}
use mathlib.Core.List.{Memᴰ}
use heros_agent.Errors.{ok, err}
use heros_agent.Task.{Task, edges}
use heros_agent.Task.States.{State, pending, ready, failed}
use heros_agent.Dag.{
  Dag, ids, propagate_failure, block, claimable_set, ready_set, stalled, visit, visit_all,
  broken_dependency, all_succeeded, dependencies_succeeded, collect, may_be_ready,
}
use heros_agent.Dag.Spread.{Spreads, propagate_failure_lem}
use heros_agent.Dag.Claimable.{IsUnclaimed, claimable_set_lem}
use heros_agent.Dag.Stalls.{stalled-claimable_set}
use heros_agent.Dag.Sort.{sort}
use heros_agent.Dag.Build.{
  fill, known_deps, all_known, push_edges, search_step, search_from, search_all, search_fuel,
  detect_cycle, new_dag, circular, twice,
}
use heros_agent.Dag.Answers.{Answered, new_dag_lem, new_dag-IsBuilt}
use heros_agent.Dag.Closed.{IsClosed, IsMet}

abbrev pub task : String → List String → State → Task
task id deps s = record {
  id = id;
  goal_id = "g";
  kind = "analyse";
  depends_on = deps;
  contributes = [];
  state = s;
  attempt = pos 0;
  spawn_depth = pos 0;
  idempotency_key = "";
  approved = false;
  result = [];
  failure = [];
  leased_by = "";
  lease_expiry = 0;
  created_at = 1;
  updated_at = 1;
}

abbrev pub two_tasks : State → List Task
two_tasks s = task "a" [] s ∷ task "b" ("a" ∷ []) pending ∷ []

abbrev pub two_dag : State → Dag
two_dag s = record {
  goal_id = "g";
  tasks = ("a", task "a" [] s) ∷ ("b", task "b" ("a" ∷ []) pending) ∷ [];
}

new_dag-two : (s : State) → new_dag "g" (two_tasks s) ≡ ok (two_dag s)
unfolding new_dag fill all_known known_deps insert lookup detect_cycle search_all search_from
    search_step search_fuel push_edges ids sort edges
new_dag-two s = refl

pub two-IsClosed : (s : State) → IsClosed (two_dag s).tasks
two-IsClosed s = (new_dag-IsBuilt "g" (two_tasks s) (two_dag s) (new_dag-two s)).closed

new_dag_lem_example : Answered "g" (two_tasks pending) (new_dag "g" (two_tasks pending))
new_dag_lem_example = new_dag_lem "g" (two_tasks pending)

-- A task that depends on itself is refused, and so is a second task of the same id.
loop_test : new_dag "g" (task "a" ("a" ∷ []) pending ∷ []) ≡ err (circular "a" "a")
unfolding new_dag fill all_known known_deps insert lookup detect_cycle search_all search_from
    search_step search_fuel push_edges ids sort edges
loop_test = refl

twice_test : new_dag "g" (task "a" [] pending ∷ task "a" [] ready ∷ []) ≡ err (twice "a")
unfolding new_dag fill lookup insert
twice_test = refl

propagate_failure_lem_example :
    (d' : Dag) × (count : ℕ) × (propagate_failure (two_dag failed) ≡ ok (d', count))
    × (d'.goal_id ≡ "g")
    × Spreads (two_dag failed).tasks d'.tasks count
propagate_failure_lem_example = propagate_failure_lem (two_dag failed) (two-IsClosed failed)

-- The failure of the first task blocks the second.
propagate_failure_test :
    propagate_failure (two_dag failed)
    ≡ ok (
      record {
        goal_id = "g";
        tasks =
            ("a", task "a" [] failed) ∷ ("b", block (task "b" ("a" ∷ []) pending) "a" failed) ∷ [];
      },
      1,
    )
unfolding propagate_failure visit_all ids sort visit lookup broken_dependency insert
propagate_failure_test = refl

claimable_set_lem_example :
    (ts : List Task) × (claimable_set (two_dag pending) 5 ≡ ok ts)
    × ((t : Task)
        → Memᴰ t ts ↔ (
            (id : String) × (lookup id (two_dag pending).tasks ≡ some t)
            × IsUnclaimed t 5
            × IsMet (two_dag pending).tasks t))
claimable_set_lem_example = claimable_set_lem (two_dag pending) (two-IsClosed pending) 5

stalled-two : stalled (two_dag failed) ≡ ok true
unfolding stalled ready_set collect ids sort lookup may_be_ready dependencies_succeeded
    all_succeeded
stalled-two = refl

stalled-claimable_set_example : claimable_set (two_dag failed) 5 ≡ ok []
stalled-claimable_set_example =
    stalled-claimable_set (two_dag failed) (two-IsClosed failed) stalled-two 5
