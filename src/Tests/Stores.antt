-- ===== src/Tests/Stores.antt =====
-- A store with one running goal and its graph, and calls on it.
use heros_agent.Base.{◌≡◌, refl, subst, true, false, none, [], ◌∷◌, lookup, arith, ◌↔◌, List, inl}
use heros_agent.Base.Int64.{pos, FitsInt64, ◌*ℤ◌}
use heros_agent.Errors.{ok}
use heros_agent.Bounds.{Ceilings, Spend, exceeded, micro_cents_per_cent}
use heros_agent.Bounds.Limits.{Within, exceeded_iff}
use heros_agent.Intent.{assess}
use heros_agent.Goal.{Goal, Criterion, all_tasks_succeeded, admit, evaluate_completion, claimable}
use heros_agent.Goal.Admission.{Admissible, admit_iff}
use heros_agent.Goal.Life.{
  AllMet, AllMeasured, evaluate_completion_lem, Order, pauses, resumes, cancels, obey_all,
  IsSameRun, obey_all_lem,
}
use heros_agent.Goal.States as GoalStates
use heros_agent.Task.States.{pending, running}
use heros_agent.Dag.{Dag}
use heros_agent.Dag.Closed.{IsClosed}
use heros_agent.Dag.Evolve.{IsSound}
use heros_agent.Store.{Memory, new_memory, create_goal, save_dag}
use heros_agent.Store.Leases.{claim}
use heros_agent.Store.Persons
use heros_agent.Store.Claims.{AllClosed, Claimed, claim_lem}
use heros_agent.Store.Sound.{AllSound}
use heros_agent.Store.Cancels.{Cancelled, cancel_lem}
use heros_agent.Store.Runs
use heros_agent.Store.Runs.{
  Reach, IsSoundDag, here, more, creates, plans, claims, StillEnded, Reach-AllSound, Reach-ended,
}
use heros_agent.Tests.Samples.{two_dag, two-IsClosed}

abbrev pub ceilings : Ceilings
ceilings = record {
  max_iterations = pos 10;
  max_tasks = pos 10;
  max_attempts_per_task = pos 3;
  max_tool_calls = pos 10;
  max_tokens = pos 1000;
  max_cost_cents = pos 500;
  max_wall_clock = pos 1000;
  max_spawn_depth = pos 2;
}

abbrev pub no_spend : Spend
no_spend = record {
  iterations = pos 0;
  tasks = pos 0;
  tool_calls = pos 0;
  tokens = pos 0;
  cost_micro_cents = pos 0;
  elapsed = pos 0;
  spawn_depth = pos 0;
}

abbrev pub criterion : Criterion
criterion = record {
  kind = all_tasks_succeeded;
  threshold = pos 1;
  met = false;
  observed = pos 0;
  measured_at = 0;
}

abbrev pub goal_in : GoalStates.State → Goal
goal_in s = record {
  id = "g";
  tenant = "t";
  intent = assess;
  objective = "assess it";
  subject = record { repo_url = "repo"; revision = "main"; workflow_id = "" };
  axes = [];
  ceilings = ceilings;
  spend = no_spend;
  criteria = criterion ∷ [];
  milestones = [];
  state = s;
  refusal = none;
  expected_duration = pos 0;
  created_at = 1;
  updated_at = 1;
  last_checkpoint = 0;
}

abbrev pub store_with : GoalStates.State → Dag → Memory
store_with s d = record { goals = ("g", goal_in s) ∷ []; dags = ("g", d) ∷ []; checkpoints = [] }

exceeded_iff_example : (exceeded no_spend ceilings ≡ none) ↔ Within no_spend ceilings
unfolding ◌*ℤ◌
exceeded_iff_example = exceeded_iff no_spend ceilings fits
  where
    fits : FitsInt64 (pos 500 *ℤ micro_cents_per_cent)
    fits = (omega arith, omega arith)

admit_iff_example :
    (admit (goal_in GoalStates.draft) 9
      ≡ ok (record (goal_in GoalStates.running) { updated_at = 9 }))
    ↔ (Admissible (goal_in GoalStates.draft)
        × (record (goal_in GoalStates.running) { updated_at = 9 }
            ≡ record (goal_in GoalStates.draft) { state = GoalStates.running; updated_at = 9 }))
admit_iff_example =
    admit_iff (goal_in GoalStates.draft) (record (goal_in GoalStates.running) { updated_at = 9 }) 9

evaluate_completion_lem_example :
    ((cs : List Criterion) × ((evaluate_completion (goal_in GoalStates.running) (λ k. pos 1) 9).0
        ≡ record (goal_in GoalStates.running) { criteria = cs })
      × AllMeasured (λ k. pos 1) 9 (criterion ∷ []) cs)
    × (((evaluate_completion (goal_in GoalStates.running) (λ k. pos 1) 9).1 ≡ true)
        ↔ AllMet (λ k. pos 1) (criterion ∷ []))
evaluate_completion_lem_example =
    evaluate_completion_lem (goal_in GoalStates.running) (λ k. pos 1) 9

abbrev orders : List Order
orders = pauses 5 ∷ pauses 6 ∷ resumes 7 ∷ cancels 8 ∷ resumes 9 ∷ []

obey_all_lem_example :
    ((obey_all orders (goal_in GoalStates.running)).state ≡ GoalStates.cancelled)
    × ((claimable (obey_all orders (goal_in GoalStates.running)) ≡ true)
        ↔ (GoalStates.cancelled ≡ GoalStates.running))
    × IsSameRun (goal_in GoalStates.running) (obey_all orders (goal_in GoalStates.running))
obey_all_lem_example = obey_all_lem orders (goal_in GoalStates.running) (inl refl)

one_graph-AllClosed : AllClosed (store_with GoalStates.running (two_dag pending))
unfolding lookup
one_graph-AllClosed id d at =
    let same : two_dag pending ≡ d = ground arith in
    subst (λ (x : Dag). IsClosed x.tasks) same (two-IsClosed pending)

claim_lem_example :
    Claimed
      (store_with GoalStates.running (two_dag pending))
      "g"
      "w"
      30
      5
      (claim "g" "w" 30 5 (store_with GoalStates.running (two_dag pending)))
claim_lem_example =
    claim_lem (store_with GoalStates.running (two_dag pending)) "g" "w" 30 5 one_graph-AllClosed

cancel_lem_example :
    Cancelled
      (store_with GoalStates.running (two_dag pending))
      "g"
      5
      (Persons.cancel "g" 5 (store_with GoalStates.running (two_dag pending)))
cancel_lem_example = cancel_lem (store_with GoalStates.running (two_dag pending)) "g" 5

two-IsSound : IsSound (two_dag pending).tasks
unfolding lookup
two-IsSound = record {
  closed = two-IsClosed pending;
  met = λ k t at need. absurd (ground arith);
  lease = λ k t at l. absurd (ground arith);
}

empty-AllSound : AllSound new_memory
unfolding lookup
empty-AllSound id d at = absurd (ground arith)

-- The goal is created, the graph planned, and a task of it claimed.
abbrev after_claim : Memory
after_claim =
    (claim "g" "w" 30 5
      (save_dag (two_dag pending) (create_goal (goal_in GoalStates.running) new_memory).0).0).0

claimed_run : Reach IsSoundDag new_memory after_claim
claimed_run =
    more
      (more (more here (creates (goal_in GoalStates.running)))
        (plans (two_dag pending) two-IsSound))
      (claims "g" "w" 30 5)

Reach-AllSound_example : AllSound after_claim
Reach-AllSound_example = Reach-AllSound claimed_run empty-AllSound

abbrev ended_store : Memory
ended_store = store_with GoalStates.failed (two_dag pending)

Reach-ended_example :
    StillEnded
      (Persons.cancel "g" 9 (save_dag (two_dag running) (claim "g" "w" 30 5 ended_store).0).0).0
      "g"
      GoalStates.failed
unfolding lookup
Reach-ended_example =
    Reach-ended "g" {m = ended_store} {g = goal_in GoalStates.failed}
      (more (more (more here (claims "g" "w" 30 5)) (plans (two_dag running) tt))
        (Runs.cancels "g" 9))
      refl refl
