-- ===== src/Tests/Cycles.antt =====
-- Cycles of a worker whose tool always succeeds, or always fails, under the default policy.
use heros_agent.Base.{
  ℕ, ◌≡◌, refl, Bool, true, false, Option, none, some, List, [], ◌∷◌, String, Map, lookup, insert,
  arith, ◌↔◌, ap, sym, inl,
}
use heros_agent.Base.Int64.{ℤ, pos, ◌+ℤ◌}
use heros_agent.Errors.{Error, ok, plain}
use heros_agent.Goal.{Goal, Criterion}
use heros_agent.Goal.States as GoalStates
use heros_agent.Task.{Task, effect_bearing_kind}
use heros_agent.Task.States.{ready, running, succeeded}
use heros_agent.Dag.{Dag}
use heros_agent.Store.{Memory}
use heros_agent.Store.Leases.{release}
use heros_agent.Worker.{Worker, World, Call, ToolResult, Event, gate_effects, retry, complete}
use heros_agent.Base.{subst, eq_iff, ◌<◌}
use heros_agent.Errors.{err}
use heros_agent.Base.Text.{Text}
use heros_agent.Task.States.{State}
use heros_agent.Dag.Build.{new_dag}
use heros_agent.Dag.Answers.{new_dag-IsBuilt}
use heros_agent.Dag.Closed.{IsClosed, IsMet}
use heros_agent.Store.Leases
use heros_agent.Store.Leases.{claim, renew, held_by_another}
use heros_agent.Store.Persons.{cancel}
use heros_agent.Store.Claims.{AllClosed}
use heros_agent.Store.Holders.{Holds}
use heros_agent.Store.Leasing.{HasTask, lease_excludes}
use heros_agent.Worker.Quiet.{calls}
use heros_agent.Worker.Gate.{Gated, run_once-Gated}
use heros_agent.Worker.Effects.{ApprovedCall, effect-ApprovedCall}
use heros_agent.Worker.Accounts.{invoke_tool_lem}
use heros_agent.Worker.Finish.{Finishes, idle_lem}
use heros_agent.Worker.Idle.{idle}
use heros_agent.Worker.Ladder.{Settles, Ends, after_call_lem}
use heros_agent.Dag.Evolve.{IsSound}
use heros_agent.Worker.{Did}
use heros_agent.Worker.Cycle.{after_call}
use heros_agent.Errors.{verify_inconclusive}
use heros_agent.Worker.Cycle.{run_once, handle_failure, invoke_tool, charge, call_for}
use heros_agent.Tests.Samples.{task}
use heros_agent.Tests.Stores.{goal_in, store_with, no_spend}

abbrev pub cheap : ToolResult
cheap = record { output = 7 ∷ []; tokens = pos 10; cost_micro_cents = pos 5; tool_calls = pos 1 }

abbrev pub broken : Error
broken = record { sentinel = plain; message = [] }

abbrev pub worker : Option Error → Worker
worker fault = record {
  id = "w";
  lease = 30;
  needs_approval = gate_effects;
  invoke = λ c m. (m, cheap, fault);
  records_episodes = true;
  reviser = none;
  commonest_failure = λ d. [];
}

-- A pull request that a person has approved.
abbrev pub pull_request : Task
pull_request = record (task "p" [] ready) {
  kind = "open_pull_request";
  idempotency_key = "k";
  approved = true;
}

abbrev one_dag : Task → Dag
one_dag t = record { goal_id = "g"; tasks = (t.id, t) ∷ [] }

abbrev pub world_with : Task → World
world_with t = record { store = store_with GoalStates.running (one_dag t); log = [] }

run_once-Gated_example :
    Gated
      (worker none)
      "g"
      5
      none
      (world_with pull_request)
      (run_once (worker none) "g" 5 none (world_with pull_request))
run_once-Gated_example = run_once-Gated (worker none) "g" 5 none (world_with pull_request)

abbrev pub the_call : Call
the_call = record {
  task_id = "p";
  goal_id = "g";
  kind = "open_pull_request";
  idempotency_key = "k";
  input = [];
  inputs = [];
  attempt = pos 1;
}

calls_test :
    calls (run_once (worker none) "g" 5 none (world_with pull_request)).0.log ≡ the_call ∷ []
unfolding run_once calls heros_agent.Store.load_goal lookup insert heros_agent.Goal.claimable
    heros_agent.Worker.Cycle.under_ceilings heros_agent.Goal.check_ceilings_reached
    heros_agent.Bounds.exceeded heros_agent.Bounds.cost_ceiling heros_agent.Base.Int64.mul64
    heros_agent.Base.Int64.add64 heros_agent.Worker.Cycle.claim_one heros_agent.Store.Leases.claim
    heros_agent.Dag.claimable_set heros_agent.Dag.collect heros_agent.Dag.ids
    heros_agent.Dag.Sort.sort heros_agent.Dag.may_be_claimed heros_agent.Dag.unclaimed
    heros_agent.Dag.dependencies_succeeded heros_agent.Dag.all_succeeded
    heros_agent.Dag.all_terminal heros_agent.Store.Leases.claim_first
    heros_agent.Store.Leases.take_lease heros_agent.Store.Leases.to_ready
    heros_agent.Task.transition heros_agent.Task.States.can_transition_to
    heros_agent.Worker.Cycle.with_task heros_agent.Task.require_idempotency
    heros_agent.Worker.Cycle.gate gate_effects heros_agent.Worker.Cycle.execute
    heros_agent.Worker.Cycle.dependency_results invoke_tool heros_agent.Worker.saving
    heros_agent.Store.save_goal heros_agent.Store.refuse_terminal_overwrite charge
    heros_agent.Worker.Cycle.after_call heros_agent.Worker.Cycle.persist
    heros_agent.Worker.record_episode heros_agent.Store.Leases.complete
    heros_agent.Store.Leases.held heros_agent.Store.Leases.check_lease
    heros_agent.Store.Leases.spread heros_agent.Store.Persons.checkpoint
    heros_agent.Worker.Cycle.note_unasked call_for effect_bearing_kind
calls_test = refl

effect-ApprovedCall_example :
    ApprovedCall (worker none) "g" 5 (store_with GoalStates.running (one_dag pull_request)) the_call
unfolding effect_bearing_kind calls
effect-ApprovedCall_example =
    effect-ApprovedCall (worker none) "g" 5 none (world_with pull_request) the_call (λ g t. refl)
      calls_test refl

-- A task that the worker holds, at its first attempt.
abbrev held_task : Task
held_task = record (task "a" [] running) { attempt = pos 1; leased_by = "w"; lease_expiry = 35 }

invoke_tool_lem_example :
    lookup "g"
      (invoke_tool
        (worker (some broken))
        "g"
        5
        none
        held_task
        (goal_in GoalStates.running)
        []
        (world_with held_task)).0.store.goals
    ≡ some (record (goal_in GoalStates.running) {
      spend = record no_spend {
        iterations = no_spend.iterations +ℤ pos 1;
        tool_calls = no_spend.tool_calls +ℤ cheap.tool_calls;
        tokens = no_spend.tokens +ℤ cheap.tokens;
        cost_micro_cents = no_spend.cost_micro_cents +ℤ cheap.cost_micro_cents;
      };
    })
unfolding lookup ◌+ℤ◌
invoke_tool_lem_example =
    invoke_tool_lem (worker (some broken)) "g" 5 none held_task (goal_in GoalStates.running)
      (goal_in GoalStates.running) [] (world_with held_task) (world_with held_task).store cheap
      (some broken) refl refl refl
      (
        (omega arith, omega arith),
        (omega arith, omega arith),
        (omega arith, omega arith),
        (omega arith, omega arith),
      )

abbrev done_task : Task
done_task = task "a" [] succeeded

complete_test :
    (idle (worker none) "g" 5 (goal_in GoalStates.running) (world_with done_task)).1.did ≡ complete
unfolding idle heros_agent.Store.load_dag lookup heros_agent.Worker.Idle.count_state
    heros_agent.Goal.evaluate_completion heros_agent.Worker.Idle.observed heros_agent.Worker.saving
    heros_agent.Store.save_goal
complete_test = refl

idle_lem_example :
    (((idle (worker none) "g" 5 (goal_in GoalStates.running) (world_with done_task)).1.did
        ≡ complete)
      ↔ Finishes (worker none) "g" 5 (goal_in GoalStates.running) (world_with done_task).store)
    × ((idle (worker none) "g" 5 (goal_in GoalStates.running) (world_with done_task)).1.did
          ≡ complete
        → (cs : List Criterion) × (lookup "g"
              (idle
                (worker none)
                "g"
                5
                (goal_in GoalStates.running)
                (world_with done_task)).0.store.goals
            ≡ some (record (goal_in GoalStates.running) {
              criteria = cs;
              state = GoalStates.succeeded;
              updated_at = 5;
            })))
idle_lem_example = idle_lem (worker none) "g" 5 (goal_in GoalStates.running) (world_with done_task)

one_dag-held : new_dag "g" (held_task ∷ []) ≡ ok (one_dag held_task)
unfolding new_dag heros_agent.Dag.Build.fill heros_agent.Dag.Build.all_known
    heros_agent.Dag.Build.known_deps insert lookup heros_agent.Dag.Build.detect_cycle
    heros_agent.Dag.Build.search_all heros_agent.Dag.Build.search_from
    heros_agent.Dag.Build.search_step heros_agent.Dag.Build.search_fuel
    heros_agent.Dag.Build.push_edges heros_agent.Dag.ids heros_agent.Dag.Sort.sort
    heros_agent.Task.edges
one_dag-held = refl

held-AllClosed : AllClosed (world_with held_task).store
unfolding lookup
held-AllClosed id d at =
    let same : one_dag held_task ≡ d = ground arith in
    subst (λ (x : Dag). IsClosed x.tasks) same
      (new_dag-IsBuilt "g" (held_task ∷ []) (one_dag held_task) one_dag-held).closed

held-Holds : Holds (world_with held_task).store "g" "a" "w" 5 (one_dag held_task) held_task
unfolding lookup
held-Holds = record { graph = refl; task = refl; owner = refl; live = omega arith }

lease_excludes_example :
    ((worker : String) (lease : ℕ)
      → HasTask (claim "g" worker lease 5 (world_with held_task).store).0 "g" "a" held_task)
    × HasTask (cancel "g" 5 (world_with held_task).store).0 "g" "a" held_task
    × ((lease : ℕ)
        → renew "g" "a" "v" lease 5 (world_with held_task).store
          ≡ ((world_with held_task).store, err (held_by_another held_task)))
    × ((next : State) (result : List ℕ) (failure : Text)
        → Leases.complete "g" "a" "v" next result failure 5 (world_with held_task).store
          ≡ ((world_with held_task).store, err (held_by_another held_task)))
    × (release "g" "a" "v" 5 (world_with held_task).store
        ≡ ((world_with held_task).store, err (held_by_another held_task)))
lease_excludes_example =
    lease_excludes (world_with held_task).store "g" "a" "w" 5 (one_dag held_task) held_task
      held-Holds refl held-AllClosed (λ e. ground (arith, eq_iff "w" "")) "v"
      (λ e. ground (arith, eq_iff "v" "w"))

held-IsSound : IsSound (one_dag held_task).tasks
unfolding lookup
held-IsSound = record {
  closed = held-AllClosed "g" (one_dag held_task) refl;
  met = λ k t at need.
      let same : held_task ≡ t = ground arith in
      subst (IsMet (one_dag held_task).tasks) same
        (record { required = λ dep m. elim m [ ]; contributory = λ dep m. elim m [ ] });
  lease = λ k t at l.
      let same : held_task ≡ t = ground arith in inl (ap (λ (x : Task). x.state) (sym same));
}

-- The context was cancelled while the tool ran, and the effect could not be confirmed.
abbrev blind : Error
blind = record { sentinel = verify_inconclusive; message = [] }

after_call_lem_example :
    (next : State) × (did : Did) × Settles (some broken) (some blind) (pos 3) (pos 1) next did
    × Ends "g" held_task next did (
        after_call
          (worker (some blind))
          "g"
          5
          (some broken)
          held_task
          (goal_in GoalStates.running)
          cheap
          (some blind)
          (world_with held_task))
after_call_lem_example =
    after_call_lem (worker (some blind)) "g" 5 (some broken) (one_dag held_task) held_task
      (goal_in GoalStates.running) (world_with held_task) held-Holds refl cheap (some blind)
      held-IsSound
