-- ===== src/Tests/Registries.antt =====
-- A registry of tools with one tool that opens pull requests, the planners of the durable intents, and
-- an organization that lets its runs work without a person.
use heros_agent.Base.{◌≡◌, refl, true, false, none, some, List, [], ◌∷◌, lookup, insert, ◌⊎◌, ◌↔◌}
use heros_agent.Base.Int64.{pos}
use heros_agent.Errors.{ok}
use heros_agent.Intent as Intents
use heros_agent.Intent.{Intent, durable}
use heros_agent.Autonomy.{needs_approval}
use heros_agent.Autonomy.Closed.{IsPermitted, needs_approval_iff}
use heros_agent.Goal.States as GoalStates
use heros_agent.Task.{Task, effect_bearing_kind, require_idempotency}
use heros_agent.Task.States.{pending}
use heros_agent.Dag.{Dag}
use heros_agent.Dag.Build.{new_dag}
use heros_agent.Tools
use heros_agent.Tools.{Tool, Verifier, register, invoke, write_remote_repo}
use heros_agent.Tools.Verified.{Wired, unwired, registers, IsConfirmed, invoke-IsConfirmed}
use heros_agent.Planner.{Planner, planner_for, new_registry, build, revise}
use heros_agent.Planner.Limits.{IsBounded, revise-IsBounded, IsPlanned, build-IsPlanned}
use heros_agent.Tenancy.{Capability, can, can_grant, owner, admin, member}
use heros_agent.Tenancy.Grants.{can_grant_lem}
use heros_agent.Tests.Samples.{task, two_dag, two_tasks}
use heros_agent.Tests.Stores.{goal_in}
use heros_agent.Tests.Cycles.{cheap, the_call, pull_request}

needs_approval_iff_example :
    ((needs_approval (some (λ tenant. ok "autonomous")) (goal_in GoalStates.running) pull_request).0
      ≡ false)
    ↔ ((effect_bearing_kind "open_pull_request" ≡ false)
        ⊎ IsPermitted (some (λ tenant. ok "autonomous")) (goal_in GoalStates.running) pull_request)
needs_approval_iff_example =
    needs_approval_iff (some (λ tenant. ok "autonomous")) (goal_in GoalStates.running) pull_request

abbrev opens : Tool
opens = record {
  spec = record {
    kind = "open_pull_request";
    permissions = write_remote_repo ∷ [];
    timeout = pos 60;
    retry_safe = false;
    effect_bearing = true;
  };
  execute = λ c. (cheap, none);
}

abbrev confirms : Verifier
confirms = λ c res. (true, [], none)

abbrev tools : Tools.Registry
tools = (register Tools.new_registry opens (some confirms)).0

tools-Wired : Wired tools
tools-Wired = registers opens (some confirms) unwired

invoke_test : invoke tools the_call ≡ (cheap, none)
unfolding invoke lookup register Tools.check_spec Tools.check_new insert Tools.verify_call
invoke_test = refl

invoke-IsConfirmed_example : IsConfirmed tools the_call cheap
invoke-IsConfirmed_example = invoke-IsConfirmed tools the_call cheap tools-Wired invoke_test

-- Every durable intent is planned as the two tasks, and replanned with a third.
abbrev planner : Intent → Planner
planner i = record {
  intent = i;
  plan = λ g now. ok (two_tasks pending);
  replan = λ g d now. ok (task "c" [] pending ∷ []);
}

abbrev planners : List Planner
planners =
    planner Intents.assess
    ∷ planner Intents.improve
    ∷ planner Intents.evalset
    ∷ planner Intents.compare
    ∷ []

abbrev registered : List Planner
registered =
    planner Intents.compare
    ∷ planner Intents.evalset
    ∷ planner Intents.improve
    ∷ planner Intents.assess
    ∷ []

new_registry_test : new_registry planners ≡ ok registered
unfolding new_registry heros_agent.Planner.add_planners durable planner_for
    heros_agent.Planner.missing Intents.in_tier
new_registry_test = refl

build_test : build registered (goal_in GoalStates.draft) 1 ≡ ok (two_dag pending)
unfolding build Intents.Intent-discrete planner_for heros_agent.Planner.check_size
    heros_agent.Planner.all_keyed require_idempotency effect_bearing_kind new_dag
    heros_agent.Dag.Build.fill heros_agent.Dag.Build.all_known heros_agent.Dag.Build.known_deps
    insert lookup heros_agent.Dag.Build.detect_cycle heros_agent.Dag.Build.search_all
    heros_agent.Dag.Build.search_from heros_agent.Dag.Build.search_step
    heros_agent.Dag.Build.search_fuel heros_agent.Dag.Build.push_edges heros_agent.Dag.ids
    heros_agent.Dag.Sort.sort heros_agent.Task.edges
build_test = refl

build-IsPlanned_example :
    (p : Planner) × (planner_for registered Intents.assess ≡ some p)
    × IsPlanned p (goal_in GoalStates.draft) 1 (two_dag pending)
build-IsPlanned_example =
    build-IsPlanned registered (goal_in GoalStates.draft) 1 (two_dag pending) build_test

revise_test :
    revise registered (goal_in GoalStates.running) (two_dag pending) 5
    ≡ ok (task "c" [] pending ∷ [])
unfolding revise Intents.Intent-discrete planner_for heros_agent.Planner.revise_from lookup
    require_idempotency effect_bearing_kind
revise_test = refl

revise-IsBounded_example :
    IsBounded (goal_in GoalStates.running) (two_dag pending) (task "c" [] pending ∷ [])
revise-IsBounded_example =
    revise-IsBounded registered (goal_in GoalStates.running) (two_dag pending) 5
      (task "c" [] pending ∷ []) revise_test

can_grant_lem_example :
    ((c : Capability) → can member c ≡ true → can admin c ≡ true) × (member ≡ owner → admin ≡ owner)
unfolding can_grant heros_agent.Tenancy.can_manage can
can_grant_lem_example = can_grant_lem admin member refl
