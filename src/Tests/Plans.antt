-- ===== src/Tests/Plans.antt =====
-- The default planners on a goal, and a round of replanning.
use heros_agent.Base.{
  ◌≡◌, refl, true, none, some, List, [], ◌∷◌, ◌++◌, String, length, lookup, arith, ℕ, subst, sym,
  str_eq, eq_iff, inl, inr, ◌≢◌, zero,
}
use mathlib.Core.List.{Memᴰ}
use mathlib.Core.List.Memᴰ
use heros_agent.Base.Int64.{pos}
use heros_agent.Errors.{ok}
use heros_agent.Intent.{improve}
use heros_agent.Task.{Task}
use heros_agent.Task.States.{succeeded}
use heros_agent.Dag.{Dag}
use heros_agent.Dag.Closed.{Has}
use heros_agent.Dag.Ranked.{Distinct}
use heros_agent.Dag.Valid.{IsBuilt}
use heros_agent.Goal.{Goal}
use heros_agent.Goal.States as GoalStates
use heros_agent.Planner.{Registry, build, revise, planner_for}
use heros_agent.Planner.Plans.{
  Finding, default_registry, planner_improve, axes_of, chain, new_task, assess_axis,
  succeeded_of_kind, propose_change, verify_proposal, open_pull_request, key_for,
}
use heros_agent.Planner.Buildable.{plan_for, default_registry-builds}
use heros_agent.Planner.Converges.{revise_converges}
use heros_agent.Tests.Stores.{goal_in}

-- Two axes were asked for.
abbrev narrow : Goal
narrow = record (goal_in GoalStates.running) {
  axes = "tools" ∷ "memory" ∷ [];
  intent = improve;
  ceilings = record ((goal_in GoalStates.running).ceilings) { max_spawn_depth = pos 3 };
}

-- Every result is one finding that can be acted on.
abbrev one_finding : List ℕ → List Finding
one_finding bytes = record { axis = "tools"; weakness = "too many"; actionable = true } ∷ []

different : ◌≢◌ {A = String} "tools" "memory"
different e =
    let same : str_eq "tools" "memory" ≡ true = (eq_iff "tools" "memory").1 e in
    absurd (ground arith)

narrow-Distinct : Distinct (axes_of narrow)
narrow-Distinct = (
  λ m. elim (Memᴰ.cases_cons m) [ inl e ↦ different e | inr nowhere ↦ elim nowhere [ ] ],
  ((λ nowhere. elim nowhere [ ]), tt),
)

default_registry-builds_example :
    (r : Registry) × (default_registry one_finding ≡ ok r)
    × (d : Dag) × (build r narrow 7 ≡ ok d)
    × IsBuilt narrow.id (plan_for narrow.intent narrow 7) d
unfolding heros_agent.Planner.Plans.plan_assess heros_agent.Intent.durable
default_registry-builds_example =
    default_registry-builds one_finding narrow 7 refl narrow-Distinct (omega arith)

-- The one axis has been assessed, with a finding.
abbrev assessed : Task
assessed = record (new_task narrow "assess-tools" assess_axis (pos 0) 1 []) {
  state = succeeded;
  result = 1 ∷ [];
}

abbrev before : Dag
before = record { goal_id = "g"; tasks = ("assess-tools", assessed) ∷ [] }

abbrev propose : Task
propose = new_task narrow "propose-tools-0" propose_change (pos 1) 7 ("assess-tools" ∷ [])

abbrev verify : Task
verify = new_task narrow "verify-tools-0" verify_proposal (pos 2) 7 ("propose-tools-0" ∷ [])

abbrev request : Task
request =
    record (new_task narrow "pr-tools-0" open_pull_request (pos 3) 7 ("verify-tools-0" ∷ [])) {
      idempotency_key = key_for narrow "tools-0";
    }

abbrev proposals : List Task
proposals = propose ∷ verify ∷ request ∷ []

abbrev wired : Registry
wired = planner_improve one_finding ∷ []

abbrev after : Dag
after = record {
  goal_id = "g";
  tasks =
      ("assess-tools", assessed)
      ∷ ("propose-tools-0", propose)
      ∷ ("verify-tools-0", verify)
      ∷ ("pr-tools-0", request)
      ∷ [];
}

added_all : revise wired narrow before 7 ≡ ok proposals
unfolding revise planner_for heros_agent.Intent.Intent-discrete heros_agent.Planner.revise_from
    heros_agent.Planner.Plans.replan_improve heros_agent.Planner.Plans.propose_all
    heros_agent.Planner.Plans.succeeded_of_kind heros_agent.Planner.Plans.chains
    heros_agent.Planner.Plans.decode_findings chain lookup heros_agent.Base.Decimal.decimal
    heros_agent.Task.require_idempotency heros_agent.Task.effect_bearing_kind
added_all = refl

chosen : planner_for wired narrow.intent ≡ some (planner_improve one_finding)
unfolding planner_for heros_agent.Intent.Intent-discrete
chosen = refl

kept : (id : String) → Has before.tasks id → Has after.tasks id
unfolding lookup
kept id (t, at) = (assessed, ground arith)

taken : (t : Task) → Memᴰ t proposals → Has after.tasks t.id
unfolding lookup
taken t m = elim (Memᴰ.cases_cons m) [
  | inl e ↦ subst (λ (x : Task). Has after.tasks x.id) (sym e) (propose, refl)
  | inr m1 ↦ elim (Memᴰ.cases_cons m1) [
    | inl e ↦ subst (λ (x : Task). Has after.tasks x.id) (sym e) (verify, refl)
    | inr m2 ↦ elim (Memᴰ.cases_cons m2) [
      | inl e ↦ subst (λ (x : Task). Has after.tasks x.id) (sym e) (request, refl)
      | inr m3 ↦ elim m3 [ ]
    ]
  ]
]

same_results : succeeded_of_kind after assess_axis ≡ succeeded_of_kind before assess_axis
unfolding succeeded_of_kind
same_results = refl

revise_converges_example : revise wired narrow after 9 ≡ ok []
revise_converges_example =
    revise_converges one_finding wired narrow before after 7 9 proposals chosen added_all kept taken
      same_results
