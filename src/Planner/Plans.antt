-- ===== src/Planner/Plans.antt =====
-- internal/planner/plans.go: the four planners, and the helpers of internal/planner/planner.go that
-- they share. The JSON decoder is a parameter: decodeFindings takes whatever it made of the result.
use heros_agent.Base.{
  ℕ, zero, suc, Bool, false, not, ◌&&◌, List, [], ◌∷◌, ◌++◌, String, str_eq, values, sort_by,
  if◌then◌else◌,
}
use heros_agent.Base.Decimal.{◌<+>◌, decimal}
use heros_agent.Base.Int64.{ℤ, pos}
use heros_agent.Errors.{Result, ok}
use heros_agent.Intent.{assess, improve, evalset, compare, axes}
use heros_agent.Task.{Task}
use heros_agent.Task.States.{pending, succeeded, same_state}
use heros_agent.Dag.{Dag}
use heros_agent.Goal.{Goal}
use heros_agent.Planner.{Planner, Registry, new_registry}

abbrev pub assess_axis : String
assess_axis = "assess_axis"

abbrev pub synthesise : String
synthesise = "synthesise_assessment"

abbrev pub generate_cases : String
generate_cases = "generate_eval_cases"

abbrev pub quality_gate : String
quality_gate = "eval_quality_gate"

abbrev pub publish_eval_set : String
publish_eval_set = "publish_eval_set"

abbrev pub propose_change : String
propose_change = "propose_change"

abbrev pub verify_proposal : String
verify_proposal = "verify_proposal"

abbrev pub open_pull_request : String
open_pull_request = "open_pull_request"

abbrev pub compare_results : String
compare_results = "compare_results"

abbrev pub new_task : Goal → String → String → ℤ → ℕ → List String → Task
new_task g id kind depth now deps = record {
  id = id;
  goal_id = g.id;
  kind = kind;
  depends_on = deps;
  contributes = [];
  state = pending;
  attempt = pos 0;
  spawn_depth = depth;
  idempotency_key = "";
  approved = false;
  result = [];
  failure = [];
  leased_by = "";
  lease_expiry = 0;
  created_at = now;
  updated_at = now;
}

abbrev pub axes_of : Goal → List String
axes_of g = elim g.axes [ [] ↦ axes | a ∷ rest ↦ a ∷ rest ]

-- The loop over the axes of Assess.Plan and of Compare.Plan: the tasks, and their ids.
abbrev pub axis_id : String → String
axis_id a = "assess-" <+> a

abbrev pub axis_tasks : Goal → ℕ → List String → List Task
axis_tasks g now [] = []
axis_tasks g now (a ∷ rest) =
    new_task g (axis_id a) assess_axis (pos 0) now [] ∷ axis_tasks g now rest

abbrev pub axis_ids : List String → List String
axis_ids [] = []
axis_ids (a ∷ rest) = axis_id a ∷ axis_ids rest

-- The tasks of the axes, and one task that depends on them all.
abbrev pub fan_in : String → String → Goal → ℕ → List Task
fan_in id kind g now =
    axis_tasks g now (axes_of g) ++ new_task g id kind (pos 0) now (axis_ids (axes_of g)) ∷ []

unfoldable pub plan_assess : Goal → ℕ → List Task
plan_assess g now = fan_in "synthesise" synthesise g now

unfoldable pub plan_compare : Goal → ℕ → List Task
plan_compare g now = fan_in "compare" compare_results g now

abbrev pub generators : List String
generators =
    "seed_from_real_traces" ∷ "schema_driven" ∷ "llm_driven" ∷ "adversarial_perturbation" ∷ []

abbrev generator_id : String → String
generator_id gen = "generate-" <+> gen

abbrev pub generator_tasks : Goal → ℕ → List String → List Task
generator_tasks g now [] = []
generator_tasks g now (gen ∷ rest) =
    new_task g (generator_id gen) generate_cases (pos 0) now [] ∷ generator_tasks g now rest

abbrev generator_ids : List String → List String
generator_ids [] = []
generator_ids (gen ∷ rest) = generator_id gen ∷ generator_ids rest

abbrev pub key_for : Goal → String → String
key_for g what = g.id <+> ":" <+> g.subject.revision <+> ":" <+> what

unfoldable pub plan_evalset : Goal → ℕ → List Task
plan_evalset g now =
    let gate = record (new_task g "quality-gate" quality_gate (pos 0) now []) {
      contributes = generator_ids generators;
    } in
    let publish = record (new_task g "publish" publish_eval_set (pos 0) now ("quality-gate" ∷ [])) {
      idempotency_key = key_for g "evalset";
    } in
    generator_tasks g now generators ++ gate ∷ publish ∷ []

-- The result of an axis task, as the planner reads it.
pub record Finding : Type 0 where
  pub axis : String
  pub weakness : String
  pub actionable : Bool

abbrev succeeded_in : String → List Task → List Task
succeeded_in kind [] = []
succeeded_in kind (t ∷ ts) =
    let rest = succeeded_in kind ts in
    if str_eq t.kind kind && same_state t.state succeeded then t ∷ rest else rest

unfoldable pub succeeded_of_kind : Dag → String → List Task
succeeded_of_kind d kind = sort_by (λ (t : Task). t.id) (succeeded_in kind (values d.tasks))

-- The three tasks of one finding.
unfoldable pub chain : Goal → ℕ → String → Finding → ℕ → List Task
chain g now assessed f i =
    let base = f.axis <+> "-" <+> decimal i in
    let propose = new_task g ("propose-" <+> base) propose_change (pos 1) now (assessed ∷ []) in
    let verify = new_task g ("verify-" <+> base) verify_proposal (pos 2) now (propose.id ∷ []) in
    let pr = new_task g ("pr-" <+> base) open_pull_request (pos 3) now (verify.id ∷ []) in
    propose ∷ verify ∷ record pr { idempotency_key = key_for g base } ∷ []

-- The inner loop, from the finding with this number.
unfoldable pub chains : Goal → ℕ → String → List Finding → ℕ → List Task
chains g now assessed [] i = []
chains g now assessed (f ∷ fs) i =
    let rest = chains g now assessed fs (suc i) in
    if not f.actionable then rest else chain g now assessed f i ++ rest

module _ (unmarshal : List ℕ → List Finding) where
  unfoldable pub decode_findings : Task → List Finding
  decode_findings t = elim t.result [ [] ↦ [] | b ∷ bs ↦ unmarshal (b ∷ bs) ]

  -- The outer loop.
  unfoldable pub propose_all : Goal → ℕ → List Task → List Task
  propose_all g now [] = []
  propose_all g now (t ∷ ts) = chains g now t.id (decode_findings t) zero ++ propose_all g now ts

  unfoldable pub replan_improve : Goal → Dag → ℕ → List Task
  replan_improve g d now = propose_all g now (succeeded_of_kind d assess_axis)

  abbrev pub planner_assess : Planner
  planner_assess = record {
    intent = assess;
    plan = λ g now. ok (plan_assess g now);
    replan = λ g d now. ok [];
  }

  abbrev pub planner_improve : Planner
  planner_improve = record {
    intent = improve;
    plan = λ g now. ok (plan_assess g now);
    replan = λ g d now. ok (replan_improve g d now);
  }

  abbrev pub planner_evalset : Planner
  planner_evalset = record {
    intent = evalset;
    plan = λ g now. ok (plan_evalset g now);
    replan = λ g d now. ok [];
  }

  abbrev pub planner_compare : Planner
  planner_compare = record {
    intent = compare;
    plan = λ g now. ok (plan_compare g now);
    replan = λ g d now. ok [];
  }

  unfoldable pub default_registry : Result Registry
  default_registry =
      new_registry (planner_assess ∷ planner_improve ∷ planner_evalset ∷ planner_compare ∷ [])
