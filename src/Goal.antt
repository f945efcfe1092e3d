-- ===== src/Goal.antt =====
-- internal/goal/goal.go: the long-running objective, its admission, its completion and its life.
pub mod States
pub mod Admission
pub mod Life
use heros_agent.Base.{
  ℕ, Bool, true, false, not, ◌&&◌, ◌||◌, Option, none, some, List, [], ◌∷◌, String, str_eq,
  if◌then◌else◌,
}
use heros_agent.Base.Int64.{ℤ, leb_ℤ}
use heros_agent.Base.Text.{Text, Piece, verbatim, quoted, as_text}
use heros_agent.Errors.{
  Error, Result, ok, err, ◌>>=◌, ◌>>◌, illegal_state, not_durable, no_criteria,
}
use heros_agent.Bounds.{
  Ceilings, Spend, Refusal, Ceiling, ceiling_name, validate, exceeded, refuse_error,
}
use heros_agent.Bounds.Causes.{
  RefusalCause, no_subject, no_source_revision, unbounded_requested, unknown_axis, ceiling_exceeded,
}
use heros_agent.Intent.{Intent, intent_name, durable, axes}
use States.{
  State, draft, running, paused, failed, refused, cancelled, state_name, same_state, terminal,
}

pub data CriterionKind : Type 0 where
  all_tasks_succeeded proposals_accepted eval_cases_generated comparison_drawn : CriterionKind
  changes_delivered axes_assessed : CriterionKind

pub record Criterion : Type 0 where
  pub kind : CriterionKind
  pub threshold : ℤ
  pub met : Bool
  pub observed : ℤ
  pub measured_at : ℕ

pub record Milestone : Type 0 where
  pub name : String
  pub criterion : Criterion
  pub reached_at : ℕ
  pub task_ids : List String
  pub annotation : String

pub record Subject : Type 0 where
  pub repo_url : String
  pub revision : String
  pub workflow_id : String

pub record Goal : Type 0 where
  pub id : String
  pub tenant : String
  pub intent : Intent
  pub objective : String
  pub subject : Subject
  pub axes : List String
  pub ceilings : Ceilings
  pub spend : Spend
  pub criteria : List Criterion
  pub milestones : List Milestone
  pub state : State
  pub refusal : Option Refusal
  pub expected_duration : ℤ
  pub created_at : ℕ
  pub updated_at : ℕ
  pub last_checkpoint : ℕ

not_a_draft : State → Error
not_a_draft s = record {
  sentinel = illegal_state;
  message =
      verbatim "goal: illegal state transition: "
      ∷ verbatim (state_name s)
      ∷ verbatim " → running (only a draft may be admitted)"
      ∷ [];
}

a_query : Intent → Error
a_query i = record {
  sentinel = not_durable;
  message =
      verbatim "goal: intent is not a durable goal: "
      ∷ quoted (intent_name i)
      ∷ verbatim " is not Tier A; a query does not get a goal record"
      ∷ [];
}

without_criteria : Error
without_criteria = record {
  sentinel = no_criteria;
  message = verbatim "goal: no completion criteria, so nothing can decide when it is done" ∷ [];
}

abbrev pub refuse_with : RefusalCause → Text → Error
refuse_with cause detail = refuse_error (record { cause = cause; detail = detail })

abbrev pub names : List String → String → Bool
names [] a = false
names (b ∷ bs) a = str_eq b a || names bs a

-- The first axis of the goal that is not one of the nine.
check_axes : List String → List String → Result (Unit {0})
check_axes valid [] = ok tt
check_axes valid (a ∷ rest) =
    let later = check_axes valid rest in
    if names valid a then later else err (refuse_with unknown_axis (as_text a))

-- Ceilings.Validate's error becomes a refusal.
check_ceilings : Ceilings → Result (Unit {0})
check_ceilings c = elim (validate c) [
  | ok _ ↦ ok tt
  | err e ↦ err (refuse_with unbounded_requested e.message)
]

check_criteria : List Criterion → Result (Unit {0})
unfolding without_criteria
check_criteria [] = err without_criteria
check_criteria (c ∷ cs) = ok tt

-- An early return with the error, unless the condition holds.
abbrev guard : Bool → Error → Result (Unit {0})
guard condition failure = if condition then ok tt else err failure

-- The checks of Admit, in its order.
check_admission : Goal → Result (Unit {0})
unfolding not_a_draft a_query check_ceilings check_axes check_criteria
check_admission g = do
  guard (same_state g.state draft) (not_a_draft g.state)
  guard (durable g.intent) (a_query g.intent)
  guard (not (str_eq g.subject.repo_url "")) (refuse_with no_subject [])
  guard (not (str_eq g.subject.revision ""))
      (refuse_with no_source_revision (as_text g.subject.repo_url))
  check_ceilings g.ceilings
  check_axes axes g.axes
  check_criteria g.criteria

unfoldable pub admit : Goal → ℕ → Result Goal
unfolding check_admission
admit g now = do check_admission g; ok (record g { state = running; updated_at = now })

unfoldable pub refuse : Goal → Refusal → ℕ → Goal
refuse g r now = record g { state = refused; refusal = some r; updated_at = now }

-- The body of the loop: what a criterion is after it was measured.
unfoldable pub measure : (CriterionKind → ℤ) → ℕ → Criterion → Criterion
measure observed now c = record c {
  observed = observed c.kind;
  met = leb_ℤ c.threshold (observed c.kind);
  measured_at = now;
}

-- The loop over the criteria, with `all` so far.
unfoldable pub measure_all : (CriterionKind → ℤ) → ℕ → List Criterion → Bool → List Criterion × Bool
unfolding measure
measure_all observed now [] all = ([], all)
measure_all observed now (c ∷ cs) all =
    let c' = measure observed now c in
    let (cs', all') = measure_all observed now cs (if not c'.met then false else all) in
    (c' ∷ cs', all')

unfoldable pub evaluate_completion : Goal → (CriterionKind → ℤ) → ℕ → Goal × Bool
unfolding measure_all
evaluate_completion g observed now =
    let (cs, all) = measure_all observed now g.criteria true in (record g { criteria = cs }, all)

only : String → State → Error
only rule s = record {
  sentinel = illegal_state;
  message =
      verbatim "goal: illegal state transition: " ∷ verbatim rule ∷ verbatim (state_name s) ∷ [];
}

unfoldable pub pause : Goal → ℕ → Result Goal
unfolding only
pause g now =
    if same_state g.state running
    then ok (record g { state = paused; updated_at = now })
    else err (only "only a running goal can pause, this is " g.state)

unfoldable pub resume : Goal → ℕ → Result Goal
unfolding only
resume g now =
    if same_state g.state paused
    then ok (record g { state = running; updated_at = now })
    else err (only "only a paused goal can resume, this is " g.state)

pub already_over : Goal → Error
already_over g = record {
  sentinel = illegal_state;
  message =
      verbatim "goal: illegal state transition: this run is already "
      ∷ verbatim (state_name g.state)
      ∷ verbatim ", so there is nothing to stop"
      ∷ [];
}

unfoldable pub cancel : Goal → ℕ → Result Goal
cancel g now =
    if terminal g.state
    then err (already_over g)
    else ok (record g { state = cancelled; updated_at = now })

unfoldable pub claimable : Goal → Bool
claimable g = same_state g.state running

-- The goal after the check, and the ceiling that was reached.
unfoldable pub check_ceilings_reached : Goal → ℕ → Goal × Option Ceiling
check_ceilings_reached g now = elim (exceeded g.spend g.ceilings) [
  | none ↦ (g, none)
  | some which ↦ (
    record g {
      state = failed;
      refusal =
          some (record { cause = ceiling_exceeded; detail = verbatim (ceiling_name which) ∷ [] });
      updated_at = now;
    },
    some which,
  )
]
