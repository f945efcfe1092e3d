-- ===== src/Worker/Idle.antt =====
-- `idle` of internal/worker/worker.go: what it means that no task is claimable.
use heros_agent.Base.{
  ℕ, suc, ◌==◌, ltb, Bool, true, false, ◌||◌, ◌&&◌, Option, none, some, List, [], ◌∷◌, ◌++◌, String,
  str_eq, values, length, if◌then◌else◌,
}
use heros_agent.Base.Int64.{ℤ, pos}
use heros_agent.Base.Text.{Text, verbatim, count}
use heros_agent.Errors.{ok, err}
use heros_agent.Bounds.Causes.{RefusalCause, ceiling_exceeded, plan_exhausted, plan_stalled}
use heros_agent.Task.{Task}
use heros_agent.Task.States as TaskStates
use heros_agent.Task.States.{State, same_state}
use heros_agent.Dag.{Dag, progress, stalled}
use heros_agent.Dag.Build.{new_dag}
use heros_agent.Goal.{
  Goal, CriterionKind, all_tasks_succeeded, proposals_accepted, eval_cases_generated,
  comparison_drawn, changes_delivered, axes_assessed, evaluate_completion,
}
use heros_agent.Goal.States as GoalStates
use heros_agent.Store.{load_dag, save_dag}
use heros_agent.Worker.{
  Worker, World, Answer, outcome, stopped, stopped_by, calling, saving, record_episode, decision,
  nothing, replan, blocked_on_approval, complete, stall,
}

unfoldable pub count_state : State → List Task → ℕ
count_state s [] = 0
count_state s (t ∷ ts) = if same_state t.state s then suc (count_state s ts) else count_state s ts

-- The kind of criterion that a succeeded task of a kind counts for.
unfoldable pub counts_for : String → Option CriterionKind
counts_for kind =
    if str_eq kind "assess_axis"
    then some axes_assessed
    else if str_eq kind "publish_eval_set"
    then some eval_cases_generated
    else if str_eq kind "compare_results"
    then some comparison_drawn
    else if str_eq kind "open_pull_request"
        || str_eq kind "write_source"
        || str_eq kind "deliver_change"
    then some changes_delivered
    else none

abbrev same_kind : CriterionKind → CriterionKind → Bool
same_kind all_tasks_succeeded all_tasks_succeeded = true
same_kind proposals_accepted proposals_accepted = true
same_kind eval_cases_generated eval_cases_generated = true
same_kind comparison_drawn comparison_drawn = true
same_kind changes_delivered changes_delivered = true
same_kind axes_assessed axes_assessed = true
same_kind _ _ = false

abbrev pub counts_as : CriterionKind → Task → Bool
counts_as k t = elim (counts_for t.kind) [ none ↦ false | some k' ↦ same_kind k' k ]

-- How many succeeded tasks count for a kind of criterion.
unfoldable pub count_kind : CriterionKind → List Task → ℕ
unfolding counts_for
count_kind k [] = 0
count_kind k (t ∷ ts) =
    if same_state t.state TaskStates.succeeded && counts_as k t
    then suc (count_kind k ts)
    else count_kind k ts

-- The map `observed`, with 0 for a kind that is not in it.
unfoldable pub observed : Dag → CriterionKind → ℤ
unfolding count_kind count_state progress
observed d all_tasks_succeeded =
    let total = (progress d).1 in
    if ltb 0 total && count_state TaskStates.succeeded (values d.tasks) == total
    then pos 1
    else pos 0
observed d k = pos (count_kind k (values d.tasks))

module _ (wk : Worker) (goal_id : String) (now : ℕ) where
  abbrev pub failing : Goal → RefusalCause → Text → Goal
  failing g cause detail = record g {
    state = GoalStates.failed;
    refusal = some (record { cause = cause; detail = detail });
    updated_at = now;
  }

  fractions : ℕ → ℕ → Text → Text
  fractions done total rest = count done ∷ verbatim "/" ∷ count total ∷ rest

  grown_detail : ℕ → String → Text
  grown_detail added words = count added ∷ verbatim words ∷ []

  -- The added tasks are saved with the old ones as a new graph.
  unfoldable pub grow : Goal → Dag → List Task → World → Answer
  unfolding grown_detail
  grow g d added w =
      let w1 =
        record_episode wk g.tenant goal_id "" decision (verbatim "the plan grew" ∷ [])
          (grown_detail (length added) " task(s) added from what the run found") now w in
      elim (new_dag goal_id (values d.tasks ++ added)) [
        | err e ↦ stopped_by e w1
        | ok grown ↦ calling (save_dag grown w1.store) w1 stopped_by (λ _ w2. (
          w2,
          outcome replan ""
              (grown_detail (length added) " task(s) added from what the run has found so far")
              true,
          none,
        ))
      ]

  because : Text → Text
  because [] = []
  because (p ∷ ps) = verbatim "; " ∷ p ∷ ps

  -- The goal is failed: its plan is exhausted, or what remains of it can never run.
  unfoldable pub conclude : Goal → Dag → Bool → World → Answer
  unfolding fractions because
  conclude g d exhausted w =
      let (done, total) = progress d in
      let cause = if exhausted then plan_exhausted else plan_stalled in
      let detail =
        fractions done total (
          if exhausted
          then verbatim " tasks terminal, "
            ∷ count (count_state TaskStates.succeeded (values d.tasks))
            ∷ verbatim " succeeded; completion criteria not met"
            ∷ []
          else verbatim " tasks terminal, none of the remainder can run" ∷ [])
        ++ because (wk.commonest_failure d) in
      saving (failing g cause detail) w (λ w1. (w1, outcome stall "" detail false, none))

  -- Completed, stalled or exhausted, or busy elsewhere. Stalled's panic is the error of the cycle.
  unfoldable pub judge : Goal → Dag → World → Answer
  unfolding fractions
  judge g d w =
      let (g', met) = evaluate_completion g (observed d) now in
      let (done, total) = progress d in
      let exhausted = ltb 0 total && done == total in
      if met
      then saving (record g' { state = GoalStates.succeeded; updated_at = now }) w
          (λ w1. (
            w1,
            outcome complete ""
                (fractions (count_state TaskStates.succeeded (values d.tasks)) total
                  (verbatim " tasks succeeded" ∷ []))
                false,
            none,
          ))
      else (elim (stalled d) [
        | err e ↦ stopped_by e w
        | ok stuck ↦
            if stuck || exhausted
            then conclude g' d exhausted w
            else (w, outcome nothing "" (verbatim "no claimable task right now" ∷ []) true, none)
      ])

  -- A goal that waits for a person is neither finished nor stalled.
  unfoldable pub settle_idle : Goal → Dag → World → Answer
  unfolding fractions
  settle_idle g d w =
      let waiting = count_state TaskStates.awaiting_approval (values d.tasks) in
      let (done, total) = progress d in
      if ltb 0 waiting
      then (
        w,
        outcome blocked_on_approval ""
            (count waiting
              ∷ verbatim " task(s) waiting for a person; "
              ∷ fractions done total (verbatim " done" ∷ []))
            false,
        none,
      )
      else judge g d w

  -- The reviser, if there is one, comes first.
  unfoldable pub revise : Goal → Dag → World → Answer
  revise g d w = elim wk.reviser [
    | none ↦ settle_idle g d w
    | some reviser ↦ elim (reviser g d now) [
      | err e ↦
          saving (failing g ceiling_exceeded e.message) w
            (stopped (verbatim "replanning refused: " ∷ e.message))
      | ok [] ↦ settle_idle g d w
      | ok (t ∷ ts) ↦ grow g d (t ∷ ts) w
    ]
  ]

  unfoldable pub idle : Goal → World → Answer
  unfolding revise settle_idle judge conclude grow
  idle g w =
      calling (load_dag goal_id w.store) w (λ e w1. (w1, outcome nothing "" [] true, none))
        (λ d w1. revise g d w1)
