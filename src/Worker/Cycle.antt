-- ===== src/Worker/Cycle.antt =====
-- RunOnce of internal/worker/worker.go: observe, claim, gate, execute, persist.
use heros_agent.Base.{
  ℕ, true, false, ◌&&◌, not, Option, none, some, List, [], ◌∷◌, ◌++◌, String, Map, lookup, insert,
  if◌then◌else◌,
}
use heros_agent.Base.Int64.{pos, add64, leb_ℤ}
use heros_agent.Base.Text.{Text, verbatim, int, as_text}
use heros_agent.Errors.{
  Error, Result, ok, err, ◌>>=◌, is_no_work, is_lease_lost, is_verify_inconclusive,
}
use heros_agent.Bounds.{ceiling_name}
use heros_agent.Task.{Task, require_idempotency, effect_bearing_kind}
use heros_agent.Task.States as TaskStates
use heros_agent.Task.States.{same_state}
use heros_agent.Goal.{Goal, claimable, check_ceilings_reached}
use heros_agent.Goal.States as GoalStates
use heros_agent.Store.{Memory, load_goal, load_dag}
use heros_agent.Store.Leases.{claim, complete, release}
use heros_agent.Store.Persons.{checkpoint}
use heros_agent.Worker.{
  Worker, World, Answer, Call, ToolResult, invoked, outcome, stopped, stopped_by, calling, saving,
  record_episode, decision, effect, observation, failure, work, retry, stop, await_approval,
}
use heros_agent.Worker.Idle.{idle}

-- The results of the dependencies that succeeded, by their ids.
unfoldable pub gather : Map Task → List String → Map (List ℕ) → Map (List ℕ)
gather tasks [] out = out
gather tasks (dep ∷ deps) out = gather tasks deps (elim (lookup dep tasks) [
  | none ↦ out
  | some dt ↦ if same_state dt.state TaskStates.succeeded then insert dep dt.result out else out
])

unfoldable pub dependency_results : String → Task → Memory → Memory × Result (Map (List ℕ))
unfolding gather load_dag
dependency_results goal_id t m = elim (t.depends_on ++ t.contributes) [
  | [] ↦ (m, ok [])
  | e ∷ es ↦
      let (m', loaded) = load_dag goal_id m in (m', loaded >>= λ d. ok (gather d.tasks (e ∷ es) []))
]

unfoldable pub call_for : String → Task → Map (List ℕ) → Call
call_for goal_id t inputs = record {
  task_id = t.id;
  goal_id = goal_id;
  kind = t.kind;
  idempotency_key = t.idempotency_key;
  input = t.result;
  inputs = inputs;
  attempt = t.attempt;
}

-- What a call has cost, whether it succeeded or failed.
unfoldable pub charge : Goal → ToolResult → Goal
charge g res = record g {
  spend = record g.spend {
    iterations = add64 g.spend.iterations (pos 1);
    tool_calls = add64 g.spend.tool_calls res.tool_calls;
    tokens = add64 g.spend.tokens res.tokens;
    cost_micro_cents = add64 g.spend.cost_micro_cents res.cost_micro_cents;
  };
}

abbrev then_says : Task → String → Text
then_says t words = as_text t.id ++ verbatim words ∷ []

-- `ctx_error` is ctx.Err() after the tool has returned.
module _ (wk : Worker) (goal_id : String) (now : ℕ) (ctx_error : Option Error) where
  unfoldable pub fail : Task → Goal → Text → World → Answer
  fail t g why w =
      let w1 = record_episode wk g.tenant goal_id t.id failure (then_says t " failed") why now w in
      calling (complete goal_id t.id wk.id TaskStates.failed [] why now w1.store) w1
        (λ e w2. (w2, outcome stop t.id [] false, some e))
        (λ _ w2. (w2, outcome work t.id why true, none))

  unfoldable pub handle_failure : Task → Goal → Error → World → Answer
  handle_failure t g failed w =
      if is_verify_inconclusive failed.sentinel
      then fail t g
          (verbatim "effect could not be confirmed and must not be retried blindly: "
            ∷ failed.message)
          w
      else if leb_ℤ g.ceilings.max_attempts_per_task t.attempt
      then fail t g (int t.attempt ∷ verbatim " attempts exhausted: " ∷ failed.message) w
      else calling (release goal_id t.id wk.id now w.store) w
          (λ e w1. (w1, outcome stop t.id [] false, some e))
          (λ _ w1. (
            w1,
            outcome retry t.id
                (verbatim "attempt "
                  ∷ int t.attempt
                  ∷ verbatim "/"
                  ∷ int g.ceilings.max_attempts_per_task
                  ∷ verbatim " failed: "
                  ∷ failed.message)
                true,
            none,
          ))

  unfoldable pub persist : Task → Goal → ToolResult → World → Answer
  persist t g res w =
      let w1 =
        record_episode wk g.tenant goal_id t.id observation (then_says t " succeeded")
          (int res.tokens
            ∷ verbatim " tokens, "
            ∷ int res.cost_micro_cents
            ∷ verbatim " micro-cents"
            ∷ [])
          now w in
      calling (complete goal_id t.id wk.id TaskStates.succeeded res.output [] now w1.store) w1
        (λ e w2. (w2, outcome stop t.id [] false, some e))
        (λ _ w2.
          calling
            (checkpoint
              (record {
                goal_id = goal_id;
                iteration = g.spend.iterations;
                spend = none;
                note = then_says t " succeeded";
                at = now;
              })
              w2.store)
            w2 (λ e w3. (w3, outcome stop t.id [] false, some e))
            (λ _ w3. (w3, outcome work t.id [] true, none)))

  -- A cycle whose context was cancelled gives the lease back.
  unfoldable pub hand_back : Task → Error → World → Answer
  hand_back t why w =
      let cancelled : World → Answer =
        λ w1. (w1, outcome retry t.id (verbatim "cancelled; lease released" ∷ []) true, some why) in
      calling (release goal_id t.id wk.id now w.store) w
        (λ e w1.
          if is_lease_lost e.sentinel
          then cancelled w1
          else (w1, outcome stop t.id [] false, some e))
        (λ _ w1. cancelled w1)

  unfoldable pub after_call : Task → Goal → ToolResult → Option Error → World → Answer
  after_call t g res failed w = elim ctx_error [
    | some why ↦ hand_back t why w
    | none ↦ elim failed [ some e ↦ handle_failure t g e w | none ↦ persist t g res w ]
  ]

  unfoldable pub invoke_tool : Task → Goal → Map (List ℕ) → World → Answer
  invoke_tool t g inputs w =
      let call = call_for goal_id t inputs in
      let (m, res, failed) = wk.invoke call w.store in
      saving (charge g res) (record { store = m; log = invoked call ∷ w.log })
        (after_call t (charge g res) res failed)

  unfoldable pub execute : Task → Goal → World → Answer
  execute t g w =
      calling (dependency_results goal_id t w.store) w
        (λ e w1. (w1, outcome stop t.id [] false, some e)) (λ inputs w1. invoke_tool t g inputs w1)

  unfoldable pub await : Task → Goal → Text → World → Answer
  await t g why w =
      let w1 =
        record_episode wk g.tenant goal_id t.id decision (then_says t " parked for approval") why
          now w in
      calling (complete goal_id t.id wk.id TaskStates.awaiting_approval [] why now w1.store) w1
        stopped_by (λ _ w2. (w2, outcome await_approval t.id why true, none))

  -- An effect that goes ahead though nobody was asked about it is recorded as such.
  unfoldable pub note_unasked : Task → Goal → World → World
  note_unasked t g w =
      let (need, why) = wk.needs_approval g t in
      if not need && effect_bearing_kind t.kind
      then record_episode wk g.tenant goal_id t.id effect
          (then_says t " proceeded without approval") why now w
      else w

  -- The gate before the effect.
  unfoldable pub gate : Task → Goal → World → Answer
  gate t g w =
      let (need, why) = wk.needs_approval g t in
      if need && not t.approved then await t g why w else execute t g (note_unasked t g w)

  unfoldable pub with_task : Task → Goal → World → Answer
  with_task t g w = elim (require_idempotency t) [
    | err e ↦ fail t g e.message w
    | ok _ ↦ gate t g w
  ]

  unfoldable pub claim_one : Goal → World → Answer
  claim_one g w =
      calling (claim goal_id wk.id wk.lease now w.store) w
        (λ e w1. if is_no_work e.sentinel then idle wk goal_id now g w1 else stopped_by e w1)
        (λ t w1. with_task t g w1)

  -- Ceilings are checked before anything is claimed.
  unfoldable pub under_ceilings : Goal → World → Answer
  under_ceilings g w =
      let (g', hit) = check_ceilings_reached g now in
      elim hit [
        | some which ↦
            saving g' w
              (stopped (verbatim "ceiling reached: " ∷ verbatim (ceiling_name which) ∷ []))
        | none ↦ claim_one g' w
      ]

  unfoldable pub run_once : World → Answer
  run_once w = calling (load_goal goal_id w.store) w stopped_by (λ g w1.
      if not (claimable g)
      then stopped (verbatim "goal is " ∷ verbatim (GoalStates.state_name g.state) ∷ []) w1
      else under_ceilings g w1)
