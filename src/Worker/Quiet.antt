-- ===== src/Worker/Quiet.antt =====
-- Which parts of a cycle (internal/worker/worker.go) call a tool.
use heros_agent.Base.{
  ℕ, ◌≡◌, refl, ◌∙◌, Bool, true, ◌&&◌, Option, none, List, [], ◌∷◌, ltb, ◌==◌, values, String,
  arith, inl, inr, Bool-cases, Option-cases, if◌then◌else◌, Map,
}
use heros_agent.Base.Text.{Text, verbatim, int}
use heros_agent.Errors.{Error, Result, ok, err, is_goal_terminal}
use heros_agent.Bounds.Causes.{ceiling_exceeded}
use heros_agent.Task.{Task}
use heros_agent.Task.States.{awaiting_approval}
use heros_agent.Dag.{Dag, progress}
use heros_agent.Goal.{Goal, evaluate_completion}
use heros_agent.Store.{Memory, load_dag, save_goal}
use heros_agent.Worker.{
  Worker, World, Answer, Call, ToolResult, Event, invoked, episode, saving, calling, outcome,
  nothing, stopped_elsewhere, record_episode, stopped_by, stopped,
}
use heros_agent.Worker.Idle.{
  count_state, observed, failing, idle, revise, settle_idle, judge, conclude, grow,
}
use heros_agent.Worker.Cycle.{
  fail, handle_failure, persist, hand_back, after_call, invoke_tool, await, call_for, charge,
}

-- The calls of tools in a log, the last first.
unfoldable pub calls : List Event → List Call
calls [] = []
calls (invoked c ∷ events) = c ∷ calls events
calls (episode tenant goal_id task_id kind summary detail at ∷ events) = calls events

pub calls-invoked : (c : Call) (events : List Event) → calls (invoked c ∷ events) ≡ c ∷ calls events
unfolding calls
calls-invoked c events = refl

-- What holds of a store call's answer on its error and on its result, holds of it.
pub calling-cases :
    {A : Type 0} (P : Answer → Type 0) (r : Memory × Result A) (w : World)
    (failed : Error → World → Answer) (go : A → World → Answer)
    → ((e : Error) (m : Memory) → r ≡ (m, err e) → P (failed e (record w { store = m })))
    → ((a : A) (m : Memory) → r ≡ (m, ok a) → P (go a (record w { store = m })))
    → P (calling r w failed go)
calling-cases P (m, err e) w failed go on_failed on_go = on_failed e m refl
calling-cases P (m, ok a) w failed go on_failed on_go = on_go a m refl

-- The answer has called the tools `cs`, in all.
abbrev pub HasCalled : List Call → Answer → Type 0
HasCalled cs a = calls a.0.log ≡ cs

pub saving-HasCalled :
    (g : Goal) (w : World) (go : World → Answer) (cs : List Call)
    → calls w.log ≡ cs
    → ((m : Memory) → HasCalled cs (go (record w { store = m })))
    → HasCalled cs (saving g w go)
unfolding saving
saving-HasCalled g w go cs quiet on_go =
    calling-cases (HasCalled cs) (save_goal g w.store) w
      (λ e w'.
        if is_goal_terminal e.sentinel then stopped stopped_elsewhere w' else stopped_by e w')
      (λ _ w'. go w')
      (λ e m at. elim (Bool-cases (is_goal_terminal e.sentinel)) [
        | inl ended ↦ rw ended quiet
        | inr other ↦ rw other quiet
      ])
      (λ _ m at. on_go m)

module _ (wk : Worker) (goal_id : String) (now : ℕ) (ctx_error : Option Error) where
  pub fail-HasCalled :
      (t : Task) (g : Goal) (why : Text) (w : World)
      → HasCalled (calls w.log) (fail wk goal_id now ctx_error t g why w)
  unfolding fail calls record_episode
  fail-HasCalled t g why w = ground arith

  hand_back-HasCalled :
      (t : Task) (why : Error) (w : World)
      → HasCalled (calls w.log) (hand_back wk goal_id now ctx_error t why w)
  unfolding hand_back
  hand_back-HasCalled t why w = ground arith

  handle_failure-HasCalled :
      (t : Task) (g : Goal) (e : Error) (w : World)
      → HasCalled (calls w.log) (handle_failure wk goal_id now ctx_error t g e w)
  unfolding handle_failure
  handle_failure-HasCalled t g e w = ground (
    arith,
    fail-HasCalled t g
        (verbatim "effect could not be confirmed and must not be retried blindly: " ∷ e.message) w,
    fail-HasCalled t g (int t.attempt ∷ verbatim " attempts exhausted: " ∷ e.message) w,
  )

  persist-HasCalled :
      (t : Task) (g : Goal) (res : ToolResult) (w : World)
      → HasCalled (calls w.log) (persist wk goal_id now ctx_error t g res w)
  unfolding persist calls record_episode
  persist-HasCalled t g res w = ground arith

  pub await-HasCalled :
      (t : Task) (g : Goal) (why : Text) (w : World)
      → HasCalled (calls w.log) (await wk goal_id now ctx_error t g why w)
  unfolding await calls record_episode
  await-HasCalled t g why w = ground arith

  pub after_call-HasCalled :
      (t : Task) (g : Goal) (res : ToolResult) (failed : Option Error) (w : World)
      → HasCalled (calls w.log) (after_call wk goal_id now ctx_error t g res failed w)
  unfolding after_call persist handle_failure fail hand_back
  after_call-HasCalled t g res failed w = elim (Option-cases ctx_error) [
    | inr (why, e) ↦ rw e (hand_back-HasCalled t why w)
    | inl e ↦ rw e (elim (Option-cases failed) [
      | inr (f, e') ↦ rw e' (handle_failure-HasCalled t g f w)
      | inl e' ↦ rw e' (persist-HasCalled t g res w)
    ])
  ]

  pub invoke_tool-HasCalled :
      (t : Task) (g : Goal) (inputs : Map (List ℕ)) (w : World)
      → HasCalled
          (call_for goal_id t inputs ∷ calls w.log)
          (invoke_tool wk goal_id now ctx_error t g inputs w)
  unfolding invoke_tool
  invoke_tool-HasCalled t g inputs w =
      let call = call_for goal_id t inputs in
      let (m, res, failed) = wk.invoke call w.store in
      let w1 : World = record { store = m; log = invoked call ∷ w.log } in
      saving-HasCalled (charge g res) w1
        (after_call wk goal_id now ctx_error t (charge g res) res failed) (call ∷ calls w.log)
        (calls-invoked call w.log)
        (λ m'.
          after_call-HasCalled t (charge g res) res failed (record w1 { store = m' })
          ∙ calls-invoked call w.log)

  conclude-HasCalled :
      (g : Goal) (d : Dag) (exhausted : Bool) (w : World)
      → HasCalled (calls w.log) (conclude wk goal_id now g d exhausted w)
  unfolding conclude saving
  conclude-HasCalled g d exhausted w = ground arith

  judge-HasCalled :
      (g : Goal) (d : Dag) (w : World) → HasCalled (calls w.log) (judge wk goal_id now g d w)
  unfolding judge saving
  judge-HasCalled g d w =
      let exhausted = ltb 0 (progress d).1 && (progress d).0 == (progress d).1 in
      ground (arith, conclude-HasCalled (evaluate_completion g (observed d) now).0 d exhausted w)

  settle_idle-HasCalled :
      (g : Goal) (d : Dag) (w : World) → HasCalled (calls w.log) (settle_idle wk goal_id now g d w)
  unfolding settle_idle
  settle_idle-HasCalled g d w =
      elim (Bool-cases (ltb 0 (count_state awaiting_approval (values d.tasks)))) [
        | inl e ↦ rw e refl
        | inr e ↦ rw e (judge-HasCalled g d w)
      ]

  pub grow-HasCalled :
      (g : Goal) (d : Dag) (added : List Task) (w : World)
      → HasCalled (calls w.log) (grow wk goal_id now g d added w)
  unfolding grow record_episode calls
  grow-HasCalled g d added w = ground arith

  revise-HasCalled :
      (g : Goal) (d : Dag) (w : World) → HasCalled (calls w.log) (revise wk goal_id now g d w)
  unfolding revise settle_idle judge conclude grow record_episode
  revise-HasCalled g d w = elim (Option-cases wk.reviser) [
    | inl e ↦ rw e (settle_idle-HasCalled g d w)
    | inr (reviser, e) ↦ rw e (answered (reviser g d now))
  ]
    where
      answered :
          (r : Result (List Task))
          → HasCalled (calls w.log) (elim r [
            | err e ↦
                saving
                  (failing wk goal_id now g ceiling_exceeded e.message)
                  w
                  (stopped (verbatim "replanning refused: " ∷ e.message))
            | ok [] ↦ settle_idle wk goal_id now g d w
            | ok (t ∷ ts) ↦ grow wk goal_id now g d (t ∷ ts) w
          ])
      answered (err e) =
          saving-HasCalled (failing wk goal_id now g ceiling_exceeded e.message) w
            (stopped (verbatim "replanning refused: " ∷ e.message)) (calls w.log) refl (λ m. refl)
      answered (ok []) = settle_idle-HasCalled g d w
      answered (ok (t ∷ ts)) = grow-HasCalled g d (t ∷ ts) w

  pub idle-HasCalled : (g : Goal) (w : World) → HasCalled (calls w.log) (idle wk goal_id now g w)
  unfolding idle
  idle-HasCalled g w =
      calling-cases (HasCalled (calls w.log)) (load_dag goal_id w.store) w
        (λ e w1. (w1, outcome nothing "" [] true, none)) (λ d w1. revise wk goal_id now g d w1)
        (λ e m at. refl) (λ d m at. revise-HasCalled g d (record w { store = m }))
