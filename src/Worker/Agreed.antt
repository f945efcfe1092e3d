-- ===== src/Worker/Agreed.antt =====
-- internal/worker/worker.go: what a cycle did, and whether it says that there is more.
use heros_agent.Base.{
  ℕ, ◌≡◌, refl, ap, Bool, true, false, not, ◌&&◌, Option, none, some, List, [], ◌∷◌, String, arith,
  inl, inr, Bool-cases, if◌then◌else◌, values, ltb, ◌==◌, Map,
}
use heros_agent.Base.Text.{Text, verbatim}
use heros_agent.Errors.{Error, Result, ok, err, is_no_work, is_goal_terminal}
use heros_agent.Bounds.{ceiling_name, Ceiling}
use heros_agent.Bounds.Causes.{ceiling_exceeded}
use heros_agent.Task.{Task, require_idempotency}
use heros_agent.Task.States.{awaiting_approval}
use heros_agent.Dag.{Dag, progress}
use heros_agent.Goal.{Goal, claimable, evaluate_completion, check_ceilings_reached}
use heros_agent.Goal.States as GoalStates
use heros_agent.Store.{Memory, load_goal, load_dag, save_goal}
use heros_agent.Store.Leases.{claim}
use heros_agent.Worker.{
  Worker, World, Answer, Did, Outcome, ToolResult, nothing, complete, stall, stop,
  blocked_on_approval, saving, outcome, stopped, stopped_by, stopped_elsewhere,
}
use heros_agent.Worker.Idle.{
  count_state, observed, failing, idle, revise, settle_idle, judge, conclude, grow,
}
use heros_agent.Worker.Cycle.{
  fail, handle_failure, persist, hand_back, after_call, invoke_tool, execute, await, gate,
  with_task, claim_one, under_ceilings, run_once, dependency_results, note_unasked,
}
use heros_agent.Worker.Quiet.{calling-cases}

-- The outcomes after which a goal is not worked on for now.
abbrev pub ends : Did → Bool
ends complete = true
ends stall = true
ends stop = true
ends blocked_on_approval = true
ends _ = false

abbrev same_bool : Bool → Bool → Bool
same_bool true b = b
same_bool false b = not b

-- A cycle without an error says that there is more exactly if its outcome is no end.
abbrev pub agrees : Outcome → Option Error → Bool
agrees out none = same_bool (ends out.did) (not out.more)
agrees out (some e) = true

abbrev Agrees : Answer → Type 0
Agrees a = agrees a.1 a.2 ≡ true

saving-Agrees :
    (g : Goal) (w : World) (go : World → Answer)
    → ((m : Memory) → Agrees (go (record w { store = m })))
    → Agrees (saving g w go)
unfolding saving
saving-Agrees g w go on_go =
    calling-cases Agrees (save_goal g w.store) w
      (λ e w'.
        if is_goal_terminal e.sentinel then stopped stopped_elsewhere w' else stopped_by e w')
      (λ _ w'. go w')
      (λ e m at. elim (Bool-cases (is_goal_terminal e.sentinel)) [
        | inl ended ↦ rw ended refl
        | inr other ↦ rw other refl
      ])
      (λ _ m at. on_go m)

pub agreed-more : (out : Outcome) → agrees out none ≡ true → ends out.did ≡ not out.more
agreed-more out h = ground arith

pub nothing_more :
    (out : Outcome) → out.did ≡ nothing → ends out.did ≡ not out.more → out.more ≡ true
nothing_more out idle_did h = let no_end : ends out.did ≡ false = ap ends idle_did in ground arith

module _ (wk : Worker) (goal_id : String) (now : ℕ) (ctx_error : Option Error) where
  fail-Agrees :
      (t : Task) (g : Goal) (why : Text) (w : World)
      → Agrees (fail wk goal_id now ctx_error t g why w)
  unfolding fail
  fail-Agrees t g why w = ground arith

  after_call-Agrees :
      (t : Task) (g : Goal) (res : ToolResult) (failed : Option Error) (w : World)
      → Agrees (after_call wk goal_id now ctx_error t g res failed w)
  unfolding after_call persist handle_failure fail hand_back
  after_call-Agrees t g res failed w = ground arith

  invoke_tool-Agrees :
      (t : Task) (g : Goal) (inputs : Map (List ℕ)) (w : World)
      → Agrees (invoke_tool wk goal_id now ctx_error t g inputs w)
  unfolding invoke_tool
  invoke_tool-Agrees t g inputs w = saving-Agrees _ _ _ (λ m. after_call-Agrees t _ _ _ _)

  execute-Agrees :
      (t : Task) (g : Goal) (w : World) → Agrees (execute wk goal_id now ctx_error t g w)
  unfolding execute
  execute-Agrees t g w =
      calling-cases Agrees (dependency_results goal_id t w.store) w
        (λ e w1. (w1, outcome stop t.id [] false, some e))
        (λ inputs w1. invoke_tool wk goal_id now ctx_error t g inputs w1) (λ e m at. refl)
        (λ inputs m at. invoke_tool-Agrees t g inputs (record w { store = m }))

  await-Agrees :
      (t : Task) (g : Goal) (why : Text) (w : World)
      → Agrees (await wk goal_id now ctx_error t g why w)
  unfolding await
  await-Agrees t g why w = ground arith

  gate-Agrees : (t : Task) (g : Goal) (w : World) → Agrees (gate wk goal_id now ctx_error t g w)
  unfolding gate
  gate-Agrees t g w = ground (
    arith,
    execute-Agrees t g (note_unasked wk goal_id now ctx_error t g w),
    await-Agrees t g (wk.needs_approval g t).1 w,
  )

  with_task-Agrees :
      (t : Task) (g : Goal) (w : World) → Agrees (with_task wk goal_id now ctx_error t g w)
  unfolding with_task
  with_task-Agrees t g w = branch (require_idempotency t)
    where
      branch :
          (r : Result (Unit {0}))
          → Agrees (elim r as (λ _. Answer) [
            | err e ↦ fail wk goal_id now ctx_error t g e.message w
            | ok _ ↦ gate wk goal_id now ctx_error t g w
          ])
      branch (err e) = fail-Agrees t g e.message w
      branch (ok _) = gate-Agrees t g w

  conclude-Agrees :
      (g : Goal) (d : Dag) (exhausted : Bool) (w : World)
      → Agrees (conclude wk goal_id now g d exhausted w)
  unfolding conclude saving
  conclude-Agrees g d exhausted w = ground arith

  judge-Agrees : (g : Goal) (d : Dag) (w : World) → Agrees (judge wk goal_id now g d w)
  unfolding judge saving
  judge-Agrees g d w =
      let exhausted = ltb 0 (progress d).1 && (progress d).0 == (progress d).1 in
      ground (arith, conclude-Agrees (evaluate_completion g (observed d) now).0 d exhausted w)

  settle_idle-Agrees : (g : Goal) (d : Dag) (w : World) → Agrees (settle_idle wk goal_id now g d w)
  unfolding settle_idle
  settle_idle-Agrees g d w =
      elim (Bool-cases (ltb 0 (count_state awaiting_approval (values d.tasks)))) [
        | inl e ↦ rw e refl
        | inr e ↦ rw e (judge-Agrees g d w)
      ]

  grow-Agrees :
      (g : Goal) (d : Dag) (added : List Task) (w : World)
      → Agrees (grow wk goal_id now g d added w)
  unfolding grow
  grow-Agrees g d added w = ground arith

  revise-Agrees : (g : Goal) (d : Dag) (w : World) → Agrees (revise wk goal_id now g d w)
  unfolding revise
  revise-Agrees g d w = asked wk.reviser
    where
      proposed :
          (r : Result (List Task))
          → Agrees (elim r as (λ _. Answer) [
            | err e ↦
                saving
                  (failing wk goal_id now g ceiling_exceeded e.message)
                  w
                  (stopped (verbatim "replanning refused: " ∷ e.message))
            | ok [] ↦ settle_idle wk goal_id now g d w
            | ok (t ∷ ts) ↦ grow wk goal_id now g d (t ∷ ts) w
          ])
      proposed (err e) = saving-Agrees _ _ _ (λ m. refl)
      proposed (ok []) = settle_idle-Agrees g d w
      proposed (ok (t ∷ ts)) = grow-Agrees g d (t ∷ ts) w

      asked :
          (o : Option (Goal → Dag → ℕ → Result (List Task)))
          → Agrees (elim o as (λ _. Answer) [
            | none ↦ settle_idle wk goal_id now g d w
            | some reviser ↦ elim (reviser g d now) [
              | err e ↦
                  saving
                    (failing wk goal_id now g ceiling_exceeded e.message)
                    w
                    (stopped (verbatim "replanning refused: " ∷ e.message))
              | ok [] ↦ settle_idle wk goal_id now g d w
              | ok (t ∷ ts) ↦ grow wk goal_id now g d (t ∷ ts) w
            ]
          ])
      asked none = settle_idle-Agrees g d w
      asked (some reviser) = proposed (reviser g d now)

  idle-Agrees : (g : Goal) (w : World) → Agrees (idle wk goal_id now g w)
  unfolding idle
  idle-Agrees g w =
      calling-cases Agrees (load_dag goal_id w.store) w
        (λ e w1. (w1, outcome nothing "" [] true, none)) (λ d w1. revise wk goal_id now g d w1)
        (λ e m at. refl) (λ d m at. revise-Agrees g d (record w { store = m }))

  claim_one-Agrees : (g : Goal) (w : World) → Agrees (claim_one wk goal_id now ctx_error g w)
  unfolding claim_one
  claim_one-Agrees g w =
      calling-cases Agrees (claim goal_id wk.id wk.lease now w.store) w
        (λ e w1. if is_no_work e.sentinel then idle wk goal_id now g w1 else stopped_by e w1)
        (λ t w1. with_task wk goal_id now ctx_error t g w1)
        (λ e m at. elim (Bool-cases (is_no_work e.sentinel)) [
          | inl none_left ↦ rw none_left (idle-Agrees g (record w { store = m }))
          | inr other ↦ rw other refl
        ])
        (λ t m at. with_task-Agrees t g (record w { store = m }))

  under_ceilings-Agrees :
      (g : Goal) (w : World) → Agrees (under_ceilings wk goal_id now ctx_error g w)
  unfolding under_ceilings
  under_ceilings-Agrees g w = hit (check_ceilings_reached g now).1
    where
      g' : Goal
      g' = (check_ceilings_reached g now).0

      hit :
          (o : Option Ceiling)
          → Agrees (elim o as (λ _. Answer) [
            | some which ↦
                saving g' w
                  (stopped (verbatim "ceiling reached: " ∷ verbatim (ceiling_name which) ∷ []))
            | none ↦ claim_one wk goal_id now ctx_error g' w
          ])
      hit (some which) = saving-Agrees _ _ _ (λ m. refl)
      hit none = claim_one-Agrees g' w

  pub run_once-Agrees :
      (w : World)
      → agrees (run_once wk goal_id now ctx_error w).1 (run_once wk goal_id now ctx_error w).2
        ≡ true
  unfolding run_once
  run_once-Agrees w =
      calling-cases Agrees (load_goal goal_id w.store) w stopped_by
        (λ g w1.
          if not (claimable g)
          then stopped (verbatim "goal is " ∷ verbatim (GoalStates.state_name g.state) ∷ []) w1
          else under_ceilings wk goal_id now ctx_error g w1)
        (λ e m at. refl)
        (λ g m at. elim (Bool-cases (claimable g)) [
          | inl runs ↦ rw runs (under_ceilings-Agrees g (record w { store = m }))
          | inr resting ↦ rw resting refl
        ])
