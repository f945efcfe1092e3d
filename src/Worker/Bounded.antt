-- ===== src/Worker/Bounded.antt =====
-- A cycle of internal/worker/worker.go pays for the tool that it calls out of the iteration ceiling.
use heros_agent.Base.{
  ℕ, suc, ◌≡◌, ap, subst, Bool, true, ◌&&◌, ◌||◌, Option, none, some, List, [], ◌∷◌, String, arith,
  inl, inr, Bool-cases, lookup, values, ltb, ◌==◌,
}
use heros_agent.Base.Int64.{◌<ℤ◌}
use heros_agent.Base.Text.{Text, verbatim}
use heros_agent.Errors.{Error, Result, ok, err, err_or_ok}
use heros_agent.Bounds.{exceeded, Refusal}
use heros_agent.Bounds.Causes.{ceiling_exceeded}
use heros_agent.Task.{Task}
use heros_agent.Task.States.{awaiting_approval}
use heros_agent.Dag.{Dag, progress, stalled}
use heros_agent.Goal.{Goal, evaluate_completion}
use heros_agent.Goal.States as GoalStates
use heros_agent.Store.{Memory, load_dag, save_dag}
use heros_agent.Worker.{
  Worker, World, Answer, ToolResult, saving, outcome, nothing, stopped, record_episode,
}
use heros_agent.Worker.Idle.{
  count_state, observed, failing, idle, revise, settle_idle, judge, conclude, grow,
}
use heros_agent.Worker.Cycle.{fail, after_call, await, charge}
use heros_agent.Worker.Quiet.{
  calling-cases, fail-HasCalled, await-HasCalled, after_call-HasCalled, grow-HasCalled,
}
use heros_agent.Worker.Accounts.{fail-goals, after_call-goals, complete-goals}
use heros_agent.Worker.Budget.{left, next_iteration, IsProper}
use heros_agent.Worker.Fitting.{Fits, Fits-goals, Alike, saving-Fits}

module _ (wk : Worker) (goal_id : String) (now : ℕ) (ctx_error : Option Error) (limit : ℕ) where
  abbrev pub FitsHere : World → Type 0
  FitsHere w = Fits goal_id limit w

  -- The goal that the cycle has read, as it may save it.
  abbrev pub Stored : World → Goal → Type 0
  Stored w g = (h : Goal) × (lookup goal_id w.store.goals ≡ some h) × Alike goal_id limit h g

  saving-Stored :
      (w : World) (g : Goal) (go : World → Answer)
      → FitsHere w
      → Stored w g
      → ((w' : World) → FitsHere w' → FitsHere (go w').0)
      → FitsHere (saving g w go).0
  saving-Stored w g go fits (h, at, alike) = saving-Fits goal_id limit w h g go fits at alike

  -- What a cycle changes of the goal before it saves it.
  restated :
      (w : World) (g : Goal) (state : GoalStates.State) (refusal : Option Refusal) (at : ℕ)
      → Stored w g
      → Stored w (record g { state = state; refusal = refusal; updated_at = at })
  restated w g state refusal at (h, there, alike) =
      (h, there, record { same_id = alike.same_id; ceilings = alike.ceilings; spend = alike.spend })

  evaluated-Stored :
      (w : World) (g : Goal) (d : Dag)
      → Stored w g
      → Stored w (evaluate_completion g (observed d) now).0
  unfolding evaluate_completion
  evaluated-Stored w g d (h, there, alike) =
      (h, there, record { same_id = alike.same_id; ceilings = alike.ceilings; spend = alike.spend })

  grow-goals :
      (g : Goal) (d : Dag) (added : List Task) (w : World)
      → (grow wk goal_id now g d added w).0.store.goals ≡ w.store.goals
  unfolding grow save_dag record_episode
  grow-goals g d added w = ground arith

  conclude-Fits :
      (g : Goal) (d : Dag) (exhausted : Bool) (w : World)
      → FitsHere w
      → Stored w g
      → FitsHere (conclude wk goal_id now g d exhausted w).0
  unfolding conclude
  conclude-Fits g d exhausted w fits (h, at, alike) =
      saving-Stored w _ _ fits
        (h, at, record { same_id = alike.same_id; ceilings = alike.ceilings; spend = alike.spend })
        (λ w' f. f)

  judge-Fits :
      (g : Goal) (d : Dag) (w : World)
      → FitsHere w
      → Stored w g
      → FitsHere (judge wk goal_id now g d w).0
  unfolding judge
  judge-Fits g d w fits stored =
      let g' = (evaluate_completion g (observed d) now).0 in
      let kept = evaluated-Stored w g d stored in
      let exhausted = ltb 0 (progress d).1 && (progress d).0 == (progress d).1 in
      elim (Bool-cases (evaluate_completion g (observed d) now).1) [
        | inl met ↦ rw met (
            saving-Stored w (record g' { state = GoalStates.succeeded; updated_at = now }) _ fits
              (restated w g' _ _ _ kept) (λ w' f. f))
        | inr unmet ↦ rw unmet (elim (err_or_ok (stalled d)) [
          | inl (e, panics) ↦ rw panics fits
          | inr (stuck, e) ↦ rw e (elim (Bool-cases (stuck || exhausted)) [
            | inl over ↦ rw over (conclude-Fits g' d exhausted w fits kept)
            | inr waits ↦ rw waits fits
          ])
        ])
      ]

  settle_idle-Fits :
      (g : Goal) (d : Dag) (w : World)
      → FitsHere w
      → Stored w g
      → FitsHere (settle_idle wk goal_id now g d w).0
  unfolding settle_idle
  settle_idle-Fits g d w fits stored =
      elim (Bool-cases (ltb 0 (count_state awaiting_approval (values d.tasks)))) [
        | inl e ↦ rw e fits
        | inr e ↦ rw e (judge-Fits g d w fits stored)
      ]

  grow-Fits :
      (g : Goal) (d : Dag) (added : List Task) (w : World)
      → FitsHere w
      → FitsHere (grow wk goal_id now g d added w).0
  grow-Fits g d added w fits =
      Fits-goals goal_id limit w (grow wk goal_id now g d added w).0 (grow-goals g d added w)
        (grow-HasCalled wk goal_id now ctx_error g d added w) fits

  revise-Fits :
      (g : Goal) (d : Dag) (w : World)
      → FitsHere w
      → Stored w g
      → FitsHere (revise wk goal_id now g d w).0
  unfolding revise
  revise-Fits g d w fits stored = asked wk.reviser
    where
      proposed :
          (r : Result (List Task))
          → FitsHere
              (elim r as (λ _. Answer) [
                | err e ↦
                    saving
                      (failing wk goal_id now g ceiling_exceeded e.message)
                      w
                      (stopped (verbatim "replanning refused: " ∷ e.message))
                | ok [] ↦ settle_idle wk goal_id now g d w
                | ok (t ∷ ts) ↦ grow wk goal_id now g d (t ∷ ts) w
              ]).0
      proposed (err e) = saving-Stored w _ _ fits (restated w g _ _ _ stored) (λ w' f. f)
      proposed (ok []) = settle_idle-Fits g d w fits stored
      proposed (ok (t ∷ ts)) = grow-Fits g d (t ∷ ts) w fits

      asked :
          (o : Option (Goal → Dag → ℕ → Result (List Task)))
          → FitsHere
              (elim o as (λ _. Answer) [
                | none ↦ settle_idle wk goal_id now g d w
                | some reviser ↦ elim (reviser g d now) [
                  | err e ↦
                      saving
                        (failing wk goal_id now g ceiling_exceeded e.message)
                        w
                        (stopped (verbatim "replanning refused: " ∷ e.message))
                  | ok [] ↦ settle_idle wk goal_id now g d w
                  | ok (t ∷ ts) ↦ grow wk goal_id now g d (t ∷ ts) w
                ]
              ]).0
      asked none = settle_idle-Fits g d w fits stored
      asked (some reviser) = proposed (reviser g d now)

  pub idle-Fits :
      (g : Goal) (w : World) → FitsHere w → Stored w g → FitsHere (idle wk goal_id now g w).0
  unfolding idle load_dag
  idle-Fits g w fits stored =
      calling-cases (λ a. FitsHere a.0) (load_dag goal_id w.store) w
        (λ e w1. (w1, outcome nothing "" [] true, none)) (λ d w1. revise wk goal_id now g d w1)
        (λ e m at.
          subst (λ n. FitsHere (record w { store = n }))
            (ap {B = Memory} (λ (r : Memory × Result Dag). r.0) at) fits)
        (λ d m at.
          subst (λ n. FitsHere (revise wk goal_id now g d (record w { store = n })).0)
            (ap {B = Memory} (λ (r : Memory × Result Dag). r.0) at) (revise-Fits g d w fits stored))

  pub fail-Fits :
      (t : Task) (g : Goal) (why : Text) (w : World)
      → FitsHere w
      → FitsHere (fail wk goal_id now ctx_error t g why w).0
  fail-Fits t g why w fits =
      Fits-goals goal_id limit w (fail wk goal_id now ctx_error t g why w).0
        (fail-goals wk goal_id now ctx_error t g why w)
        (fail-HasCalled wk goal_id now ctx_error t g why w) fits

  await-goals :
      (t : Task) (g : Goal) (why : Text) (w : World)
      → (await wk goal_id now ctx_error t g why w).0.store.goals ≡ w.store.goals
  unfolding await record_episode
  await-goals t g why w =
      ground (arith, complete-goals goal_id t.id wk.id awaiting_approval [] why now w.store)

  pub await-Fits :
      (t : Task) (g : Goal) (why : Text) (w : World)
      → FitsHere w
      → FitsHere (await wk goal_id now ctx_error t g why w).0
  await-Fits t g why w fits =
      Fits-goals goal_id limit w (await wk goal_id now ctx_error t g why w).0
        (await-goals t g why w) (await-HasCalled wk goal_id now ctx_error t g why w) fits

  pub after_call-Fits :
      (t : Task) (g : Goal) (res : ToolResult) (fault : Option Error) (w : World)
      → FitsHere w
      → FitsHere (after_call wk goal_id now ctx_error t g res fault w).0
  after_call-Fits t g res fault w fits =
      Fits-goals goal_id limit w (after_call wk goal_id now ctx_error t g res fault w).0
        (after_call-goals wk goal_id now ctx_error t g res fault w)
        (after_call-HasCalled wk goal_id now ctx_error t g res fault w) fits

  -- What a goal below its ceiling has left, when one iteration is charged.
  pub charge-left :
      (g : Goal) (res : ToolResult)
      → IsProper goal_id g
      → exceeded g.spend g.ceilings ≡ none
      → IsProper goal_id (charge g res) × (suc (left (charge g res)) ≡ left g)
  unfolding left charge exceeded
  charge-left g res proper affordable =
      let below : g.spend.iterations <ℤ g.ceilings.max_iterations = ground arith in
      let (fits, more) =
        next_iteration g.spend.iterations g.ceilings.max_iterations proper.counted proper.bounded
          below in
      (
        record { keyed = proper.keyed; counted = fits; bounded = proper.bounded },
        omega (arith, more, below),
      )
