-- ===== src/Worker/Paid.antt =====
-- RunOnce (internal/worker/worker.go) as a whole against the iteration ceiling.
use heros_agent.Base.{
  ℕ, ◌≡◌, refl, sym, ◌∙◌, ap, subst, true, false, ◌&&◌, not, Option, some, [], ◌∷◌, String, arith,
  inl, inr, Bool-cases, Option-cases, if◌then◌else◌, lookup, Map,
}
use heros_agent.Base.Text.{Text, verbatim}
use heros_agent.Errors.{Error, Result, ok, err, is_no_work}
use heros_agent.Bounds.{exceeded, ceiling_name}
use heros_agent.Bounds.Causes.{ceiling_exceeded}
use heros_agent.Task.{Task, require_idempotency, effect_bearing_kind}
use heros_agent.Goal.{Goal, claimable, check_ceilings_reached}
use heros_agent.Goal.States as GoalStates
use heros_agent.Store.{Memory, load_goal, goal_missing}
use heros_agent.Store.Leases.{claim}
use heros_agent.Store.Runs.{claim-goals}
use heros_agent.Worker.{Worker, World, Answer, saving, stopped, stopped_by, record_episode}
use heros_agent.Worker.Idle.{idle}
use heros_agent.Worker.Cycle.{
  fail, gate, with_task, claim_one, under_ceilings, run_once, note_unasked,
}
use heros_agent.Worker.Quiet.{calling-cases}
use heros_agent.Worker.Budget.{Thrifty}
use heros_agent.Worker.Fitting.{Fits, Fits-goals, saving-Fits, record_episode-Fits}
use heros_agent.Worker.Bounded.{Stored, idle-Fits, fail-Fits, await-Fits}
use heros_agent.Worker.Charged.{Payable, execute-Fits, running-live}

module _ (wk : Worker) (goal_id : String) (now : ℕ) (ctx_error : Option Error) (limit : ℕ)
    (thrifty : Thrifty wk goal_id) where
  note_unasked-Fits :
      (t : Task) (g : Goal) (w : World)
      → Fits goal_id limit w
      → Fits goal_id limit (note_unasked wk goal_id now ctx_error t g w)
  unfolding note_unasked
  note_unasked-Fits t g w fits =
      elim (Bool-cases (not (wk.needs_approval g t).0 && effect_bearing_kind t.kind)) [
        | inl e ↦ rw e (record_episode-Fits goal_id limit wk g.tenant goal_id t.id _ _ _ now w fits)
        | inr e ↦ rw e fits
      ]

  note_unasked-store :
      (t : Task) (g : Goal) (w : World)
      → (note_unasked wk goal_id now ctx_error t g w).store ≡ w.store
  unfolding note_unasked record_episode
  note_unasked-store t g w = ground arith

  gate-Fits :
      (t : Task) (g : Goal) (w : World)
      → Fits goal_id limit w
      → Payable wk goal_id now ctx_error limit thrifty w g
      → Fits goal_id limit (gate wk goal_id now ctx_error t g w).0
  unfolding gate
  gate-Fits t g w fits (at, live, affordable) =
      elim (Bool-cases ((wk.needs_approval g t).0 && not t.approved)) [
        | inl e ↦
            rw e (await-Fits wk goal_id now ctx_error limit t g (wk.needs_approval g t).1 w fits)
        | inr e ↦ rw e (
            execute-Fits wk goal_id now ctx_error limit thrifty t g
              (note_unasked wk goal_id now ctx_error t g w) (note_unasked-Fits t g w fits)
              (
                subst (λ (n : Memory). lookup goal_id n.goals ≡ some g)
                    (sym (note_unasked-store t g w)) at,
                live,
                affordable,
              ))
      ]

  with_task-Fits :
      (t : Task) (g : Goal) (w : World)
      → Fits goal_id limit w
      → Payable wk goal_id now ctx_error limit thrifty w g
      → Fits goal_id limit (with_task wk goal_id now ctx_error t g w).0
  unfolding with_task
  with_task-Fits t g w fits pay = branch (require_idempotency t)
    where
      branch :
          (r : Result (Unit {0}))
          → Fits goal_id limit
              (elim r as (λ _. Answer) [
                | err e ↦ fail wk goal_id now ctx_error t g e.message w
                | ok _ ↦ gate wk goal_id now ctx_error t g w
              ]).0
      branch (err e) = fail-Fits wk goal_id now ctx_error limit t g e.message w fits
      branch (ok _) = gate-Fits t g w fits pay

  claim_one-Fits :
      (g : Goal) (w : World)
      → Fits goal_id limit w
      → Payable wk goal_id now ctx_error limit thrifty w g
      → Fits goal_id limit (claim_one wk goal_id now ctx_error g w).0
  unfolding claim_one
  claim_one-Fits g w fits (at, live, affordable) =
      let unchanged : (m : Memory) (r : Result Task)
          → claim goal_id wk.id wk.lease now w.store ≡ (m, r)
          → m.goals ≡ w.store.goals =
        λ m r e.
          ap {B = Map Goal} (λ (x : Memory × Result Task). x.0.goals) (sym e)
          ∙ claim-goals goal_id wk.id wk.lease now w.store in
      calling-cases (λ a. Fits goal_id limit a.0) (claim goal_id wk.id wk.lease now w.store) w
        (λ e w1. if is_no_work e.sentinel then idle wk goal_id now g w1 else stopped_by e w1)
        (λ t w1. with_task wk goal_id now ctx_error t g w1)
        (λ e m r.
          let w1 : World = record w { store = m } in
          let same = unchanged m (err e) r in
          let fits1 = Fits-goals goal_id limit w w1 same refl fits in
          let stored : Stored wk goal_id now ctx_error limit w1 g = (
            g,
            ap (lookup goal_id) same ∙ at,
            record { same_id = refl; ceilings = refl; spend = refl },
          ) in
          elim (Bool-cases (is_no_work e.sentinel)) [
            | inl none_left ↦
                rw none_left (idle-Fits wk goal_id now ctx_error limit g w1 fits1 stored)
            | inr other ↦ rw other fits1
          ])
        (λ t m r.
          let w1 : World = record w { store = m } in
          let same = unchanged m (ok t) r in
          with_task-Fits t g w1 (Fits-goals goal_id limit w w1 same refl fits)
            (ap (lookup goal_id) same ∙ at, live, affordable))

  under_ceilings-Fits :
      (g : Goal) (w : World)
      → Fits goal_id limit w
      → lookup goal_id w.store.goals ≡ some g
      → claimable g ≡ true
      → Fits goal_id limit (under_ceilings wk goal_id now ctx_error g w).0
  unfolding under_ceilings check_ceilings_reached
  under_ceilings-Fits g w fits at runs =
      let live : GoalStates.terminal g.state ≡ false = running-live g runs in
      elim (Option-cases (exceeded g.spend g.ceilings)) [
        | inl within ↦
            let same : under_ceilings wk goal_id now ctx_error g w
                ≡ claim_one wk goal_id now ctx_error g w =
              ground arith in
            subst (λ (a : Answer). Fits goal_id limit a.0) (sym same)
              (claim_one-Fits g w fits (at, live, within))
        | inr (which, hit) ↦
            let why : Text = verbatim "ceiling reached: " ∷ verbatim (ceiling_name which) ∷ [] in
            let g' : Goal = record g {
              state = GoalStates.failed;
              refusal = some (record {
                cause = ceiling_exceeded;
                detail = verbatim (ceiling_name which) ∷ [];
              });
              updated_at = now;
            } in
            let same : under_ceilings wk goal_id now ctx_error g w ≡ saving g' w (stopped why) =
              ground arith in
            subst (λ (a : Answer). Fits goal_id limit a.0) (sym same)
              (saving-Fits goal_id limit w g g' (stopped why) fits at
                (record { same_id = refl; ceilings = refl; spend = refl }) (λ w' f. f))
      ]

  pub run_once-Fits :
      (w : World)
      → Fits goal_id limit w
      → Fits goal_id limit (run_once wk goal_id now ctx_error w).0
  unfolding run_once load_goal
  run_once-Fits w fits = elim (Option-cases (lookup goal_id w.store.goals)) [
    | inl absent ↦
        let same : run_once wk goal_id now ctx_error w ≡ stopped_by (goal_missing goal_id) w =
          ground arith in
        subst (λ (a : Answer). Fits goal_id limit a.0) (sym same) fits
    | inr (g, at) ↦ elim (Bool-cases (claimable g)) [
      | inr resting ↦
          let says : Text = verbatim "goal is " ∷ verbatim (GoalStates.state_name g.state) ∷ [] in
          let same : run_once wk goal_id now ctx_error w ≡ stopped says w = ground arith in
          subst (λ (a : Answer). Fits goal_id limit a.0) (sym same) fits
      | inl runs ↦
          let same : run_once wk goal_id now ctx_error w
              ≡ under_ceilings wk goal_id now ctx_error g w =
            ground arith in
          subst (λ (a : Answer). Fits goal_id limit a.0) (sym same)
            (under_ceilings-Fits g w fits at runs)
    ]
  ]
