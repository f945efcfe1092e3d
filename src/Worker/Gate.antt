-- ===== src/Worker/Gate.antt =====
-- The gate of RunOnce (internal/worker/worker.go): when a cycle reaches a tool.
use heros_agent.Base.{
  ℕ, ◌≡◌, refl, sym, ◌∙◌, ap, true, false, ◌&&◌, not, Option, none, some, List, [], ◌∷◌, String,
  arith, subst, ◌⊎◌, inl, inr, Bool-cases, Option-cases, if◌then◌else◌, lookup, Map,
}
use heros_agent.Base.Text.{Text, verbatim}
use heros_agent.Errors.{Error, Result, ok, err, is_no_work}
use heros_agent.Bounds.{exceeded, Ceiling, ceiling_name}
use heros_agent.Task.{Task, require_idempotency}
use heros_agent.Goal.{Goal, claimable, check_ceilings_reached}
use heros_agent.Goal.States as GoalStates
use heros_agent.Store.{Memory, load_goal, goal_missing}
use heros_agent.Store.Leases.{claim}
use heros_agent.Worker.{
  Worker, World, Answer, Call, saving, outcome, stop, record_episode, stopped_by, stopped,
}
use heros_agent.Worker.Idle.{idle}
use heros_agent.Worker.Cycle.{
  fail, invoke_tool, execute, await, gate, with_task, claim_one, under_ceilings, run_once, call_for,
  dependency_results, note_unasked,
}
use heros_agent.Worker.Quiet.{
  calls, HasCalled, calling-cases, saving-HasCalled, fail-HasCalled, await-HasCalled,
  invoke_tool-HasCalled, idle-HasCalled,
}

module _ (wk : Worker) (goal_id : String) (now : ℕ) (ctx_error : Option Error) where
  -- What stands behind a call of a tool, from the store `m` at the start of the cycle.
  pub record Allowed (m : Memory) (c : Call) : Type 0 where
    pub goal : Goal
    pub task : Task
    pub after : Memory
    pub inputs : Map (List ℕ)
    pub loaded : lookup goal_id m.goals ≡ some goal
    pub runs : claimable goal ≡ true
    pub affordable : exceeded goal.spend goal.ceilings ≡ none
    pub claimed : claim goal_id wk.id wk.lease now m ≡ (after, ok task)
    pub keyed : require_idempotency task ≡ ok tt
    pub passed : ((wk.needs_approval goal task).0 ≡ false) ⊎ (task.approved ≡ true)
    pub call : c ≡ call_for goal_id task inputs

  -- At most one call, and an allowed one.
  pub data Gated (w : World) (a : Answer) : Type 0 where
    no_call : HasCalled (calls w.log) a → Gated w a
    one_call : (c : Call) → Allowed w.store c → HasCalled (c ∷ calls w.log) a → Gated w a

  -- The task reached a tool, with these inputs.
  abbrev Invokes : Task → World → Answer → Type 0
  Invokes t w a = (inputs : Map (List ℕ)) × HasCalled (call_for goal_id t inputs ∷ calls w.log) a

  abbrev Passed : Task → Goal → Type 0
  Passed t g = ((wk.needs_approval g t).0 ≡ false) ⊎ (t.approved ≡ true)

  execute-Invokes :
      (t : Task) (g : Goal) (w : World)
      → HasCalled (calls w.log) (execute wk goal_id now ctx_error t g w)
        ⊎ Invokes t w (execute wk goal_id now ctx_error t g w)
  unfolding execute
  execute-Invokes t g w =
      calling-cases (λ a. HasCalled (calls w.log) a ⊎ Invokes t w a)
        (dependency_results goal_id t w.store) w (λ e w1. (w1, outcome stop t.id [] false, some e))
        (λ inputs w1. invoke_tool wk goal_id now ctx_error t g inputs w1) (λ e m at. inl refl)
        (λ inputs m at. inr (
          inputs,
          invoke_tool-HasCalled wk goal_id now ctx_error t g inputs (record w { store = m }),
        ))

  note_unasked-calls :
      (t : Task) (g : Goal) (w : World)
      → calls (note_unasked wk goal_id now ctx_error t g w).log ≡ calls w.log
  unfolding note_unasked record_episode calls
  note_unasked-calls t g w = ground arith

  parked :
      (t : Task) (g : Goal) (w : World)
      → ((wk.needs_approval g t).0 && not t.approved) ≡ true
      → gate wk goal_id now ctx_error t g w
        ≡ await wk goal_id now ctx_error t g (wk.needs_approval g t).1 w
  unfolding gate
  parked t g w e = rw e refl

  let_through :
      (t : Task) (g : Goal) (w : World)
      → ((wk.needs_approval g t).0 && not t.approved) ≡ false
      → gate wk goal_id now ctx_error t g w
        ≡ execute wk goal_id now ctx_error t g (note_unasked wk goal_id now ctx_error t g w)
  unfolding gate
  let_through t g w e = rw e refl

  gate-Invokes :
      (t : Task) (g : Goal) (w : World)
      → HasCalled (calls w.log) (gate wk goal_id now ctx_error t g w)
        ⊎ (Passed t g × Invokes t w (gate wk goal_id now ctx_error t g w))
  gate-Invokes t g w = elim (Bool-cases ((wk.needs_approval g t).0 && not t.approved)) [
    | inl e ↦ inl (
        subst (HasCalled (calls w.log)) (sym (parked t g w e))
          (await-HasCalled wk goal_id now ctx_error t g (wk.needs_approval g t).1 w))
    | inr e ↦
        subst (λ a. HasCalled (calls w.log) a ⊎ (Passed t g × Invokes t w a))
          (sym (let_through t g w e)) (through (ground arith))
  ]
    where
      noted : World
      noted = note_unasked wk goal_id now ctx_error t g w

      same : calls noted.log ≡ calls w.log
      same = note_unasked-calls t g w

      through :
          Passed t g
          → HasCalled (calls w.log) (execute wk goal_id now ctx_error t g noted)
            ⊎ (Passed t g × Invokes t w (execute wk goal_id now ctx_error t g noted))
      through passed = elim (execute-Invokes t g noted) [
        | inl quiet ↦ inl (quiet ∙ same)
        | inr (inputs, called) ↦
            inr (passed, (inputs, called ∙ ap (λ cs. call_for goal_id t inputs ∷ cs) same))
      ]

  with_task-Invokes :
      (t : Task) (g : Goal) (w : World)
      → HasCalled (calls w.log) (with_task wk goal_id now ctx_error t g w)
        ⊎ ((require_idempotency t ≡ ok tt)
            × Passed t g
            × Invokes t w (with_task wk goal_id now ctx_error t g w))
  unfolding with_task
  with_task-Invokes t g w = branch (require_idempotency t) refl
    where
      branch :
          (r : Result (Unit {0}))
          → require_idempotency t ≡ r
          → HasCalled (calls w.log) (elim r [
            | err e ↦ fail wk goal_id now ctx_error t g e.message w
            | ok _ ↦ gate wk goal_id now ctx_error t g w
          ])
            ⊎ ((require_idempotency t ≡ ok tt)
                × Passed t g
                × Invokes t w (elim r [
                  | err e ↦ fail wk goal_id now ctx_error t g e.message w
                  | ok _ ↦ gate wk goal_id now ctx_error t g w
                ]))
      branch (err e) at = inl (fail-HasCalled wk goal_id now ctx_error t g e.message w)
      branch (ok _) at = elim (gate-Invokes t g w) [
        | inl quiet ↦ inl quiet
        | inr (passed, called) ↦ inr (at, passed, called)
      ]

  claim_one-Gated :
      (g : Goal) (w : World)
      → lookup goal_id w.store.goals ≡ some g
      → claimable g ≡ true
      → exceeded g.spend g.ceilings ≡ none
      → Gated w (claim_one wk goal_id now ctx_error g w)
  unfolding claim_one
  claim_one-Gated g w loaded runs affordable =
      calling-cases (Gated w) (claim goal_id wk.id wk.lease now w.store) w
        (λ e w1. if is_no_work e.sentinel then idle wk goal_id now g w1 else stopped_by e w1)
        (λ t w1. with_task wk goal_id now ctx_error t g w1)
        (λ e m at. elim (Bool-cases (is_no_work e.sentinel)) [
          | inl none_left ↦
              rw none_left
                (no_call (idle-HasCalled wk goal_id now ctx_error g (record w { store = m })))
          | inr other ↦ rw other (no_call refl)
        ])
        (λ t m at. elim (with_task-Invokes t g (record w { store = m })) [
          | inl quiet ↦ no_call quiet
          | inr (keyed, passed, (inputs, called)) ↦
              one_call (call_for goal_id t inputs)
                (record {
                  goal = g;
                  task = t;
                  after = m;
                  inputs = inputs;
                  loaded = loaded;
                  runs = runs;
                  affordable = affordable;
                  claimed = at;
                  keyed = keyed;
                  passed = passed;
                  call = refl;
                })
                called
        ])

  pub ceilings_hit :
      (g : Goal)
      → ((which : Ceiling) × (goal' : Goal) × (check_ceilings_reached g now ≡ (goal', some which)))
        ⊎ ((exceeded g.spend g.ceilings ≡ none) × (check_ceilings_reached g now ≡ (g, none)))
  unfolding check_ceilings_reached
  ceilings_hit g = elim (Option-cases (exceeded g.spend g.ceilings)) [
    | inl e ↦ inr (e, ground arith)
    | inr (which, e) ↦ inl (which, (check_ceilings_reached g now).0, ground arith)
  ]

  under_ceilings-Gated :
      (g : Goal) (w : World)
      → lookup goal_id w.store.goals ≡ some g
      → claimable g ≡ true
      → Gated w (under_ceilings wk goal_id now ctx_error g w)
  unfolding under_ceilings
  under_ceilings-Gated g w loaded runs = elim (ceilings_hit g) [
    | inl (which, g', e) ↦
        let says : Text = verbatim "ceiling reached: " ∷ verbatim (ceiling_name which) ∷ [] in
        let same : under_ceilings wk goal_id now ctx_error g w ≡ saving g' w (stopped says) =
          ground arith in
        subst (Gated w) (sym same)
          (no_call (saving-HasCalled g' w (stopped says) (calls w.log) refl (λ m. refl)))
    | inr (within, e) ↦
        let same : under_ceilings wk goal_id now ctx_error g w
            ≡ claim_one wk goal_id now ctx_error g w =
          ground arith in
        subst (Gated w) (sym same) (claim_one-Gated g w loaded runs within)
  ]

  -- A cycle calls at most one tool, at most once. If it calls one, the goal was running and within its
  -- ceilings when the cycle began, the task is the one that Claim then gave to this worker, an effect
  -- has its idempotency key, and the policy does not ask for a person or a person has approved the task.
  pub run_once-Gated : (w : World) → Gated w (run_once wk goal_id now ctx_error w)
  unfolding run_once load_goal
  run_once-Gated w = elim (Option-cases (lookup goal_id w.store.goals)) [
    | inl e ↦
        let same : run_once wk goal_id now ctx_error w ≡ stopped_by (goal_missing goal_id) w =
          ground arith in
        subst (Gated w) (sym same) (no_call refl)
    | inr (g, e) ↦ elim (Bool-cases (claimable g)) [
      | inr resting ↦
          let says : Text = verbatim "goal is " ∷ verbatim (GoalStates.state_name g.state) ∷ [] in
          let same : run_once wk goal_id now ctx_error w ≡ stopped says w = ground arith in
          subst (Gated w) (sym same) (no_call refl)
      | inl runs ↦
          let same : run_once wk goal_id now ctx_error w
              ≡ under_ceilings wk goal_id now ctx_error g w =
            ground arith in
          subst (Gated w) (sym same) (under_ceilings-Gated g w e runs)
    ]
  ]
