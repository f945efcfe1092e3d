-- ===== src/Worker/Charged.antt =====
-- internal/worker/worker.go: the call of a tool is charged to its goal, which was below its ceiling.
use heros_agent.Base.{
  ℕ, suc, ◌≡◌, sym, ◌∙◌, ap, subst, true, false, Option, none, some, List, [], ◌∷◌, String, length,
  arith, inl, inr, Option-cases, lookup, Map,
}
use heros_agent.Errors.{Error, Result, ok, err}
use heros_agent.Bounds.{exceeded}
use heros_agent.Task.{Task}
use heros_agent.Goal.{Goal, claimable}
use heros_agent.Goal.States as GoalStates
use heros_agent.Store.{Memory, load_dag, save_goal}
use heros_agent.Worker.{Worker, World, Call, ToolResult, invoked, outcome, stop}
use heros_agent.Worker.Cycle.{
  after_call, invoke_tool, execute, call_for, charge, dependency_results,
}
use heros_agent.Worker.Quiet.{calls, calling-cases, calls-invoked}
use heros_agent.Worker.Budget.{
  left, Thrifty, budget_of, budget, IsProper, AllProper, budget_of-live, budget_of-over,
  budget_of-le, budget_of-none,
}
use heros_agent.Worker.Fitting.{Fits, saving-Fits_of, saved_cases}
use heros_agent.Worker.Bounded.{after_call-Fits, charge-left}

pub running-live : (g : Goal) → claimable g ≡ true → GoalStates.terminal g.state ≡ false
unfolding claimable
running-live g runs = ground arith

dependency_results-store :
    (goal_id : String) (t : Task) (m : Memory) → (dependency_results goal_id t m).0 ≡ m
unfolding dependency_results load_dag
dependency_results-store goal_id t m = ground arith

save_goal_absent :
    (m : Memory) (id : String) (g : Goal)
    → g.id ≡ id
    → lookup id m.goals ≡ none
    → lookup id (save_goal g m).0.goals ≡ none
unfolding save_goal
save_goal_absent m id g same absent =
    let missing : lookup g.id m.goals ≡ none = ap (λ k. lookup k m.goals) same ∙ absent in
    ground arith

module _ (wk : Worker) (goal_id : String) (now : ℕ) (ctx_error : Option Error) (limit : ℕ)
    (thrifty : Thrifty wk goal_id) where
  -- The tool has run, on a goal that was below its ceiling, and the call is charged to the goal.
  charged-Fits :
      (w : World) (c : Call) (g : Goal) (res : ToolResult) (m : Memory)
      → Fits goal_id limit w
      → lookup goal_id w.store.goals ≡ some g
      → GoalStates.terminal g.state ≡ false
      → exceeded g.spend g.ceilings ≡ none
      → AllProper goal_id m
      → Fits goal_id limit
          (record { store = (save_goal (charge g res) m).0; log = invoked c ∷ w.log })
  charged-Fits w c g res m fits at live affordable proper =
      let mine = fits.proper g at in
      let (proper', less) = charge-left wk goal_id now ctx_error limit g res mine affordable in
      let before : budget goal_id w.store ≡ left g = ap budget_of at ∙ budget_of-live g live in
      let within = fits.within in
      let more : length (calls (invoked c ∷ w.log)) ≡ suc (length (calls w.log)) =
        ap {B = ℕ} (λ cs. length cs) (calls-invoked c w.log) in
      elim (Option-cases (lookup goal_id m.goals)) [
        | inl absent ↦
            let gone : lookup goal_id (save_goal (charge g res) m).0.goals ≡ none =
              save_goal_absent m goal_id (charge g res) proper'.keyed absent in
            record {
              proper = λ k e. absurd (ground arith);
              within =
                  let b : budget goal_id (save_goal (charge g res) m).0 ≡ budget_of none =
                    ap budget_of gone in
                  let zero_left = budget_of-none in
                  omega (arith, before, less, more, within, b, zero_left);
            }
        | inr (cur, there) ↦
            elim (saved_cases goal_id limit (record { store = m; log = w.log }) cur (charge g res)
              proper'.keyed there) [
                | inl (kept, over) ↦ record {
                  proper = λ k e. proper k (there ∙ sym kept ∙ e);
                  within =
                      let b : budget goal_id (save_goal (charge g res) m).0 ≡ 0 =
                        ap budget_of kept ∙ budget_of-over cur over in
                      omega (arith, before, less, more, within, b);
                }
                | inr (put, over) ↦ record {
                  proper = λ k e.
                      let same : charge g res ≡ k = ground arith in
                      subst (IsProper goal_id) same proper';
                  within =
                      let b : budget goal_id (save_goal (charge g res) m).0
                          ≡ budget_of (some (charge g res)) =
                        ap budget_of put in
                      let small = budget_of-le (charge g res) in
                      omega (arith, before, less, more, within, b, small);
                }
              ]
      ]

  invoke_tool-Fits :
      (t : Task) (g : Goal) (inputs : Map (List ℕ)) (w : World)
      → Fits goal_id limit w
      → lookup goal_id w.store.goals ≡ some g
      → GoalStates.terminal g.state ≡ false
      → exceeded g.spend g.ceilings ≡ none
      → Fits goal_id limit (invoke_tool wk goal_id now ctx_error t g inputs w).0
  unfolding invoke_tool
  invoke_tool-Fits t g inputs w fits at live affordable =
      let c = call_for goal_id t inputs in
      let (m, res, fault) = wk.invoke c w.store in
      let (proper, less) = thrifty c w.store fits.proper in
      saving-Fits_of goal_id limit (record { store = m; log = invoked c ∷ w.log }) (charge g res)
        (after_call wk goal_id now ctx_error t (charge g res) res fault)
        (charged-Fits w c g res m fits at live affordable proper)
        (λ w' f. after_call-Fits wk goal_id now ctx_error limit t (charge g res) res fault w' f)

  abbrev pub Payable : World → Goal → Type 0
  Payable w g =
      (lookup goal_id w.store.goals ≡ some g)
      × (GoalStates.terminal g.state ≡ false)
      × (exceeded g.spend g.ceilings ≡ none)

  pub execute-Fits :
      (t : Task) (g : Goal) (w : World)
      → Fits goal_id limit w
      → Payable w g
      → Fits goal_id limit (execute wk goal_id now ctx_error t g w).0
  unfolding execute
  execute-Fits t g w fits (at, live, affordable) =
      calling-cases (λ a. Fits goal_id limit a.0) (dependency_results goal_id t w.store) w
        (λ e w1. (w1, outcome stop t.id [] false, some e))
        (λ inputs w1. invoke_tool wk goal_id now ctx_error t g inputs w1)
        (λ e m r. subst (λ n. Fits goal_id limit (record w { store = n })) (kept m (err e) r) fits)
        (λ inputs m r.
          invoke_tool-Fits t g inputs (record w { store = m })
            (subst (λ n. Fits goal_id limit (record w { store = n })) (kept m (ok inputs) r) fits)
            (subst (λ (n : Memory). lookup goal_id n.goals ≡ some g) (kept m (ok inputs) r) at) live
            affordable)
    where
      same : (dependency_results goal_id t w.store).0 ≡ w.store
      same = dependency_results-store goal_id t w.store

      kept :
          (m : Memory) (r : Result (Map (List ℕ)))
          → dependency_results goal_id t w.store ≡ (m, r)
          → w.store ≡ m
      kept m r e = sym same ∙ ap {B = Memory} (λ (x : Memory × Result (Map (List ℕ))). x.0) e
