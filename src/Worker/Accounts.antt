-- ===== src/Worker/Accounts.antt =====
-- What a cycle of internal/worker/worker.go pays for a tool.
use heros_agent.Base.{
  ℕ, ◌≡◌, refl, ◌∙◌, ap, false, Option, some, List, [], ◌∷◌, String, arith, inl, inr, Option-cases,
  lookup, insert, lookup-insert_self, Map,
}
use heros_agent.Base.Int64.{ℤ, pos, ◌+ℤ◌, FitsInt64, wrap64-id, add64}
use heros_agent.Bounds.{Spend}
use heros_agent.Errors.{Error}
use heros_agent.Task.{Task}
use heros_agent.Goal.{Goal}
use heros_agent.Goal.States as GoalStates
use heros_agent.Store.{Memory, save_goal, refuse_terminal_overwrite}
use heros_agent.Store.Leases.{release, complete}
use heros_agent.Store.Runs.{commit-goals}
use heros_agent.Task.States.{State, succeeded, failed}
use heros_agent.Base.Text.{Text, verbatim, int}
use heros_agent.Store.Persons.{checkpoint}
use heros_agent.Worker.{Worker, World, Answer, ToolResult, invoked, saving, record_episode}
use heros_agent.Worker.Cycle.{
  fail, handle_failure, persist, hand_back, after_call, invoke_tool, charge, call_for,
}

-- The sums that the cost of a call makes of a spend.
abbrev pub FitsCost : Spend → ToolResult → Type 0
FitsCost s res =
    FitsInt64 (s.iterations +ℤ pos 1)
    × FitsInt64 (s.tool_calls +ℤ res.tool_calls)
    × FitsInt64 (s.tokens +ℤ res.tokens)
    × FitsInt64 (s.cost_micro_cents +ℤ res.cost_micro_cents)

add64_exact : (a b : ℤ) → FitsInt64 (a +ℤ b) → add64 a b ≡ a +ℤ b
unfolding add64
add64_exact a b fits = wrap64-id (a +ℤ b) fits

charge_lem :
    (g : Goal) (res : ToolResult)
    → FitsCost g.spend res
    → charge g res ≡ record g {
      spend = record g.spend {
        iterations = g.spend.iterations +ℤ pos 1;
        tool_calls = g.spend.tool_calls +ℤ res.tool_calls;
        tokens = g.spend.tokens +ℤ res.tokens;
        cost_micro_cents = g.spend.cost_micro_cents +ℤ res.cost_micro_cents;
      };
    }
unfolding charge
charge_lem g res (one, calls, tokens, cost) =
    rw
      (
        add64_exact g.spend.iterations (pos 1) one,
        add64_exact g.spend.tool_calls res.tool_calls calls,
        add64_exact g.spend.tokens res.tokens tokens,
        add64_exact g.spend.cost_micro_cents res.cost_micro_cents cost,
      )
      refl

pub complete-goals :
    (goal_id id worker : String) (next : State) (result : List ℕ) (failure : Text) (now : ℕ)
    (m : Memory)
    → (complete goal_id id worker next result failure now m).0.goals ≡ m.goals
unfolding complete
complete-goals goal_id id worker next result failure now m = commit-goals m goal_id _

pub release-goals :
    (goal_id id worker : String) (now : ℕ) (m : Memory)
    → (release goal_id id worker now m).0.goals ≡ m.goals
unfolding release
release-goals goal_id id worker now m = commit-goals m goal_id _

module _ (wk : Worker) (goal_id : String) (now : ℕ) (ctx_error : Option Error) where
  pub fail-goals :
      (t : Task) (g : Goal) (why : Text) (w : World)
      → (fail wk goal_id now ctx_error t g why w).0.store.goals ≡ w.store.goals
  unfolding fail record_episode
  fail-goals t g why w = ground (arith, complete-goals goal_id t.id wk.id failed [] why now w.store)

  hand_back-goals :
      (t : Task) (why : Error) (w : World)
      → (hand_back wk goal_id now ctx_error t why w).0.store.goals ≡ w.store.goals
  unfolding hand_back
  hand_back-goals t why w = ground (arith, release-goals goal_id t.id wk.id now w.store)

  handle_failure-goals :
      (t : Task) (g : Goal) (e : Error) (w : World)
      → (handle_failure wk goal_id now ctx_error t g e w).0.store.goals ≡ w.store.goals
  unfolding handle_failure
  handle_failure-goals t g e w = ground (
    arith,
    release-goals goal_id t.id wk.id now w.store,
    fail-goals t g
        (verbatim "effect could not be confirmed and must not be retried blindly: " ∷ e.message) w,
    fail-goals t g (int t.attempt ∷ verbatim " attempts exhausted: " ∷ e.message) w,
  )

  persist-goals :
      (t : Task) (g : Goal) (res : ToolResult) (w : World)
      → (persist wk goal_id now ctx_error t g res w).0.store.goals ≡ w.store.goals
  unfolding persist record_episode checkpoint
  persist-goals t g res w =
      ground (arith, complete-goals goal_id t.id wk.id succeeded res.output [] now w.store)

  pub after_call-goals :
      (t : Task) (g : Goal) (res : ToolResult) (fault : Option Error) (w : World)
      → (after_call wk goal_id now ctx_error t g res fault w).0.store.goals ≡ w.store.goals
  unfolding after_call
  after_call-goals t g res fault w = elim (Option-cases ctx_error) [
    | inr (why, e) ↦ ground (arith, hand_back-goals t why w)
    | inl e ↦ elim (Option-cases fault) [
      | inr (f, e') ↦ ground (arith, handle_failure-goals t g f w)
      | inl e' ↦ ground (arith, persist-goals t g res w)
    ]
  ]

  saving-goals :
      (g cur : Goal) (w : World) (go : World → Answer)
      → lookup g.id w.store.goals ≡ some cur
      → GoalStates.terminal cur.state ≡ false
      → saving g w go
        ≡ go (record w { store = record w.store { goals = insert g.id g w.store.goals } })
  unfolding saving save_goal refuse_terminal_overwrite
  saving-goals g cur w go at live = ground arith

  -- After a tool was called, whether it succeeded, failed, or the cycle was cancelled meanwhile, the
  -- store has the goal that the cycle had loaded, with one iteration and the tool calls, the tokens and
  -- the cost of the call added to its spend, and nothing else changed. Conditions: the goal is in the
  -- store after the call and has not ended there, and the sums fit in 64 bits. What somebody else saved of
  -- the goal during the call, its spend included, is overwritten.
  pub invoke_tool_lem :
      (t : Task) (g cur : Goal) (inputs : Map (List ℕ)) (w : World) (m : Memory) (res : ToolResult)
      (fault : Option Error)
      → wk.invoke (call_for goal_id t inputs) w.store ≡ (m, res, fault)
      → lookup g.id m.goals ≡ some cur
      → GoalStates.terminal cur.state ≡ false
      → FitsCost g.spend res
      → lookup g.id (invoke_tool wk goal_id now ctx_error t g inputs w).0.store.goals
        ≡ some (record g {
          spend = record g.spend {
            iterations = g.spend.iterations +ℤ pos 1;
            tool_calls = g.spend.tool_calls +ℤ res.tool_calls;
            tokens = g.spend.tokens +ℤ res.tokens;
            cost_micro_cents = g.spend.cost_micro_cents +ℤ res.cost_micro_cents;
          };
        })
  unfolding invoke_tool charge
  invoke_tool_lem t g cur inputs w m res fault ran at live fits =
      let w1 : World = record { store = m; log = invoked (call_for goal_id t inputs) ∷ w.log } in
      let w2 : World = record w1 {
        store = record m { goals = insert g.id (charge g res) m.goals };
      } in
      let go : World → Answer = after_call wk goal_id now ctx_error t (charge g res) res fault in
      let saved : saving (charge g res) w1 go ≡ go w2 =
        saving-goals (charge g res) cur w1 go at live in
      let kept : (go w2).0.store.goals ≡ w2.store.goals =
        after_call-goals t (charge g res) res fault w2 in
      let run : invoke_tool wk goal_id now ctx_error t g inputs w ≡ saving (charge g res) w1 go =
        ground (arith, ran) in
      ap (λ (a : Answer). lookup g.id a.0.store.goals) (run ∙ saved)
      ∙ (ap (lookup g.id) kept
          ∙ (lookup-insert_self g.id (charge g res) m.goals ∙ ap some (charge_lem g res fits)))
