-- ===== src/Bounds/Limits.antt =====
-- Ceilings.Validate and Exceeded (internal/bounds/bounds.go): which ceilings are accepted, and when a
-- goal may go on.
use heros_agent.Base.{◌≡◌, arith, ◌↔◌, none}
use heros_agent.Base.Int64.{pos, ◌<ℤ◌, FitsInt64, wrap64-id, mul64, ◌*ℤ◌}
use heros_agent.Errors.{ok}
use heros_agent.Bounds.{
  Ceilings, Spend, validate, first_unset, exceeded, cost_ceiling, micro_cents_per_cent,
}

-- Every ceiling is set.
pub record AllSet (c : Ceilings) : Type 0 where
  pub iterations : pos 0 <ℤ c.max_iterations
  pub tasks : pos 0 <ℤ c.max_tasks
  pub attempts : pos 0 <ℤ c.max_attempts_per_task
  pub tool_calls : pos 0 <ℤ c.max_tool_calls
  pub tokens : pos 0 <ℤ c.max_tokens
  pub cost : pos 0 <ℤ c.max_cost_cents
  pub wall_clock : pos 0 <ℤ c.max_wall_clock
  pub spawn_depth : pos 0 <ℤ c.max_spawn_depth

-- The spend is strictly inside every ceiling.
pub record Within (s : Spend) (c : Ceilings) : Type 0 where
  pub iterations : s.iterations <ℤ c.max_iterations
  pub tasks : s.tasks <ℤ c.max_tasks
  pub tool_calls : s.tool_calls <ℤ c.max_tool_calls
  pub tokens : s.tokens <ℤ c.max_tokens
  pub cost : s.cost_micro_cents <ℤ c.max_cost_cents *ℤ micro_cents_per_cent
  pub elapsed : s.elapsed <ℤ c.max_wall_clock
  pub spawn_depth : s.spawn_depth <ℤ c.max_spawn_depth

-- Validate accepts exactly the ceilings of which all eight are positive.
pub validate_iff : (c : Ceilings) → (validate c ≡ ok tt) ↔ AllSet c
unfolding validate first_unset
validate_iff c = (
  λ h. record {
    iterations = ground arith;
    tasks = ground arith;
    attempts = ground arith;
    tool_calls = ground arith;
    tokens = ground arith;
    cost = ground arith;
    wall_clock = ground arith;
    spawn_depth = ground arith;
  },
  λ a. ground (
    arith, a.iterations, a.tasks, a.attempts, a.tool_calls, a.tokens, a.cost, a.wall_clock,
    a.spawn_depth,
  ),
)

exact_cost :
    (c : Ceilings)
    → FitsInt64 (c.max_cost_cents *ℤ micro_cents_per_cent)
    → cost_ceiling c ≡ c.max_cost_cents *ℤ micro_cents_per_cent
unfolding cost_ceiling mul64
exact_cost c fits = wrap64-id (c.max_cost_cents *ℤ micro_cents_per_cent) fits

-- While the cost ceiling in micro-cents fits an int64, Exceeded reports nothing exactly when the spend
-- is strictly inside each of the seven ceilings that it compares.
pub exceeded_iff :
    (s : Spend) (c : Ceilings)
    → FitsInt64 (c.max_cost_cents *ℤ micro_cents_per_cent)
    → (exceeded s c ≡ none) ↔ Within s c
unfolding exceeded
exceeded_iff s c fits = (
  λ h. record {
    iterations = ground arith;
    tasks = ground arith;
    tool_calls = ground arith;
    tokens = ground arith;
    cost = rw (← exact_cost c fits) (ground arith);
    elapsed = ground arith;
    spawn_depth = ground arith;
  },
  λ w. ground (
    arith,
    exact_cost c fits,
    w.iterations,
    w.tasks,
    w.tool_calls,
    w.tokens,
    w.cost,
    w.elapsed,
    w.spawn_depth,
  ),
)
