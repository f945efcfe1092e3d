-- ===== src/Worker/Effects.antt =====
-- Cycles under the default policy GateEffectsOutsideThePlatform (internal/worker/worker.go).
use heros_agent.Base.{
  ℕ, ◌≡◌, sym, ◌∙◌, ap, true, false, Option, List, ◌∷◌, length, String, str_eq, arith,
}
use heros_agent.Errors.{Error, ok}
use heros_agent.Task.{Task, effect_bearing_kind, require_idempotency}
use heros_agent.Goal.{Goal}
use heros_agent.Store.{Memory}
use heros_agent.Store.Leases.{claim}
use heros_agent.Worker.{Worker, World, Call, gate_effects}
use heros_agent.Worker.Quiet.{calls}
use heros_agent.Worker.Cycle.{run_once, call_for}
use heros_agent.Worker.Gate.{Gated, no_call, one_call, run_once-Gated}

-- The call is for a task that Claim gave to the worker, and that a person has approved under a key.
pub record ApprovedCall (wk : Worker) (goal_id : String) (now : ℕ) (m : Memory) (c : Call)
    : Type 0 where
  pub task : Task
  pub after : Memory
  pub claimed : claim goal_id wk.id wk.lease now m ≡ (after, ok task)
  pub same_task : c.task_id ≡ task.id
  pub approved : task.approved ≡ true
  pub keyed : str_eq c.idempotency_key "" ≡ false

-- Under the default policy, a cycle that calls a tool of a kind that changes something outside the
-- platform calls it for a claimed task that a person has approved, and with an idempotency key.
pub effect-ApprovedCall :
    (wk : Worker) (goal_id : String) (now : ℕ) (ctx_error : Option Error) (w : World) (c : Call)
    → ((g : Goal) (t : Task) → wk.needs_approval g t ≡ gate_effects g t)
    → calls (run_once wk goal_id now ctx_error w).0.log ≡ c ∷ calls w.log
    → effect_bearing_kind c.kind ≡ true
    → ApprovedCall wk goal_id now w.store c
unfolding gate_effects require_idempotency call_for
effect-ApprovedCall wk goal_id now ctx_error w c default called effectful =
    from_gate (run_once-Gated wk goal_id now ctx_error w)
  where
    longer : {cs : List Call} → ¬ (cs ≡ c ∷ cs)
    longer e = omega (arith, ap length e)

    from_gate :
        Gated wk goal_id now ctx_error w (run_once wk goal_id now ctx_error w)
        → ApprovedCall wk goal_id now w.store c
    from_gate (no_call quiet) = absurd (longer (sym quiet ∙ called))
    from_gate (one_call c' a called') =
        let same : c' ≡ c = ground arith in
        record {
          task = a.task;
          after = a.after;
          claimed = a.claimed;
          same_task = ground (arith, a.call);
          approved = ground (arith, a.passed, a.call, default a.goal a.task);
          keyed = ground (arith, a.keyed, a.call);
        }
