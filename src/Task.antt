-- ===== src/Task.antt =====
-- internal/task/task.go: the states of a task and its transitions. The graph is in Dag.
pub mod States
pub mod Moves
use heros_agent.Base.{
  ℕ, Bool, true, false, ◌&&◌, ◌||◌, Option, none, some, List, [], ◌∷◌, ◌++◌, String, str_eq,
  if◌then◌else◌,
}
use heros_agent.Base.Int64.{ℤ}
use heros_agent.Base.Text.{Text, Piece, verbatim, quoted}
use heros_agent.Errors.{Error, Result, ok, err, illegal_move, no_idempotency}
use States.{State, can_transition_to, state_name}

-- An instant is the number of nanoseconds after Go's zero time, which is 0.
pub record Task : Type 0 where
  pub id : String
  pub goal_id : String
  pub kind : String
  pub depends_on : List String
  pub contributes : List String
  pub state : State
  pub attempt : ℤ
  pub spawn_depth : ℤ
  pub idempotency_key : String
  pub approved : Bool
  pub result : List ℕ
  pub failure : Text
  pub leased_by : String
  pub lease_expiry : ℕ
  pub created_at : ℕ
  pub updated_at : ℕ

illegal : Task → State → Error
illegal t next = record {
  sentinel = illegal_move;
  message =
      verbatim "task: illegal state transition: "
      ∷ verbatim (state_name t.state)
      ∷ verbatim " → "
      ∷ verbatim (state_name next)
      ∷ verbatim " (task "
      ∷ quoted t.id
      ∷ verbatim ")"
      ∷ [];
}

unfoldable pub transition : Task → State → ℕ → Result Task
unfolding illegal
transition t next now =
    if can_transition_to t.state next
    then ok (record t { state = next; updated_at = now })
    else err (illegal t next)

-- The table `EffectBearingKinds`.
unfoldable pub effect_bearing_kind : String → Bool
effect_bearing_kind kind =
    str_eq kind "open_pull_request"
    || str_eq kind "write_source"
    || str_eq kind "deliver_change"
    || str_eq kind "publish_eval_set"

keyless : Task → Error
keyless t = record {
  sentinel = no_idempotency;
  message =
      verbatim "task: effect-bearing task has no idempotency key: kind "
      ∷ quoted t.kind
      ∷ verbatim ", task "
      ∷ quoted t.id
      ∷ [];
}

unfoldable pub require_idempotency : Task → Result (Unit {0})
unfolding keyless
require_idempotency t =
    if effect_bearing_kind t.kind && str_eq t.idempotency_key "" then err (keyless t) else ok tt

-- Every dependency, required and contributory.
unfoldable pub edges : Task → List String
edges t = elim t.contributes [ [] ↦ t.depends_on | c ∷ cs ↦ t.depends_on ++ (c ∷ cs) ]
