-- ===== src/Bounds.antt =====
-- internal/bounds/bounds.go: the ceilings of one goal, what it has spent, and refusals.
pub mod Causes
pub mod Limits
use heros_agent.Base.{
  ℕ, ◌≤◌, ◌==◌, Bool, true, false, ◌&&◌, Option, none, some, List, [], ◌∷◌, ◌++◌, String, str_eq,
  not, if◌then◌else◌,
}
use heros_agent.Base.Int64.{ℤ, pos, ltb_ℤ, leb_ℤ, mul64}
use heros_agent.Base.Text.{Text, Piece, verbatim}
use heros_agent.Errors.{Error, Result, ok, err, ceiling_unset, refused}
use Causes.{RefusalCause, cause_name, next_action}

pub record Ceilings : Type 0 where
  pub max_iterations : ℤ
  pub max_tasks : ℤ
  pub max_attempts_per_task : ℤ
  pub max_tool_calls : ℤ
  pub max_tokens : ℤ
  pub max_cost_cents : ℤ
  pub max_wall_clock : ℤ
  pub max_spawn_depth : ℤ

pub record Spend : Type 0 where
  pub iterations : ℤ
  pub tasks : ℤ
  pub tool_calls : ℤ
  pub tokens : ℤ
  pub cost_micro_cents : ℤ
  pub elapsed : ℤ
  pub spawn_depth : ℤ

-- The names that Validate and Exceeded report.
pub data Ceiling : Type 0 where
  iterations tasks attempts_per_task tool_calls tokens cost_cents wall_clock spawn_depth : Ceiling

abbrev pub ceiling_name : Ceiling → String
ceiling_name iterations = "MaxIterations"
ceiling_name tasks = "MaxTasks"
ceiling_name attempts_per_task = "MaxAttemptsPerTask"
ceiling_name tool_calls = "MaxToolCalls"
ceiling_name tokens = "MaxTokens"
ceiling_name cost_cents = "MaxCostCents"
ceiling_name wall_clock = "MaxWallClock"
ceiling_name spawn_depth = "MaxSpawnDepth"

unset : Ceiling → Result (Unit {0})
unset c = err (record {
  sentinel = ceiling_unset;
  message =
      verbatim "bounds: ceiling is unset, which is not a licence to run unbounded: "
      ∷ verbatim (ceiling_name c)
      ∷ [];
})

-- The loop over `checks`: the first that fails is reported.
first_unset : List (Ceiling × Bool) → Result (Unit {0})
unfolding unset
first_unset [] = ok tt
first_unset ((c, passed) ∷ rest) = if not passed then unset c else first_unset rest

unfoldable pub validate : Ceilings → Result (Unit {0})
unfolding first_unset
validate c = first_unset (
    (iterations, ltb_ℤ (pos 0) c.max_iterations)
    ∷ (tasks, ltb_ℤ (pos 0) c.max_tasks)
    ∷ (attempts_per_task, ltb_ℤ (pos 0) c.max_attempts_per_task)
    ∷ (tool_calls, ltb_ℤ (pos 0) c.max_tool_calls)
    ∷ (tokens, ltb_ℤ (pos 0) c.max_tokens)
    ∷ (cost_cents, ltb_ℤ (pos 0) c.max_cost_cents)
    ∷ (wall_clock, ltb_ℤ (pos 0) c.max_wall_clock)
    ∷ (spawn_depth, ltb_ℤ (pos 0) c.max_spawn_depth)
    ∷ [])

abbrev pub micro_cents_per_cent : ℤ
micro_cents_per_cent = pos 1000000

-- The cost ceiling in the ledger's unit. The product is an int64, and wraps.
unfoldable pub cost_ceiling : Ceilings → ℤ
cost_ceiling c = mul64 c.max_cost_cents micro_cents_per_cent

unfoldable pub exceeded : Spend → Ceilings → Option Ceiling
exceeded s c =
    if leb_ℤ c.max_iterations s.iterations
    then some iterations
    else if leb_ℤ c.max_tasks s.tasks
    then some tasks
    else if leb_ℤ c.max_tool_calls s.tool_calls
    then some tool_calls
    else if leb_ℤ c.max_tokens s.tokens
    then some tokens
    else if leb_ℤ (cost_ceiling c) s.cost_micro_cents
    then some cost_cents
    else if leb_ℤ c.max_wall_clock s.elapsed
    then some wall_clock
    else if leb_ℤ c.max_spawn_depth s.spawn_depth
    then some spawn_depth
    else none

pub record Refusal : Type 0 where
  pub cause : RefusalCause
  pub detail : Text

-- Refusal.Error: the cause, the detail in brackets if there is one, and the next action.
unfoldable pub refusal_text : Refusal → Text
refusal_text r =
    (verbatim "refused: " ∷ verbatim (cause_name r.cause) ∷ [])
    ++ (elim r.detail [ [] ↦ [] | p ∷ ps ↦ verbatim " (" ∷ (p ∷ ps) ++ verbatim ")" ∷ [] ])
    ++ (if str_eq (next_action r.cause) ""
        then []
        else verbatim " — " ∷ verbatim (next_action r.cause) ∷ [])

-- A Refusal as an error value.
unfoldable pub refuse_error : Refusal → Error
refuse_error r = record { sentinel = refused r.cause; message = refusal_text r }
