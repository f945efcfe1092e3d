-- ===== src/Worker.antt =====
-- internal/worker/worker.go: the agent loop, one bounded cycle at a time. Here are the outcomes and what
-- a worker is made of; Worker/Cycle has RunOnce, Worker/Idle what it does when nothing is claimable.
--
-- The world of a cycle is the store, and a log of what left the worker: the calls of tools and the
-- episodes. The registry of tools is a parameter, a function of the call and the store: while a tool
-- runs, other callers use the store, so it answers with the store as it is afterwards.
pub mod Idle
pub mod Cycle
pub mod Quiet
pub mod Gate
pub mod Effects
pub mod Accounts
pub mod Ladder
pub mod Met
pub mod Finish
pub mod Agreed
pub mod Budget
pub mod Fitting
pub mod Charged
pub mod Bounded
pub mod Paid
pub use heros_agent.Memory.{EpisodeKind, decision, effect, observation, failure}
use heros_agent.Base.{
  ℕ, Bool, true, false, ◌||◌, not, Option, none, some, List, [], ◌∷◌, String, str_eq, Map,
  if◌then◌else◌,
}
use heros_agent.Base.Int64.{ℤ}
use heros_agent.Base.Text.{Text, Piece, verbatim, quoted}
use heros_agent.Errors.{Error, Result, ok, err, is_goal_terminal}
use heros_agent.Task.{Task, effect_bearing_kind}
use heros_agent.Dag.{Dag}
use heros_agent.Goal.{Goal}
use heros_agent.Store.{Memory, Method, save_goal}

pub data Did : Type 0 where
  work retry nothing complete stall stop replan blocked_on_approval await_approval : Did

pub record Outcome : Type 0 where
  pub did : Did
  pub task_id : String
  pub detail : Text
  pub more : Bool

-- toolcontract.Call and toolcontract.Result.
pub record Call : Type 0 where
  pub task_id : String
  pub goal_id : String
  pub kind : String
  pub idempotency_key : String
  pub input : List ℕ
  pub inputs : Map (List ℕ)
  pub attempt : ℤ

pub record ToolResult : Type 0 where
  pub output : List ℕ
  pub tokens : ℤ
  pub cost_micro_cents : ℤ
  pub tool_calls : ℤ

pub data Event : Type 0 where
  invoked : Call → Event
  episode : (tenant goal_id task_id : String) → EpisodeKind → (summary detail : Text) → ℕ → Event

pub record World : Type 0 where
  pub store : Memory
  pub log : List Event

pub record Worker : Type 0 where
  pub id : String
  pub lease : ℕ
  pub needs_approval : Goal → Task → Bool × Text
  pub invoke : Call → Memory → Memory × ToolResult × Option Error
  pub records_episodes : Bool
  pub reviser : Option (Goal → Dag → ℕ → Result (List Task))
  -- The reason that the most failed tasks gave, as a sentence.
  pub commonest_failure : Dag → Text

-- GateEffectsOutsideThePlatform, the default policy.
unfoldable pub gate_effects : Goal → Task → Bool × Text
gate_effects g t =
    if effect_bearing_kind t.kind
    then (true, quoted t.kind ∷ verbatim " changes something outside the platform" ∷ [])
    else (false, [])

-- What RunOnce returns, with the world after it.
abbrev pub Answer : Type 0
Answer = World × Outcome × Option Error

abbrev pub outcome : Did → String → Text → Bool → Outcome
outcome did task_id detail more = record {
  did = did;
  task_id = task_id;
  detail = detail;
  more = more;
}

-- `Outcome{Did: DidStop}` with an error.
abbrev pub stopped_by : Error → World → Answer
stopped_by e w = (w, outcome stop "" [] false, some e)

abbrev pub stopped : Text → World → Answer
stopped detail w = (w, outcome stop "" detail false, none)

-- A call of the store, and what follows on an error and on a result.
abbrev pub calling {ℓ} :
    {A : Type ℓ}
    → Memory × Result A
    → World
    → (Error → World → Answer)
    → (A → World → Answer)
    → Answer
calling (m, err e) w failed go = failed e (record w { store = m })
calling (m, ok a) w failed go = go a (record w { store = m })

abbrev pub stopped_elsewhere : Text
stopped_elsewhere =
    verbatim "the task that was already under way has finished; nothing further will start" ∷ []

-- SaveGoal, where a goal that somebody ended meanwhile is no error.
unfoldable pub saving : Goal → World → (World → Answer) → Answer
saving g w go =
    calling (save_goal g w.store) w
      (λ e w'.
        if is_goal_terminal e.sentinel then stopped stopped_elsewhere w' else stopped_by e w')
      (λ _ w'. go w')

-- `record`: an episode is written if there is where to, and for whom.
unfoldable pub record_episode :
    Worker → String → String → String → EpisodeKind → Text → Text → ℕ → World → World
record_episode wk tenant goal_id task_id kind summary detail now w =
    if not wk.records_episodes || str_eq tenant ""
    then w
    else record w { log = episode tenant goal_id task_id kind summary detail now ∷ w.log }
