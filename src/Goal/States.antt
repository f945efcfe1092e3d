-- ===== src/Goal/States.antt =====
-- internal/goal/goal.go: the states of a goal.
use heros_agent.Base.{Bool, true, false, String}

pub data State : Type 0 where
  draft running paused succeeded failed refused cancelled : State

abbrev pub state_name : State → String
state_name draft = "draft"
state_name running = "running"
state_name paused = "paused"
state_name succeeded = "succeeded"
state_name failed = "failed"
state_name refused = "refused"
state_name cancelled = "cancelled"

abbrev pub same_state : State → State → Bool
same_state draft draft = true
same_state running running = true
same_state paused paused = true
same_state succeeded succeeded = true
same_state failed failed = true
same_state refused refused = true
same_state cancelled cancelled = true
same_state _ _ = false

abbrev pub terminal : State → Bool
terminal succeeded = true
terminal failed = true
terminal refused = true
terminal cancelled = true
terminal _ = false
