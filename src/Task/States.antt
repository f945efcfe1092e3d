-- ===== src/Task/States.antt =====
-- internal/task/task.go: `State`, `Terminal`, the table `transitions` and `CanTransitionTo`.
use heros_agent.Base.{Bool, true, false, ◌||◌, List, [], ◌∷◌, String}

pub data State : Type 0 where
  pending ready running awaiting_approval succeeded failed blocked cancelled : State

abbrev pub state_name : State → String
state_name pending = "pending"
state_name ready = "ready"
state_name running = "running"
state_name awaiting_approval = "awaiting_approval"
state_name succeeded = "succeeded"
state_name failed = "failed"
state_name blocked = "blocked"
state_name cancelled = "cancelled"

abbrev pub same_state : State → State → Bool
same_state pending pending = true
same_state ready ready = true
same_state running running = true
same_state awaiting_approval awaiting_approval = true
same_state succeeded succeeded = true
same_state failed failed = true
same_state blocked blocked = true
same_state cancelled cancelled = true
same_state _ _ = false

abbrev pub terminal : State → Bool
terminal succeeded = true
terminal failed = true
terminal blocked = true
terminal cancelled = true
terminal _ = false

unfoldable pub transitions : State → List State
transitions pending = ready ∷ blocked ∷ cancelled ∷ []
transitions ready = running ∷ blocked ∷ cancelled ∷ []
transitions running = succeeded ∷ failed ∷ awaiting_approval ∷ ready ∷ cancelled ∷ []
transitions awaiting_approval = ready ∷ cancelled ∷ failed ∷ []
transitions succeeded = []
transitions failed = []
transitions blocked = []
transitions cancelled = []

any_state : List State → State → Bool
any_state [] next = false
any_state (s ∷ ss) next = same_state s next || any_state ss next

unfoldable pub can_transition_to : State → State → Bool
unfolding transitions any_state
can_transition_to s next = any_state (transitions s) next
