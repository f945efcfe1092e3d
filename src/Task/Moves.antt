-- ===== src/Task/Moves.antt =====
-- The state machine of internal/task/task.go: what a legal move is, and what Transition returns.
use heros_agent.Base.{ℕ, ◌≡◌, refl, sym, ap, true, false, arith, ◌↔◌}
use heros_agent.Errors.{ok}
use heros_agent.Task.{Task, transition}
use heros_agent.Task.States.{
  State, pending, ready, running, awaiting_approval, succeeded, failed, blocked, cancelled,
  terminal, can_transition_to,
}

-- The transition diagram, an edge for each legal move.
infix 40 ◌⟶◌
pub data ◌⟶◌ : State → State → Type 0 where
  unblock : pending ⟶ ready
  start : ready ⟶ running
  finish : running ⟶ succeeded
  give_up : running ⟶ failed
  park : running ⟶ awaiting_approval
  yield : running ⟶ ready
  approve : awaiting_approval ⟶ ready
  reject : awaiting_approval ⟶ failed
  block_pending : pending ⟶ blocked
  block_ready : ready ⟶ blocked
  cancel_pending : pending ⟶ cancelled
  cancel_ready : ready ⟶ cancelled
  cancel_running : running ⟶ cancelled
  cancel_parked : awaiting_approval ⟶ cancelled

-- The task after a move.
abbrev pub moved_to : Task → State → ℕ → Task
moved_to t next now = record t { state = next; updated_at = now }

legal-⟶ : (s next : State) → can_transition_to s next ≡ true → s ⟶ next
unfolding can_transition_to
legal-⟶ pending ready h = unblock
legal-⟶ pending blocked h = block_pending
legal-⟶ pending cancelled h = cancel_pending
legal-⟶ ready running h = start
legal-⟶ ready blocked h = block_ready
legal-⟶ ready cancelled h = cancel_ready
legal-⟶ running succeeded h = finish
legal-⟶ running failed h = give_up
legal-⟶ running awaiting_approval h = park
legal-⟶ running ready h = yield
legal-⟶ running cancelled h = cancel_running
legal-⟶ awaiting_approval ready h = approve
legal-⟶ awaiting_approval failed h = reject
legal-⟶ awaiting_approval cancelled h = cancel_parked
legal-⟶ _ _ h = absurd (ground arith)

⟶-legal : {s next : State} → s ⟶ next → can_transition_to s next ≡ true
unfolding can_transition_to
⟶-legal unblock = refl
⟶-legal _ = refl

-- Transition moves a task exactly along an edge of the diagram, and changes nothing but the state and
-- the instant of the update.
pub transition_iff :
    (t t' : Task) (next : State) (now : ℕ)
    → (transition t next now ≡ ok t') ↔ ((t.state ⟶ next) × (t' ≡ moved_to t next now))
unfolding transition
transition_iff t t' next now = (
  λ h. (legal-⟶ t.state next (ground arith), ground arith),
  λ (edge, made). rw (⟶-legal edge) (ap ok (sym made)),
)

-- A state has a move exactly if it is not terminal.
pub terminal_iff : (s : State) → (terminal s ≡ false) ↔ ((next : State) × (s ⟶ next))
terminal_iff s = (to s, λ (next, edge). from edge)
  where
    to : (s : State) → terminal s ≡ false → (next : State) × (s ⟶ next)
    to pending h = (ready, unblock)
    to ready h = (running, start)
    to running h = (ready, yield)
    to awaiting_approval h = (ready, approve)
    to _ h = absurd (ground arith)

    from : {s next : State} → s ⟶ next → terminal s ≡ false
    from unblock = refl
    from _ = refl

-- A person can stop every task that has not ended.
pub open-cancel : (s : State) → terminal s ≡ false → s ⟶ cancelled
open-cancel pending h = cancel_pending
open-cancel ready h = cancel_ready
open-cancel running h = cancel_running
open-cancel awaiting_approval h = cancel_parked
open-cancel _ h = absurd (ground arith)
