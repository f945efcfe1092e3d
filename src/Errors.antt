-- ===== src/Errors.antt =====
-- The program's errors: a sentinel, which `errors.Is` reads, and the formatted text around it.
-- internal/task/task.go, internal/goal/goal.go, internal/store/store.go, internal/bounds/bounds.go,
-- internal/toolcontract/toolcontract.go.
use heros_agent.Base.{Bool, true, false, [], ◌∷◌}
use heros_agent.Base.{◌≡◌, refl, arith, ◌⊎◌, inl, inr}
use heros_agent.Base.Text.{Text, verbatim}
use heros_agent.Bounds.Causes.{RefusalCause}

pub data Sentinel : Type 0 where
  -- internal/task
  unknown_task cycle illegal_move no_idempotency : Sentinel
  -- internal/goal
  not_durable no_criteria illegal_state : Sentinel
  -- internal/store
  goal_not_found task_not_found not_claimable lease_lost no_work goal_terminal : Sentinel
  -- internal/bounds: an unset ceiling, and a Refusal returned as an error
  ceiling_unset : Sentinel
  refused : RefusalCause → Sentinel
  -- internal/toolcontract
  verify_inconclusive : Sentinel
  -- its other sentinels, which no caller tells apart
  tool_refused : Sentinel
  -- internal/memory
  no_evidence not_promotable summary_gap incompressible history_not_found : Sentinel
  -- internal/edit
  text_absent text_ambiguous no_change proposal_incomplete indentation not_verified : Sentinel
  -- an error that wraps no sentinel
  plain : Sentinel
  -- the run-time panic of a field read through a nil *Task
  nil_dereference : Sentinel
  -- the model's own: a loop ran out of the fuel that it was given
  unfinished_loop : Sentinel

pub record Error : Type 0 where
  pub sentinel : Sentinel
  pub message : Text

-- A Go result with its error: the error is nil exactly for `ok`.
pub data Result {ℓ} (T : Type ℓ) : Type ℓ where
  err : Error → Result T
  ok : T → Result T

infixl 5 ◌>>=◌ ◌>>◌
-- `if err != nil { return err }`, and on.
abbrev pub ◌>>=◌ {ℓ κ} : {T : Type ℓ} {U : Type κ} → Result T → (T → Result U) → Result U
err failure >>= next = err failure
ok value >>= next = next value

abbrev pub ◌>>◌ {ℓ} : {U : Type ℓ} → Result (Unit {0}) → Result U → Result U
check >> after = check >>= λ done. after

abbrev pub is_no_work : Sentinel → Bool
is_no_work no_work = true
is_no_work _ = false

abbrev pub is_lease_lost : Sentinel → Bool
is_lease_lost lease_lost = true
is_lease_lost _ = false

abbrev pub is_goal_terminal : Sentinel → Bool
is_goal_terminal goal_terminal = true
is_goal_terminal _ = false

abbrev pub is_verify_inconclusive : Sentinel → Bool
is_verify_inconclusive verify_inconclusive = true
is_verify_inconclusive _ = false

abbrev pub panic : Error
panic = record { sentinel = nil_dereference; message = verbatim "nil pointer dereference" ∷ [] }

abbrev pub unfinished : Error
unfinished = record { sentinel = unfinished_loop; message = [] }

module _ {ℓ} {T : Type ℓ} where
  -- A block that succeeded had every line of it succeed.
  pub >>=-eq-ok {κ} :
      {U : Type κ} (first : Result T) (next : T → Result U) {u : U}
      → (first >>= next) ≡ ok u
      → (t : T) × (first ≡ ok t) × (next t ≡ ok u)
  >>=-eq-ok (err failure) next h = absurd (ground arith)
  >>=-eq-ok (ok value) next h = (value, refl, h)

  pub >>-eq-ok :
      (check : Result (Unit {0})) (after : Result T) {t : T}
      → (check >> after) ≡ ok t
      → (check ≡ ok tt) × (after ≡ ok t)
  >>-eq-ok (err failure) after h = absurd (ground arith)
  >>-eq-ok (ok tt) after h = (refl, h)

  -- An outcome is either.
  pub err_or_ok :
      (outcome : Result T)
      → ((failure : Error) × (outcome ≡ err failure)) ⊎ ((value : T) × (outcome ≡ ok value))
  err_or_ok (ok value) = inr (value, refl)
  err_or_ok (err failure) = inl (failure, refl)
