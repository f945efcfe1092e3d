-- ===== src/Tools.antt =====
-- internal/toolcontract/toolcontract.go: the registry of tools, what it refuses, and Invoke, which
-- executes a call and has its effect confirmed by somebody else. The tools and the verifiers themselves
-- are parameters; the timeout's context is theirs to observe.
pub mod Verified
use heros_agent.Base.{
  ℕ, Bool, true, false, ◌&&◌, not, Option, none, some, List, [], ◌∷◌, ◌++◌, String, str_eq, Map,
  lookup, insert, delete, if◌then◌else◌,
}
use heros_agent.Base.Int64.{ℤ, pos, ltb_ℤ}
use heros_agent.Base.Text.{Text, Piece, verbatim, quoted, as_text}
use heros_agent.Errors.{
  Error, Sentinel, Result, ok, err, ◌>>=◌, ◌>>◌, plain, verify_inconclusive, tool_refused,
}
use heros_agent.Worker.{Call, ToolResult}

pub data Permission : Type 0 where
  read_source write_source call_model network_egress write_remote_repo : Permission

pub record Spec : Type 0 where
  pub kind : String
  pub permissions : List Permission
  pub timeout : ℤ
  pub retry_safe : Bool
  pub effect_bearing : Bool

pub record Tool : Type 0 where
  pub spec : Spec
  pub execute : Call → ToolResult × Option Error

-- (ok, detail, err)
abbrev pub Verifier : Type 0
Verifier = Call → ToolResult → Bool × Text × Option Error

pub record Registry : Type 0 where
  pub tools : Map Tool
  pub verifiers : Map Verifier

abbrev pub new_registry : Registry
new_registry = record { tools = []; verifiers = [] }

refusal : String → String → Error
refusal words kind = record { sentinel = tool_refused; message = verbatim words ∷ quoted kind ∷ [] }

abbrev refused_unless : Bool → Error → Result (Unit {0})
refused_unless fine failure = if fine then ok tt else err failure

abbrev given : Option Verifier → Bool
given none = false
given (some v) = true

abbrev any_permission : List Permission → Bool
any_permission [] = false
any_permission (p ∷ ps) = true

-- The refusals of Register, in its order.
unfoldable pub check_spec : Spec → Option Verifier → Result (Unit {0})
unfolding refusal
check_spec s v = do
  refused_unless (not (str_eq s.kind ""))
      (record { sentinel = plain; message = verbatim "toolcontract: tool has no kind" ∷ [] })
  refused_unless (ltb_ℤ (pos 0) s.timeout)
      (refusal "toolcontract: tool declares no timeout: " s.kind)
  refused_unless (not (s.effect_bearing && not (given v)))
      (refusal "toolcontract: effect-bearing tool has no verifier: " s.kind)
  refused_unless (not (s.effect_bearing && not (any_permission s.permissions)))
      (refusal "toolcontract: effect-bearing tool declares no permissions: " s.kind)

unfoldable pub check_new : Registry → Spec → Result (Unit {0})
check_new r s = elim (lookup s.kind r.tools) [
  | none ↦ ok tt
  | some old ↦ err (record {
    sentinel = plain;
    message = verbatim "toolcontract: " ∷ quoted s.kind ∷ verbatim " registered twice" ∷ [];
  })
]

abbrev pub put : Registry → Tool → Option Verifier → Registry
put r t none = record r { tools = insert t.spec.kind t r.tools }
put r t (some v) = record {
  tools = insert t.spec.kind t r.tools;
  verifiers = insert t.spec.kind v r.verifiers;
}

-- The registry after Register, and its error.
unfoldable pub register : Registry → Tool → Option Verifier → Registry × Option Error
register r t v = elim (check_spec t.spec v >> check_new r t.spec) [
  | err e ↦ (r, some e)
  | ok _ ↦ (put r t v, none)
]

-- Replace takes the old tool out first, whatever Register then says.
unfoldable pub replace : Registry → Tool → Option Verifier → Registry × Option Error
unfolding register
replace r t v =
    register
      (record { tools = delete t.spec.kind r.tools; verifiers = delete t.spec.kind r.verifiers }) t
      v

abbrev no_result : ToolResult
no_result = record { output = []; tokens = pos 0; cost_micro_cents = pos 0; tool_calls = pos 0 }

-- What the verifier's answer makes of the result.
unfoldable pub judge_verdict :
    Call → ToolResult → Bool × Text × Option Error → ToolResult × Option Error
unfolding refusal
judge_verdict c res (confirmed, detail, some e) = (
  res,
  some (record {
    sentinel = verify_inconclusive;
    message =
        verbatim "toolcontract: the effect could not be checked: "
        ∷ quoted c.kind
        ∷ verbatim ": "
        ∷ e.message;
  }),
)
judge_verdict c res (confirmed, detail, none) =
    if not confirmed
    then (
      res,
      some (record {
        sentinel = tool_refused;
        message =
            verbatim
              "toolcontract: the tool reported success but its effect could not be confirmed: "
            ∷ quoted c.kind
            ∷ verbatim ": "
            ∷ detail;
      }),
    )
    else (res, none)

unfoldable pub verify_call : Registry → Call → ToolResult → ToolResult × Option Error
unfolding judge_verdict
verify_call r c res = elim (lookup c.kind r.verifiers) [
  | none ↦ (res, none)
  | some v ↦ judge_verdict c res (v c res)
]

unfoldable pub run_tool : Registry → Tool → Call → ToolResult × Option Error
run_tool r t c =
    let (res, failed) = t.execute c in
    elim failed [ some e ↦ (res, some e) | none ↦ verify_call r c res ]

unfoldable pub invoke : Registry → Call → ToolResult × Option Error
unfolding refusal run_tool
invoke r c = elim (lookup c.kind r.tools) [
  | none ↦ (no_result, some (refusal "toolcontract: no tool registered for this kind: " c.kind))
  | some t ↦
      if t.spec.effect_bearing && str_eq c.idempotency_key ""
      then (
        no_result,
        some (refusal "toolcontract: effect-bearing call has no idempotency key: " c.kind),
      )
      else run_tool r t c
]
