-- ===== src/Autonomy.antt =====
-- internal/autonomy/autonomy.go: how much an organization lets a run do without a person. A level is
-- the text that was stored, which may be none of the three that the code knows.
pub mod Closed
use heros_agent.Base.{
  ℕ, Bool, true, false, ◌||◌, ◌&&◌, not, Option, none, some, List, [], ◌∷◌, ◌++◌, String, str_eq,
  if◌then◌else◌,
}
use heros_agent.Base.Text.{Text, Piece, verbatim, quoted}
use heros_agent.Errors.{Error, Result, ok, err}
use heros_agent.Task.{Task, effect_bearing_kind}
use heros_agent.Goal.{Goal}

pub data Class : Type 0 where
  workspace publish : Class

abbrev pub class_name : Class → String
class_name workspace = "workspace"
class_name publish = "publish"

-- The table `classOf`.
unfoldable pub class_of : String → Option Class
class_of kind =
    if str_eq kind "write_source" || str_eq kind "publish_eval_set"
    then some workspace
    else if str_eq kind "open_pull_request" || str_eq kind "deliver_change"
    then some publish
    else none

-- The table `mayProceed`, where a level that is not in it permits nothing.
unfoldable pub may_proceed : String → Class → Bool
may_proceed level workspace = str_eq level "assisted" || str_eq level "autonomous"
may_proceed level publish = str_eq level "autonomous"

unfoldable pub is_valid : String → Bool
is_valid level = str_eq level "supervised" || str_eq level "assisted" || str_eq level "autonomous"

unfoldable pub describe : String → String
describe level =
    if str_eq level "supervised"
    then "every change waits for a person, including edits inside the workspace"
    else if str_eq level "assisted"
    then "edits inside the workspace go ahead; anything reaching your repository waits"
    else if str_eq level "autonomous"
    then "nothing waits for a person — runs are bounded only by their ceilings"
    else "unknown, so nothing proceeds without a person"

-- Source.AutonomyFor, from a tenant to its level.
abbrev pub Source : Type 0
Source = String → Result String

-- The last test of NeedsApproval, once the level is known.
unfoldable pub decide : String → Class → String → Bool × Text
decide kind c level =
    if not (may_proceed level c)
    then (
      true,
      quoted kind
          ∷ verbatim " is a "
          ∷ verbatim (class_name c)
          ∷ verbatim " change, and this organization is set to "
          ∷ verbatim level
          ∷ verbatim " — "
          ∷ verbatim (describe level)
          ∷ [],
    )
    else (
      false,
      quoted kind
          ∷ verbatim " is a "
          ∷ verbatim (class_name c)
          ∷ verbatim " change and this organization is set to "
          ∷ verbatim level
          ∷ verbatim ", so it proceeded without asking anybody"
          ∷ [],
    )

-- Policy.NeedsApproval. The source is nil if none is wired.
unfoldable pub needs_approval : Option Source → Goal → Task → Bool × Text
unfolding decide
needs_approval source g t =
    if not (effect_bearing_kind t.kind) then (false, []) else (elim (class_of t.kind) [
      | none ↦ (
        true,
        quoted t.kind
            ∷ verbatim
                " changes something outside the platform and this build has no autonomy class for it, so it waits for a person"
            ∷ [],
      )
      | some c ↦ elim source [
        | none ↦ (
          true,
          quoted t.kind ∷ verbatim " waits for a person: no autonomy setting is wired" ∷ [],
        )
        | some read ↦ elim (read g.tenant) [
          | err e ↦ (
            true,
            (quoted t.kind
                  ∷ verbatim
                      " waits for a person: this organization's autonomy setting could not be read ("
                  ∷ [])
                ++ e.message
                ++ verbatim ")" ∷ [],
          )
          | ok level ↦ decide t.kind c level
        ]
      ]
    ])
