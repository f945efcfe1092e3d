-- ===== src/Base/Text.antt =====
-- Text that the program formats with `fmt.Sprintf`, kept as its pieces: the verbatim text between the
-- verbs, and the argument of each verb. Two formatted texts are equal here when their formats and
-- their arguments are.
use Prim.Native.Nat.{ℕ}
use Prim.Native.String.{String}
use mathlib.Core.List.{List, [], ◌∷◌}
use text.Mathlib.Text.{◌==◌ as str_eq}
use heros_agent.Base.Tests.{if◌then◌else◌}
use heros_agent.Base.Int64.{ℤ}

-- `verbatim` is literal text and `%s`, `quoted` is `%q`, `count` and `int` are `%d`, `instant` is a
-- formatted time.
pub data Piece : Type 0 where
  verbatim : String → Piece
  quoted : String → Piece
  count : ℕ → Piece
  int : ℤ → Piece
  instant : ℕ → Piece

abbrev pub Text : Type 0
Text = List Piece

-- A text from outside; the empty one has no pieces.
abbrev pub as_text : String → Text
as_text s = if str_eq s "" then [] else verbatim s ∷ []
