-- ===== src/Base/Decimal.antt =====
-- Texts that Go builds with `+` and `%d`: joining texts, and a natural number in decimal.
use Prim.Native.Nat.{ℕ, zero, suc, ◌/◌, ◌%◌}
use Prim.Native.String.{String, ◌++◌}
use mathlib.Core.Path.{◌≡◌}
use text.Mathlib.TextLemmas.{append_cancel_left}
use mathlib.Core.Bool.{true, false}
use heros_agent.Base.Tests.{◌==◌, if◌then◌else◌, ltb}

infixr 66 ◌<+>◌
abbrev pub ◌<+>◌ : String → String → String
s <+> t = s ++ t

pub join_cancel : (s t u : String) → s <+> t ≡ s <+> u → t ≡ u
join_cancel s t u = append_cancel_left s t u

abbrev digit : ℕ → String
digit d =
    if d == 0
    then "0"
    else if d == 1
    then "1"
    else if d == 2
    then "2"
    else if d == 3
    then "3"
    else if d == 4
    then "4"
    else if d == 5
    then "5"
    else if d == 6
    then "6"
    else if d == 7
    then "7"
    else if d == 8
    then "8"
    else "9"

-- The digits from the last to the first; a number has fewer of them than it counts, and one more.
abbrev digits : ℕ → ℕ → String → String
digits zero n later = later
digits (suc fuel) n later =
    let text = digit (n % 10) ++ later in
    elim (ltb n 10) [ true ↦ text | false ↦ digits fuel (n / 10) text ]

unfoldable pub decimal : ℕ → String
decimal n = digits (suc n) n ""
