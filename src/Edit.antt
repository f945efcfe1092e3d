-- ===== src/Edit.antt =====
-- internal/edit/edit.go: one contiguous replacement in one file. A text is its bytes, and the files are
-- a map from the resolved paths to their texts.

pub mod Splits
pub mod Applied
use heros_agent.Base.{
  ℕ, zero, suc, ◌==◌, ltb, Bool, true, false, not, ◌&&◌, ◌||◌, Option, none, some, List, [], ◌∷◌,
  ◌++◌, String, str_eq, Map, lookup, insert, length, if◌then◌else◌,
}
use heros_agent.Base.Int64.{ℤ}
use heros_agent.Base.Text.{Text, verbatim, count}
use heros_agent.Errors.{
  Error, Result, ok, err, ◌>>◌, ◌>>=◌, plain, text_absent, text_ambiguous, no_change,
  proposal_incomplete, indentation, not_verified,
}

abbrev pub Bytes : Type 0
Bytes = List ℕ

abbrev pub Files : Type 0
Files = Map Bytes

pub record Proposal : Type 0 where
  pub path : String
  pub line : ℤ
  pub before : Bytes
  pub after : Bytes
  pub axis : String
  pub rationale : String

abbrev refusal : Error → Result (Unit {0})
refusal e = err e

unfoldable pub same_bytes : Bytes → Bytes → Bool
same_bytes [] [] = true
same_bytes [] (y ∷ ys) = false
same_bytes (x ∷ xs) [] = false
same_bytes (x ∷ xs) (y ∷ ys) = let rest = same_bytes xs ys in if x == y then rest else false

-- strings.HasPrefix(text, part), and what follows the part.
unfoldable pub begins : Bytes → Bytes → Bool
begins [] text = true
begins (x ∷ part) [] = false
begins (x ∷ part) (y ∷ text) = let rest = begins part text in if x == y then rest else false

abbrev pub drop : ℕ → Bytes → Bytes
drop zero text = text
drop (suc n) [] = []
drop (suc n) (x ∷ text) = drop n text

-- strings.Count for a part that is not empty: occurrences from the left that do not overlap. The first
-- argument is what is left of the occurrence that was counted last.
unfoldable pub occurrences : ℕ → Bytes → Bytes → ℕ
occurrences inside part [] = 0
occurrences (suc inside) part (x ∷ text) = occurrences inside part text
occurrences zero part (x ∷ text) =
    let within = occurrences (length (drop 1 part)) part text in
    let later = occurrences zero part text in if begins part (x ∷ text) then suc within else later

-- strings.Replace(text, part, new, 1).
unfoldable pub replace_first : Bytes → Bytes → Bytes → Bytes
replace_first part new [] = []
replace_first part new (x ∷ text) =
    let rest = replace_first part new text in
    if begins part (x ∷ text) then new ++ drop (length part) (x ∷ text) else x ∷ rest

abbrev newline : ℕ
newline = 10

abbrev pub first_line : Bytes → Bytes
first_line [] = []
first_line (x ∷ text) = let rest = first_line text in if x == newline then [] else x ∷ rest

-- Spaces and tabs.
abbrev pub leading_space : Bytes → Bytes
leading_space [] = []
leading_space (x ∷ text) =
    let rest = leading_space text in if x == 32 || x == 9 then x ∷ rest else []

abbrev misindented : ℕ → ℕ → Error
misindented b a = record {
  sentinel = indentation;
  message =
      verbatim
        "edit: the replacement's indentation does not match the code it replaces: replaced text starts with "
      ∷ count b
      ∷ verbatim " space(s), replacement with "
      ∷ count a
      ∷ [];
}

unfoldable pub check_indent : Bytes → Bytes → Result (Unit {0})
check_indent before after =
    let b = leading_space (first_line before) in
    let a = leading_space (first_line after) in
    if not (same_bytes b a) then refusal (misindented (length b) (length a)) else ok tt

abbrev pub incomplete : Error
incomplete = record {
  sentinel = proposal_incomplete;
  message =
      verbatim "edit: the proposal is incomplete: path, before and after are all required" ∷ [];
}

abbrev pub unchanged : Error
unchanged = record {
  sentinel = no_change;
  message = verbatim "edit: the replacement is identical to what is already there" ∷ [];
}

abbrev pub unreadable : String → Error
unreadable path = record {
  sentinel = plain;
  message = verbatim "edit: reading " ∷ verbatim path ∷ [];
}

abbrev pub absent : String → Error
absent path = record {
  sentinel = text_absent;
  message = verbatim "edit: the text to change is not in that file any more: " ∷ verbatim path ∷ [];
}

abbrev pub ambiguous : ℕ → String → Error
ambiguous n path = record {
  sentinel = text_ambiguous;
  message =
      verbatim "edit: the text to change occurs more than once, so which one is meant is a guess: "
      ∷ count n
      ∷ verbatim " occurrences in "
      ∷ verbatim path
      ∷ [];
}

abbrev pub unverified : String → Error
unverified path = record {
  sentinel = not_verified;
  message =
      verbatim "edit: the file does not contain the approved text after writing: "
      ∷ verbatim path
      ∷ verbatim " does not match the approved change after writing"
      ∷ [];
}

abbrev pub is_empty : Bytes → Bool
is_empty [] = true
is_empty (x ∷ xs) = false

-- The switch on the number of occurrences.
abbrev pub judge : ℕ → String → Result (Unit {0})
judge n path =
    if n == 0 then refusal (absent path) else if ltb 1 n then refusal (ambiguous n path) else ok tt

-- What the operating system does: where a path leads, the first of the steps of writing the temporary
-- file and renaming it that fails, and what others do to the files before Apply reads the file, and
-- after it has been replaced.
pub record Os : Type 0 where
  pub resolve : String → String → Files → Result String
  pub fault : Option Error
  pub before_read : Files → Files
  pub before_check : Files → Files

abbrev pub read : String → String → Files → Result Bytes
read full path files = elim (lookup full files) [ none ↦ err (unreadable path) | some t ↦ ok t ]

unfoldable pub validate : Os → Proposal → String → Files → Result (Unit {0})
validate os p root files =
    if str_eq p.path "" || is_empty p.before || is_empty p.after
    then err incomplete
    else if same_bytes p.before p.after
    then err unchanged
    else os.resolve root p.path files >>= λ full. read full p.path files >>= λ text.
        judge (occurrences zero p.before text) p.path >> check_indent p.before p.after

-- The re-read.
unfoldable pub verify : String → Bytes → Proposal → Files → Result (Unit {0})
verify full updated p files = read full p.path files >>= λ again.
    if not (same_bytes again updated) then refusal (unverified p.path) else ok tt

-- The writing; a step that fails leaves the files as they are, without the temporary one.
unfoldable pub write : Os → Proposal → String → Bytes → Files → Files × Result (Unit {0})
write os p full text files = elim os.fault [
  | some e ↦ (files, err e)
  | none ↦
      let updated = replace_first p.before p.after text in
      let seen = os.before_check (insert full updated files) in (seen, verify full updated p seen)
]

unfoldable pub apply : Os → Proposal → String → Files → Files × Result (Unit {0})
apply os p root files =
    let now = os.before_read files in
    elim (validate os p root files) [
      | err e ↦ (files, err e)
      | ok _ ↦ elim (os.resolve root p.path now) [
        | err e ↦ (now, err e)
        | ok full ↦ elim (read full p.path now) [
          | err e ↦ (now, err e)
          | ok text ↦ write os p full text now
        ]
      ]
    ]
