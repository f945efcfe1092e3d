-- ===== src/Tests/Edits.antt =====
-- A file with an old line in it, and its replacement.
use heros_agent.Base.{ℕ, zero, ◌≡◌, refl, none, some, List, [], ◌∷◌, String, ◌⊎◌}
use heros_agent.Base.Int64.{pos}
use heros_agent.Errors.{Error, ok, err}
use heros_agent.Edit.{Bytes, Files, Proposal, Os, validate, apply, occurrences}
use heros_agent.Edit.Applied.{IsSafe, IsWritten, apply_lem}

abbrev plain_os : Os
plain_os = record {
  resolve = λ root path files. ok path;
  fault = none;
  before_read = λ files. files;
  before_check = λ files. files;
}

abbrev proposal : Proposal
proposal = record {
  path = "agent";
  line = pos 1;
  before = 5 ∷ 6 ∷ [];
  after = 5 ∷ 7 ∷ [];
  axis = "tools";
  rationale = "";
}

abbrev files : Files
files = ("agent", 4 ∷ 5 ∷ 6 ∷ 4 ∷ []) ∷ []

apply_lem_example :
    ((e : Error) × (validate plain_os proposal "root" files ≡ err e)
      × (apply plain_os proposal "root" files ≡ (files, err e)))
    ⊎ ((full : String) × (u : Bytes) × (v : Bytes) × IsSafe plain_os proposal "root" files full u v
        × IsWritten plain_os proposal files full u v (apply plain_os proposal "root" files))
apply_lem_example = apply_lem plain_os proposal "root" files refl

-- The edit is made.
apply_test : apply plain_os proposal "root" files ≡ (("agent", 4 ∷ 5 ∷ 7 ∷ 4 ∷ []) ∷ [], ok tt)
unfolding apply validate heros_agent.Edit.same_bytes heros_agent.Base.lookup occurrences
    heros_agent.Edit.begins heros_agent.Edit.check_indent heros_agent.Edit.write
    heros_agent.Base.insert heros_agent.Edit.verify heros_agent.Edit.replace_first
apply_test = refl

-- A text that stands in two places that overlap is counted once.
overlap_test : occurrences zero (5 ∷ 5 ∷ []) (5 ∷ 5 ∷ 5 ∷ []) ≡ 1
unfolding occurrences heros_agent.Edit.begins
overlap_test = refl
