-- ===== src/Memory.antt =====
-- internal/memory/memory.go: episodes, summaries and claims, with Promote and Compress. A sequence
-- number is a natural number: the store counts them from 1, and no list is as long as an int64.
pub mod Mem
pub mod Compressed
pub mod Recorded
pub mod Promoted
pub mod Claims
pub mod Scoped
pub mod Isolation
use heros_agent.Base.{
  ℕ, suc, ◌==◌, leb, Bool, true, false, not, ◌||◌, Option, none, some, List, [], ◌∷◌, String,
  str_eq, length, sort_le, if◌then◌else◌,
}
use heros_agent.Base.Text.{Text, verbatim, quoted, count}
use heros_agent.Errors.{
  Error, Result, ok, err, ◌>>◌, ◌>>=◌, plain, no_evidence, not_promotable, summary_gap,
  incompressible,
}

pub data EpisodeKind : Type 0 where
  decision effect observation failure : EpisodeKind

abbrev pub kind_name : EpisodeKind → String
kind_name observation = "observation"
kind_name decision = "decision"
kind_name failure = "failure"
kind_name effect = "effect"

-- `summarised_by` is 0 while no summary covers the episode.
pub record Episode : Type 0 where
  pub goal_id : String
  pub seq : ℕ
  pub task_id : String
  pub kind : EpisodeKind
  pub summary : Text
  pub detail : Text
  pub at : ℕ
  pub summarised_by : ℕ

abbrev pub is_observation : EpisodeKind → Bool
is_observation observation = true
is_observation _ = false

abbrev pub is_decision : EpisodeKind → Bool
is_decision decision = true
is_decision _ = false

abbrev pub is_effect : EpisodeKind → Bool
is_effect effect = true
is_effect _ = false

unfoldable pub compressible : Episode → Bool
compressible e = is_observation e.kind || is_decision e.kind

pub record Summary : Type 0 where
  pub goal_id : String
  pub id : ℕ
  pub from_seq : ℕ
  pub to_seq : ℕ
  pub content : String
  pub dropped : ℕ
  pub at : ℕ

pub record Knowledge : Type 0 where
  pub tenant : String
  pub subject : String
  pub key : String
  pub value : String
  pub evidence_goal_id : String
  pub evidence_seqs : List ℕ
  pub at : ℕ
  pub superseded_by : String

abbrev failed : Text → Error
failed message = record { sentinel = plain; message = message }

abbrev pub uncited : String → Error
uncited key = record {
  sentinel = no_evidence;
  message = verbatim "memory: knowledge promoted without citing evidence: " ∷ quoted key ∷ [];
}

abbrev spanning : String → String → Error
spanning goal_id other = record {
  sentinel = no_evidence;
  message =
      verbatim "memory: knowledge promoted without citing evidence: evidence spans goals "
      ∷ quoted goal_id
      ∷ verbatim " and "
      ∷ quoted other
      ∷ [];
}

abbrev no_basis : Episode → Error
no_basis e = record {
  sentinel = not_promotable;
  message =
      verbatim "memory: episode is not a valid basis for a claim: episode "
      ∷ count e.seq
      ∷ verbatim " is a "
      ∷ verbatim (kind_name e.kind)
      ∷ verbatim
          "; only observations and effects are evidence, because a decision is the agent's own reasoning"
      ∷ [];
}

-- The loop of Promote: the sequence numbers that the claim cites.
unfoldable pub cite : String → List Episode → Result (List ℕ)
cite goal_id [] = ok []
cite goal_id (e ∷ es) =
    let rest = cite goal_id es in
    if not (str_eq e.goal_id goal_id)
    then err (spanning goal_id e.goal_id)
    else if not (is_observation e.kind || is_effect e.kind)
    then err (no_basis e)
    else rest >>= λ seqs. ok (e.seq ∷ seqs)

unfoldable pub promote : String → String → String → String → List Episode → Result Knowledge
promote tenant subject key value [] = err (uncited key)
promote tenant subject key value (e ∷ es) = cite e.goal_id (e ∷ es) >>= λ seqs. ok (record {
  tenant = tenant;
  subject = subject;
  key = key;
  value = value;
  evidence_goal_id = e.goal_id;
  evidence_seqs = sort_le leb seqs;
  at = 0;
  superseded_by = "";
})

abbrev by_seq : Episode → Episode → Bool
by_seq a b = leb a.seq b.seq

abbrev of_another_goal : Episode → Error
of_another_goal e = record {
  sentinel = summary_gap;
  message =
      verbatim "memory: summary range has a gap or overlap: episode "
      ∷ count e.seq
      ∷ verbatim " belongs to goal "
      ∷ quoted e.goal_id
      ∷ [];
}

abbrev never_compressed : Episode → Error
never_compressed e = record {
  sentinel = incompressible;
  message =
      verbatim "memory: refusing to compress a failure or an effect: episode "
      ∷ count e.seq
      ∷ verbatim " is a "
      ∷ verbatim (kind_name e.kind)
      ∷ [];
}

abbrev broken_run : ℕ → ℕ → Error
broken_run seq previous = record {
  sentinel = summary_gap;
  message =
      verbatim "memory: summary range has a gap or overlap: "
      ∷ count seq
      ∷ verbatim " follows "
      ∷ count previous
      ∷ [];
}

-- The check on two neighbours; the first episode has none before it.
abbrev pub follows : Option ℕ → ℕ → Result (Unit {0})
follows none seq = ok tt
follows (some previous) seq =
    if not (seq == suc previous) then err (broken_run seq previous) else ok tt

-- The loop of Compress over the sorted episodes.
unfoldable pub check_run : String → Option ℕ → List Episode → Result (Unit {0})
check_run goal_id previous [] = ok tt
check_run goal_id previous (e ∷ es) =
    let rest = check_run goal_id (some e.seq) es in
    if not (str_eq e.goal_id goal_id)
    then err (of_another_goal e)
    else if not (compressible e)
    then err (never_compressed e)
    else follows previous e.seq >> rest

abbrev pub last_seq : Episode → List Episode → ℕ
last_seq e [] = e.seq
last_seq e (f ∷ fs) = last_seq f fs

-- What Compress makes of the sorted episodes, of which there are as many as it was given.
unfoldable pub fold : String → List Episode → String → ℕ → Result Summary
fold goal_id [] content now = err (failed (verbatim "memory: nothing to compress" ∷ []))
fold goal_id (e ∷ es) content now =
    check_run goal_id none (e ∷ es)
    >> ok (record {
      goal_id = goal_id;
      id = 0;
      from_seq = e.seq;
      to_seq = last_seq e es;
      content = content;
      dropped = length (e ∷ es);
      at = now;
    })

unfoldable pub compress : String → List Episode → String → ℕ → Result Summary
compress goal_id es content now = fold goal_id (sort_le by_seq es) content now
