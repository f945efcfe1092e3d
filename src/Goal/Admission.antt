-- ===== src/Goal/Admission.antt =====
-- Admit (internal/goal/goal.go): what a goal needs before it may run.
use heros_agent.Base.{
  ℕ, ◌≡◌, ◌≢◌, refl, arith, ◌↔◌, true, List, [], ◌∷◌, String, str_eq, str_eq-false, str_eq-true,
  eq_iff, inl, inr, Bool-cases,
}
use mathlib.Core.List.{Memᴰ}
use heros_agent.Errors.{ok}
use heros_agent.Intent.{durable, axes}
use heros_agent.Bounds.{validate}
use heros_agent.Bounds.Limits.{AllSet, validate_iff}
use heros_agent.Goal.{
  Goal, Criterion, admit, check_admission, check_axes, check_ceilings, check_criteria, names,
}
use heros_agent.Goal.States.{draft, running}

-- What Admit asks of a goal.
pub record Admissible (g : Goal) : Type 0 where
  pub is_draft : g.state ≡ draft
  pub is_durable : durable g.intent ≡ true
  pub has_repo : g.subject.repo_url ≢ ""
  pub has_revision : g.subject.revision ≢ ""
  pub bounded : AllSet g.ceilings
  pub known_axes : (a : String) → Memᴰ a g.axes → Memᴰ a axes
  pub has_criteria : g.criteria ≢ []

names-true : (a : String) (bs : List String) → names bs a ≡ true → Memᴰ a bs
names-true a [] h = ground arith
names-true a (b ∷ bs) h = elim (Bool-cases (str_eq b a)) [
  | inl e ↦ Memᴰ.head (ground (arith, str_eq-true b a e))
  | inr e ↦ Memᴰ.tail (names-true a bs (ground arith))
]

names_of : (a : String) (bs : List String) → Memᴰ a bs → names bs a ≡ true
names_of a [] m = elim m [ ]
names_of a (b ∷ bs) (Memᴰ.head e) = ground (arith, eq_iff b a)
names_of a (b ∷ bs) (Memᴰ.tail m) = ground (arith, names_of a bs m)

check_axes_sound :
    (valid asked : List String)
    → check_axes valid asked ≡ ok tt
    → (a : String) → Memᴰ a asked
    → Memᴰ a valid
unfolding check_axes
check_axes_sound valid [] h a m = elim m [ ]
check_axes_sound valid (b ∷ asked) h a (Memᴰ.head e) = names-true a valid (ground arith)
check_axes_sound valid (b ∷ asked) h a (Memᴰ.tail m) =
    check_axes_sound valid asked (ground arith) a m

check_axes_complete :
    (valid asked : List String)
    → ((a : String) → Memᴰ a asked → Memᴰ a valid)
    → check_axes valid asked ≡ ok tt
unfolding check_axes
check_axes_complete valid [] sub = refl
check_axes_complete valid (b ∷ asked) sub = ground (
  arith,
  names_of b valid (sub b (Memᴰ.head refl)),
  check_axes_complete valid asked (λ a m. sub a (Memᴰ.tail m)),
)

check_ceilings-ok : (g : Goal) → check_ceilings g.ceilings ≡ ok tt → validate g.ceilings ≡ ok tt
unfolding check_ceilings
check_ceilings-ok g h = ground arith

check_criteria-ok : (cs : List Criterion) → check_criteria cs ≡ ok tt → cs ≢ []
unfolding check_criteria
check_criteria-ok [] h e = ground arith
check_criteria-ok (c ∷ cs) h e = ground arith

check_criteria_complete : (cs : List Criterion) → cs ≢ [] → check_criteria cs ≡ ok tt
unfolding check_criteria
check_criteria_complete [] some_left = absurd (some_left refl)
check_criteria_complete (c ∷ cs) some_left = refl

check_admission-ok : (g : Goal) → check_admission g ≡ ok tt → Admissible g
unfolding check_admission
check_admission-ok g h = record {
  is_draft = ground arith;
  is_durable = ground arith;
  has_repo = λ e. ground (arith, eq_iff g.subject.repo_url "");
  has_revision = λ e. ground (arith, eq_iff g.subject.revision "");
  bounded = (validate_iff g.ceilings).0 (check_ceilings-ok g (ground arith));
  known_axes = check_axes_sound axes g.axes (ground arith);
  has_criteria = check_criteria-ok g.criteria (ground arith);
}

check_ceilings_complete : (g : Goal) → AllSet g.ceilings → check_ceilings g.ceilings ≡ ok tt
unfolding check_ceilings
check_ceilings_complete g all = ground (arith, (validate_iff g.ceilings).1 all)

check_admission_complete : (g : Goal) → Admissible g → check_admission g ≡ ok tt
unfolding check_admission
check_admission_complete g a = ground (
  arith,
  a.is_draft,
  a.is_durable,
  str_eq-false g.subject.repo_url "" a.has_repo,
  str_eq-false g.subject.revision "" a.has_revision,
  check_ceilings_complete g a.bounded,
  check_axes_complete axes g.axes a.known_axes,
  check_criteria_complete g.criteria a.has_criteria,
)

-- Admit succeeds exactly on a draft of a durable intent with a repository, a revision, all ceilings
-- set, only known axes and at least one completion criterion; and what it returns is then the same
-- goal, running and stamped with the time.
pub admit_iff :
    (g g' : Goal) (now : ℕ)
    → (admit g now ≡ ok g') ↔ (Admissible g × (g' ≡ record g { state = running; updated_at = now }))
unfolding admit
admit_iff g g' now = (
  λ h. (check_admission-ok g (ground arith), ground arith),
  λ (a, e). ground (arith, check_admission_complete g a, e),
)
