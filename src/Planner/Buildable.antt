-- ===== src/Planner/Buildable.antt =====
-- internal/planner/plans.go: the plans of the four planners, built by Build.
use heros_agent.Base.{
  ◌≡◌, ◌≢◌, refl, sym, ap, ◌∙◌, subst, arith, ℕ, ◌<◌, true, false, Option, none, some, List, [],
  ◌∷◌, ◌++◌, String, str_eq, length, if◌then◌else◌, inl, inr, ◌⊎◌, str_eq-false, eq_iff, append-nil,
}
use heros_agent.Base.Int64.{pos, ◌≤ℤ◌}
use text.Mathlib.TextLemmas.{append-eq-nil_iff}
use heros_agent.Errors.{ok}
use heros_agent.Intent.{Intent, durable}
use heros_agent.Intent as Intents
use heros_agent.Task.{Task, require_idempotency, effect_bearing_kind}
use heros_agent.Dag.{Dag}
use heros_agent.Dag.Build.{new_dag}
use heros_agent.Dag.Valid.{IsBuilt}
use heros_agent.Dag.Answers.{new_dag-IsBuilt}
use heros_agent.Dag.Ranked.{Distinct, ranked_builds}
use heros_agent.Goal.{Goal}
use heros_agent.Planner.{
  Planner, Registry, planner_for, all_keyed, check_size, build, new_registry, add_planners, missing,
}
use heros_agent.Planner.Plans.{
  Finding, axes_of, axis_tasks, fan_in, plan_assess, plan_compare, plan_evalset, planner_assess,
  planner_improve, planner_evalset, planner_compare, default_registry, synthesise, compare_results,
  key_for,
}
use heros_agent.Planner.FanIn.{
  Apart, last, rank, fan_in-IsRanked, axis_tasks-keyed, all_keyed-append,
}

evalset-builds : (g : Goal) (now : ℕ) → (d : Dag) × (new_dag g.id (plan_evalset g now) ≡ ok d)
unfolding plan_evalset new_dag heros_agent.Dag.Build.fill heros_agent.Base.lookup
    heros_agent.Base.insert heros_agent.Dag.Build.all_known heros_agent.Dag.Build.known_deps
    heros_agent.Dag.Build.detect_cycle heros_agent.Dag.ids heros_agent.Dag.Sort.sort
    heros_agent.Dag.Build.search_from heros_agent.Task.edges heros_agent.Dag.Build.search_step
evalset-builds g now = (_, refl)

colon_there : ◌≢◌ {A = String} ":" ""
colon_there e = let same : str_eq ":" "" ≡ true = (eq_iff ":" "").1 e in absurd (ground arith)

key_for_there : (g : Goal) (what : String) → key_for g what ≢ ""
key_for_there g what empty =
    let (_, rest) = append-eq-nil_iff.0 empty in
    let (colon, _) = append-eq-nil_iff.0 rest in colon_there colon

-- Tasks that Build takes, if they are not too many.
record IsBuildable (g : Goal) (ts : List Task) : Type 0 where
  keyed : all_keyed ts ≡ ok tt
  some_task : ts ≢ []
  graph : (d : Dag) × (new_dag g.id ts ≡ ok d)

evalset-IsBuildable : (g : Goal) (now : ℕ) → IsBuildable g (plan_evalset g now)
unfolding plan_evalset all_keyed require_idempotency effect_bearing_kind
evalset-IsBuildable g now = record {
  keyed =
      let named : str_eq (key_for g "evalset") "" ≡ false =
        str_eq-false (key_for g "evalset") "" (key_for_there g "evalset") in
      rw named refl;
  some_task = λ e. ground arith;
  graph = evalset-builds g now;
}

some_last : {A : Type 0} (xs : List A) (y : A) → xs ++ y ∷ [] ≢ []
some_last [] y e = absurd (ground arith)
some_last (x ∷ xs) y e = absurd (ground arith)

fan_in-IsBuildable :
    (id kind : String) (g : Goal) (now : ℕ)
    → Apart id
    → effect_bearing_kind kind ≡ false
    → Distinct (axes_of g)
    → IsBuildable g (fan_in id kind g now)
unfolding all_keyed require_idempotency
fan_in-IsBuildable id kind g now apart harmless distinct =
    let end : all_keyed (last id kind g now apart ∷ []) ≡ ok tt = rw harmless refl in
    record {
      keyed =
          all_keyed-append (axis_tasks g now (axes_of g)) (last id kind g now apart ∷ [])
            (axis_tasks-keyed id kind g now apart (axes_of g)) end;
      some_task = some_last (axis_tasks g now (axes_of g)) (last id kind g now apart);
      graph =
          ranked_builds (rank id kind g now apart) g.id (fan_in id kind g now)
            (fan_in-IsRanked id kind g now apart distinct);
    }

-- What the default planner of an intent plans.
abbrev pub plan_for : Intent → Goal → ℕ → List Task
plan_for Intents.assess g now = plan_assess g now
plan_for Intents.improve g now = plan_assess g now
plan_for Intents.evalset g now = plan_evalset g now
plan_for Intents.compare g now = plan_compare g now
plan_for _ g now = []

assess-IsBuildable : (g : Goal) (now : ℕ) → Distinct (axes_of g) → IsBuildable g (plan_assess g now)
unfolding plan_assess effect_bearing_kind
assess-IsBuildable g now = fan_in-IsBuildable "synthesise" synthesise g now refl refl

compare-IsBuildable :
    (g : Goal) (now : ℕ) → Distinct (axes_of g) → IsBuildable g (plan_compare g now)
unfolding plan_compare effect_bearing_kind
compare-IsBuildable g now = fan_in-IsBuildable "compare" compare_results g now refl refl

check_size_ok :
    (g : Goal) (ts : List Task)
    → ts ≢ []
    → pos (length ts) ≤ℤ g.ceilings.max_tasks
    → check_size g ts ≡ ok tt
unfolding check_size
check_size_ok g [] some_task fits = absurd (some_task refl)
check_size_ok g (t ∷ ts) some_task fits = ground arith

build_made :
    (r : Registry) (g : Goal) (now : ℕ) (p : Planner) (ts : List Task) (d : Dag)
    → planner_for r g.intent ≡ some p
    → p.plan g now ≡ ok ts
    → check_size g ts ≡ ok tt
    → all_keyed ts ≡ ok tt
    → new_dag g.id ts ≡ ok d
    → build r g now ≡ ok d
unfolding build
build_made r g now p ts d chosen planned sized keyed graph = ground arith

module _ (unmarshal : List ℕ → List Finding) where
  abbrev wired : Registry
  wired =
      planner_compare unmarshal
      ∷ planner_evalset unmarshal
      ∷ planner_improve unmarshal
      ∷ planner_assess unmarshal
      ∷ []

  default-wired : default_registry unmarshal ≡ ok wired
  unfolding default_registry new_registry add_planners durable planner_for missing Intents.in_tier
  default-wired = refl

  -- The planner that the default registry has for a durable intent, and its plan.
  wired-plans :
      (i : Intent) (g : Goal) (now : ℕ)
      → durable i ≡ true
      → Distinct (axes_of g)
      → (p : Planner) × (planner_for wired i ≡ some p)
        × (p.plan g now ≡ ok (plan_for i g now))
        × IsBuildable g (plan_for i g now)
  unfolding planner_for durable Intents.lookup
  wired-plans Intents.assess g now h distinct =
      (planner_assess unmarshal, refl, refl, assess-IsBuildable g now distinct)
  wired-plans Intents.improve g now h distinct =
      (planner_improve unmarshal, refl, refl, assess-IsBuildable g now distinct)
  wired-plans Intents.evalset g now h distinct =
      (planner_evalset unmarshal, refl, refl, evalset-IsBuildable g now)
  wired-plans Intents.compare g now h distinct =
      (planner_compare unmarshal, refl, refl, compare-IsBuildable g now distinct)
  wired-plans _ g now h distinct = absurd (ground arith)

  -- The planners are wired for every durable intent, and Build with them succeeds on every goal of a
  -- durable intent that names no axis twice and whose plan fits its task ceiling: the graph holds the
  -- tasks of the plan, is closed and has no cycle.
  pub default_registry-builds :
      (g : Goal) (now : ℕ)
      → durable g.intent ≡ true
      → Distinct (axes_of g)
      → pos (length (plan_for g.intent g now)) ≤ℤ g.ceilings.max_tasks
      → (r : Registry) × (default_registry unmarshal ≡ ok r)
        × (d : Dag) × (build r g now ≡ ok d)
        × IsBuilt g.id (plan_for g.intent g now) d
  default_registry-builds g now lasting distinct fits =
      let (p, chosen, planned, ready) = wired-plans g.intent g now lasting distinct in
      let (d, graph) = ready.graph in
      let sized = check_size_ok g (plan_for g.intent g now) ready.some_task fits in
      let made =
        build_made wired g now p (plan_for g.intent g now) d chosen planned sized ready.keyed
          graph in
      (wired, default-wired, d, made, new_dag-IsBuilt g.id (plan_for g.intent g now) d graph)
