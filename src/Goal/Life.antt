-- ===== src/Goal/Life.antt =====
-- The life of a goal (internal/goal/goal.go): completion, pause and resume, the states that end it.
use heros_agent.Base.{
  ℕ, ◌≡◌, refl, sym, ◌∙◌, ap, subst, arith, Bool, true, false, List, [], ◌∷◌, ◌↔◌, ◌⊎◌, Bool-cases,
  inl, inr,
}
use heros_agent.Base.Int64.{ℤ, ◌≤ℤ◌, leb_ℤ}
use mathlib.Core.List
use mathlib.Core.List.{Memᴰ}
use heros_agent.Errors.{Result, ok, err}
use heros_agent.Goal.{
  Goal, Criterion, CriterionKind, measure, measure_all, evaluate_completion, pause, resume, cancel,
  claimable,
}
use heros_agent.Goal.States.{State, running, paused, cancelled}

abbrev pub AllMet : (CriterionKind → ℤ) → List Criterion → Type 0
AllMet observed cs = (c : Criterion) → Memᴰ c cs → c.threshold ≤ℤ observed c.kind

module _ (observed : CriterionKind → ℤ) (now : ℕ) where
  measure_all-fst :
      (cs : List Criterion) (b : Bool)
      → (measure_all observed now cs b).0 ≡ List.map (measure observed now) cs
  unfolding measure_all
  measure_all-fst [] b = refl
  measure_all-fst (c ∷ cs) b = ground (arith, measure_all-fst cs b, measure_all-fst cs false)

  measure_all-false : (cs : List Criterion) → (measure_all observed now cs false).1 ≡ false
  unfolding measure_all
  measure_all-false [] = refl
  measure_all-false (c ∷ cs) = ground (arith, measure_all-false cs)

  measure_all-met :
      (cs : List Criterion) → (measure_all observed now cs true).1 ≡ true → AllMet observed cs
  unfolding measure_all measure
  measure_all-met [] h c m = elim m [ ]
  measure_all-met (d ∷ ds) h c (Memᴰ.head e) = ground (arith, measure_all-false ds)
  measure_all-met (d ∷ ds) h c (Memᴰ.tail m) =
      elim (Bool-cases (leb_ℤ d.threshold (observed d.kind))) [
        | inl e ↦ measure_all-met ds (ground arith) c m
        | inr e ↦ ground (arith, measure_all-false ds)
      ]

  measure_all-true :
      (cs : List Criterion) → AllMet observed cs → (measure_all observed now cs true).1 ≡ true
  unfolding measure_all measure
  measure_all-true [] met = refl
  measure_all-true (d ∷ ds) met =
      ground (arith, met d (Memᴰ.head refl), measure_all-true ds (λ c m. met c (Memᴰ.tail m)))

-- What a criterion is once it was measured: it asks for what it asked for, and has the observation, the
-- time, and whether the observation reaches its threshold.
pub record Measured (observed : CriterionKind → ℤ) (now : ℕ) (c c' : Criterion) : Type 0 where
  pub kind : c'.kind ≡ c.kind
  pub threshold : c'.threshold ≡ c.threshold
  pub observation : c'.observed ≡ observed c.kind
  pub time : c'.measured_at ≡ now
  pub met : (c'.met ≡ true) ↔ (c.threshold ≤ℤ observed c.kind)

pub data AllMeasured (observed : CriterionKind → ℤ) (now : ℕ)
    : List Criterion → List Criterion → Type 0 where
  nothing_left : AllMeasured observed now [] []
  next :
      {c c' : Criterion} {cs cs' : List Criterion}
      → Measured observed now c c'
      → AllMeasured observed now cs cs'
      → AllMeasured observed now (c ∷ cs) (c' ∷ cs')

measure-Measured :
    (observed : CriterionKind → ℤ) (now : ℕ) (c : Criterion)
    → Measured observed now c (measure observed now c)
unfolding measure
measure-Measured observed now c = record {
  kind = refl;
  threshold = refl;
  observation = refl;
  time = refl;
  met = (λ h. ground arith, λ h. ground arith);
}

map-AllMeasured :
    (observed : CriterionKind → ℤ) (now : ℕ) (cs : List Criterion)
    → AllMeasured observed now cs (List.map (measure observed now) cs)
map-AllMeasured observed now [] = nothing_left
map-AllMeasured observed now (c ∷ cs) =
    next (measure-Measured observed now c) (map-AllMeasured observed now cs)

-- EvaluateCompletion says that a goal is complete exactly when what was observed for the kind of every
-- criterion reaches its threshold. In the goal that it leaves, each criterion, in its place, has the
-- observation for its kind, the time, and whether the observation reaches its threshold, and nothing else
-- of the goal has changed.
pub evaluate_completion_lem :
    (g : Goal) (observed : CriterionKind → ℤ) (now : ℕ)
    → ((cs : List Criterion) × ((evaluate_completion g observed now).0 ≡ record g { criteria = cs })
        × AllMeasured observed now g.criteria cs)
      × (((evaluate_completion g observed now).1 ≡ true) ↔ AllMet observed g.criteria)
unfolding evaluate_completion
evaluate_completion_lem g observed now = (
  (
    List.map (measure observed now) g.criteria,
    ground (arith, measure_all-fst observed now g.criteria true),
    map-AllMeasured observed now g.criteria,
  ),
  (measure_all-met observed now g.criteria, measure_all-true observed now g.criteria),
)

-- What a person may ask of a run, at a time. What is refused changes nothing.
pub data Order : Type 0 where
  pauses resumes cancels : (now : ℕ) → Order

abbrev answer : Order → Goal → Result Goal
answer (pauses now) g = pause g now
answer (resumes now) g = resume g now
answer (cancels now) g = cancel g now

abbrev obey : Order → Goal → Goal
obey o g = elim (answer o g) [ ok g' ↦ g' | err e ↦ g ]

abbrev pub obey_all : List Order → Goal → Goal
obey_all [] g = g
obey_all (o ∷ os) g = obey_all os (obey o g)

-- The state that the orders ask for: what the last one says, but a cancelled run stays cancelled.
abbrev pub asked_for : List Order → State → State
asked_for [] s = s
asked_for (pauses now ∷ os) s = asked_for os paused
asked_for (resumes now ∷ os) s = asked_for os running
asked_for (cancels now ∷ os) s = cancelled

-- The goal is the other one, but for its state and the time of the last change.
abbrev pub IsSameRun : Goal → Goal → Type 0
IsSameRun g g' = (now : ℕ) × (g' ≡ record g { state = g'.state; updated_at = now })

obey-cancelled : (o : Order) (g : Goal) → g.state ≡ cancelled → obey o g ≡ g
unfolding pause resume cancel
obey-cancelled (pauses now) g over = ground arith
obey-cancelled (resumes now) g over = ground arith
obey-cancelled (cancels now) g over = ground arith

obey_all-cancelled : (os : List Order) (g : Goal) → g.state ≡ cancelled → obey_all os g ≡ g
obey_all-cancelled [] g over = refl
obey_all-cancelled (o ∷ os) g over =
    let still = obey-cancelled o g over in ap (obey_all os) still ∙ obey_all-cancelled os g over

abbrev IsLive : State → Type 0
IsLive s = (s ≡ running) ⊎ (s ≡ paused)

IsSameRun-trans : (g h k : Goal) → IsSameRun g h → IsSameRun h k → IsSameRun g k
IsSameRun-trans g h k (at, first) (now, second) =
    (now, second ∙ ap (λ (x : Goal). record x { state = k.state; updated_at = now }) first)

obey-live :
    (o : Order) (g : Goal)
    → IsLive g.state
    → ((obey o g).state ≡ asked_for (o ∷ []) g.state) × IsSameRun g (obey o g)
unfolding pause resume cancel
obey-live (pauses now) g (inl run) = rw (run, pause) (refl, (now, refl))
obey-live (pauses now) g (inr still) = rw (still, pause) (refl, (g.updated_at, refl))
obey-live (resumes now) g (inl run) = rw (run, resume) (refl, (g.updated_at, refl))
obey-live (resumes now) g (inr still) = rw (still, resume) (refl, (now, refl))
obey-live (cancels now) g (inl run) = rw (run, cancel) (refl, (now, refl))
obey-live (cancels now) g (inr still) = rw (still, cancel) (refl, (now, refl))

claimable-running : (g : Goal) → (claimable g ≡ true) ↔ (g.state ≡ running)
unfolding claimable
claimable-running g = (λ h. ground arith, λ h. ground arith)

-- However often a running or paused goal is paused, resumed and cancelled, it is in the state that the
-- last of these asked for, whether or not that one was refused; but once it was cancelled it stays so. It
-- is claimable exactly if that state is running, and nothing but its state and the time of its last change
-- is different.
pub obey_all_lem :
    (os : List Order) (g : Goal)
    → (g.state ≡ running) ⊎ (g.state ≡ paused)
    → ((obey_all os g).state ≡ asked_for os g.state)
      × ((claimable (obey_all os g) ≡ true) ↔ (asked_for os g.state ≡ running))
      × IsSameRun g (obey_all os g)
obey_all_lem os g live =
    let (asked, same) = told os g live in
    let (to, from) = claimable-running (obey_all os g) in
    (asked, (λ h. sym asked ∙ to h, λ h. from (asked ∙ h)), same)
  where
    told :
        (os : List Order) (g : Goal)
        → IsLive g.state
        → ((obey_all os g).state ≡ asked_for os g.state) × IsSameRun g (obey_all os g)
    told [] g live = (refl, (g.updated_at, refl))
    told (pauses now ∷ os) g live =
        let (here, one) = obey-live (pauses now) g live in
        let (there, rest) = told os (obey (pauses now) g) (inr here) in
        (
          there ∙ ap (asked_for os) here,
          IsSameRun-trans g (obey (pauses now) g) (obey_all os (obey (pauses now) g)) one rest,
        )
    told (resumes now ∷ os) g live =
        let (here, one) = obey-live (resumes now) g live in
        let (there, rest) = told os (obey (resumes now) g) (inl here) in
        (
          there ∙ ap (asked_for os) here,
          IsSameRun-trans g (obey (resumes now) g) (obey_all os (obey (resumes now) g)) one rest,
        )
    told (cancels now ∷ os) g live =
        let (here, one) = obey-live (cancels now) g live in
        let still = obey_all-cancelled os (obey (cancels now) g) here in
        (ap (λ (x : Goal). x.state) still ∙ here, subst (IsSameRun g) (sym still) one)
