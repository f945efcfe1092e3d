-- ===== src/Worker/Met.antt =====
-- When a completion criterion is met by the tasks of a graph, as the map `observed` of
-- internal/worker/worker.go counts them.
use heros_agent.Base.{
  ℕ, suc, ◌<◌, ltb, ◌==◌, ◌≤◌, ◌≡◌, refl, ap, subst, sym, true, List, [], ◌∷◌, String, str_eq,
  str_eq-true, arith, inl, inr, Bool-cases, ◌↔◌, ◌∙◌, length, values,
}
use heros_agent.Base.Int64.{pos, ◌≤ℤ◌}
use mathlib.Core.List.{Memᴰ}
use heros_agent.Task.{Task}
use heros_agent.Task.States.{succeeded, same_state}
use heros_agent.Dag.{Dag, progress}
use heros_agent.Goal.{
  Criterion, CriterionKind, all_tasks_succeeded, proposals_accepted, eval_cases_generated,
  comparison_drawn, changes_delivered, axes_assessed,
}
use heros_agent.Worker.Idle.{count_kind, count_state, counts_for, counts_as, observed}

-- What a task of a kind brings about. Nothing brings about an accepted proposal.
pub data Serves : CriterionKind → String → Type 0 where
  an_assessed_axis : Serves axes_assessed "assess_axis"
  an_eval_set : Serves eval_cases_generated "publish_eval_set"
  a_comparison : Serves comparison_drawn "compare_results"
  a_pull_request : Serves changes_delivered "open_pull_request"
  a_written_source : Serves changes_delivered "write_source"
  a_delivery : Serves changes_delivered "deliver_change"

-- So many of the tasks have succeeded and bring about what the criterion is about.
pub data Done (k : CriterionKind) : List Task → ℕ → Type 0 where
  none_done : Done k [] 0
  done :
      {t : Task} {ts : List Task} {n : ℕ}
      → t.state ≡ succeeded
      → Serves k t.kind
      → Done k ts n
      → Done k (t ∷ ts) (suc n)
  passed_over : {t : Task} {ts : List Task} {n : ℕ} → Done k ts n → Done k (t ∷ ts) n

-- Enough tasks have succeeded; or every task has, and there is one, where this is what is asked for once.
pub data IsMet (ts : List Task) (c : Criterion) : Type 0 where
  enough : {n : ℕ} → Done c.kind ts n → c.threshold ≤ℤ pos n → IsMet ts c
  all_done :
      c.kind ≡ all_tasks_succeeded
      → 0 < length ts
      → ((t : Task) → Memᴰ t ts → t.state ≡ succeeded)
      → c.threshold ≤ℤ pos 1
      → IsMet ts c

same_state-true : (t : Task) → same_state t.state succeeded ≡ true → t.state ≡ succeeded
same_state-true t h = ground arith

-- The table of the code says no more than the one above, and no less.
counts_as-Serves : (k : CriterionKind) (t : Task) → counts_as k t ≡ true → Serves k t.kind
unfolding counts_for
counts_as-Serves axes_assessed t h =
    let e : str_eq t.kind "assess_axis" ≡ true = ground arith in
    subst (Serves axes_assessed) (sym (str_eq-true t.kind "assess_axis" e)) an_assessed_axis
counts_as-Serves eval_cases_generated t h =
    let e : str_eq t.kind "publish_eval_set" ≡ true = ground arith in
    subst (Serves eval_cases_generated) (sym (str_eq-true t.kind "publish_eval_set" e)) an_eval_set
counts_as-Serves comparison_drawn t h =
    let e : str_eq t.kind "compare_results" ≡ true = ground arith in
    subst (Serves comparison_drawn) (sym (str_eq-true t.kind "compare_results" e)) a_comparison
counts_as-Serves changes_delivered t h = elim (Bool-cases (str_eq t.kind "open_pull_request")) [
  | inl e ↦
      subst (Serves changes_delivered) (sym (str_eq-true t.kind "open_pull_request" e))
        a_pull_request
  | inr no_pull ↦ elim (Bool-cases (str_eq t.kind "write_source")) [
    | inl e ↦
        subst (Serves changes_delivered) (sym (str_eq-true t.kind "write_source" e))
          a_written_source
    | inr no_write ↦
        let e : str_eq t.kind "deliver_change" ≡ true = ground arith in
        subst (Serves changes_delivered) (sym (str_eq-true t.kind "deliver_change" e)) a_delivery
  ]
]
counts_as-Serves all_tasks_succeeded t h = absurd (ground arith)
counts_as-Serves proposals_accepted t h = absurd (ground arith)

table :
    {k : CriterionKind} (kind : String) (t : Task)
    → t.kind ≡ kind
    → Serves k kind
    → counts_as k t ≡ true
unfolding counts_for
table _ t e an_assessed_axis = rw e refl
table _ t e an_eval_set = rw e refl
table _ t e a_comparison = rw e refl
table _ t e a_pull_request = rw e refl
table _ t e a_written_source = rw e refl
table _ t e a_delivery = rw e refl

count_kind-Done : (k : CriterionKind) (ts : List Task) → Done k ts (count_kind k ts)
unfolding count_kind
count_kind-Done k [] = none_done
count_kind-Done k (t ∷ ts) = elim (Bool-cases (same_state t.state succeeded)) [
  | inr e ↦ rw e (passed_over (count_kind-Done k ts))
  | inl e ↦ elim (Bool-cases (counts_as k t)) [
    | inr u ↦ rw (e, u) (passed_over (count_kind-Done k ts))
    | inl c ↦ rw (e, c) (done (same_state-true t e) (counts_as-Serves k t c) (count_kind-Done k ts))
  ]
]

Done-count_kind : {k : CriterionKind} {ts : List Task} {n : ℕ} → Done k ts n → n ≤ count_kind k ts
unfolding count_kind
Done-count_kind none_done = omega arith
Done-count_kind {k} {ts = t ∷ ts} (done won serves rest) =
    let here = table t.kind t refl serves in
    let more = Done-count_kind rest in rw (won, here) (omega (arith, more))
Done-count_kind {k} {ts = t ∷ ts} (passed_over rest) =
    let more = Done-count_kind rest in ground (arith, more)

no_task_for_all : {ts : List Task} {n : ℕ} → Done all_tasks_succeeded ts n → n ≡ 0
no_task_for_all none_done = refl
no_task_for_all (done _ serves _) = elim serves [ ]
no_task_for_all (passed_over rest) = no_task_for_all rest

none_of : {k : CriterionKind} (ts : List Task) → Done k ts 0
none_of [] = none_done
none_of (t ∷ ts) = passed_over (none_of ts)

-- How many succeeded is how many there are exactly if all did.
count_state-length : (ts : List Task) → count_state succeeded ts ≤ length ts
unfolding count_state
count_state-length [] = omega arith
count_state-length (t ∷ ts) = let rest = count_state-length ts in ground (arith, rest)

count_state-all :
    (ts : List Task)
    → count_state succeeded ts ≡ length ts
    → (t : Task) → Memᴰ t ts
    → t.state ≡ succeeded
unfolding count_state
count_state-all [] all t m = elim m [ ]
count_state-all (u ∷ ts) all t m = elim (Bool-cases (same_state u.state succeeded)) [
  | inr e ↦ let most = count_state-length ts in absurd (ground (arith, most))
  | inl e ↦ elim m [
    | Memᴰ.head same ↦ ap (λ (x : Task). x.state) same ∙ same_state-true u e
    | Memᴰ.tail there ↦ count_state-all ts (ground arith) t there
  ]
]

all-count_state :
    (ts : List Task)
    → ((t : Task) → Memᴰ t ts → t.state ≡ succeeded)
    → count_state succeeded ts ≡ length ts
unfolding count_state
all-count_state [] all = refl
all-count_state (t ∷ ts) all =
    let rest = all-count_state ts (λ u m. all u (Memᴰ.tail m)) in
    rw (all t (Memᴰ.head refl)) (omega (arith, rest))

-- What was observed for the kind of a criterion reaches its threshold exactly if the criterion is met.
pub observed_iff :
    (d : Dag) (c : Criterion) → (c.threshold ≤ℤ observed d c.kind) ↔ IsMet (values d.tasks) c
unfolding observed progress
observed_iff d c = (to c.kind refl, from)
  where
    counted :
        (k : CriterionKind)
        → c.kind ≡ k
        → c.threshold ≤ℤ pos (count_kind k (values d.tasks))
        → IsMet (values d.tasks) c
    counted k is reaches =
        enough
          (subst (λ j. Done j (values d.tasks) (count_kind k (values d.tasks))) (sym is)
            (count_kind-Done k (values d.tasks)))
          reaches

    to : (k : CriterionKind) → c.kind ≡ k → c.threshold ≤ℤ observed d k → IsMet (values d.tasks) c
    to all_tasks_succeeded is reaches = elim (Bool-cases (ltb 0 (length (values d.tasks)))) [
      | inr e ↦ enough (none_of (values d.tasks)) (ground (arith, e))
      | inl e ↦
          elim (Bool-cases (count_state succeeded (values d.tasks) == length (values d.tasks))) [
            | inr f ↦ enough (none_of (values d.tasks)) (ground (arith, e, f))
            | inl f ↦
                all_done is (ground (arith, e))
                  (count_state-all (values d.tasks) (ground (arith, f))) (ground (arith, e, f))
          ]
    ]
    to proposals_accepted is reaches = counted proposals_accepted is reaches
    to eval_cases_generated is reaches = counted eval_cases_generated is reaches
    to comparison_drawn is reaches = counted comparison_drawn is reaches
    to changes_delivered is reaches = counted changes_delivered is reaches
    to axes_assessed is reaches = counted axes_assessed is reaches

    at_least :
        (k : CriterionKind) {n : ℕ}
        → Done k (values d.tasks) n
        → c.threshold ≤ℤ pos n
        → c.threshold ≤ℤ observed d k
    at_least all_tasks_succeeded some_done high =
        let zero = no_task_for_all some_done in ground (arith, zero, high)
    at_least proposals_accepted some_done high =
        let n = Done-count_kind some_done in omega (arith, n, high)
    at_least eval_cases_generated some_done high =
        let n = Done-count_kind some_done in omega (arith, n, high)
    at_least comparison_drawn some_done high =
        let n = Done-count_kind some_done in omega (arith, n, high)
    at_least changes_delivered some_done high =
        let n = Done-count_kind some_done in omega (arith, n, high)
    at_least axes_assessed some_done high =
        let n = Done-count_kind some_done in omega (arith, n, high)

    from : IsMet (values d.tasks) c → c.threshold ≤ℤ observed d c.kind
    from (enough some_done high) = at_least c.kind some_done high
    from (all_done is some_task all high) =
        let every = all-count_state (values d.tasks) all in
        let reached : c.threshold ≤ℤ observed d all_tasks_succeeded =
          ground (arith, every, some_task, high) in
        subst (λ k. c.threshold ≤ℤ observed d k) (sym is) reached
