-- ===== src/Worker/Finish.antt =====
-- When a cycle of internal/worker/worker.go reports that the goal is complete.
use mathlib.Core.List.{Memᴰ}
use heros_agent.Base.{
  ℕ, ◌≡◌, ◌≢◌, refl, sym, ◌∙◌, ap, true, false, some, List, [], ◌∷◌, String, arith, inl, inr, ◌⊎◌,
  ◌↔◌, Option-cases, Bool-cases, lookup, lookup-insert_self, values,
}
use heros_agent.Errors.{Result, ok}
use heros_agent.Task.{Task}
use heros_agent.Task.States.{awaiting_approval, same_state}
use heros_agent.Dag.{Dag}
use heros_agent.Goal.{Goal, Criterion, evaluate_completion}
use heros_agent.Goal.Life.{evaluate_completion_lem}
use heros_agent.Worker.Met.{IsMet, observed_iff}
use heros_agent.Goal.States as GoalStates
use heros_agent.Store.{Memory, save_goal, load_dag, refuse_terminal_overwrite}
use heros_agent.Worker.{Worker, World, Answer, complete, saving}
use heros_agent.Worker.Idle.{
  idle, revise, settle_idle, judge, conclude, grow, observed, count_state,
}

-- The goal as a complete cycle saves it.
abbrev finished : Goal → Dag → ℕ → Goal
finished g d now = record (evaluate_completion g (observed d) now).0 {
  state = GoalStates.succeeded;
  updated_at = now;
}

-- What a cycle knows that reports a goal as complete: no task of the stored graph waits for a person, the
-- reviser has nothing to add to it, every criterion is met by what its tasks did, and the goal in the store
-- has not ended, unless it has succeeded.
pub record Finishes (wk : Worker) (goal_id : String) (now : ℕ) (g : Goal) (before : Memory)
    : Type 0 where
  pub graph : Dag
  pub stored : lookup goal_id before.dags ≡ some graph
  pub none_waits : (t : Task) → Memᴰ t (values graph.tasks) → t.state ≢ awaiting_approval
  pub quiet :
      (reviser : Goal → Dag → ℕ → Result (List Task))
      → wk.reviser ≡ some reviser
      → reviser g graph now ≡ ok []
  pub met : (c : Criterion) → Memᴰ c g.criteria → IsMet (values graph.tasks) c
  pub current : Goal
  pub held : lookup g.id before.goals ≡ some current
  pub unended : (GoalStates.terminal current.state ≡ false) ⊎ (current.state ≡ GoalStates.succeeded)

count_state-none :
    (ts : List Task)
    → count_state awaiting_approval ts ≡ 0
    → (t : Task) → Memᴰ t ts
    → t.state ≢ awaiting_approval
unfolding count_state
count_state-none [] zero t m = elim m [ ]
count_state-none (u ∷ ts) zero t (Memᴰ.head same) = λ e.
    let at : u.state ≡ awaiting_approval = ap (λ (x : Task). x.state) (sym same) ∙ e in
    absurd (ground (arith, at, zero))
count_state-none (u ∷ ts) zero t (Memᴰ.tail there) = count_state-none ts (ground arith) t there

none-count_state :
    (ts : List Task)
    → ((t : Task) → Memᴰ t ts → t.state ≢ awaiting_approval)
    → count_state awaiting_approval ts ≡ 0
unfolding count_state
none-count_state [] none_waits = refl
none-count_state (t ∷ ts) none_waits =
    let rest = none-count_state ts (λ u m. none_waits u (Memᴰ.tail m)) in
    let here = none_waits t (Memᴰ.head refl) in
    elim (Bool-cases (same_state t.state awaiting_approval)) [
      | inl e ↦ absurd (here (ground arith))
      | inr e ↦ rw e rest
    ]

module _ (wk : Worker) (goal_id : String) (now : ℕ) where
  judge-complete :
      (g : Goal) (d : Dag) (w : World)
      → (judge wk goal_id now g d w).1.did ≡ complete
      → ((evaluate_completion g (observed d) now).1 ≡ true)
        × ((current : Goal) × (lookup (finished g d now).id w.store.goals ≡ some current)
            × ((GoalStates.terminal current.state ≡ false)
                ⊎ (current.state ≡ GoalStates.succeeded)))
        × (lookup (finished g d now).id (judge wk goal_id now g d w).0.store.goals
            ≡ some (finished g d now))
  unfolding judge saving conclude save_goal refuse_terminal_overwrite
  judge-complete g d w done = (
    ground arith,
    elim (Option-cases (lookup (finished g d now).id w.store.goals)) [
      | inl e ↦ absurd (ground arith)
      | inr (current, e) ↦ (
        current,
        e,
        elim (Bool-cases (GoalStates.terminal current.state)) [
          | inr live ↦ inl live
          | inl over ↦ inr (ground arith)
        ],
      )
    ],
    ground (arith, lookup-insert_self (finished g d now).id (finished g d now) w.store.goals),
  )

  settle_idle-complete :
      (g : Goal) (d : Dag) (w : World)
      → (settle_idle wk goal_id now g d w).1.did ≡ complete
      → (count_state awaiting_approval (values d.tasks) ≡ 0)
        × (judge wk goal_id now g d w).1.did ≡ complete
        × (settle_idle wk goal_id now g d w ≡ judge wk goal_id now g d w)
  unfolding settle_idle
  settle_idle-complete g d w done = (ground arith, ground arith, ground arith)

  revise-complete :
      (g : Goal) (d : Dag) (w : World)
      → (revise wk goal_id now g d w).1.did ≡ complete
      → revise wk goal_id now g d w ≡ settle_idle wk goal_id now g d w
  unfolding revise grow saving
  revise-complete g d w done = ground arith

  revise-quiet :
      (g : Goal) (d : Dag) (w : World)
      → (revise wk goal_id now g d w).1.did ≡ complete
      → (reviser : Goal → Dag → ℕ → Result (List Task)) → wk.reviser ≡ some reviser
      → reviser g d now ≡ ok []
  unfolding revise grow saving
  revise-quiet g d w done reviser is = ground arith

  idle-revise :
      (g : Goal) (w : World)
      → (idle wk goal_id now g w).1.did ≡ complete
      → (d : Dag) × (lookup goal_id w.store.dags ≡ some d)
        × (idle wk goal_id now g w ≡ revise wk goal_id now g d w)
  unfolding idle load_dag
  idle-revise g w done = elim (Option-cases (lookup goal_id w.store.dags)) [
    | inl e ↦ absurd (ground arith)
    | inr (d, e) ↦ (d, e, ground arith)
  ]

  finishes :
      (g : Goal) (w : World)
      → (idle wk goal_id now g w).1.did ≡ complete
      → Finishes wk goal_id now g w.store
        × ((cs : List Criterion) × (lookup g.id (idle wk goal_id now g w).0.store.goals
              ≡ some (record g { criteria = cs; state = GoalStates.succeeded; updated_at = now })))
  unfolding evaluate_completion
  finishes g w done =
      let (d, stored, same) = idle-revise g w done in
      let done1 : (revise wk goal_id now g d w).1.did ≡ complete =
        ap (λ (a : Answer). a.1.did) (sym same) ∙ done in
      let same1 = revise-complete g d w done1 in
      let done2 : (settle_idle wk goal_id now g d w).1.did ≡ complete =
        ap (λ (a : Answer). a.1.did) (sym same1) ∙ done1 in
      let (none_waits, done3, same2) = settle_idle-complete g d w done2 in
      let (met, (current, held, unended), saved) = judge-complete g d w done3 in
      (
        record {
          graph = d;
          stored = stored;
          none_waits = count_state-none (values d.tasks) none_waits;
          quiet = revise-quiet g d w done1;
          met = λ c m.
              (observed_iff d c).0 ((evaluate_completion_lem g (observed d) now).1.0 met c m);
          current = current;
          held = held;
          unended = unended;
        },
        (
          (evaluate_completion g (observed d) now).0.criteria,
          ap (λ (a : Answer). lookup g.id a.0.store.goals) (same ∙ same1 ∙ same2) ∙ saved,
        ),
      )

  judge_completes :
      (g current : Goal) (d : Dag) (w : World)
      → (evaluate_completion g (observed d) now).1 ≡ true
      → lookup (finished g d now).id w.store.goals ≡ some current
      → (GoalStates.terminal current.state ≡ false) ⊎ (current.state ≡ GoalStates.succeeded)
      → (judge wk goal_id now g d w).1.did ≡ complete
  unfolding judge saving save_goal refuse_terminal_overwrite
  judge_completes g current d w met held (inl live) = ground arith
  judge_completes g current d w met held (inr won) = ground arith

  settle_idle_judges :
      (g : Goal) (d : Dag) (w : World)
      → count_state awaiting_approval (values d.tasks) ≡ 0
      → settle_idle wk goal_id now g d w ≡ judge wk goal_id now g d w
  unfolding settle_idle
  settle_idle_judges g d w zero = ground arith

  revise_settles :
      (g : Goal) (d : Dag) (w : World)
      → ((reviser : Goal → Dag → ℕ → Result (List Task))
          → wk.reviser ≡ some reviser
          → reviser g d now ≡ ok [])
      → revise wk goal_id now g d w ≡ settle_idle wk goal_id now g d w
  unfolding revise
  revise_settles g d w quiet = elim (Option-cases wk.reviser) [
    | inl e ↦ ground arith
    | inr (reviser, e) ↦ let silent = quiet reviser e in ground arith
  ]

  idle_revises :
      (g : Goal) (d : Dag) (w : World)
      → lookup goal_id w.store.dags ≡ some d
      → idle wk goal_id now g w ≡ revise wk goal_id now g d w
  unfolding idle load_dag
  idle_revises g d w stored = ground arith

  Finishes-complete :
      (g : Goal) (w : World)
      → Finishes wk goal_id now g w.store
      → (idle wk goal_id now g w).1.did ≡ complete
  unfolding evaluate_completion
  Finishes-complete g w f =
      let waits = none-count_state (values f.graph.tasks) f.none_waits in
      let met : (evaluate_completion g (observed f.graph) now).1 ≡ true =
        (evaluate_completion_lem g (observed f.graph) now).1.1
          (λ c m. (observed_iff f.graph c).1 (f.met c m)) in
      let judged = judge_completes g f.current f.graph w met f.held f.unended in
      let same =
        idle_revises g f.graph w f.stored
        ∙ (revise_settles g f.graph w f.quiet ∙ settle_idle_judges g f.graph w waits) in
      ap (λ (a : Answer). a.1.did) same ∙ judged

  -- A cycle that found nothing to claim reports the goal as complete exactly if there is a graph of the
  -- goal in the store, none of its tasks waits for a person, the reviser has nothing to add to it, every
  -- criterion of the goal is met by what the tasks of the graph did, and the goal in the store has not
  -- ended, unless it has succeeded. Then the goal is in the store as succeeded, with nothing else of it
  -- changed but its criteria and the time of its last change.
  pub idle_lem :
      (g : Goal) (w : World)
      → (((idle wk goal_id now g w).1.did ≡ complete) ↔ Finishes wk goal_id now g w.store)
        × ((idle wk goal_id now g w).1.did ≡ complete
            → (cs : List Criterion) × (lookup g.id (idle wk goal_id now g w).0.store.goals
                ≡ some
                    (record g { criteria = cs; state = GoalStates.succeeded; updated_at = now })))
  idle_lem g w =
      ((λ done. (finishes g w done).0, Finishes-complete g w), λ done. (finishes g w done).1)
