-- ===== src/Store/Cancels.antt =====
-- Cancel of internal/store/store.go, on every branch.
use heros_agent.Base.{
  Bool, str_eq, not, ◌||◌, ◌&&◌, ltb, ℕ, suc, ◌≡◌, refl, sym, subst, true, false, Option, none,
  some, [], ◌∷◌, String, Map, lookup, insert, arith, inl, inr, Bool-cases, Option-cases,
  if◌then◌else◌,
}
use mathlib.Core.Option
use heros_agent.Errors.{Result, ok, err}
use heros_agent.Task.{Task, transition}
use heros_agent.Task.States.{cancelled, terminal}
use heros_agent.Task.Moves.{transition_iff, moved_to, open-cancel}
use heros_agent.Dag.{Dag}
use heros_agent.Dag.Closed.{IsMet}
use heros_agent.Dag.Evolve.{
  Keeps, IsSound, IsSound-Evolves, Evolved, moved, absent, needs_met, LeaseOk,
}
use heros_agent.Goal
use heros_agent.Goal.{Goal}
use heros_agent.Goal.States as GoalStates
use heros_agent.Store.{Memory, goal_missing}
use heros_agent.Store.Persons.{cancel, cancellable, cancel_tasks}
use heros_agent.Store.Sound.{AllSound, AllSound-put_dag}

-- What Cancel leaves to itself: a task that has ended, and one that a worker holds under a live lease.
abbrev pub spared : ℕ → Task → Bool
spared now t = terminal t.state || (not (str_eq t.leased_by "") && ltb now t.lease_expiry)

-- What Cancel makes of one task.
unfoldable pub stop : ℕ → Task → Task
stop now t = if spared now t then t else moved_to t cancelled now

unfoldable pub stop_all : ℕ → Map Task → Map Task
stop_all now [] = []
stop_all now ((k, t) ∷ m) = (k, stop now t) ∷ stop_all now m

unfoldable pub count_stopped : ℕ → Map Task → ℕ
count_stopped now [] = 0
count_stopped now ((k, t) ∷ m) =
    if spared now t then count_stopped now m else suc (count_stopped now m)

cancellable-spared : (t : Task) (now : ℕ) → cancellable t now ≡ not (spared now t)
unfolding cancellable
cancellable-spared t now = ground arith

not_spared-open : (t : Task) (now : ℕ) → spared now t ≡ false → terminal t.state ≡ false
not_spared-open t now h = ground arith

stop-transition :
    (t : Task) (now : ℕ)
    → spared now t ≡ false
    → transition t cancelled now ≡ ok (moved_to t cancelled now)
stop-transition t now h =
    (transition_iff t (moved_to t cancelled now) cancelled now).1
      (open-cancel t.state (not_spared-open t now h), refl)

-- The loop never meets an error: it stops every task that it may, and counts them.
pub cancel_tasks_lem :
    (now : ℕ) (m : Map Task) → cancel_tasks now m ≡ (stop_all now m, count_stopped now m, none)
unfolding cancel_tasks stop_all count_stopped stop
cancel_tasks_lem now [] = refl
cancel_tasks_lem now ((k, t) ∷ m) = elim (Bool-cases (spared now t)) [
  | inl e ↦ ground (arith, cancel_tasks_lem now m, cancellable-spared t now)
  | inr e ↦
      ground (arith, cancel_tasks_lem now m, cancellable-spared t now, stop-transition t now e)
]

pub lookup-stop_all :
    (now : ℕ) (k : String) (m : Map Task)
    → lookup k (stop_all now m) ≡ Option.map (stop now) (lookup k m)
unfolding stop_all lookup
lookup-stop_all now k [] = refl
lookup-stop_all now k ((j, t) ∷ m) = ground (arith, lookup-stop_all now k m)

-- The outcomes of Cancel.
pub data Cancelled (m : Memory) (goal_id : String) (now : ℕ) : Memory × Result ℕ → Type 0 where
  no_goal : lookup goal_id m.goals ≡ none → Cancelled m goal_id now (m, err (goal_missing goal_id))
  already_over :
      (g : Goal)
      → lookup goal_id m.goals ≡ some g
      → GoalStates.terminal g.state ≡ true
      → Cancelled m goal_id now (m, err (Goal.already_over g))
  without_dag :
      (g : Goal)
      → lookup goal_id m.goals ≡ some g
      → GoalStates.terminal g.state ≡ false
      → lookup goal_id m.dags ≡ none
      → Cancelled m goal_id now (
        record m {
          goals =
              insert goal_id (record g { state = GoalStates.cancelled; updated_at = now }) m.goals;
        },
        ok 0,
      )
  with_dag :
      (g : Goal) (d : Dag)
      → lookup goal_id m.goals ≡ some g
      → GoalStates.terminal g.state ≡ false
      → lookup goal_id m.dags ≡ some d
      → Cancelled m goal_id now (
        record m {
          goals =
              insert goal_id (record g { state = GoalStates.cancelled; updated_at = now }) m.goals;
          dags = insert goal_id (record d { tasks = stop_all now d.tasks }) m.dags;
        },
        ok (count_stopped now d.tasks),
      )

module _ (m : Memory) (goal_id : String) (now : ℕ) where
  cancel_missing :
      lookup goal_id m.goals ≡ none → cancel goal_id now m ≡ (m, err (goal_missing goal_id))
  unfolding cancel
  cancel_missing e = ground arith

  cancel_over :
      (g : Goal)
      → lookup goal_id m.goals ≡ some g
      → GoalStates.terminal g.state ≡ true
      → cancel goal_id now m ≡ (m, err (Goal.already_over g))
  unfolding cancel Goal.cancel
  cancel_over g at over = ground arith

  cancel_bare :
      (g : Goal)
      → lookup goal_id m.goals ≡ some g
      → GoalStates.terminal g.state ≡ false
      → lookup goal_id m.dags ≡ none
      → cancel goal_id now m ≡ (
        record m {
          goals =
              insert goal_id (record g { state = GoalStates.cancelled; updated_at = now }) m.goals;
        },
        ok 0,
      )
  unfolding cancel Goal.cancel
  cancel_bare g at live dd = ground arith

  cancel_graph :
      (g : Goal) (d : Dag)
      → lookup goal_id m.goals ≡ some g
      → GoalStates.terminal g.state ≡ false
      → lookup goal_id m.dags ≡ some d
      → cancel goal_id now m ≡ (
        record m {
          goals =
              insert goal_id (record g { state = GoalStates.cancelled; updated_at = now }) m.goals;
          dags = insert goal_id (record d { tasks = stop_all now d.tasks }) m.dags;
        },
        ok (count_stopped now d.tasks),
      )
  unfolding cancel Goal.cancel
  cancel_graph g d at live dd = ground (arith, cancel_tasks_lem now d.tasks)

  -- Every outcome of Cancel. It refuses a goal that is not there or has ended, and leaves the store
  -- alone then; otherwise the goal is cancelled, with every task that has not ended and is not under a
  -- live lease, and the result is how many those are.
  pub cancel_lem : Cancelled m goal_id now (cancel goal_id now m)
  cancel_lem = elim (Option-cases (lookup goal_id m.goals)) [
    | inl e ↦ subst (Cancelled m goal_id now) (sym (cancel_missing e)) (no_goal e)
    | inr (g, at) ↦ elim (Bool-cases (GoalStates.terminal g.state)) [
      | inl over ↦
          subst (Cancelled m goal_id now) (sym (cancel_over g at over)) (already_over g at over)
      | inr live ↦ elim (Option-cases (lookup goal_id m.dags)) [
        | inl bare ↦
            subst (Cancelled m goal_id now) (sym (cancel_bare g at live bare))
              (without_dag g at live bare)
        | inr (d, dd) ↦
            subst (Cancelled m goal_id now) (sym (cancel_graph g d at live dd))
              (with_dag g d at live dd)
      ]
    ]
  ]

stop-Keeps : (now : ℕ) (t : Task) → Keeps t (stop now t)
unfolding stop
stop-Keeps now t = elim (Bool-cases (spared now t)) [
  | inl e ↦ rw e (record { id = refl; depends_on = refl; contributes = refl; ended = λ o. refl })
  | inr e ↦ rw e (record {
    id = refl;
    depends_on = refl;
    contributes = refl;
    ended = λ o. absurd (ground (arith, not_spared-open t now e));
  })
]

Evolved-stop : (now : ℕ) (o : Option Task) → Evolved o (Option.map (stop now) o)
Evolved-stop now none = absent
Evolved-stop now (some t) = moved (stop-Keeps now t)

stop_all-IsSound : (now : ℕ) (m : Map Task) → IsSound m → IsSound (stop_all now m)
unfolding stop
stop_all-IsSound now m sound =
    IsSound-Evolves (λ k. rw (lookup-stop_all now k m) (Evolved-stop now (lookup k m))) sound
      λ k t t' at at'.
        let e : t' ≡ stop now t = ground (arith, lookup-stop_all now k m) in
        subst (λ (u : Task). (needs_met u.state ≡ true → IsMet m t) × LeaseOk u) (sym e)
          (stopped k t at)
  where
    stopped :
        (k : String) (t : Task)
        → lookup k m ≡ some t
        → (needs_met (stop now t).state ≡ true → IsMet m t) × LeaseOk (stop now t)
    stopped k t at = elim (Bool-cases (spared now t)) [
      | inr e ↦ (λ need. absurd (ground arith), λ l. inr (ground arith))
      | inl e ↦
          (λ need. sound.met k t at (ground arith), λ l. rw e (sound.lease k t at (ground arith)))
    ]

Cancelled-AllSound :
    {m : Memory} {goal_id : String} {now : ℕ} {r : Memory × Result ℕ}
    → AllSound m
    → Cancelled m goal_id now r
    → AllSound r.0
Cancelled-AllSound all (no_goal e) = all
Cancelled-AllSound all (already_over g at over) = all
Cancelled-AllSound all (without_dag g at live bare) = all
Cancelled-AllSound {m} {goal_id} {now} all (with_dag g d at live dd) =
    AllSound-put_dag m goal_id (record d { tasks = stop_all now d.tasks }) all
      (stop_all-IsSound now d.tasks (all goal_id d dd))

pub cancel-AllSound :
    (goal_id : String) (now : ℕ) (m : Memory) → AllSound m → AllSound (cancel goal_id now m).0
cancel-AllSound goal_id now m all = Cancelled-AllSound all (cancel_lem m goal_id now)
