-- ===== src/Store/Runs.antt =====
-- Runs of the store (internal/store/store.go): any number of workers and persons, in any order, each
-- call one step under the mutex.
use heros_agent.Base.{
  ℕ, ◌≡◌, refl, sym, ◌∙◌, ap, Bool, true, some, List, String, lookup, arith, inl, inr, Bool-cases,
  str_eq, str_eq-true, lookup-insert, eq_iff,
}
use heros_agent.Base.Text.{Text}
use heros_agent.Errors.{Result, ok, err}
use heros_agent.Task.States.{State}
use heros_agent.Dag.{Dag}
use heros_agent.Dag.Evolve.{IsSound}
use heros_agent.Goal.{Goal}
use heros_agent.Goal.States as GoalStates
use heros_agent.Store.{
  Memory, Checkpoint, commit, create_goal, save_goal, save_dag, refuse_terminal_overwrite,
}
use heros_agent.Store.Leases.{claim, renew, complete, release}
use heros_agent.Store.Persons.{decide, cancel, checkpoint}
use heros_agent.Store.Sound.{
  AllSound, AllSound-put_dag, renew-AllSound, release-AllSound, complete-AllSound,
}
use heros_agent.Store.SoundPersons.{claim-AllSound, decide-AllSound}
use heros_agent.Store.Cancels.{
  Cancelled, no_goal, already_over, without_dag, with_dag, cancel_lem, cancel-AllSound,
}

-- One call by anybody. Only SaveDAG has a premise: the graph that it writes is one of those that the
-- callers may plan.
pub data Step (Plans : Dag → Type 0) (m : Memory) : Memory → Type 0 where
  creates : (g : Goal) → Step Plans m (create_goal g m).0
  saves : (g : Goal) → Step Plans m (save_goal g m).0
  plans : (d : Dag) → Plans d → Step Plans m (save_dag d m).0
  claims :
      (goal_id worker : String) (lease now : ℕ) → Step Plans m (claim goal_id worker lease now m).0
  renews :
      (goal_id id worker : String) (lease now : ℕ)
      → Step Plans m (renew goal_id id worker lease now m).0
  completes :
      (goal_id id worker : String) (next : State) (result : List ℕ) (failure : Text) (now : ℕ)
      → Step Plans m (complete goal_id id worker next result failure now m).0
  releases :
      (goal_id id worker : String) (now : ℕ) → Step Plans m (release goal_id id worker now m).0
  decides :
      (goal_id id : String) (approve : Bool) (now : ℕ)
      → Step Plans m (decide goal_id id approve now m).0
  cancels : (goal_id : String) (now : ℕ) → Step Plans m (cancel goal_id now m).0
  checkpoints : (cp : Checkpoint) → Step Plans m (checkpoint cp m).0

pub data Reach (Plans : Dag → Type 0) (m : Memory) : Memory → Type 0 where
  here : Reach Plans m m
  more : {n o : Memory} → Reach Plans m n → Step Plans n o → Reach Plans m o

-- The callers plan well-formed graphs, or whatever they like.
abbrev pub IsSoundDag : Dag → Type 0
IsSoundDag d = IsSound d.tasks

abbrev pub IsAnyDag : Dag → Type 0
IsAnyDag d = Unit

create_goal-dags : (g : Goal) (m : Memory) → (create_goal g m).0.dags ≡ m.dags
unfolding create_goal
create_goal-dags g m = ground arith

save_goal-dags : (g : Goal) (m : Memory) → (save_goal g m).0.dags ≡ m.dags
unfolding save_goal refuse_terminal_overwrite
save_goal-dags g m = ground arith

AllSound-dags : (m n : Memory) → n.dags ≡ m.dags → AllSound m → AllSound n
AllSound-dags m n same all id d at = all id d (ap (lookup id) (sym same) ∙ at)

Step-AllSound : {m n : Memory} → Step IsSoundDag m n → AllSound m → AllSound n
unfolding save_dag checkpoint
Step-AllSound {m} (creates g) all = AllSound-dags m (create_goal g m).0 (create_goal-dags g m) all
Step-AllSound {m} (saves g) all = AllSound-dags m (save_goal g m).0 (save_goal-dags g m) all
Step-AllSound {m} (plans d sound) all = AllSound-put_dag m d.goal_id d all sound
Step-AllSound {m} (claims goal_id worker lease now) all =
    claim-AllSound goal_id worker lease now m all
Step-AllSound {m} (renews goal_id id worker lease now) all =
    renew-AllSound goal_id id worker lease now m all
Step-AllSound {m} (completes goal_id id worker next result failure now) all =
    complete-AllSound goal_id id worker next result failure now m all
Step-AllSound {m} (releases goal_id id worker now) all =
    release-AllSound goal_id id worker now m all
Step-AllSound {m} (decides goal_id id approve now) all =
    decide-AllSound goal_id id approve now m all
Step-AllSound {m} (cancels goal_id now) all = cancel-AllSound goal_id now m all
Step-AllSound {m} (checkpoints cp) all = all

-- After any calls from a well-formed store, where SaveDAG is called with well-formed graphs only, every
-- task graph is well-formed: its dependencies are
-- tasks of the graph, what is ready, running or parked has its dependencies met, and only a running
-- task, or one that has ended, has a lease on record.
pub Reach-AllSound : {m n : Memory} → Reach IsSoundDag m n → AllSound m → AllSound n
Reach-AllSound here all = all
Reach-AllSound (more r st) all = Step-AllSound st (Reach-AllSound r all)

-- The goal is still there, in the state it ended in.
abbrev pub StillEnded : Memory → String → GoalStates.State → Type 0
StillEnded n id ended = (g' : Goal) × (lookup id n.goals ≡ some g') × (g'.state ≡ ended)

pub commit-goals :
    {A : Type 0} (m : Memory) (goal_id : String) (r : Result (Dag × A))
    → (commit m goal_id r).0.goals ≡ m.goals
commit-goals m goal_id (ok (d, a)) = refl
commit-goals m goal_id (err e) = refl

pub same_state-true : (s t : GoalStates.State) → GoalStates.same_state s t ≡ true → s ≡ t
same_state-true s t h = ground arith

pub claim-goals :
    (goal_id worker : String) (lease now : ℕ) (m : Memory)
    → (claim goal_id worker lease now m).0.goals ≡ m.goals
unfolding claim
claim-goals goal_id worker lease now m = ground arith

module _ (id : String) (g : Goal) (over : GoalStates.terminal g.state ≡ true) where
  keeps-goals :
      (m n : Memory) → n.goals ≡ m.goals → lookup id m.goals ≡ some g → StillEnded n id g.state
  keeps-goals m n same at = (g, ap (lookup id) same ∙ at, refl)

  create_goal-ended :
      (h : Goal) (m : Memory)
      → lookup id m.goals ≡ some g
      → StillEnded (create_goal h m).0 id g.state
  unfolding create_goal
  create_goal-ended h m at =
      (g, ground (arith, lookup-insert h.id id h m.goals, eq_iff h.id id), refl)

  save_goal-ended :
      (h : Goal) (m : Memory) → lookup id m.goals ≡ some g → StillEnded (save_goal h m).0 id g.state
  unfolding save_goal refuse_terminal_overwrite
  save_goal-ended h m at = elim (Bool-cases (str_eq h.id id)) [
    | inr e ↦
        let kept : lookup id (save_goal h m).0.goals ≡ some g =
          ground (arith, lookup-insert h.id id h m.goals) in
        (g, kept, refl)
    | inl e ↦
        let found : lookup h.id m.goals ≡ some g =
          ap (λ k. lookup k m.goals) (str_eq-true h.id id e) ∙ at in
        elim (Bool-cases (GoalStates.same_state h.state g.state)) [
          | inl same ↦
              let kept : lookup id (save_goal h m).0.goals ≡ some h =
                ground (arith, lookup-insert h.id id h m.goals) in
              (h, kept, same_state-true h.state g.state same)
          | inr differs ↦
              let kept : lookup id (save_goal h m).0.goals ≡ some g = ground arith in
              (g, kept, refl)
        ]
  ]

  Cancelled-ended :
      {goal_id : String} {now : ℕ} {m : Memory} {r : Memory × Result ℕ}
      → lookup id m.goals ≡ some g
      → Cancelled m goal_id now r
      → StillEnded r.0 id g.state
  Cancelled-ended at (no_goal e) = (g, at, refl)
  Cancelled-ended at (already_over h e o) = (g, at, refl)
  Cancelled-ended {goal_id} {now} {m} at (without_dag h e live bare) = (
    g,
    ground (
      arith,
      lookup-insert goal_id id (record h { state = GoalStates.cancelled; updated_at = now })
          m.goals,
      str_eq-true goal_id id,
    ),
    refl,
  )
  Cancelled-ended {goal_id} {now} {m} at (with_dag h d e live dd) = (
    g,
    ground (
      arith,
      lookup-insert goal_id id (record h { state = GoalStates.cancelled; updated_at = now })
          m.goals,
      str_eq-true goal_id id,
    ),
    refl,
  )

  Step-ended :
      {m n : Memory} → Step IsAnyDag m n → lookup id m.goals ≡ some g → StillEnded n id g.state
  unfolding save_dag checkpoint claim renew complete release decide
  Step-ended {m} (creates h) at = create_goal-ended h m at
  Step-ended {m} (saves h) at = save_goal-ended h m at
  Step-ended {m} (plans d sound) at = (g, at, refl)
  Step-ended {m} (claims goal_id worker lease now) at =
      keeps-goals m (claim goal_id worker lease now m).0 (claim-goals goal_id worker lease now m) at
  Step-ended {m} (renews goal_id task worker lease now) at =
      keeps-goals m (renew goal_id task worker lease now m).0 (commit-goals m goal_id _) at
  Step-ended {m} (completes goal_id task worker next result failure now) at =
      keeps-goals m (complete goal_id task worker next result failure now m).0
        (commit-goals m goal_id _) at
  Step-ended {m} (releases goal_id task worker now) at =
      keeps-goals m (release goal_id task worker now m).0 (commit-goals m goal_id _) at
  Step-ended {m} (decides goal_id task approve now) at =
      keeps-goals m (decide goal_id task approve now m).0 (commit-goals m goal_id _) at
  Step-ended {m} (cancels goal_id now) at = Cancelled-ended at (cancel_lem m goal_id now)
  Step-ended {m} (checkpoints cp) at = (g, at, refl)

-- A goal that has ended (succeeded, failed, refused or cancelled) is still in the store, in the state
-- that it ended in, after any calls by anybody, whatever graphs they save.
pub Reach-ended :
    (id : String) {m n : Memory} {g : Goal}
    → Reach IsAnyDag m n
    → lookup id m.goals ≡ some g
    → GoalStates.terminal g.state ≡ true
    → StillEnded n id g.state
Reach-ended id {m} {n} {g} here at over = (g, at, refl)
Reach-ended id {m} {n} {g} (more r st) at over =
    let (h, at', same) = Reach-ended id r at over in
    let (k, at'', same') = Step-ended id h (ap GoalStates.terminal same ∙ over) st at' in
    (k, at'', same' ∙ same)
