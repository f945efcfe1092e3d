-- ===== src/Store/Slots.antt =====
-- internal/store/store.go: what the store holds under one goal's id, and that each method of one goal
-- reads and writes nothing else.
use heros_agent.Base.{
  ◌≡◌, refl, ap, ◌∙◌, arith, ℕ, Bool, true, false, Option, none, some, List, [], ◌∷◌, ◌++◌, String,
  str_eq, lookup, lookup-insert, eq_iff,
}
use heros_agent.Base.Text.{Text}
use heros_agent.Errors.{Error, Result, ok, err}
use heros_agent.Task.States.{State}
use heros_agent.Dag.{Dag}
use heros_agent.Goal
use heros_agent.Goal.{Goal}
use heros_agent.Store.{
  Memory, Checkpoint, load_goal, save_goal, save_dag, load_dag, find_goal, find_dag, commit,
  refuse_terminal_overwrite, goal_missing, dag_missing,
}
use heros_agent.Store.Leases.{claim, renew, complete, release, held, goal_absent}
use heros_agent.Store.Persons.{decide, cancel, checkpoint, latest_checkpoint, checkpoints_of}
use heros_agent.Store.Scoped.{owns, as_tenant}

pub record Slot : Type 0 where
  pub goal : Option Goal
  pub dag : Option Dag
  pub checkpoints : Option (List Checkpoint)

abbrev pub slot : String → Memory → Slot
slot id m = record {
  goal = lookup id m.goals;
  dag = lookup id m.dags;
  checkpoints = lookup id m.checkpoints;
}

-- A method that works on the slot of one goal, which the tenant keeps.
pub record IsLocal {ℓ} {A : Type ℓ} (tenant id : String) (method : Memory → Memory × Result A)
    : Type ℓ where
  pub far : (m : Memory) (j : String) → str_eq id j ≡ false → slot j (method m).0 ≡ slot j m
  pub near : (m n : Memory) → slot id m ≡ slot id n → slot id (method m).0 ≡ slot id (method n).0
  pub told : (m n : Memory) → slot id m ≡ slot id n → (method m).1 ≡ (method n).1
  pub keeps : (m : Memory) → owns tenant id m ≡ true → owns tenant id (method m).0 ≡ true

module _ {ℓ} {A : Type ℓ} where
  commit-far :
      (m : Memory) (id j : String) (r : Result (Dag × A))
      → str_eq id j ≡ false
      → slot j (commit m id r).0 ≡ slot j m
  commit-far m id j (ok (d, a)) apart = ground (arith, lookup-insert id j d m.dags)
  commit-far m id j (err e) apart = refl

  commit-near :
      (m n : Memory) (id : String) (r : Result (Dag × A))
      → slot id m ≡ slot id n
      → slot id (commit m id r).0 ≡ slot id (commit n id r).0
  commit-near m n id (ok (d, a)) e =
      ground (arith, lookup-insert id id d m.dags, lookup-insert id id d n.dags, eq_iff id id)
  commit-near m n id (err x) e = e

  commit-told :
      (m n : Memory) (id : String) (r : Result (Dag × A)) → (commit m id r).1 ≡ (commit n id r).1
  commit-told m n id (ok (d, a)) = refl
  commit-told m n id (err e) = refl

  commit-keeps :
      (tenant : String) (m : Memory) (id : String) (r : Result (Dag × A))
      → owns tenant id (commit m id r).0 ≡ owns tenant id m
  unfolding owns
  commit-keeps tenant m id (ok (d, a)) = refl
  commit-keeps tenant m id (err e) = refl

  -- A method that writes the goal's graph from what it computes of the slot.
  commit-IsLocal :
      (tenant id : String) (r : Memory → Result (Dag × A))
      → ((m n : Memory) → slot id m ≡ slot id n → r m ≡ r n)
      → IsLocal tenant id (λ m. commit m id (r m))
  commit-IsLocal tenant id r same = record {
    far = λ m j apart. commit-far m id j (r m) apart;
    near = λ m n e. rw (same m n e) (commit-near m n id (r n) e);
    told = λ m n e. rw (same m n e) (commit-told m n id (r n));
    keeps = λ m own. commit-keeps tenant m id (r m) ∙ own;
  }

find_goal_same :
    (id : String) (m n : Memory) → slot id m ≡ slot id n → find_goal m id ≡ find_goal n id
find_goal_same id m n e =
    ap {B = Result Goal}
      (λ (s : Slot). elim s.goal [ none ↦ err (goal_missing id) | some g ↦ ok g ]) e

find_dag_same :
    (id : String) (absent : String → Error) (m n : Memory)
    → slot id m ≡ slot id n
    → find_dag m id absent ≡ find_dag n id absent
find_dag_same id absent m n e =
    ap {B = Result Dag} (λ (s : Slot). elim s.dag [ none ↦ err (absent id) | some d ↦ ok d ]) e

pub claim-IsLocal :
    (tenant id worker : String) (lease now : ℕ) → IsLocal tenant id (claim id worker lease now)
unfolding claim
claim-IsLocal tenant id worker lease now =
    commit-IsLocal tenant id _
      λ m n e. rw (find_goal_same id m n e, find_dag_same id dag_missing m n e) refl

held_same :
    (id task worker : String) (now : ℕ) (m n : Memory)
    → slot id m ≡ slot id n
    → held m id task worker now ≡ held n id task worker now
unfolding held
held_same id task worker now m n e = rw (find_dag_same id goal_absent m n e) refl

pub renew-IsLocal :
    (tenant id task worker : String) (lease now : ℕ)
    → IsLocal tenant id (renew id task worker lease now)
unfolding renew
renew-IsLocal tenant id task worker lease now =
    commit-IsLocal tenant id _ λ m n e. rw (held_same id task worker now m n e) refl

pub complete-IsLocal :
    (tenant id task worker : String) (next : State) (result : List ℕ) (failure : Text) (now : ℕ)
    → IsLocal tenant id (complete id task worker next result failure now)
unfolding complete
complete-IsLocal tenant id task worker next result failure now =
    commit-IsLocal tenant id _ λ m n e. rw (held_same id task worker now m n e) refl

pub release-IsLocal :
    (tenant id task worker : String) (now : ℕ) → IsLocal tenant id (release id task worker now)
unfolding release
release-IsLocal tenant id task worker now =
    commit-IsLocal tenant id _ λ m n e. rw (held_same id task worker now m n e) refl

pub decide-IsLocal :
    (tenant id task : String) (approve : Bool) (now : ℕ)
    → IsLocal tenant id (decide id task approve now)
unfolding decide
decide-IsLocal tenant id task approve now =
    commit-IsLocal tenant id _ λ m n e. rw (find_dag_same id goal_absent m n e) refl

-- A method that only reads the slot.
reads-IsLocal {ℓ} :
    {A : Type ℓ} (tenant id : String) (r : Memory → Result A)
    → ((m n : Memory) → slot id m ≡ slot id n → r m ≡ r n)
    → IsLocal tenant id (λ m. (m, r m))
reads-IsLocal tenant id r same = record {
  far = λ m j apart. refl;
  near = λ m n e. e;
  told = same;
  keeps = λ m own. own;
}

pub load_goal-IsLocal : (tenant id : String) → IsLocal tenant id (load_goal id)
unfolding load_goal
load_goal-IsLocal tenant id = reads-IsLocal tenant id _ (find_goal_same id)

pub load_dag-IsLocal : (tenant id : String) → IsLocal tenant id (load_dag id)
unfolding load_dag
load_dag-IsLocal tenant id = reads-IsLocal tenant id _ (find_dag_same id dag_missing)

checkpoints_same :
    (id : String) (m n : Memory) → slot id m ≡ slot id n → checkpoints_of m id ≡ checkpoints_of n id
checkpoints_same id m n e =
    ap {B = List Checkpoint} (λ (s : Slot). elim s.checkpoints [ none ↦ [] | some cps ↦ cps ]) e

pub latest_checkpoint-IsLocal : (tenant id : String) → IsLocal tenant id (latest_checkpoint id)
unfolding latest_checkpoint
latest_checkpoint-IsLocal tenant id =
    reads-IsLocal tenant id _ λ m n e. rw (checkpoints_same id m n e) refl

pub checkpoint-IsLocal :
    (tenant : String) (cp : Checkpoint) → IsLocal tenant cp.goal_id (checkpoint cp)
unfolding checkpoint owns
checkpoint-IsLocal tenant cp = record {
  far = λ m j apart.
      ground
        (arith, lookup-insert cp.goal_id j (checkpoints_of m cp.goal_id ++ cp ∷ []) m.checkpoints);
  near = λ m n e.
      let now : List Checkpoint = checkpoints_of n cp.goal_id ++ cp ∷ [] in
      rw (checkpoints_same cp.goal_id m n e) (
        ground (
          arith,
          lookup-insert cp.goal_id cp.goal_id now m.checkpoints,
          lookup-insert cp.goal_id cp.goal_id now n.checkpoints,
          eq_iff cp.goal_id cp.goal_id,
        ));
  told = λ m n e. refl;
  keeps = λ m own. own;
}

pub save_dag-IsLocal : (tenant : String) (d : Dag) → IsLocal tenant d.goal_id (save_dag d)
unfolding save_dag owns
save_dag-IsLocal tenant d = record {
  far = λ m j apart. ground (arith, lookup-insert d.goal_id j d m.dags);
  near = λ m n e. ground (
    arith,
    lookup-insert d.goal_id d.goal_id d m.dags,
    lookup-insert d.goal_id d.goal_id d n.dags,
    eq_iff d.goal_id d.goal_id,
  );
  told = λ m n e. refl;
  keeps = λ m own. own;
}

pub save_goal-IsLocal :
    (tenant : String) (g : Goal) → IsLocal tenant g.id (save_goal (as_tenant tenant g))
unfolding save_goal owns refuse_terminal_overwrite
save_goal-IsLocal tenant g = record {
  far = λ m j apart. ground (arith, lookup-insert g.id j (as_tenant tenant g) m.goals);
  near = λ m n e. ground (
    arith,
    lookup-insert g.id g.id (as_tenant tenant g) m.goals,
    lookup-insert g.id g.id (as_tenant tenant g) n.goals,
    eq_iff g.id g.id,
  );
  told = λ m n e. ground (arith, e);
  keeps = λ m own. ground (
    arith,
    lookup-insert g.id g.id (as_tenant tenant g) m.goals,
    eq_iff g.id g.id,
    eq_iff tenant tenant,
  );
}

pub cancel-IsLocal : (tenant id : String) (now : ℕ) → IsLocal tenant id (cancel id now)
unfolding cancel owns Goal.cancel
cancel-IsLocal tenant id now = record {
  far = λ m j apart.
      grind (
        arith,
        λ (g : Goal). lookup-insert id j g m.goals,
        λ (d : Dag). lookup-insert id j d m.dags,
      );
  near = λ m n e. grind (
    arith,
    λ (g : Goal). lookup-insert id id g m.goals,
    λ (d : Dag). lookup-insert id id d m.dags,
    λ (g : Goal). lookup-insert id id g n.goals,
    λ (d : Dag). lookup-insert id id d n.dags,
    eq_iff id id,
  );
  told = λ m n e. grind (arith, e);
  keeps = λ m own. grind (arith, λ (g : Goal). lookup-insert id id g m.goals, eq_iff id id);
}
