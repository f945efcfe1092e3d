-- ===== src/Store/Settled.antt =====
-- What Release and Complete of internal/store/store.go make of a running task, for the worker that holds
-- it.
use heros_agent.Base.{
  ℕ, ◌≡◌, refl, sym, ◌∙◌, ap, subst, some, List, [], String, lookup, arith, lookup-insert_self,
}
use heros_agent.Base.Int64.{ℤ}
use heros_agent.Base.Text.{Text}
use heros_agent.Errors.{Result, ok}
use heros_agent.Task.{Task, transition}
use heros_agent.Task.States.{State, ready, running, succeeded, failed, can_transition_to}
use heros_agent.Dag.{Dag}
use heros_agent.Dag.Doom.{untouched, doomed, IsDoomed-open}
use heros_agent.Dag.Spread.{propagate_failure_lem}
use heros_agent.Dag.Evolve.{IsSound}
use heros_agent.Store.{Memory, put_dag, put_task}
use heros_agent.Store.Leases.{complete, release, spread, settle}
use heros_agent.Store.Holders.{Holds, held_iff}
use heros_agent.Store.Sound.{IsSound-move}

-- The task is in the store in this state, at the attempt it was at, and nobody holds it.
pub record Left (m : Memory) (goal_id id : String) (next : State) (attempt : ℤ) : Type 0 where
  pub graph : Dag
  pub task : Task
  pub stored : lookup goal_id m.dags ≡ some graph
  pub there : lookup id graph.tasks ≡ some task
  pub state : task.state ≡ next
  pub free : (task.leased_by ≡ "") × (task.lease_expiry ≡ 0)
  pub same_attempt : task.attempt ≡ attempt

pub Left-dags :
    {goal_id id : String} {next : State} {attempt : ℤ} (m n : Memory)
    → n.dags ≡ m.dags
    → Left m goal_id id next attempt
    → Left n goal_id id next attempt
Left-dags {goal_id} m n same left = record {
  graph = left.graph;
  task = left.task;
  stored = ap (lookup goal_id) same ∙ left.stored;
  there = left.there;
  state = left.state;
  free = left.free;
  same_attempt = left.same_attempt;
}

module _ (m : Memory) (goal_id worker : String) (now : ℕ) (d : Dag) (t : Task)
    (holds : Holds m goal_id t.id worker now d t) (runs : t.state ≡ running) where
  put-Left :
      (t' : Task) (next : State)
      → t'.id ≡ t.id
      → t'.state ≡ next
      → (t'.leased_by ≡ "") × (t'.lease_expiry ≡ 0)
      → t'.attempt ≡ t.attempt
      → Left (put_dag m goal_id (put_task d t')) goal_id t.id next t.attempt
  put-Left t' next key state free attempt = record {
    graph = put_task d t';
    task = t';
    stored = lookup-insert_self goal_id (put_task d t') m.dags;
    there =
        ap (λ k. lookup k (put_task d t').tasks) (sym key) ∙ lookup-insert_self t'.id t' d.tasks;
    state = state;
    free = free;
    same_attempt = attempt;
  }

  pub release-Left :
      Left (release goal_id t.id worker now m).0 goal_id t.id ready t.attempt
      × ((release goal_id t.id worker now m).1 ≡ ok tt)
  unfolding release transition can_transition_to
  release-Left =
      let mine = (held_iff m goal_id t.id worker now d t).1 holds in
      let new : Task = record t {
        state = ready;
        updated_at = now;
        leased_by = "";
        lease_expiry = 0;
      } in
      let made : release goal_id t.id worker now m ≡ (put_dag m goal_id (put_task d new), ok tt) =
        ground (arith, mine, runs) in
      (
        subst (λ (r : Memory × Result (Unit {0})). Left r.0 goal_id t.id ready t.attempt) (sym made)
            (put-Left new ready refl refl (refl, refl) refl),
        ap (λ (r : Memory × Result (Unit {0})). r.1) made,
      )

  abbrev settled : State → List ℕ → Text → Task
  settled next result failure = settle (record t { state = next; updated_at = now }) result failure

  pub complete-succeeded-Left :
      (result : List ℕ)
      → Left
          (complete goal_id t.id worker succeeded result [] now m).0
          goal_id
          t.id
          succeeded
          t.attempt
        × ((complete goal_id t.id worker succeeded result [] now m).1 ≡ ok tt)
  unfolding complete transition can_transition_to spread
  complete-succeeded-Left result =
      let mine = (held_iff m goal_id t.id worker now d t).1 holds in
      let new = settled succeeded result [] in
      let made : complete goal_id t.id worker succeeded result [] now m
          ≡ (put_dag m goal_id (put_task d new), ok tt) =
        ground (arith, mine, runs) in
      (
        subst (λ (r : Memory × Result (Unit {0})). Left r.0 goal_id t.id succeeded t.attempt)
            (sym made) (put-Left new succeeded refl refl (refl, refl) refl),
        ap (λ (r : Memory × Result (Unit {0})). r.1) made,
      )

  pub complete-failed-Left :
      (failure : Text)
      → IsSound d.tasks
      → Left (complete goal_id t.id worker failed [] failure now m).0 goal_id t.id failed t.attempt
        × ((complete goal_id t.id worker failed [] failure now m).1 ≡ ok tt)
  unfolding complete transition can_transition_to spread
  complete-failed-Left failure sound =
      let mine = (held_iff m goal_id t.id worker now d t).1 holds in
      let new = settled failed [] failure in
      let sound' : IsSound (put_task d new).tasks =
        IsSound-move d t new sound holds runs refl refl refl (λ l. absurd (omega (arith, l))) in
      let (d', count, run, goal, spreads) = propagate_failure_lem (put_task d new) sound'.closed in
      let at : lookup t.id (put_task d new).tasks ≡ some new =
        lookup-insert_self t.id new d.tasks in
      let kept : lookup t.id d'.tasks ≡ some new = elim (spreads.fates t.id) [
        | untouched same ↦ same ∙ at
        | doomed v dep ds dv doom now_ ↦
            let (u, there, open_) = IsDoomed-open doom in absurd (ground (arith, at, there, open_))
      ] in
      let made : complete goal_id t.id worker failed [] failure now m
          ≡ (put_dag m goal_id d', ok tt) =
        ground (arith, mine, runs, run) in
      (
        subst (λ (r : Memory × Result (Unit {0})). Left r.0 goal_id t.id failed t.attempt)
            (sym made)
            (record {
              graph = d';
              task = new;
              stored = lookup-insert_self goal_id d' m.dags;
              there = kept;
              state = refl;
              free = (refl, refl);
              same_attempt = refl;
            }),
        ap (λ (r : Memory × Result (Unit {0})). r.1) made,
      )
