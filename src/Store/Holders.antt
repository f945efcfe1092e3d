-- ===== src/Store/Holders.antt =====
-- `held` of internal/store/store.go: the lease that a worker acts under.
use heros_agent.Base.{ℕ, ap, ◌<◌, ◌≡◌, sym, ◌∙◌, some, String, lookup, arith, ◌↔◌, eq_iff}
use heros_agent.Errors.{Error, ok, ◌>>=◌, >>=-eq-ok}
use heros_agent.Task.{Task}
use heros_agent.Dag.{Dag}
use heros_agent.Store.{Memory, find_dag}
use heros_agent.Store.Leases.{goal_absent, find_task, check_lease, held}

-- The worker holds a live lease on the task.
pub record Holds (m : Memory) (goal_id id worker : String) (now : ℕ) (d : Dag) (t : Task)
    : Type 0 where
  pub graph : lookup goal_id m.dags ≡ some d
  pub task : lookup id d.tasks ≡ some t
  pub owner : t.leased_by ≡ worker
  pub live : now < t.lease_expiry

pub find_dag-ok :
    (m : Memory) (id : String) (e : String → Error) (d : Dag)
    → find_dag m id e ≡ ok d
    → lookup id m.dags ≡ some d
find_dag-ok m id e d h = ground arith

pub find_task-ok :
    (d : Dag) (id : String) (t : Task) → find_task d id ≡ ok t → lookup id d.tasks ≡ some t
find_task-ok d id t h = ground arith

check_lease-ok :
    (t t' : Task) (worker : String) (now : ℕ)
    → check_lease t worker now ≡ ok t'
    → (t' ≡ t) × (t.leased_by ≡ worker) × (now < t.lease_expiry)
unfolding check_lease
check_lease-ok t t' worker now h = ground (arith, eq_iff t.leased_by worker)

check_lease_complete :
    (t : Task) (worker : String) (now : ℕ)
    → t.leased_by ≡ worker
    → now < t.lease_expiry
    → check_lease t worker now ≡ ok t
unfolding check_lease
check_lease_complete t worker now owner live = ground (arith, eq_iff t.leased_by worker)

-- `held` succeeds exactly under a live lease of the worker's own.
pub held_iff :
    (m : Memory) (goal_id id worker : String) (now : ℕ) (d : Dag) (t : Task)
    → (held m goal_id id worker now ≡ ok (d, t)) ↔ Holds m goal_id id worker now d t
unfolding held
held_iff m goal_id id worker now d t = (to, from)
  where
    to : held m goal_id id worker now ≡ ok (d, t) → Holds m goal_id id worker now d t
    to h =
        let (d0, graph, r1) =
          >>=-eq-ok (find_dag m goal_id goal_absent)
            (λ d. find_task d id >>= λ t. check_lease t worker now >>= λ t'. ok (d, t')) h in
        let (t0, task, r2) =
          >>=-eq-ok (find_task d0 id) (λ t. check_lease t worker now >>= λ t'. ok (d0, t')) r1 in
        let (t1, lease, r3) = >>=-eq-ok (check_lease t0 worker now) (λ t'. ok (d0, t')) r2 in
        let (same, owner, live) = check_lease-ok t0 t1 worker now lease in
        let dd : d0 ≡ d = cc in
        let tt' : t0 ≡ t = cc in
        record {
          graph = find_dag-ok m goal_id goal_absent d0 graph ∙ ap some dd;
          task =
              ap (λ (x : Dag). lookup id x.tasks) (sym dd)
              ∙ find_task-ok d0 id t0 task
              ∙ ap some tt';
          owner = rw (← tt') owner;
          live = rw (← tt') live;
        }

    from : Holds m goal_id id worker now d t → held m goal_id id worker now ≡ ok (d, t)
    from h = ground (arith, check_lease_complete t worker now h.owner h.live, h.graph, h.task)
