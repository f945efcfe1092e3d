-- ===== src/Store/Claims.antt =====
-- What Claim of internal/store/store.go does, on every branch.
use heros_agent.Base.{
  ℕ, ◌+◌, ◌≡◌, refl, sym, ◌∙◌, true, false, none, some, List, [], ◌∷◌, String, lookup, arith, inl,
  inr, Bool-cases, Option-cases, subst, ◌↔◌,
}
use heros_agent.Base.Int64.{pos, add64}
use mathlib.Core.List.{Memᴰ}
use heros_agent.Errors.{Result, ok, err}
use heros_agent.Task.{Task, transition}
use heros_agent.Task.States.{running, can_transition_to}
use heros_agent.Dag.{Dag, claimable_set}
use heros_agent.Dag.Closed.{IsClosed, IsMet}
use heros_agent.Dag.Claimable.{IsUnclaimed, is_pending, is_ready, lease_over, claimable_set_lem}
use heros_agent.Goal.{Goal, claimable}
use heros_agent.Store.{Memory, goal_missing, dag_missing, put_dag, put_task, commit}
use heros_agent.Store.Leases.{take_lease, claim_first, claim, not_running, nothing_to_claim}

-- The task under a new lease: running, and one attempt further.
unfoldable pub leased : Task → String → ℕ → ℕ → Task
leased t worker lease now = record t {
  state = running;
  attempt = add64 t.attempt (pos 1);
  leased_by = worker;
  lease_expiry = now + lease;
  updated_at = now;
}

-- The three moves of Claim are legal for every task that the claimable set can hold.
pub take_lease_lem :
    {t : Task} {now : ℕ} (worker : String) (lease : ℕ)
    → IsUnclaimed t now
    → take_lease t worker lease now ≡ ok (leased t worker lease now)
unfolding take_lease transition can_transition_to leased
take_lease_lem worker lease (is_pending e) = ground arith
take_lease_lem worker lease (is_ready e) = ground arith
take_lease_lem worker lease (lease_over e l) = ground arith

-- The outcomes of Claim: the store after it, and the result.
pub data Claimed (m : Memory) (goal_id worker : String) (lease now : ℕ)
    : Memory × Result Task → Type 0 where
  no_goal :
      lookup goal_id m.goals ≡ none
      → Claimed m goal_id worker lease now (m, err (goal_missing goal_id))
  goal_not_running :
      (g : Goal)
      → lookup goal_id m.goals ≡ some g
      → claimable g ≡ false
      → Claimed m goal_id worker lease now (m, err (not_running g.state))
  no_dag :
      (g : Goal)
      → lookup goal_id m.goals ≡ some g
      → claimable g ≡ true
      → lookup goal_id m.dags ≡ none
      → Claimed m goal_id worker lease now (m, err (dag_missing goal_id))
  nothing :
      (d : Dag)
      → lookup goal_id m.dags ≡ some d
      → ((id : String) (t : Task)
          → lookup id d.tasks ≡ some t
          → IsUnclaimed t now
          → ¬ IsMet d.tasks t)
      → Claimed m goal_id worker lease now (m, err nothing_to_claim)
  took :
      (g : Goal) (d : Dag) (id : String) (t : Task)
      → lookup goal_id m.goals ≡ some g
      → claimable g ≡ true
      → lookup goal_id m.dags ≡ some d
      → lookup id d.tasks ≡ some t
      → IsUnclaimed t now
      → IsMet d.tasks t
      → Claimed m goal_id worker lease now (
        put_dag m goal_id (put_task d (leased t worker lease now)),
        ok (leased t worker lease now),
      )

abbrev pub AllClosed : Memory → Type 0
AllClosed m = (id : String) (d : Dag) → lookup id m.dags ≡ some d → IsClosed d.tasks

module _ (m : Memory) (goal_id worker : String) (lease now : ℕ) where
  abbrev Outcome : Type 0
  Outcome = Claimed m goal_id worker lease now (claim goal_id worker lease now m)

  reached :
      (g : Goal) (d : Dag) (ts : List Task)
      → lookup goal_id m.goals ≡ some g
      → claimable g ≡ true
      → lookup goal_id m.dags ≡ some d
      → claimable_set d now ≡ ok ts
      → claim goal_id worker lease now m ≡ commit m goal_id (claim_first d ts worker lease now)
  unfolding claim
  reached g d ts gg run dd set = ground arith

  claim_none :
      (g : Goal) (d : Dag)
      → lookup goal_id m.goals ≡ some g
      → claimable g ≡ true
      → lookup goal_id m.dags ≡ some d
      → claimable_set d now ≡ ok []
      → claim goal_id worker lease now m ≡ (m, err nothing_to_claim)
  unfolding claim_first
  claim_none g d gg run dd set = reached g d [] gg run dd set

  claim_took :
      (g : Goal) (d : Dag) (t : Task) (ts : List Task)
      → lookup goal_id m.goals ≡ some g
      → claimable g ≡ true
      → lookup goal_id m.dags ≡ some d
      → claimable_set d now ≡ ok (t ∷ ts)
      → IsUnclaimed t now
      → claim goal_id worker lease now m ≡ (
        put_dag m goal_id (put_task d (leased t worker lease now)),
        ok (leased t worker lease now),
      )
  unfolding claim_first
  claim_took g d t ts gg run dd set free =
      reached g d (t ∷ ts) gg run dd set ∙ ground (arith, take_lease_lem {t = t} worker lease free)

  claim_dag :
      (g : Goal) (d : Dag) (ts : List Task)
      → lookup goal_id m.goals ≡ some g
      → claimable g ≡ true
      → lookup goal_id m.dags ≡ some d
      → claimable_set d now ≡ ok ts
      → ((t : Task)
          → Memᴰ t ts
            ↔ ((id : String) × (lookup id d.tasks ≡ some t) × IsUnclaimed t now × IsMet d.tasks t))
      → Outcome
  claim_dag g d [] gg run dd set holds =
      subst (Claimed m goal_id worker lease now) (sym (claim_none g d gg run dd set))
        (nothing d dd (λ id t at free met. no_member t ((holds t).1 (id, at, free, met))))
    where
      no_member : (t : Task) → ¬ Memᴰ t []
      no_member t m' = elim m' [ ]
  claim_dag g d (t ∷ ts) gg run dd set holds =
      let (id, at, free, met) = (holds t).0 (Memᴰ.head refl) in
      subst (Claimed m goal_id worker lease now) (sym (claim_took g d t ts gg run dd set free))
        (took g d id t gg run dd at free met)

  claim_no_goal :
      lookup goal_id m.goals ≡ none
      → claim goal_id worker lease now m ≡ (m, err (goal_missing goal_id))
  unfolding claim
  claim_no_goal e = ground arith

  claim_idle :
      (g : Goal)
      → lookup goal_id m.goals ≡ some g
      → claimable g ≡ false
      → claim goal_id worker lease now m ≡ (m, err (not_running g.state))
  unfolding claim
  claim_idle g e idle = ground arith

  claim_no_dag :
      (g : Goal)
      → lookup goal_id m.goals ≡ some g
      → claimable g ≡ true
      → lookup goal_id m.dags ≡ none
      → claim goal_id worker lease now m ≡ (m, err (dag_missing goal_id))
  unfolding claim
  claim_no_dag g e run absent = ground arith

  -- Every outcome of Claim. A goal that is not running gives nothing; a task is taken only if it is
  -- pending, ready, or under a lease that is over, with its dependencies met; the error paths leave
  -- the store alone.
  pub claim_lem :
      AllClosed m → Claimed m goal_id worker lease now (claim goal_id worker lease now m)
  claim_lem all_closed = elim (Option-cases (lookup goal_id m.goals)) [
    | inl e ↦ subst (Claimed m goal_id worker lease now) (sym (claim_no_goal e)) (no_goal e)
    | inr (g, e) ↦ elim (Bool-cases (claimable g)) [
      | inr idle ↦
          subst (Claimed m goal_id worker lease now) (sym (claim_idle g e idle))
            (goal_not_running g e idle)
      | inl run ↦ elim (Option-cases (lookup goal_id m.dags)) [
        | inl absent ↦
            subst (Claimed m goal_id worker lease now) (sym (claim_no_dag g e run absent))
              (no_dag g e run absent)
        | inr (d, dd) ↦
            let (ts, set, holds) = claimable_set_lem d (all_closed goal_id d dd) now in
            claim_dag g d ts e run dd set holds
      ]
    ]
  ]
