-- ===== src/Store/Leasing.antt =====
-- The lease of internal/store/store.go against everybody else: the other workers, and a person's Cancel.
use heros_agent.Base.{
  ℕ, ◌≡◌, ◌≢◌, refl, sym, ◌∙◌, ap, subst, some, List, String, lookup, lookup-insert,
  lookup-insert_self, arith, inl, inr, Bool-cases, str_eq, str_eq-true, str_eq-false, eq_iff,
}
use heros_agent.Base.Text.{Text}
use heros_agent.Errors.{Result, err}
use heros_agent.Task.{Task}
use heros_agent.Task.States.{State, running}
use heros_agent.Dag.{Dag}
use heros_agent.Dag.Claimable.{IsUnclaimed, is_pending, is_ready, lease_over}
use heros_agent.Store.{Memory, put_task}
use heros_agent.Store.Leases
use heros_agent.Store.Leases.{claim, held, held_by_another, renew, complete, release}
use heros_agent.Store.Persons.{cancel}
use heros_agent.Store.Claims.{
  AllClosed, Claimed, no_goal, goal_not_running, no_dag, nothing, took, claim_lem, leased,
}
use heros_agent.Store.Cancels as Cancels
use heros_agent.Store.Cancels.{Cancelled, cancel_lem, stop, stop_all, lookup-stop_all}
use heros_agent.Store.Holders.{Holds}

-- The task is in the store as it was.
abbrev pub HasTask : Memory → String → String → Task → Type 0
HasTask m goal_id id t = (d : Dag) × (lookup goal_id m.dags ≡ some d) × (lookup id d.tasks ≡ some t)

module _ (m : Memory) (goal_id id holder : String) (now : ℕ) (d : Dag) (t : Task)
    (holds : Holds m goal_id id holder now d t) (runs : t.state ≡ running) where
  as_it_was : HasTask m goal_id id t
  as_it_was = (d, holds.graph, holds.task)

  not-IsUnclaimed : ¬ IsUnclaimed t now
  not-IsUnclaimed (is_pending e) = ground (arith, runs)
  not-IsUnclaimed (is_ready e) = ground (arith, runs)
  not-IsUnclaimed (lease_over e over) = omega (arith, over, holds.live)

  leased-id : (u : Task) (worker : String) (lease : ℕ) → (leased u worker lease now).id ≡ u.id
  unfolding leased
  leased-id u worker lease = refl

  Claimed-HasTask :
      {worker : String} {lease : ℕ} {r : Memory × Result Task}
      → AllClosed m
      → Claimed m goal_id worker lease now r
      → HasTask r.0 goal_id id t
  Claimed-HasTask closed (no_goal e) = as_it_was
  Claimed-HasTask closed (goal_not_running g e idle) = as_it_was
  Claimed-HasTask closed (no_dag g e run absent) = as_it_was
  Claimed-HasTask closed (nothing d' dd none_free) = as_it_was
  Claimed-HasTask {worker} {lease} closed (took g d' id' u gg run dd at free met) =
      let same : d ≡ d' = ground (arith, holds.graph) in
      let keyed : u.id ≡ id' = (closed goal_id d' dd).keyed id' u at in
      let here : lookup id d'.tasks ≡ some t =
        ap (λ (x : Dag). lookup id x.tasks) (sym same) ∙ holds.task in
      let new : Task = leased u worker lease now in
      elim (Bool-cases (str_eq new.id id)) [
        | inl e ↦
            let key : id' ≡ id =
              sym keyed ∙ (sym (leased-id u worker lease) ∙ str_eq-true new.id id e) in
            let is : u ≡ t = ground (arith, ap (λ k. lookup k d'.tasks) key) in
            absurd (not-IsUnclaimed (subst (λ x. IsUnclaimed x now) is free))
        | inr ne ↦ (
          put_task d' new,
          lookup-insert_self goal_id (put_task d' new) m.dags,
          ground (arith, lookup-insert new.id id new d'.tasks),
        )
      ]

  stop-spared : holder ≢ "" → stop now t ≡ t
  unfolding stop
  stop-spared named = ground (
    arith,
    holds.owner,
    holds.live,
    ap (λ s. str_eq s "") holds.owner,
    str_eq-false holder "" named,
  )

  Cancelled-HasTask :
      {r : Memory × Result ℕ} → holder ≢ "" → Cancelled m goal_id now r → HasTask r.0 goal_id id t
  Cancelled-HasTask named (Cancels.no_goal e) = as_it_was
  Cancelled-HasTask named (Cancels.already_over g at over) = as_it_was
  Cancelled-HasTask named (Cancels.without_dag g at live bare) = as_it_was
  Cancelled-HasTask named (Cancels.with_dag g d' at live dd) =
      let same : d ≡ d' = ground (arith, holds.graph) in
      let here : lookup id d'.tasks ≡ some t =
        ap (λ (x : Dag). lookup id x.tasks) (sym same) ∙ holds.task in
      let after : Dag = record d' { tasks = stop_all now d'.tasks } in
      (
        after,
        lookup-insert_self goal_id after m.dags,
        ground (arith, lookup-stop_all now id d'.tasks, stop-spared named),
      )

  held_by_holder :
      (other : String) → other ≢ holder → held m goal_id id other now ≡ err (held_by_another t)
  unfolding held Leases.check_lease
  held_by_holder other ne =
      ground (arith, holds.graph, holds.task, holds.owner, eq_iff t.leased_by other)

  -- While a worker whose id is not empty holds a running task under a live lease, on a store with closed
  -- graphs: whoever claims from the goal, whatever for, and whoever cancels it, leaves the task as it is;
  -- and another worker's Renew, Complete or Release of it is refused as held by another and changes
  -- nothing. (Cancel reads an empty holder as none, and stops its task.)
  pub lease_excludes :
      AllClosed m
      → holder ≢ ""
      → (other : String) → other ≢ holder
      → ((worker : String) (lease : ℕ) → HasTask (claim goal_id worker lease now m).0 goal_id id t)
        × HasTask (cancel goal_id now m).0 goal_id id t
        × ((lease : ℕ) → renew goal_id id other lease now m ≡ (m, err (held_by_another t)))
        × ((next : State) (result : List ℕ) (failure : Text)
            → complete goal_id id other next result failure now m ≡ (m, err (held_by_another t)))
        × (release goal_id id other now m ≡ (m, err (held_by_another t)))
  unfolding renew complete release
  lease_excludes closed named other ne =
      let refused = held_by_holder other ne in
      (
        λ worker lease. Claimed-HasTask closed (claim_lem m goal_id worker lease now closed),
        Cancelled-HasTask named (cancel_lem m goal_id now),
        λ lease. ground (arith, refused),
        λ next result failure. ground (arith, refused),
        ground (arith, refused),
      )
