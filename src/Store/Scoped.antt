-- ===== src/Store/Scoped.antt =====
-- internal/store/scoped.go: the view of the in-process store that one tenant has. A method looks
-- whether the tenant owns the goal, under the mutex, and then calls the store's method; what others
-- may do between the two is in Store/Owners.
use heros_agent.Base.{
  ℕ, Bool, false, Option, none, some, List, [], ◌∷◌, String, str_eq, lookup, if◌then◌else◌,
}
use heros_agent.Base.Text.{Text, verbatim}
use heros_agent.Errors.{Error, Result, ok, err, ◌>>=◌, plain}
use heros_agent.Task.{Task}
use heros_agent.Task.States.{State}
use heros_agent.Dag.{Dag}
use heros_agent.Goal.{Goal}
use heros_agent.Goal.States as GoalStates
use heros_agent.Store
use heros_agent.Store.{Memory, Method, Checkpoint, goal_missing, dag_missing}
use heros_agent.Store.Leases
use heros_agent.Store.Persons
use heros_agent.Store.Listing

unfoldable pub owns : String → String → Memory → Bool
owns tenant id m = elim (lookup id m.goals) [ none ↦ false | some g ↦ str_eq g.tenant tenant ]

-- A method behind the guard; another goal's id is answered as a missing one.
unfoldable pub guarded {ℓ} :
    {A : Type ℓ}
    → String
    → String
    → (String → Error)
    → (Memory → Memory × Result A)
    → Memory
    → Memory × Result A
guarded tenant id absent method m = if owns tenant id m then method m else (m, err (absent id))

abbrev pub as_tenant : String → Goal → Goal
as_tenant tenant g = record g { tenant = tenant }

abbrev without_tenant : Error
without_tenant = record {
  sentinel = plain;
  message = verbatim "store: refusing to create a goal with no tenant" ∷ [];
}

unfoldable pub create_goal : String → Goal → Method (Unit {0})
create_goal tenant g m =
    if str_eq tenant "" then (m, err without_tenant) else Store.create_goal (as_tenant tenant g) m

unfoldable pub load_goal : String → String → Method Goal
load_goal tenant id = guarded tenant id goal_missing (Store.load_goal id)

unfoldable pub save_goal : String → Goal → Method (Unit {0})
save_goal tenant g = guarded tenant g.id goal_missing (Store.save_goal (as_tenant tenant g))

unfoldable pub list_goals : String → Option GoalStates.State → Method (List Goal)
list_goals tenant state m =
    let (m', all) = Listing.list_goals state m in
    (m', all >>= λ gs. ok (Listing.select (λ g. str_eq g.tenant tenant) gs))

-- The argument is not read.
unfoldable pub latest_goal : String → String → Method (Option Goal)
latest_goal tenant ignored = Listing.latest_goal tenant

unfoldable pub save_dag : String → Dag → Method (Unit {0})
save_dag tenant d = guarded tenant d.goal_id goal_missing (Store.save_dag d)

unfoldable pub load_dag : String → String → Method Dag
load_dag tenant id = guarded tenant id dag_missing (Store.load_dag id)

unfoldable pub claim : String → String → String → ℕ → ℕ → Method Task
claim tenant id worker lease now = guarded tenant id goal_missing (Leases.claim id worker lease now)

unfoldable pub renew : String → String → String → String → ℕ → ℕ → Method (Unit {0})
renew tenant id task worker lease now =
    guarded tenant id goal_missing (Leases.renew id task worker lease now)

unfoldable pub complete :
    String → String → String → String → State → List ℕ → Text → ℕ → Method (Unit {0})
complete tenant id task worker next result failure now =
    guarded tenant id goal_missing (Leases.complete id task worker next result failure now)

unfoldable pub release : String → String → String → String → ℕ → Method (Unit {0})
release tenant id task worker now =
    guarded tenant id goal_missing (Leases.release id task worker now)

unfoldable pub decide : String → String → String → Bool → ℕ → Method (Unit {0})
decide tenant id task approve now =
    guarded tenant id goal_missing (Persons.decide id task approve now)

unfoldable pub cancel : String → String → ℕ → Method ℕ
cancel tenant id now = guarded tenant id goal_missing (Persons.cancel id now)

unfoldable pub checkpoint : String → Checkpoint → Method (Unit {0})
checkpoint tenant cp = guarded tenant cp.goal_id goal_missing (Persons.checkpoint cp)

-- The goal of another tenant has no checkpoint, which is no error.
unfoldable pub latest_checkpoint : String → String → Method (Option Checkpoint)
latest_checkpoint tenant id m =
    if owns tenant id m then Persons.latest_checkpoint id m else (m, ok none)
