-- ===== src/Store/Calls.antt =====
-- internal/store/scoped.go: the calls of one goal by tenants, each on its own view of one store, and
-- the two steps that a call is made of.
use heros_agent.Base.{
  ℕ, Bool, true, false, Option, none, List, [], ◌∷◌, String, str_eq, if◌then◌else◌,
}
use heros_agent.Base.Text.{Text}
use heros_agent.Errors.{Result, ok, err}
use heros_agent.Task.{Task}
use heros_agent.Task.States.{State}
use heros_agent.Dag.{Dag}
use heros_agent.Goal.{Goal}
use heros_agent.Store
use heros_agent.Store.{Memory, Method, Checkpoint, goal_missing, dag_missing}
use heros_agent.Store.Leases
use heros_agent.Store.Persons
use heros_agent.Store.Scoped
use heros_agent.Store.Scoped.{owns, as_tenant}

pub data Call : Type 0 where
  creates : Goal → Call
  loads : String → Call
  saves : Goal → Call
  plans : Dag → Call
  loads_dag : String → Call
  claims : (id worker : String) (lease now : ℕ) → Call
  renews : (id task worker : String) (lease now : ℕ) → Call
  completes :
      (id task worker : String) (next : State) (result : List ℕ) (failure : Text) (now : ℕ) → Call
  releases : (id task worker : String) (now : ℕ) → Call
  decides : (id task : String) (approve : Bool) (now : ℕ) → Call
  cancels : (id : String) (now : ℕ) → Call
  notes : Checkpoint → Call
  reads : String → Call

abbrev pub Answer : Call → Type 0
Answer (loads id) = Goal
Answer (loads_dag id) = Dag
Answer (claims id worker lease now) = Task
Answer (cancels id now) = ℕ
Answer (reads id) = Option Checkpoint
Answer (creates g) = Unit {0}
Answer (saves g) = Unit {0}
Answer (plans d) = Unit {0}
Answer (renews id task worker lease now) = Unit {0}
Answer (completes id task worker next result failure now) = Unit {0}
Answer (releases id task worker now) = Unit {0}
Answer (decides id task approve now) = Unit {0}
Answer (notes cp) = Unit {0}

abbrev pub is_create : Call → Bool
is_create (creates g) = true
is_create _ = false

abbrev pub goal_of : Call → String
goal_of (creates g) = g.id
goal_of (loads id) = id
goal_of (saves g) = g.id
goal_of (plans d) = d.goal_id
goal_of (loads_dag id) = id
goal_of (claims id worker lease now) = id
goal_of (renews id task worker lease now) = id
goal_of (completes id task worker next result failure now) = id
goal_of (releases id task worker now) = id
goal_of (decides id task approve now) = id
goal_of (cancels id now) = id
goal_of (notes cp) = cp.goal_id
goal_of (reads id) = id

-- A call through the tenant's view.
abbrev pub respond : String → (c : Call) → Method (Answer c)
respond tenant (creates g) = Scoped.create_goal tenant g
respond tenant (loads id) = Scoped.load_goal tenant id
respond tenant (saves g) = Scoped.save_goal tenant g
respond tenant (plans d) = Scoped.save_dag tenant d
respond tenant (loads_dag id) = Scoped.load_dag tenant id
respond tenant (claims id worker lease now) = Scoped.claim tenant id worker lease now
respond tenant (renews id task worker lease now) = Scoped.renew tenant id task worker lease now
respond tenant (completes id task worker next result failure now) =
    Scoped.complete tenant id task worker next result failure now
respond tenant (releases id task worker now) = Scoped.release tenant id task worker now
respond tenant (decides id task approve now) = Scoped.decide tenant id task approve now
respond tenant (cancels id now) = Scoped.cancel tenant id now
respond tenant (notes cp) = Scoped.checkpoint tenant cp
respond tenant (reads id) = Scoped.latest_checkpoint tenant id

-- The store's own method, which the view calls once the guard has passed.
abbrev pub unguarded : String → (c : Call) → Method (Answer c)
unguarded tenant (creates g) = Store.create_goal (as_tenant tenant g)
unguarded tenant (loads id) = Store.load_goal id
unguarded tenant (saves g) = Store.save_goal (as_tenant tenant g)
unguarded tenant (plans d) = Store.save_dag d
unguarded tenant (loads_dag id) = Store.load_dag id
unguarded tenant (claims id worker lease now) = Leases.claim id worker lease now
unguarded tenant (renews id task worker lease now) = Leases.renew id task worker lease now
unguarded tenant (completes id task worker next result failure now) =
    Leases.complete id task worker next result failure now
unguarded tenant (releases id task worker now) = Leases.release id task worker now
unguarded tenant (decides id task approve now) = Persons.decide id task approve now
unguarded tenant (cancels id now) = Persons.cancel id now
unguarded tenant (notes cp) = Persons.checkpoint cp
unguarded tenant (reads id) = Persons.latest_checkpoint id

-- The answer when the guard does not pass.
abbrev pub refusal : (c : Call) → Result (Answer c)
refusal (loads_dag id) = err (dag_missing id)
refusal (reads id) = ok none
refusal (creates g) = err (goal_missing g.id)
refusal (loads id) = err (goal_missing id)
refusal (saves g) = err (goal_missing g.id)
refusal (plans d) = err (goal_missing d.goal_id)
refusal (claims id worker lease now) = err (goal_missing id)
refusal (renews id task worker lease now) = err (goal_missing id)
refusal (completes id task worker next result failure now) = err (goal_missing id)
refusal (releases id task worker now) = err (goal_missing id)
refusal (decides id task approve now) = err (goal_missing id)
refusal (cancels id now) = err (goal_missing id)
refusal (notes cp) = err (goal_missing cp.goal_id)

-- A call whose guard ran on one store, and whose method runs on the store as others have left it since.
unfoldable pub in_two_steps : String → (c : Call) → Memory → Memory → Memory × Result (Answer c)
in_two_steps tenant c before now =
    if owns tenant (goal_of c) before then unguarded tenant c now else (now, refusal c)

abbrev pub Reply : Type 0
Reply = (c : Call) × Result (Answer c)

-- The answers that one tenant gets, while any tenants call in this order.
unfoldable pub heard : String → List (String × Call) → Memory → List Reply
heard tenant [] m = []
heard tenant ((by, c) ∷ calls) m =
    let (m', answer) = respond by c m in
    let later = heard tenant calls m' in if str_eq by tenant then (c, answer) ∷ later else later

unfoldable pub calls_of : String → List (String × Call) → List (String × Call)
calls_of tenant [] = []
calls_of tenant ((by, c) ∷ calls) =
    let later = calls_of tenant calls in if str_eq by tenant then (by, c) ∷ later else later
