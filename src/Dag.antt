-- ===== src/Dag.antt =====
-- internal/task/task.go: the task graph of one goal, the sets of tasks that may run, the propagation
-- of failures, progress and stalls. Building and checking a graph is in Build.
--
-- A read of `d.Tasks[id].State` at an id that is not in the map is a nil dereference in Go: here it is
-- the error `nil_dereference`.
pub mod Sort
pub mod Build
pub mod Closed
pub mod Doom
pub mod Propagate
pub mod Spread
pub mod Claimable
pub mod Stalls
pub mod Evolve
pub mod Valid
pub mod Cycles
pub mod Search
pub mod Pushes
pub mod Rounds
pub mod Greying
pub mod Stepped
pub mod Searched
pub mod Answers
pub mod Ranked
use heros_agent.Base.{
  ℕ, suc, ◌+◌, ltb, Bool, true, false, not, ◌||◌, Option, none, some, List, [], ◌∷◌, String, Map,
  lookup, insert, keys, values, length, if◌then◌else◌,
}
use heros_agent.Base.Text.{Text, Piece, verbatim, quoted}
use heros_agent.Errors.{Error, Result, ok, err, ◌>>=◌, ◌>>◌, panic, unfinished, plain}
use heros_agent.Task.{Task}
use heros_agent.Task.States.{
  State, pending, ready, running, awaiting_approval, succeeded, failed, blocked, cancelled,
  terminal, same_state, state_name,
}
use Sort.{sort}

pub record Dag : Type 0 where
  pub goal_id : String
  pub tasks : Map Task

unfoldable pub ids : Dag → List String
ids d = sort (keys d.tasks)

-- `d.Tasks[id]`, dereferenced.
abbrev pub task_at : Map Task → String → Result Task
task_at tasks id = elim (lookup id tasks) [ none ↦ err panic | some t ↦ ok t ]

unfoldable pub all_succeeded : Map Task → List String → Result Bool
all_succeeded tasks [] = ok true
all_succeeded tasks (dep ∷ deps) = do
  t ← task_at tasks dep
  let rest = all_succeeded tasks deps
  if same_state t.state succeeded then rest else ok false

unfoldable pub all_terminal : Map Task → List String → Result Bool
all_terminal tasks [] = ok true
all_terminal tasks (dep ∷ deps) = do
  t ← task_at tasks dep
  let rest = all_terminal tasks deps
  if terminal t.state then rest else ok false

-- `dependenciesSucceeded`: the required dependencies first, then the contributory ones.
unfoldable pub dependencies_succeeded : Dag → Task → Result Bool
dependencies_succeeded d t = do
  required ← all_succeeded d.tasks t.depends_on
  if required then all_terminal d.tasks t.contributes else ok false

-- The loop that ReadySet and ClaimableSet share, with the test of one task as an argument.
unfoldable pub collect : (Task → Result Bool) → Map Task → List String → Result (List Task)
collect keep tasks [] = ok []
collect keep tasks (id ∷ rest) = do
  t ← task_at tasks id
  kept ← keep t
  more ← collect keep tasks rest
  ok (if kept then t ∷ more else more)

unfoldable pub may_be_ready : Dag → Task → Result Bool
may_be_ready d t =
    if same_state t.state pending || same_state t.state ready
    then dependencies_succeeded d t
    else ok false

unfoldable pub ready_set : Dag → Result (List Task)
ready_set d = collect (may_be_ready d) d.tasks (ids d)

-- The `switch` of ClaimableSet.
unfoldable pub unclaimed : State → ℕ → ℕ → Bool
unclaimed pending expiry now = true
unclaimed ready expiry now = true
unclaimed running expiry now = not (ltb now expiry)
unclaimed _ expiry now = false

unfoldable pub may_be_claimed : Dag → ℕ → Task → Result Bool
may_be_claimed d now t =
    if unclaimed t.state t.lease_expiry now then dependencies_succeeded d t else ok false

unfoldable pub claimable_set : Dag → ℕ → Result (List Task)
claimable_set d now = collect (may_be_claimed d now) d.tasks (ids d)

abbrev pub breaks : State → Bool
breaks s = same_state s failed || same_state s blocked || same_state s cancelled

-- The first required dependency that failed, was blocked or was cancelled, with its state.
unfoldable pub broken_dependency : Map Task → List String → Result (Option (String × State))
broken_dependency tasks [] = ok none
broken_dependency tasks (dep ∷ deps) = do
  t ← task_at tasks dep
  let rest = broken_dependency tasks deps
  if breaks t.state then ok (some (dep, t.state)) else rest

abbrev pub block : Task → String → State → Task
block t dep ds = record t {
  state = blocked;
  failure = verbatim "dependency " ∷ quoted dep ∷ verbatim " is " ∷ verbatim (state_name ds) ∷ [];
}

-- What one round of PropagateFailure has done so far.
pub record Pass : Type 0 where
  pub tasks : Map Task
  pub count : ℕ
  pub changed : Bool

-- The body of the inner loop.
unfoldable pub visit : Pass → String → Result Pass
visit p id = do
  t ← task_at p.tasks id
  if terminal t.state then ok p else (do
    broken ← broken_dependency p.tasks t.depends_on
    elim broken [
      | none ↦ ok p
      | some (dep, ds) ↦ ok (record {
        tasks = insert id (block t dep ds) p.tasks;
        count = p.count + 1;
        changed = true;
      })
    ])

unfoldable pub visit_all : Pass → List String → Result Pass
visit_all p [] = ok p
visit_all p (id ∷ rest) = do q ← visit p id; visit_all q rest

-- The outer loop, on fuel: it ends after a round that changed nothing.
unfoldable pub rounds : ℕ → List String → Map Task → ℕ → Result (Map Task × ℕ)
rounds ℕ.zero order tasks count = err unfinished
rounds (suc fuel) order tasks count = do
  p ← visit_all (record { tasks = tasks; count = count; changed = false }) order
  let again = rounds fuel order p.tasks p.count
  if p.changed then again else ok (p.tasks, p.count)

-- The fuel is one round more than there are tasks.
unfoldable pub propagate_failure : Dag → Result (Dag × ℕ)
unfolding rounds
propagate_failure d = do
  (tasks, count) ← rounds (suc (length d.tasks)) (ids d) d.tasks 0
  ok (record d { tasks = tasks }, count)

unfoldable pub count_terminal : List Task → ℕ
count_terminal [] = 0
count_terminal (t ∷ ts) = if terminal t.state then suc (count_terminal ts) else count_terminal ts

-- (done, total)
unfoldable pub progress : Dag → ℕ × ℕ
unfolding count_terminal
progress d = (count_terminal (values d.tasks), length (values d.tasks))

abbrev pub in_flight : State → Bool
in_flight s = same_state s running || same_state s awaiting_approval

-- The loop of Stalled over the tasks, with `remaining` so far.
unfoldable pub stalled_from : List Task → Bool → Bool
stalled_from [] remaining = remaining
stalled_from (t ∷ ts) remaining =
    let rest = stalled_from ts (not (terminal t.state) || remaining) in
    if in_flight t.state then false else rest

unfoldable pub stalled : Dag → Result Bool
unfolding stalled_from
stalled d = do
  able ← ready_set d
  ok (elim able [ [] ↦ stalled_from (values d.tasks) false | t ∷ ts ↦ false ])
