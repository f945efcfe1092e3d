-- ===== src/Dag/Build.antt =====
-- internal/task/task.go: NewDAG and detectCycle, the iterative three-colour depth-first search.
use heros_agent.Base.{
  ℕ, zero, suc, ◌+◌, none, some, List, [], ◌∷◌, ◌++◌, String, Map, lookup, insert, length,
}
use heros_agent.Base.Text.{verbatim, quoted}
use heros_agent.Errors.{Error, Result, ok, err, ◌>>=◌, ◌>>◌, unfinished, plain, unknown_task, cycle}
use heros_agent.Task.{Task, edges}
use heros_agent.Dag.{Dag, ids, task_at}

pub twice : String → Error
twice id = record {
  sentinel = plain;
  message = verbatim "task: " ∷ quoted id ∷ verbatim " appears twice" ∷ [];
}

pub unknown : Task → String → Error
unknown t dep = record {
  sentinel = unknown_task;
  message =
      verbatim "task: dependency names a task that is not in the DAG: "
      ∷ quoted t.id
      ∷ verbatim " depends on "
      ∷ quoted dep
      ∷ [];
}

pub circular : String → String → Error
circular cur dep = record {
  sentinel = cycle;
  message =
      verbatim "task: dependencies form a cycle: " ∷ quoted cur ∷ verbatim " ↔ " ∷ quoted dep ∷ [];
}

-- The first loop of NewDAG: every task under its id, and no id twice.
unfoldable pub fill : List Task → Map Task → Result (Map Task)
unfolding twice
fill [] tasks = ok tasks
fill (t ∷ ts) tasks =
    let rest = fill ts (insert t.id t tasks) in
    elim (lookup t.id tasks) [ some _ ↦ err (twice t.id) | none ↦ rest ]

unfoldable pub known_deps : Map Task → Task → List String → Result (Unit {0})
unfolding unknown
known_deps tasks t [] = ok tt
known_deps tasks t (dep ∷ deps) =
    let rest = known_deps tasks t deps in
    elim (lookup dep tasks) [ none ↦ err (unknown t dep) | some _ ↦ rest ]

-- The second loop: every dependency names a task of the graph.
unfoldable pub all_known : Map Task → List Task → Result (Unit {0})
all_known tasks [] = ok tt
all_known tasks (t ∷ ts) = do known_deps tasks t (t.depends_on ++ t.contributes); all_known tasks ts

-- `white` is unvisited, `grey` on the current path, `black` finished.
pub data Colour : Type 0 where
  white grey black : Colour

-- Go's map answers its zero value, white, for a key that is not there.
abbrev pub colour_of : Map Colour → String → Colour
colour_of colour id = elim (lookup id colour) [ none ↦ white | some c ↦ c ]

-- The loop over the edges of `cur`: a grey one closes a cycle, a white one is pushed. The top of the
-- stack is the head of the list.
unfoldable pub push_edges : Map Colour → String → List String → List String → Result (List String)
unfolding circular
push_edges colour cur [] stack = ok stack
push_edges colour cur (dep ∷ deps) stack =
    let pushed = push_edges colour cur deps (dep ∷ stack) in
    let skipped = push_edges colour cur deps stack in
    elim (colour_of colour dep) [ grey ↦ err (circular cur dep) | white ↦ pushed | black ↦ skipped ]

-- One round of the inner loop, at the top of the stack.
unfoldable pub search_step :
    Map Task → Map Colour → String → List String → Result (Map Colour × List String)
unfolding push_edges
search_step tasks colour cur below = elim (colour_of colour cur) [
  | white ↦ (do
    t ← task_at tasks cur
    stack ← push_edges (insert cur grey colour) cur (edges t) (cur ∷ below)
    ok (insert cur grey colour, stack))
  | grey ↦ ok (insert cur black colour, below)
  | black ↦ ok (colour, below)
]

-- The inner loop, on fuel.
unfoldable pub search_from : ℕ → Map Task → Map Colour → List String → Result (Map Colour)
search_from fuel tasks colour [] = ok colour
search_from zero tasks colour (cur ∷ below) = err unfinished
search_from (suc fuel) tasks colour (cur ∷ below) =
    search_step tasks colour cur below >>= λ r. search_from fuel tasks r.0 r.1

-- The outer loop, over the ids.
unfoldable pub search_all : ℕ → Map Task → Map Colour → List String → Result (Unit {0})
search_all fuel tasks colour [] = ok tt
search_all fuel tasks colour (id ∷ rest) =
    let skipped = search_all fuel tasks colour rest in
    let searched = (do
      colour' ← search_from fuel tasks colour (id ∷ [])
      search_all fuel tasks colour' rest) in
    elim (colour_of colour id) [ white ↦ searched | _ ↦ skipped ]

-- One for each task and each edge, and one for the root.
unfoldable pub search_fuel : Map Task → ℕ
search_fuel [] = 1
search_fuel ((id, t) ∷ rest) = length (edges t) + 1 + search_fuel rest

unfoldable pub detect_cycle : Dag → Result (Unit {0})
unfolding search_all search_fuel
detect_cycle d = search_all (search_fuel d.tasks) d.tasks [] (ids d)

unfoldable pub new_dag : String → List Task → Result Dag
new_dag goal_id ts = do
  tasks ← fill ts []
  all_known tasks ts
  let d : Dag = record { goal_id = goal_id; tasks = tasks }
  detect_cycle d
  ok d
