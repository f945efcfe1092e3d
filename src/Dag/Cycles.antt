-- ===== src/Dag/Cycles.antt =====
-- What a cycle of a task graph is, and what it is to have none: internal/task/task.go, whose edges are
-- the required and the contributory dependencies.
use heros_agent.Base.{◌≡◌, refl, ◌⊎◌, inl, inr, subst, sym, some, String, Map, lookup, arith}
use mathlib.Core.List.{Memᴰ}
use heros_agent.Task.{Task, edges}

-- `y` is a dependency of the task `x`.
abbrev pub Edge : Map Task → String → String → Type 0
Edge tasks x y = (t : Task) × (lookup x tasks ≡ some t) × Memᴰ y (edges t)

-- A path of one edge or more.
pub data Reaches (tasks : Map Task) : String → String → Type 0 where
  one : {x y : String} → Edge tasks x y → Reaches tasks x y
  further : {x y z : String} → Reaches tasks x y → Edge tasks y z → Reaches tasks x z

-- Whatever `x` depends on ends, however far one goes.
pub data Grounded (tasks : Map Task) : String → Type 0 where
  grounded :
      {x : String} (t : Task)
      → lookup x tasks ≡ some t
      → ((y : String) → Memᴰ y (edges t) → Grounded tasks y)
      → Grounded tasks x

Reaches-first :
    {tasks : Map Task} {x z : String}
    → Reaches tasks x z
    → (y : String) × Edge tasks x y × ((y ≡ z) ⊎ Reaches tasks y z)
Reaches-first {z = z} (one e) = (z, e, inl refl)
Reaches-first {tasks} {x} {z} (further {y = y} path e) =
    let (w, e', rest) = Reaches-first path in (w, e', inr (extend rest))
  where
    extend : {w : String} → (w ≡ y) ⊎ Reaches tasks w y → Reaches tasks w z
    extend (inl same) = one (subst (λ v. Edge tasks v z) (sym same) e)
    extend (inr path) = further path e

pub Grounded-acyclic : {tasks : Map Task} {x : String} → Grounded tasks x → ¬ Reaches tasks x x
Grounded-acyclic {tasks} {x} (grounded t at deps) loop =
    let (y, e, rest) = Reaches-first loop in Grounded-acyclic (deps y (dep y e)) (turn y e rest)
  where
    dep : (y : String) → Edge tasks x y → Memᴰ y (edges t)
    dep y (t', at', m) =
        let same : t' ≡ t = ground arith in subst (λ (u : Task). Memᴰ y (edges u)) same m

    turn : (y : String) → Edge tasks x y → (y ≡ x) ⊎ Reaches tasks y x → Reaches tasks y y
    turn y e (inl same) = one (subst (λ v. Edge tasks v y) (sym same) e)
    turn y e (inr path) = further path e

pub Reaches-trans :
    {tasks : Map Task} {x y z : String} → Reaches tasks x y → Reaches tasks y z → Reaches tasks x z
Reaches-trans first (one e) = further first e
Reaches-trans first (further rest e) = further (Reaches-trans first rest) e
