-- ===== src/Worker/Budget.antt =====
-- What is left of the iteration ceiling of a goal, through one cycle of internal/worker/worker.go.
use heros_agent.Base.{
  ℕ, zero, suc, ◌^◌, ◌+◌, ◌-◌, ◌≤◌, ◌<◌, ◌≡◌, refl, ◌∙◌, ap, true, false, Option, none, some,
  String, arith, if◌then◌else◌, lookup,
}
use heros_agent.Base.Int64.{
  ℤ, pos, negsuc, pos_part, neg_part, ◌<ℤ◌, FitsInt64, add64, wrap64, wrap64-id, ◌+ℤ◌,
}
use heros_agent.Base.Text.{Text}
use heros_agent.Goal.{Goal}
use heros_agent.Goal.States as GoalStates
use heros_agent.Store.{Memory}
use heros_agent.Worker.{Worker, World, Call, record_episode, EpisodeKind}
use heros_agent.Worker.Quiet.{calls}

-- How many more iterations the ceiling allows.
unfoldable pub left : Goal → ℕ
left g =
    pos_part g.ceilings.max_iterations
    + neg_part g.spend.iterations
    - (pos_part g.spend.iterations + neg_part g.ceilings.max_iterations)

-- What a goal may still spend: nothing if it is not there or has ended.
unfoldable pub budget_of : Option Goal → ℕ
budget_of none = 0
budget_of (some g) = if GoalStates.terminal g.state then 0 else left g

pub budget_of-live : (g : Goal) → GoalStates.terminal g.state ≡ false → budget_of (some g) ≡ left g
unfolding budget_of
budget_of-live g live = rw live refl

pub budget_of-over : (g : Goal) → GoalStates.terminal g.state ≡ true → budget_of (some g) ≡ 0
unfolding budget_of
budget_of-over g over = rw over refl

pub budget_of-le : (g : Goal) → budget_of (some g) ≤ left g
unfolding budget_of
budget_of-le g = ground arith

pub budget_of-none : budget_of none ≡ 0
unfolding budget_of
budget_of-none = refl

abbrev pub budget : String → Memory → ℕ
budget id m = budget_of (lookup id m.goals)

-- The goal's own id is its key, and its count of iterations and their ceiling are Go integers.
pub record IsProper (id : String) (g : Goal) : Type 0 where
  pub keyed : g.id ≡ id
  pub counted : FitsInt64 g.spend.iterations
  pub bounded : FitsInt64 g.ceilings.max_iterations

abbrev pub AllProper : String → Memory → Type 0
AllProper id m = (g : Goal) → lookup id m.goals ≡ some g → IsProper id g

-- What others do to the store never gives the goal more iterations than it had left.
abbrev pub IsThrifty : String → (Memory → Memory) → Type 0
IsThrifty id others =
    (m : Memory) → AllProper id m → AllProper id (others m) × (budget id (others m) ≤ budget id m)

-- So too while a tool runs.
abbrev pub Thrifty : Worker → String → Type 0
Thrifty wk id = (c : Call) → IsThrifty id (λ m. (wk.invoke c m).0)

add64-one_pos : (n : ℕ) → suc n < 2 ^ 63 → add64 (pos n) (pos 1) ≡ pos (suc n)
unfolding add64 ◌+ℤ◌
add64-one_pos n h =
    let same : pos n +ℤ pos 1 ≡ pos (suc n) = ground arith in
    ap wrap64 same ∙ wrap64-id (pos (suc n)) (h, omega arith)

add64-one_minus : add64 (negsuc 0) (pos 1) ≡ pos 0
unfolding add64 ◌+ℤ◌ wrap64
add64-one_minus = refl

add64-one_neg : (n : ℕ) → suc (suc n) ≤ 2 ^ 63 → add64 (negsuc (suc n)) (pos 1) ≡ negsuc n
unfolding add64 ◌+ℤ◌
add64-one_neg n h =
    let same : negsuc (suc n) +ℤ pos 1 ≡ negsuc n = ground arith in
    ap wrap64 same ∙ wrap64-id (negsuc n) (omega arith, omega arith)

-- One more iteration below the ceiling does not wrap around.
abbrev pub OneMore : ℤ → ℤ → Type 0
OneMore i j = FitsInt64 j × (pos_part j + neg_part i ≡ suc (pos_part i) + neg_part j)

pub next_iteration :
    (i max : ℤ) → FitsInt64 i → FitsInt64 max → i <ℤ max → OneMore i (add64 i (pos 1))
next_iteration (pos n) max fi fm below =
    let small : suc n < 2 ^ 63 = omega arith in rw (add64-one_pos n small) (omega arith)
next_iteration (negsuc zero) max fi fm below = rw add64-one_minus (omega arith)
next_iteration (negsuc (suc n)) max fi fm below =
    let small : suc (suc n) ≤ 2 ^ 63 = omega arith in rw (add64-one_neg n small) (omega arith)

module _ (wk : Worker) (tenant goal_id task_id : String) (kind : EpisodeKind)
    (summary detail : Text) (now : ℕ) (w : World) where
  pub record_episode-calls :
      calls (record_episode wk tenant goal_id task_id kind summary detail now w).log ≡ calls w.log
  unfolding record_episode calls
  record_episode-calls = ground arith

  pub record_episode-store :
      (record_episode wk tenant goal_id task_id kind summary detail now w).store ≡ w.store
  unfolding record_episode
  record_episode-store = ground arith
