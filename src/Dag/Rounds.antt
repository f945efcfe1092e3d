-- ===== src/Dag/Rounds.antt =====
-- The measure of the search in detectCycle (internal/task/task.go): the work that is left.
use heros_agent.Base.{
  ℕ, suc, ◌+◌, ◌≤◌, ◌<◌, ◌≡◌, ◌≢◌, refl, subst, ◌⊎◌, inl, inr, some, List, [], ◌∷◌, String, Map,
  lookup, insert, length, arith, str_eq, Bool-cases, str_eq-true,
}
use heros_agent.Task.{Task, edges}
use heros_agent.Dag.Build.{Colour, white, grey, black, colour_of}
use heros_agent.Dag.Search.{Pending, IsSearch, colour_of-insert, colour_of-insert_self}

-- One for each task that is still white, and one for each edge out of it.
abbrev pub cost : Colour → Task → ℕ
cost white t = suc (length (edges t))
cost _ t = 0

unfoldable pub work : Map Colour → Map Task → ℕ
work c [] = 0
work c ((id, t) ∷ rest) = cost (colour_of c id) t + work c rest

cost-grey : (c : Colour) (t : Task) → cost grey t ≤ cost c t
cost-grey white t = omega arith
cost-grey grey t = omega arith
cost-grey black t = omega arith

abbrev NoWhiter : Map Colour → Map Colour → Type 0
NoWhiter c c' = (y : String) → (colour_of c' y ≡ colour_of c y) ⊎ ¬ (colour_of c' y ≡ white)

cost-le : (a b : Colour) (t : Task) → (b ≡ a) ⊎ ¬ (b ≡ white) → cost b t ≤ cost a t
cost-le a white t (inl e) = subst (λ s. cost white t ≤ cost s t) e (omega arith)
cost-le a white t (inr n) = absurd (n refl)
cost-le a grey t w = cost-grey a t
cost-le a black t w = omega arith

pub work-le : (c c' : Map Colour) → NoWhiter c c' → (m : Map Task) → work c' m ≤ work c m
unfolding work
work-le c c' no_whiter [] = omega arith
work-le c c' no_whiter ((id, t) ∷ m) =
    omega
      (arith, work-le c c' no_whiter m, cost-le (colour_of c id) (colour_of c' id) t (no_whiter id))

pub insert-NoWhiter :
    (c : Map Colour) (x : String) (v : Colour) → v ≢ white → NoWhiter c (insert x v c)
insert-NoWhiter c x v ne y = elim (Bool-cases (str_eq x y)) [
  | inl e ↦ inr (λ w. ne (ground (arith, colour_of-insert c x y v)))
  | inr e ↦ inl (ground (arith, colour_of-insert c x y v))
]

-- Turning a white task grey takes the task and its edges off the work.
pub work-insert :
    (c : Map Colour) (cur : String) (t : Task) (m : Map Task)
    → colour_of c cur ≡ white
    → lookup cur m ≡ some t
    → work (insert cur grey c) m + suc (length (edges t)) ≤ work c m
unfolding work lookup
work-insert c cur t [] w at = ground arith
work-insert c cur t ((id, u) ∷ m) w at = elim (Bool-cases (str_eq id cur)) [
  | inl e ↦
      let same : id ≡ cur = str_eq-true id cur e in
      let found : u ≡ t = ground arith in
      let was : cost (colour_of c id) u ≡ suc (length (edges t)) = rw (same, w, found) refl in
      let is : cost (colour_of (insert cur grey c) id) u ≡ 0 =
        rw (same, colour_of-insert_self c cur grey) refl in
      omega (
        arith,
        was,
        is,
        work-le c (insert cur grey c) (insert-NoWhiter c cur grey (λ g. ground arith)) m,
      )
  | inr e ↦
      let later = work-insert c cur t m w (ground arith) in
      let same : cost (colour_of (insert cur grey c) id) u ≤ cost (colour_of c id) u =
        cost-le (colour_of c id) (colour_of (insert cur grey c) id) u
          (insert-NoWhiter c cur grey (λ g. ground arith) id) in
      omega (arith, later, same)
]

-- A round from `c` and `stack` leads to `c'` and `stack'`.
pub record Nearer (tasks : Map Task) (c : Map Colour) (stack : List String) (c' : Map Colour)
    (stack' : List String) : Type 0 where
  pub search : IsSearch tasks c' stack'
  pub less : length stack' + work c' tasks < length stack + work c tasks
  pub covers : (y : String) → Pending c stack y → Pending c' stack' y
