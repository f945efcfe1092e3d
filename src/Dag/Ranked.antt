-- ===== src/Dag/Ranked.antt =====
-- When NewDAG of internal/task/task.go takes a list of tasks.
use heros_agent.Base.{
  ◌≡◌, refl, sym, ap, ◌∙◌, subst, arith, ℕ, ◌<◌, some, List, [], ◌∷◌, ◌++◌, String, Map, lookup,
  append-nil,
}
use mathlib.Core.List.{Memᴰ}
use mathlib.Core.List.Memᴰ
use heros_agent.Errors.{Result, ok}
use heros_agent.Task.{Task, edges}
use heros_agent.Dag.{Dag}
use heros_agent.Dag.Build.{new_dag}
use heros_agent.Dag.Cycles.{Edge, Reaches, one, further}
use heros_agent.Dag.Answers.{Answered, built, repeated, dangling, looped, new_dag_lem}

-- No text of the list comes twice.
abbrev pub Distinct : List String → Type 0
Distinct [] = Unit
Distinct (x ∷ xs) = (¬ Memᴰ x xs) × Distinct xs

abbrev pub ids_of : List Task → List String
ids_of [] = []
ids_of (t ∷ ts) = t.id ∷ ids_of ts

pub mem-ids_of : (ts : List Task) (t : Task) → Memᴰ t ts → Memᴰ t.id (ids_of ts)
mem-ids_of [] t m = elim m [ ]
mem-ids_of (u ∷ ts) t (Memᴰ.head e) = Memᴰ.head (ap (λ (x : Task). x.id) e)
mem-ids_of (u ∷ ts) t (Memᴰ.tail m) = Memᴰ.tail (mem-ids_of ts t m)

pub mem_of_ids :
    (ts : List Task) (id : String) → Memᴰ id (ids_of ts) → (t : Task) × Memᴰ t ts × (t.id ≡ id)
mem_of_ids [] id m = elim m [ ]
mem_of_ids (u ∷ ts) id (Memᴰ.head e) = (u, Memᴰ.head refl, sym e)
mem_of_ids (u ∷ ts) id (Memᴰ.tail m) =
    let (t, there, e) = mem_of_ids ts id m in (t, Memᴰ.tail there, e)

Distinct-twice :
    (before after : List Task) (t u : Task)
    → Distinct (ids_of (before ++ (t ∷ after)))
    → Memᴰ u before
    → ¬ (u.id ≡ t.id)
Distinct-twice [] after t u apart m e = elim m [ ]
Distinct-twice (v ∷ before) after t u (first, rest) (Memᴰ.tail m) e =
    Distinct-twice before after t u rest m e
Distinct-twice (v ∷ before) after t u (first, rest) (Memᴰ.head same) e = first (
    subst (λ id. Memᴰ id (ids_of (before ++ (t ∷ after)))) (sym e ∙ ap (λ (x : Task). x.id) same)
      (mem-ids_of (before ++ (t ∷ after)) t (Memᴰ.append_right before (Memᴰ.head refl))))

-- Tasks that NewDAG takes: each id once, each dependency the id of one of them, and below it in rank.
pub record IsRanked (rank : String → ℕ) (ts : List Task) : Type 0 where
  pub distinct : Distinct (ids_of ts)
  pub known :
      (t : Task)
      → Memᴰ t ts
      → (dep : String) → Memᴰ dep (t.depends_on ++ t.contributes)
      → Memᴰ dep (ids_of ts)
  pub below :
      (t : Task)
      → Memᴰ t ts
      → (dep : String) → Memᴰ dep (t.depends_on ++ t.contributes)
      → rank dep < rank t.id

edges_lem : (t : Task) → edges t ≡ t.depends_on ++ t.contributes
unfolding edges
edges_lem t = both t.depends_on t.contributes
  where
    both :
        (xs ys : List String)
        → (elim ys as (λ _. List String) [ [] ↦ xs | c ∷ cs ↦ xs ++ (c ∷ cs) ]) ≡ xs ++ ys
    both xs [] = sym (append-nil xs)
    both xs (c ∷ cs) = refl

module _ (rank : String → ℕ) (goal_id : String) (ts : List Task) (ranked : IsRanked rank ts) where
  module _ (tasks : Map Task)
      (only : (k : String) (t : Task) → lookup k tasks ≡ some t → Memᴰ t ts × (t.id ≡ k)) where
    Edge-below : (x y : String) → Edge tasks x y → rank y < rank x
    Edge-below x y (t, at, m) =
        let (there, e) = only x t at in
        subst (λ id. rank y < rank id) e (ranked.below t there y (subst (Memᴰ y) (edges_lem t) m))

    Reaches-below : {x y : String} → Reaches tasks x y → rank y < rank x
    Reaches-below {x} {y} (one e) = Edge-below x y e
    Reaches-below {x} {y} (further {y = w} path e) =
        let a = Reaches-below path in let b = Edge-below w y e in omega arith

  Answered-ok : {r : Result Dag} → Answered goal_id ts r → (d : Dag) × (r ≡ ok d)
  Answered-ok (built d is) = (d, refl)
  Answered-ok (repeated u t before after split m e) =
      absurd (
        Distinct-twice before after t u (subst (λ l. Distinct (ids_of l)) split ranked.distinct) m
          e)
  Answered-ok (dangling t dep there m absent) =
      let (u, mu, e) = mem_of_ids ts dep (ranked.known t there dep m) in absurd (absent u mu e)
  Answered-ok (looped tasks cur dep holds only loop) =
      let lower = Reaches-below tasks only loop in absurd (omega arith)

  pub ranked_builds : (d : Dag) × (new_dag goal_id ts ≡ ok d)
  ranked_builds = Answered-ok (new_dag_lem goal_id ts)
