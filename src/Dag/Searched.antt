-- ===== src/Dag/Searched.antt =====
-- detectCycle (internal/task/task.go): the loop over the stack and the loop over the ids.
use heros_agent.Base.{
  ℕ, zero, suc, ◌+◌, ◌≤◌, ◌≡◌, refl, ◌⊎◌, inl, inr, List, [], ◌∷◌, String, Map, lookup, length,
  arith,
}
use mathlib.Core.List.{Memᴰ}
use heros_agent.Errors.{Result, ok, err, ◌>>=◌}
use heros_agent.Task.{Task}
use heros_agent.Dag.{Dag, ids}
use heros_agent.Dag.Build.{
  Colour, grey, black, colour_of, circular, search_from, search_all, search_fuel, detect_cycle,
}
use heros_agent.Dag.Closed.{Has, IsClosed}
use heros_agent.Dag.Spread.{mem-ids→Has, Has→mem-ids}
use heros_agent.Dag.Cycles.{Reaches, Grounded}
use heros_agent.Dag.Search.{Colour-cases, Pending, bottom, entry, Above, IsSearch}
use heros_agent.Dag.Rounds.{work, work-le, Nearer}
use heros_agent.Dag.Stepped.{Stepped, steps, cycles, search_step_lem}

module _ {tasks : Map Task} (closed : IsClosed tasks) where
  -- The loop over the stack ends with every entry finished, or reports a cycle that there is.
  data Walked (c : Map Colour) (stack : List String) : Result (Map Colour) → Type 0 where
    empties :
        (c' : Map Colour)
        → IsSearch tasks c' []
        → ((y : String) → Pending c stack y → colour_of c' y ≡ black)
        → Walked c stack (ok c')
    meets : (cur dep : String) → Reaches tasks cur cur → Walked c stack (err (circular cur dep))

  further_on :
      {c c' : Map Colour} {stack stack' : List String} {r : Result (Map Colour)}
      → ((y : String) → Pending c stack y → Pending c' stack' y)
      → Walked c' stack' r
      → Walked c stack r
  further_on covers (empties c'' s blacks) = empties c'' s (λ y p. blacks y (covers y p))
  further_on covers (meets cur dep loop) = meets cur dep loop

  walk_on :
      (fuel : ℕ) (c : Map Colour) (stack : List String) {r : Result (Map Colour × List String)}
      → ((c' : Map Colour) (stack' : List String)
          → Nearer tasks c stack c' stack'
          → Walked c' stack' (search_from fuel tasks c' stack'))
      → Stepped tasks c stack r
      → Walked c stack (r >>= λ next. search_from fuel tasks next.0 next.1)
  walk_on fuel c stack rest (cycles cur dep loop) = meets cur dep loop
  walk_on fuel c stack rest (steps c' stack' near) = further_on near.covers (rest c' stack' near)

  nothing_left : (c : Map Colour) → IsSearch tasks c [] → Walked c [] (ok c)
  nothing_left c s = empties c s λ y p. elim p [ inl b ↦ b | inr m ↦ elim m [ ] ]

  search_from_lem :
      (fuel : ℕ) (c : Map Colour) (stack : List String)
      → IsSearch tasks c stack
      → length stack + work c tasks ≤ fuel
      → Walked c stack (search_from fuel tasks c stack)
  unfolding search_from
  search_from_lem zero c [] s enough = nothing_left c s
  search_from_lem (suc fuel) c [] s enough = nothing_left c s
  search_from_lem zero c (cur ∷ below) s enough = absurd (omega arith)
  search_from_lem (suc fuel) c (cur ∷ below) s enough =
      walk_on fuel c (cur ∷ below)
        (λ c' stack' near. search_from_lem fuel c' stack' near.search (omega (arith, near.less)))
        (search_step_lem closed c cur below s)

  -- The loop over the ids finds them all grounded, or reports a cycle that there is.
  data Checked (order : List String) : Result (Unit {0}) → Type 0 where
    acyclic : ((y : String) → Memᴰ y order → Grounded tasks y) → Checked order (ok tt)
    cyclic : (cur dep : String) → Reaches tasks cur cur → Checked order (err (circular cur dep))

  no_grey : (c : Map Colour) (x : String) → IsSearch tasks c [] → ¬ (colour_of c x ≡ grey)
  no_grey c x s g = nowhere (s.path x g)
    where
      nowhere : {y : String} → ¬ Above tasks y []
      nowhere a = elim a [ ]

  start-IsSearch :
      (c : Map Colour) (x : String) → IsSearch tasks c [] → Has tasks x → IsSearch tasks c (x ∷ [])
  start-IsSearch c x s has = record {
    known = λ y m. elim m [ Memᴰ.head e ↦ rw e has | Memᴰ.tail m' ↦ elim m' [ ] ];
    finished = s.finished;
    supported = entry (λ g. absurd (no_grey c x s g)) bottom;
    path = λ y g. absurd (no_grey c y s g);
  }

  work-start : (c : Map Colour) → work c tasks ≤ work [] tasks
  unfolding lookup
  work-start c =
      work-le [] c
        (λ y. elim (Colour-cases (colour_of c y)) [
          | inl w ↦ inl w
          | inr (inl g) ↦ inr (λ w. ground arith)
          | inr (inr b) ↦ inr (λ w. ground arith)
        ])
        tasks

  add_id :
      {x : String} {rest : List String} {r : Result (Unit {0})}
      → Grounded tasks x
      → Checked rest r
      → Checked (x ∷ rest) r
  add_id g (cyclic cur dep loop) = cyclic cur dep loop
  add_id {x} {rest} g (acyclic all) = acyclic all'
    where
      all' : (y : String) → Memᴰ y (x ∷ rest) → Grounded tasks y
      all' y (Memᴰ.head e) = rw e g
      all' y (Memᴰ.tail m) = all y m

  check_on :
      (fuel : ℕ) (c : Map Colour) (x : String) (rest : List String) {r : Result (Map Colour)}
      → ((c' : Map Colour) → IsSearch tasks c' [] → Checked rest (search_all fuel tasks c' rest))
      → Walked c (x ∷ []) r
      → Checked (x ∷ rest) (r >>= λ c'. search_all fuel tasks c' rest)
  check_on fuel c x rest more (meets cur dep loop) = cyclic cur dep loop
  check_on fuel c x rest more (empties c' s blacks) =
      add_id (s.finished x (blacks x (inr (Memᴰ.head refl)))) (more c' s)

  search_all_lem :
      (fuel : ℕ) (c : Map Colour) (order : List String)
      → IsSearch tasks c []
      → ((y : String) → Memᴰ y order → Has tasks y)
      → 1 + work [] tasks ≤ fuel
      → Checked order (search_all fuel tasks c order)
  unfolding search_all
  search_all_lem fuel c [] s has enough = acyclic (λ y m. elim m [ ])
  search_all_lem fuel c (x ∷ rest) s has enough =
      let more : (c' : Map Colour)
          → IsSearch tasks c' []
          → Checked rest (search_all fuel tasks c' rest) =
        λ c' s'. search_all_lem fuel c' rest s' (λ y m. has y (Memᴰ.tail m)) enough in
      elim (Colour-cases (colour_of c x)) [
        | inl w ↦
            rw (w, search_all)
              (check_on fuel c x rest more (
                search_from_lem fuel c (x ∷ []) (start-IsSearch c x s (has x (Memᴰ.head refl)))
                  (omega (arith, work-start c))))
        | inr (inl g) ↦ absurd (no_grey c x s g)
        | inr (inr b) ↦ rw (b, search_all) (add_id (s.finished x b) (more c s))
      ]

search_fuel-work : (tasks : Map Task) → search_fuel tasks ≡ 1 + work [] tasks
unfolding search_fuel work lookup
search_fuel-work [] = refl
search_fuel-work ((id, t) ∷ rest) = omega (arith, search_fuel-work rest)

-- On a closed graph detectCycle returns, within the fuel given to it: without an error only if there is
-- no cycle, for then whatever a task depends on ends; otherwise it is the error that there is a cycle,
-- and there is one.
pub detect_cycle_lem :
    (d : Dag)
    → IsClosed d.tasks
    → ((detect_cycle d ≡ ok tt) × ((id : String) → Has d.tasks id → Grounded d.tasks id))
      ⊎ ((cur : String) × (dep : String) × (detect_cycle d ≡ err (circular cur dep))
          × Reaches d.tasks cur cur)
unfolding detect_cycle lookup
detect_cycle_lem d closed = outcome (
    search_all_lem closed (search_fuel d.tasks) [] (ids d) start (mem-ids→Has d)
      (omega (arith, search_fuel-work d.tasks)))
  where
    start : IsSearch d.tasks [] []
    start = record {
      known = λ x m. elim m [ ];
      finished = λ x b. absurd (ground arith);
      supported = bottom;
      path = λ x g. absurd (ground arith);
    }

    outcome :
        {r : Result (Unit {0})}
        → Checked closed (ids d) r
        → ((r ≡ ok tt) × ((id : String) → Has d.tasks id → Grounded d.tasks id))
          ⊎ ((cur : String) × (dep : String) × (r ≡ err (circular cur dep))
              × Reaches d.tasks cur cur)
    outcome (acyclic all) = inl (refl, λ id has. all id (Has→mem-ids d id has))
    outcome (cyclic cur dep loop) = inr (cur, dep, refl, loop)
