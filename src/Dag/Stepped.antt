-- ===== src/Dag/Stepped.antt =====
-- A round of detectCycle (internal/task/task.go), whatever the colour of the top of its stack.
use heros_agent.Base.{
  ◌≡◌, ◌≢◌, refl, sym, ap, subst, inl, inr, some, List, [], ◌∷◌, ◌++◌, String, Map, lookup, insert,
  arith, str_eq, Bool-cases, str_eq-true, length-append,
}
use mathlib.Core.List.{Memᴰ}
use mathlib.Core.List.Memᴰ
use heros_agent.Errors.{Result, ok, err, ◌>>=◌}
use heros_agent.Task.{Task, edges}
use heros_agent.Dag.Build.{Colour, white, grey, black, colour_of, push_edges, circular, search_step}
use heros_agent.Dag.Closed.{IsClosed}
use heros_agent.Dag.Cycles.{Reaches, Grounded, grounded}
use heros_agent.Dag.Search.{
  Colour-cases, Pending, DepsPending, Supported, entry, IsSearch, colour_of-insert,
  colour_of-insert_self, pop-IsSearch,
}
use heros_agent.Dag.Pushes.{Pushed, pushed, closes, push_edges_lem}
use heros_agent.Dag.Rounds.{work-le, work-insert, insert-NoWhiter, Nearer}
use heros_agent.Dag.Greying.{black-greyed, push-IsSearch, closes-Reaches}

-- A round comes nearer to the end, or reports a cycle that there is.
pub data Stepped (tasks : Map Task) (c : Map Colour) (stack : List String)
    : Result (Map Colour × List String) → Type 0 where
  steps :
      (c' : Map Colour) (stack' : List String)
      → Nearer tasks c stack c' stack'
      → Stepped tasks c stack (ok (c', stack'))
  cycles :
      (cur dep : String) → Reaches tasks cur cur → Stepped tasks c stack (err (circular cur dep))

module _ {tasks : Map Task} (closed : IsClosed tasks) where
  module _ (c : Map Colour) (cur : String) (below : List String)
      (s : IsSearch tasks c (cur ∷ below)) where
    white_step :
        (t : Task)
        → colour_of c cur ≡ white
        → lookup cur tasks ≡ some t
        → {r : Result (List String)} → Pushed (insert cur grey c) cur (edges t) (cur ∷ below) r
        → Stepped tasks c (cur ∷ below) (r >>= λ stack. ok (insert cur grey c, stack))
    white_step t w at (closes dep m g) =
        cycles cur dep (closes-Reaches closed c cur below t s w at dep m g)
    white_step t w at (pushed new short whites all) =
        steps (insert cur grey c) (new ++ (cur ∷ below)) (record {
          search = push-IsSearch closed c cur below t s w at new whites all;
          less =
              omega (arith, short, length-append new (cur ∷ below), work-insert c cur t tasks w at);
          covers = λ y p. elim p [
            | inl b ↦ inl (black-greyed closed c cur below t s w at y b)
            | inr m ↦ inr (Memᴰ.append_right new m)
          ];
        })

    on_white :
        colour_of c cur ≡ white → Stepped tasks c (cur ∷ below) (search_step tasks c cur below)
    unfolding search_step
    on_white w =
        let (t, at) = s.known cur (Memᴰ.head refl) in
        subst (Stepped tasks c (cur ∷ below)) (sym (opened t at))
          (white_step t w at (push_edges_lem (insert cur grey c) cur (edges t) (cur ∷ below)))
      where
        opened :
            (t : Task)
            → lookup cur tasks ≡ some t
            → search_step tasks c cur below ≡ (
                push_edges (insert cur grey c) cur (edges t) (cur ∷ below) >>= λ stack.
                ok (insert cur grey c, stack))
        opened t at = ground arith

    covered :
        (c' : Map Colour)
        → ((y : String) → colour_of c y ≡ black → colour_of c' y ≡ black)
        → colour_of c' cur ≡ black
        → (y : String) → Pending c (cur ∷ below) y
        → Pending c' below y
    covered c' keeps done y (inl b) = inl (keeps y b)
    covered c' keeps done y (inr (Memᴰ.head e)) = inl (rw e done)
    covered c' keeps done y (inr (Memᴰ.tail m)) = inr m

    -- The dependencies of a task that turns black are black.
    own_Grounded : colour_of c cur ≡ grey → Grounded tasks cur
    own_Grounded g =
        let (t, at) = s.known cur (Memᴰ.head refl) in
        grounded t at (λ y m. from_pending y (own s.supported y (t, at, m)))
      where
        own : Supported tasks c [] (cur ∷ below) → DepsPending tasks c [] cur
        own (entry deps rest) = deps g

        from_pending : (y : String) → Pending c [] y → Grounded tasks y
        from_pending y (inl b) = s.finished y b
        from_pending y (inr m) = elim m [ ]

    on_grey : colour_of c cur ≡ grey → Stepped tasks c (cur ∷ below) (search_step tasks c cur below)
    unfolding search_step
    on_grey g =
        rw (g, search_step)
          (steps (insert cur black c) below (record {
            search = pop-IsSearch keeps greys done finished s;
            less = omega (
              arith,
              work-le c (insert cur black c) (insert-NoWhiter c cur black (λ b. ground arith))
                  tasks,
            );
            covers = covered (insert cur black c) keeps done;
          }))
      where
        done : colour_of (insert cur black c) cur ≡ black
        done = colour_of-insert_self c cur black

        keeps : (y : String) → colour_of c y ≡ black → colour_of (insert cur black c) y ≡ black
        keeps y b = ground (arith, colour_of-insert c cur y black)

        greys :
            (y : String)
            → colour_of (insert cur black c) y ≡ grey
            → (colour_of c y ≡ grey) × (y ≢ cur)
        greys y is = (
          ground (arith, colour_of-insert c cur y black),
          λ same. ground (arith, done, ap (colour_of (insert cur black c)) same),
        )

        finished : (y : String) → colour_of (insert cur black c) y ≡ black → Grounded tasks y
        finished y b = elim (Bool-cases (str_eq cur y)) [
          | inl e ↦ subst (Grounded tasks) (str_eq-true cur y e) (own_Grounded g)
          | inr e ↦ s.finished y (ground (arith, colour_of-insert c cur y black))
        ]

    on_black :
        colour_of c cur ≡ black → Stepped tasks c (cur ∷ below) (search_step tasks c cur below)
    unfolding search_step
    on_black b =
        rw (b, search_step)
          (steps c below (record {
            search =
                pop-IsSearch (λ y h. h)
                  (λ y g. (g, λ same. ground (arith, b, ap (colour_of c) same))) b s.finished s;
            less = omega arith;
            covers = covered c (λ y h. h) b;
          }))

    pub search_step_lem : Stepped tasks c (cur ∷ below) (search_step tasks c cur below)
    search_step_lem = elim (Colour-cases (colour_of c cur)) [
      | inl w ↦ on_white w
      | inr (inl g) ↦ on_grey g
      | inr (inr b) ↦ on_black b
    ]
