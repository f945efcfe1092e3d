-- ===== src/Dag/Pushes.antt =====
-- What the rounds of detectCycle (internal/task/task.go) do to the search: pushing the dependencies of
-- a task that turns grey, or meeting a cycle.
use heros_agent.Base.{
  ◌≤◌, ◌≡◌, refl, subst, inl, inr, List, [], ◌∷◌, ◌++◌, String, Map, length, arith, append_assoc,
  length-append,
}
use mathlib.Core.List.{Memᴰ}
use mathlib.Core.List.Memᴰ
use heros_agent.Errors.{Result, ok, err}
use heros_agent.Dag.Build.{Colour, white, grey, black, colour_of, push_edges, circular}
use heros_agent.Dag.Search.{Colour-cases, Pending}

-- What pushing `deps` on a stack gives: the white ones are on top of it, and no other is left out but a
-- finished one; or one of them is grey.
pub data Pushed (c : Map Colour) (cur : String) (deps stack : List String)
    : Result (List String) → Type 0 where
  pushed :
      (new : List String)
      → length new ≤ length deps
      → ((y : String) → Memᴰ y new → Memᴰ y deps × (colour_of c y ≡ white))
      → ((y : String) → Memᴰ y deps → Pending c new y)
      → Pushed c cur deps stack (ok (new ++ stack))
  closes :
      (dep : String)
      → Memᴰ dep deps
      → colour_of c dep ≡ grey
      → Pushed c cur deps stack (err (circular cur dep))

later :
    {c : Map Colour} {cur dep : String} {deps stack : List String} {r : Result (List String)}
    → colour_of c dep ≡ black
    → Pushed c cur deps stack r
    → Pushed c cur (dep ∷ deps) stack r
later done (closes d m g) = closes d (Memᴰ.tail m) g
later {c} {cur} {dep} {deps} done (pushed new short whites all) =
    pushed new (omega arith) (λ y m. let (m', w) = whites y m in (Memᴰ.tail m', w)) all'
  where
    all' : (y : String) → Memᴰ y (dep ∷ deps) → Pending c new y
    all' y (Memᴰ.head e) = inl (rw e done)
    all' y (Memᴰ.tail m) = all y m

beneath :
    {c : Map Colour} {cur dep : String} {deps stack : List String} {r : Result (List String)}
    → colour_of c dep ≡ white
    → Pushed c cur deps (dep ∷ stack) r
    → Pushed c cur (dep ∷ deps) stack r
beneath fresh (closes d m g) = closes d (Memᴰ.tail m) g
beneath {c} {cur} {dep} {deps} {stack} fresh (pushed new short whites all) =
    subst (λ s. Pushed c cur (dep ∷ deps) stack (ok s)) (append_assoc new (dep ∷ []) stack)
      (pushed (new ++ dep ∷ []) (omega (arith, length-append new (dep ∷ []))) whites' all')
  where
    whites' :
        (y : String) → Memᴰ y (new ++ dep ∷ []) → Memᴰ y (dep ∷ deps) × (colour_of c y ≡ white)
    whites' y m = elim (Memᴰ.append_cases new m) [
      | inl m' ↦ let (m'', w) = whites y m' in (Memᴰ.tail m'', w)
      | inr m' ↦ elim m' [
        | Memᴰ.head e ↦ (Memᴰ.head e, rw e fresh)
        | Memᴰ.tail none_left ↦ elim none_left [ ]
      ]
    ]

    all' : (y : String) → Memᴰ y (dep ∷ deps) → Pending c (new ++ dep ∷ []) y
    all' y (Memᴰ.head e) = inr (Memᴰ.append_right new (Memᴰ.head e))
    all' y (Memᴰ.tail m) = elim (all y m) [
      | inl done ↦ inl done
      | inr m' ↦ inr (Memᴰ.append_left (dep ∷ []) m')
    ]

pub push_edges_lem :
    (c : Map Colour) (cur : String) (deps stack : List String)
    → Pushed c cur deps stack (push_edges c cur deps stack)
unfolding push_edges
push_edges_lem c cur [] stack = pushed [] (omega arith) (λ y m. elim m [ ]) (λ y m. elim m [ ])
push_edges_lem c cur (dep ∷ deps) stack = elim (Colour-cases (colour_of c dep)) [
  | inl w ↦ rw (w, push_edges) (beneath w (push_edges_lem c cur deps (dep ∷ stack)))
  | inr (inl g) ↦ rw (g, push_edges) (closes dep (Memᴰ.head refl) g)
  | inr (inr b) ↦ rw (b, push_edges) (later b (push_edges_lem c cur deps stack))
]
