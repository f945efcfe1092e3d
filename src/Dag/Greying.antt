-- ===== src/Dag/Greying.antt =====
-- A white task at the top of the stack of detectCycle (internal/task/task.go): it turns grey and its
-- dependencies are pushed, or one of them is grey and closes a cycle.
use heros_agent.Base.{
  ◌≡◌, refl, sym, ◌∙◌, ap, subst, ◌⊎◌, inl, inr, some, List, [], ◌∷◌, ◌++◌, String, Map, lookup,
  insert, arith, str_eq, Bool-cases, str_eq-true, append-nil,
}
use mathlib.Core.List.{Memᴰ}
use mathlib.Core.List.Memᴰ
use heros_agent.Task.{Task, edges}
use heros_agent.Dag.Build.{Colour, white, grey, black, colour_of}
use heros_agent.Dag.Closed.{Has, IsClosed}
use heros_agent.Dag.Cycles.{Edge, Reaches, one, further, Reaches-trans}
use heros_agent.Dag.Search.{
  Pending, Supported, entry, Above, top, under, IsSearch, Supported-moves, colour_of-insert,
  colour_of-insert_self,
}

Above-cons :
    {tasks : Map Task} {g x : String} {rest : List String}
    → Above tasks g (x ∷ rest)
    → (g ≡ x) ⊎ (Reaches tasks g x × Above tasks g rest)
Above-cons top = inl refl
Above-cons (under r a) = inr (r, a)

edges-append : (t : Task) → edges t ≡ t.depends_on ++ t.contributes
unfolding edges
edges-append t = both t.depends_on t.contributes
  where
    both :
        (deps more : List String)
        → (elim more [ [] ↦ deps | c ∷ cs ↦ deps ++ (c ∷ cs) ]) ≡ deps ++ more
    both deps [] = sym (append-nil deps)
    both deps (c ∷ cs) = refl

module _ {tasks : Map Task} (closed : IsClosed tasks) where
  Edge-Has : (x y : String) → Edge tasks x y → Has tasks y
  Edge-Has x y (t, at, m) =
      elim (Memᴰ.append_cases t.depends_on (subst (Memᴰ y) (edges-append t) m)) [
        | inl m' ↦ closed.required x t at y m'
        | inr m' ↦ closed.contributory x t at y m'
      ]

  -- A white task turns grey, and its dependencies are pushed.
  module _ (c : Map Colour) (cur : String) (below : List String) (t : Task)
      (s : IsSearch tasks c (cur ∷ below)) (w : colour_of c cur ≡ white)
      (at : lookup cur tasks ≡ some t) where
    abbrev pub greyed : Map Colour
    greyed = insert cur grey c

    pub greyed-cases : (y : String) → (cur ≡ y) ⊎ (colour_of greyed y ≡ colour_of c y)
    greyed-cases y = elim (Bool-cases (str_eq cur y)) [
      | inl e ↦ inl (str_eq-true cur y e)
      | inr e ↦ inr (ground (arith, colour_of-insert c cur y grey))
    ]

    pub is_grey : colour_of greyed cur ≡ grey
    is_grey = colour_of-insert_self c cur grey

    pub black-greyed : (y : String) → colour_of c y ≡ black → colour_of greyed y ≡ black
    black-greyed y b = elim (greyed-cases y) [
      | inl same ↦ absurd (ground (arith, w, ap (colour_of c) same))
      | inr e ↦ e ∙ b
    ]

    greyed-black : (y : String) → colour_of greyed y ≡ black → colour_of c y ≡ black
    greyed-black y b = elim (greyed-cases y) [
      | inl same ↦ absurd (ground (arith, is_grey, ap (colour_of greyed) same))
      | inr e ↦ sym e ∙ b
    ]

    greyed-grey : (y : String) → colour_of greyed y ≡ grey → (cur ≡ y) ⊎ (colour_of c y ≡ grey)
    greyed-grey y g = elim (greyed-cases y) [ inl same ↦ inl same | inr e ↦ inr (sym e ∙ g) ]

    own-Edge : (y : String) → Memᴰ y (edges t) → Edge tasks cur y
    own-Edge y m = (t, at, m)

    Supported-pushes :
        (new rest above : List String)
        → ((y : String) → Memᴰ y new → colour_of greyed y ≡ white)
        → ((more : List String)
            → ((y : String) → Memᴰ y new → Memᴰ y more)
            → ((y : String) → Memᴰ y above → Memᴰ y more)
            → Supported tasks greyed more rest)
        → Supported tasks greyed above (new ++ rest)
    Supported-pushes [] rest above whites last = last above (λ y m. elim m [ ]) (λ y m. m)
    Supported-pushes (x ∷ new) rest above whites last =
        entry (λ g. absurd (ground (arith, whites x (Memᴰ.head refl))))
          (Supported-pushes new rest (x ∷ above) (λ y m. whites y (Memᴰ.tail m))
            (λ more sub sup.
              last more
                (λ y m. elim m [ Memᴰ.head e ↦ sup y (Memᴰ.head e) | Memᴰ.tail m' ↦ sub y m' ])
                (λ y m. sup y (Memᴰ.tail m))))

    -- The old stack, with what is finished or pushed above it.
    Supported-below :
        (more : List String)
        → ((y : String) → Memᴰ y (edges t) → Pending greyed more y)
        → Supported tasks greyed more (cur ∷ below)
    Supported-below more all = elim s.supported [
      | entry own rest ↦
          Supported-moves black-greyed (λ y m. elim m [ ])
            (λ x g. elim (greyed-grey x g) [
              | inl same ↦
                  inr (λ dep e. all dep (edge-mem dep (subst (λ v. Edge tasks v dep) (sym same) e)))
              | inr was ↦ inl was
            ])
            (entry own rest)
    ]
      where
        edge-mem : (dep : String) → Edge tasks cur dep → Memᴰ dep (edges t)
        edge-mem dep (t', at', m) =
            let same : t' ≡ t = ground arith in subst (λ (u : Task). Memᴰ dep (edges u)) same m

    reached : (g : String) → colour_of c g ≡ grey → Reaches tasks g cur
    reached g was = elim (Above-cons (s.path g was)) [
      | inl same ↦ absurd (ground (arith, w, ap (colour_of c) same))
      | inr r ↦ r.0
    ]

    Above-pushes :
        (g : String) (new rest : List String)
        → ((y : String) → Memᴰ y new → Reaches tasks g y)
        → Above tasks g rest
        → Above tasks g (new ++ rest)
    Above-pushes g [] rest reach a = a
    Above-pushes g (x ∷ new) rest reach a =
        under (reach x (Memᴰ.head refl)) (Above-pushes g new rest (λ y m. reach y (Memᴰ.tail m)) a)

    pub push-IsSearch :
        (new : List String)
        → ((y : String) → Memᴰ y new → Memᴰ y (edges t) × (colour_of greyed y ≡ white))
        → ((y : String) → Memᴰ y (edges t) → Pending greyed new y)
        → IsSearch tasks greyed (new ++ (cur ∷ below))
    push-IsSearch new whites all = record {
      known = λ y m. elim (Memᴰ.append_cases new m) [
        | inl m' ↦ Edge-Has cur y (own-Edge y (whites y m').0)
        | inr m' ↦ s.known y m'
      ];
      finished = λ y b. s.finished y (greyed-black y b);
      supported =
          Supported-pushes new (cur ∷ below) [] (λ y m. (whites y m).1)
            (λ more sub sup.
              Supported-below more
                (λ y m. elim (all y m) [ inl b ↦ inl b | inr m' ↦ inr (sub y m') ]));
      path = λ g is. elim (greyed-grey g is) [
        | inl same ↦
            subst (λ v. Above tasks v (new ++ (cur ∷ below))) same
              (Above-pushes cur new (cur ∷ below) (λ y m. one (own-Edge y (whites y m).0)) top)
        | inr was ↦
            Above-pushes g new (cur ∷ below)
              (λ y m. further (reached g was) (own-Edge y (whites y m).0)) (s.path g was)
      ];
    }

    -- A grey dependency closes a cycle.
    pub closes-Reaches :
        (dep : String) → Memᴰ dep (edges t) → colour_of greyed dep ≡ grey → Reaches tasks cur cur
    closes-Reaches dep m g = elim (greyed-grey dep g) [
      | inl same ↦ one (own-Edge cur (subst (λ v. Memᴰ v (edges t)) (sym same) m))
      | inr was ↦ Reaches-trans (one (own-Edge dep m)) (reached dep was)
    ]
