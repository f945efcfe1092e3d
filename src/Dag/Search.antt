-- ===== src/Dag/Search.antt =====
-- The state of the search in detectCycle (internal/task/task.go), its stack and its colours, and what
-- holds of it before each round.
use heros_agent.Base.{
  ◌≡◌, ◌≢◌, refl, ◌⊎◌, inl, inr, List, [], ◌∷◌, String, Map, insert, arith, lookup-insert, str_eq,
  eq_iff, if◌then◌else◌,
}
use mathlib.Core.List.{Memᴰ}
use heros_agent.Task.{Task}
use heros_agent.Dag.Build.{Colour, white, grey, black, colour_of}
use heros_agent.Dag.Closed.{Has}
use heros_agent.Dag.Cycles.{Edge, Reaches, Grounded}

pub Colour-cases : (c : Colour) → (c ≡ white) ⊎ ((c ≡ grey) ⊎ (c ≡ black))
Colour-cases white = inl refl
Colour-cases grey = inr (inl refl)
Colour-cases black = inr (inr refl)

-- `y` is finished, or waits on the stack.
abbrev pub Pending : Map Colour → List String → String → Type 0
Pending c above y = (colour_of c y ≡ black) ⊎ Memᴰ y above

-- The dependencies of a task on the path are finished, or stand above it on the stack.
abbrev pub DepsPending : Map Task → Map Colour → List String → String → Type 0
DepsPending tasks c above x = (dep : String) → Edge tasks x dep → Pending c above dep

pub data Supported (tasks : Map Task) (c : Map Colour) : List String → List String → Type 0 where
  bottom : {above : List String} → Supported tasks c above []
  entry :
      {above rest : List String} {x : String}
      → (colour_of c x ≡ grey → DepsPending tasks c above x)
      → Supported tasks c (x ∷ above) rest
      → Supported tasks c above (x ∷ rest)

-- Every entry above the topmost `g` is reached from it.
pub data Above (tasks : Map Task) (g : String) : List String → Type 0 where
  top : {rest : List String} → Above tasks g (g ∷ rest)
  under :
      {rest : List String} {x : String}
      → Reaches tasks g x
      → Above tasks g rest
      → Above tasks g (x ∷ rest)

pub record IsSearch (tasks : Map Task) (c : Map Colour) (stack : List String) : Type 0 where
  pub known : (x : String) → Memᴰ x stack → Has tasks x
  pub finished : (x : String) → colour_of c x ≡ black → Grounded tasks x
  pub supported : Supported tasks c [] stack
  pub path : (g : String) → colour_of c g ≡ grey → Above tasks g stack

pub colour_of-insert :
    (c : Map Colour) (x y : String) (v : Colour)
    → colour_of (insert x v c) y ≡ (if str_eq x y then v else colour_of c y)
colour_of-insert c x y v = ground (arith, lookup-insert x y v c)

pub colour_of-insert_self :
    (c : Map Colour) (x : String) (v : Colour) → colour_of (insert x v c) x ≡ v
colour_of-insert_self c x v = ground (arith, colour_of-insert c x x v, eq_iff x x)

-- What was said of the stack stays true when the colours move on and what stands above changes.
pub Supported-moves :
    {tasks : Map Task} {c c' : Map Colour}
    → ((y : String) → colour_of c y ≡ black → colour_of c' y ≡ black)
    → {above above' stack : List String} → ((y : String) → Memᴰ y above → Pending c' above' y)
    → ((x : String)
        → colour_of c' x ≡ grey
        → (colour_of c x ≡ grey) ⊎ DepsPending tasks c' above' x)
    → Supported tasks c above stack
    → Supported tasks c' above' stack
Supported-moves keeps stays greys bottom = bottom
Supported-moves {tasks} {c} {c'} keeps {above} {above'} stays greys (entry {x = x} deps rest) =
    entry own (Supported-moves keeps stays' greys' rest)
  where
    stays_pending : (y : String) → Pending c above y → Pending c' above' y
    stays_pending y (inl b) = inl (keeps y b)
    stays_pending y (inr m) = stays y m

    own : colour_of c' x ≡ grey → DepsPending tasks c' above' x
    own g = elim (greys x g) [ inl g0 ↦ λ dep e. stays_pending dep (deps g0 dep e) | inr new ↦ new ]

    wider : (y : String) → Pending c' above' y → Pending c' (x ∷ above') y
    wider y (inl b) = inl b
    wider y (inr m) = inr (Memᴰ.tail m)

    stays' : (y : String) → Memᴰ y (x ∷ above) → Pending c' (x ∷ above') y
    stays' y (Memᴰ.head e) = inr (Memᴰ.head e)
    stays' y (Memᴰ.tail m) = wider y (stays y m)

    greys' :
        (z : String)
        → colour_of c' z ≡ grey
        → (colour_of c z ≡ grey) ⊎ DepsPending tasks c' (x ∷ above') z
    greys' z g = elim (greys z g) [
      | inl g0 ↦ inl g0
      | inr new ↦ inr (λ dep e. wider dep (new dep e))
    ]

-- A finished entry is taken off the stack.
pub pop-IsSearch :
    {tasks : Map Task} {c c' : Map Colour} {x : String} {rest : List String}
    → ((y : String) → colour_of c y ≡ black → colour_of c' y ≡ black)
    → ((y : String) → colour_of c' y ≡ grey → (colour_of c y ≡ grey) × (y ≢ x))
    → colour_of c' x ≡ black
    → ((y : String) → colour_of c' y ≡ black → Grounded tasks y)
    → IsSearch tasks c (x ∷ rest)
    → IsSearch tasks c' rest
pop-IsSearch {tasks} {c} {c'} {x} {rest} keeps greys done finished s = record {
  known = λ y m. s.known y (Memᴰ.tail m);
  finished = finished;
  supported = dropped s.supported;
  path = λ g is_grey. let (was, ne) = greys g is_grey in lower g ne (s.path g was);
}
  where
    dropped : Supported tasks c [] (x ∷ rest) → Supported tasks c' [] rest
    dropped (entry deps below) =
        Supported-moves keeps
          (λ y m. elim m [ Memᴰ.head e ↦ inl (rw e done) | Memᴰ.tail m' ↦ elim m' [ ] ])
          (λ z g. inl (greys z g).0) below

    lower : (g : String) → g ≢ x → Above tasks g (x ∷ rest) → Above tasks g rest
    lower g ne top = absurd (ne refl)
    lower g ne (under r a) = a
