-- ===== src/Supervisor/Moves.antt =====
-- What can happen to a channel of internal/api/supervisor.go, and what is read from it.
use heros_agent.Base.{
  ℕ, ◌==◌, ◌<◌, ltb, ◌≡◌, ◌≢◌, sym, ◌∙◌, ap, subst, true, none, some, List, [], ◌∷◌, ◌++◌, String,
  length, append_assoc, append-nil, arith, inl, inr, Bool-cases, if◌then◌else◌,
}
use heros_agent.Supervisor.Reached.{take_one}
use heros_agent.Supervisor.{
  Event, Channel, Supervisor, capacity, offer, subscribe, unsubscribe, publish, subs_of,
}

-- The one list is the other with some of its elements left out.
pub data IsSubsequence {A : Type 0} : List A → List A → Type 0 where
  stop : IsSubsequence [] []
  skip : {x : A} {xs ys : List A} → IsSubsequence xs ys → IsSubsequence xs (x ∷ ys)
  keep : {x : A} {xs ys : List A} → IsSubsequence xs ys → IsSubsequence (x ∷ xs) (x ∷ ys)

IsSubsequence-all : {A : Type 0} (xs : List A) → IsSubsequence xs xs
IsSubsequence-all [] = stop
IsSubsequence-all (x ∷ xs) = keep (IsSubsequence-all xs)

-- What happens while a subscriber has the channel of a number: an event is published, the subscriber takes
-- one from its channel, or somebody else comes or goes.
pub data Move (number : ℕ) : Type 0 where
  told : Event → Move number
  taken joins : Move number
  leaves : (other : ℕ) → other ≢ number → Move number

abbrev pub told_in : {number : ℕ} → List (Move number) → List Event
told_in [] = []
told_in (told e ∷ moves) = e ∷ told_in moves
told_in (taken ∷ moves) = told_in moves
told_in (joins ∷ moves) = told_in moves
told_in (leaves other apart ∷ moves) = told_in moves

-- What waits in the channel of a number.
abbrev pub waiting_in : ℕ → List Channel → List Event
waiting_in number [] = []
waiting_in number (ch ∷ chs) =
    let rest = waiting_in number chs in if ch.number == number then ch.buffer else rest

-- A Subscribe that never returns is left out: nothing happens after it.
abbrev pub join : String → Supervisor → Supervisor
join id s = elim (subscribe id s) [ none ↦ s | some (ch, s') ↦ s' ]

-- What the subscriber takes from its channel, and then what waits for it; on an empty channel it waits.
unfoldable pub reads : String → (number : ℕ) → List (Move number) → Supervisor → List Event
reads id number [] s = waiting_in number (subs_of id s)
reads id number (told e ∷ moves) s = reads id number moves (publish id e s)
reads id number (joins ∷ moves) s = reads id number moves (join id s)
reads id number (leaves other apart ∷ moves) s = reads id number moves (unsubscribe id other s)
reads id number (taken ∷ moves) s =
    let rest = reads id number moves (take_one id number s) in
    elim (waiting_in number (subs_of id s)) [ [] ↦ reads id number moves s | e ∷ es ↦ e ∷ rest ]

abbrev pub holding : Channel → List Event → Channel
holding ch es = record ch { buffer = es }

-- The same from its buffer alone.
unfoldable pub seen : {number : ℕ} → Channel → List (Move number) → List Event → List Event
seen ch [] buffer = buffer
seen ch (told e ∷ moves) buffer = seen ch moves (offer e (holding ch buffer)).buffer
seen ch (taken ∷ moves) [] = seen ch moves []
seen ch (taken ∷ moves) (e ∷ es) = e ∷ seen ch moves es
seen ch (joins ∷ moves) buffer = seen ch moves buffer
seen ch (leaves other apart ∷ moves) buffer = seen ch moves buffer

-- There is room for an event, among those that wait, whenever one is published.
abbrev pub IsRoomy : {number : ℕ} → List (Move number) → List Event → Type 0
IsRoomy [] buffer = Unit
IsRoomy (told e ∷ moves) buffer = (length buffer < capacity) × IsRoomy moves (buffer ++ e ∷ [])
IsRoomy (taken ∷ moves) [] = IsRoomy moves []
IsRoomy (taken ∷ moves) (e ∷ es) = IsRoomy moves es
IsRoomy (joins ∷ moves) buffer = IsRoomy moves buffer
IsRoomy (leaves other apart ∷ moves) buffer = IsRoomy moves buffer

IsSubsequence-insert :
    {A : Type 0} (before after : List A) (x : A) (xs : List A)
    → IsSubsequence xs (before ++ after)
    → IsSubsequence xs (before ++ x ∷ after)
IsSubsequence-insert [] after x xs sub = skip sub
IsSubsequence-insert (b ∷ before) after x xs (skip sub) =
    skip (IsSubsequence-insert before after x xs sub)
IsSubsequence-insert (b ∷ before) after x (c ∷ xs) (keep sub) =
    keep (IsSubsequence-insert before after x xs sub)

pub seen-IsSubsequence :
    {number : ℕ} (ch : Channel) (moves : List (Move number)) (buffer : List Event)
    → IsSubsequence (seen ch moves buffer) (buffer ++ told_in moves)
unfolding seen offer
seen-IsSubsequence ch [] buffer =
    subst (IsSubsequence buffer) (sym (append-nil buffer)) (IsSubsequence-all buffer)
seen-IsSubsequence ch (told e ∷ moves) buffer = elim (Bool-cases (ltb (length buffer) capacity)) [
  | inl room ↦ rw room (
      subst (IsSubsequence (seen ch moves (buffer ++ e ∷ [])))
        (append_assoc buffer (e ∷ []) (told_in moves))
        (seen-IsSubsequence ch moves (buffer ++ e ∷ [])))
  | inr full ↦ rw full (
      IsSubsequence-insert buffer (told_in moves) e (seen ch moves buffer)
        (seen-IsSubsequence ch moves buffer))
]
seen-IsSubsequence ch (taken ∷ moves) [] = seen-IsSubsequence ch moves []
seen-IsSubsequence ch (taken ∷ moves) (e ∷ es) = keep (seen-IsSubsequence ch moves es)
seen-IsSubsequence ch (joins ∷ moves) buffer = seen-IsSubsequence ch moves buffer
seen-IsSubsequence ch (leaves other apart ∷ moves) buffer = seen-IsSubsequence ch moves buffer

pub seen_all :
    {number : ℕ} (ch : Channel) (moves : List (Move number)) (buffer : List Event)
    → IsRoomy moves buffer
    → seen ch moves buffer ≡ buffer ++ told_in moves
unfolding seen offer
seen_all ch [] buffer roomy = sym (append-nil buffer)
seen_all ch (told e ∷ moves) buffer (room, roomy) =
    let fits : ltb (length buffer) capacity ≡ true = ground arith in
    rw fits
      (seen_all ch moves (buffer ++ e ∷ []) roomy ∙ append_assoc buffer (e ∷ []) (told_in moves))
seen_all ch (taken ∷ moves) [] roomy = seen_all ch moves [] roomy
seen_all ch (taken ∷ moves) (e ∷ es) roomy = ap (λ l. e ∷ l) (seen_all ch moves es roomy)
seen_all ch (joins ∷ moves) buffer roomy = seen_all ch moves buffer roomy
seen_all ch (leaves other apart ∷ moves) buffer roomy = seen_all ch moves buffer roomy
