-- ===== src/Supervisor/Reached.antt =====
-- The states of the supervisor of internal/api/supervisor.go that its methods and its subscribers reach.
use heros_agent.Base.{
  ℕ, suc, ◌==◌, ◌<◌, ◌≡◌, subst, sym, some, none, List, [], ◌∷◌, ◌++◌, String, str_eq, arith, inl,
  inr, Bool-cases, Option-cases, Map, insert, lookup, lookup-insert, map, if◌then◌else◌,
}
use heros_agent.Supervisor.{
  Event, Channel, Supervisor, new_supervisor, send_all, offer, put, subscribe, unsubscribe, publish,
  start, finish, remove_channel, history_of, subs_of,
}

abbrev pub without_first : List Event → List Event
without_first [] = []
without_first (e ∷ es) = es

abbrev pub drop_first : ℕ → List Channel → List Channel
drop_first number [] = []
drop_first number (ch ∷ chs) =
    let rest = drop_first number chs in
    if ch.number == number then record ch { buffer = without_first ch.buffer } ∷ chs else ch ∷ rest

-- The reader of a channel takes the first event that waits in it.
abbrev pub take_one : String → ℕ → Supervisor → Supervisor
take_one id number s = record s { subs = insert id (drop_first number (subs_of id s)) s.subs }

-- The methods, in any order and for any goals; and a subscriber may take an event from its channel.
pub data Reached : Supervisor → Type 0 where
  fresh : Reached new_supervisor
  subscribed :
      {s s' : Supervisor} {ch : Channel} (id : String)
      → Reached s
      → subscribe id s ≡ some (ch, s')
      → Reached s'
  published : {s : Supervisor} (id : String) (e : Event) → Reached s → Reached (publish id e s)
  unsubscribed :
      {s : Supervisor} (id : String) (number : ℕ) → Reached s → Reached (unsubscribe id number s)
  took : {s : Supervisor} (id : String) (number : ℕ) → Reached s → Reached (take_one id number s)
  started : {s : Supervisor} (id : String) → Reached s → Reached (start id s).1
  ended : {s : Supervisor} (id : String) → Reached s → Reached (finish id s)

abbrev pub AllBelow : ℕ → List Channel → Type 0
AllBelow n [] = Unit
AllBelow n (ch ∷ chs) = (ch.number < n) × AllBelow n chs

abbrev subs_in : String → Map (List Channel) → List Channel
subs_in id subs = elim (lookup id subs) [ none ↦ [] | some chs ↦ chs ]

-- Every channel has a lower number than the next one that is made.
abbrev pub IsNumbered : Supervisor → Type 0
IsNumbered s = (id : String) → AllBelow s.next (subs_of id s)

insert-AllBelow :
    (n : ℕ) (id other : String) (chs : List Channel) (subs : Map (List Channel))
    → AllBelow n chs
    → AllBelow n (subs_in other subs)
    → AllBelow n (subs_in other (insert id chs subs))
insert-AllBelow n id other chs subs new old =
    let at = lookup-insert id other chs subs in
    elim (Bool-cases (str_eq id other)) [
      | inl e ↦
          let same : chs ≡ subs_in other (insert id chs subs) = ground (arith, at, e) in
          subst (AllBelow n) same new
      | inr e ↦
          let same : subs_in other subs ≡ subs_in other (insert id chs subs) =
            ground (arith, at, e) in
          subst (AllBelow n) same old
    ]

map-AllBelow :
    (n : ℕ) (e : Event) (chs : List Channel) → AllBelow n chs → AllBelow n (map (offer e) chs)
unfolding offer
map-AllBelow n e [] old = tt
map-AllBelow n e (ch ∷ chs) (lower, old) =
    let same : (offer e ch).number ≡ ch.number = ground arith in
    (subst (λ k. k < n) (sym same) lower, map-AllBelow n e chs old)

drop_first-AllBelow :
    (n number : ℕ) (chs : List Channel) → AllBelow n chs → AllBelow n (drop_first number chs)
drop_first-AllBelow n number [] old = tt
drop_first-AllBelow n number (ch ∷ chs) (lower, old) = elim (Bool-cases (ch.number == number)) [
  | inl e ↦ rw e (lower, old)
  | inr e ↦ rw e (lower, drop_first-AllBelow n number chs old)
]

remove_channel-AllBelow :
    (n number : ℕ) (chs : List Channel) → AllBelow n chs → AllBelow n (remove_channel number chs)
remove_channel-AllBelow n number [] old = tt
remove_channel-AllBelow n number (ch ∷ chs) (lower, old) = elim (Bool-cases (ch.number == number)) [
  | inl e ↦ rw e old
  | inr e ↦ rw e (lower, remove_channel-AllBelow n number chs old)
]

AllBelow-suc : (n : ℕ) (chs : List Channel) → AllBelow n chs → AllBelow (suc n) chs
AllBelow-suc n [] old = tt
AllBelow-suc n (ch ∷ chs) (lower, old) = (omega (arith, lower), AllBelow-suc n chs old)

append-AllBelow :
    (n : ℕ) (ch : Channel) (chs : List Channel)
    → AllBelow n chs
    → ch.number < n
    → AllBelow n (chs ++ ch ∷ [])
append-AllBelow n ch [] old lower = (lower, tt)
append-AllBelow n ch (c ∷ chs) (first, old) lower = (first, append-AllBelow n ch chs old lower)

send_all-number :
    (ch full : Channel) (es : List Event) → send_all ch es ≡ some full → full.number ≡ ch.number
unfolding send_all
send_all-number ch full [] sent = ground arith
send_all-number ch full (e ∷ es) sent = send_all-number (put ch e) full es (ground arith)

-- What Subscribe does, if it returns.
subscribe-subs :
    (id : String) (s s' : Supervisor) (ch : Channel)
    → subscribe id s ≡ some (ch, s')
    → (ch.number ≡ s.next)
      × (s'.next ≡ suc s.next)
      × (s'.subs ≡ insert id (subs_of id s ++ ch ∷ []) s.subs)
unfolding subscribe
subscribe-subs id s s' ch made =
    elim (Option-cases (send_all (record { number = s.next; buffer = [] }) (history_of id s))) [
      | inl e ↦ absurd (ground arith)
      | inr (full, e) ↦
          let number =
            send_all-number (record { number = s.next; buffer = [] }) full (history_of id s) e in
          (ground (arith, number), ground arith, ground arith)
    ]

pub Reached-IsNumbered : {s : Supervisor} → Reached s → IsNumbered s
unfolding publish unsubscribe start finish lookup
Reached-IsNumbered fresh id = tt
Reached-IsNumbered {s = s'} (subscribed {s = s} {ch = ch} at r made) id =
    let old = Reached-IsNumbered r in
    let (number, next, subs) = subscribe-subs at s s' ch made in
    let new : AllBelow (suc s.next) (subs_in id (insert at (subs_of at s ++ ch ∷ []) s.subs)) =
      insert-AllBelow (suc s.next) at id (subs_of at s ++ ch ∷ []) s.subs
        (append-AllBelow (suc s.next) ch (subs_of at s)
          (AllBelow-suc s.next (subs_of at s) (old at)) (omega (arith, number)))
        (AllBelow-suc s.next (subs_of id s) (old id)) in
    subst (λ m. AllBelow s'.next (subs_in id m)) (sym subs)
      (subst (λ n. AllBelow n (subs_in id (insert at (subs_of at s ++ ch ∷ []) s.subs))) (sym next)
        new)
Reached-IsNumbered (published {s = s} at e r) id =
    let old = Reached-IsNumbered r in
    insert-AllBelow s.next at id (map (offer e) (subs_of at s)) s.subs
      (map-AllBelow s.next e (subs_of at s) (old at)) (old id)
Reached-IsNumbered (unsubscribed {s = s} at number r) id =
    let old = Reached-IsNumbered r in
    insert-AllBelow s.next at id (remove_channel number (subs_of at s)) s.subs
      (remove_channel-AllBelow s.next number (subs_of at s) (old at)) (old id)
Reached-IsNumbered (took {s = s} at number r) id =
    let old = Reached-IsNumbered r in
    insert-AllBelow s.next at id (drop_first number (subs_of at s)) s.subs
      (drop_first-AllBelow s.next number (subs_of at s) (old at)) (old id)
Reached-IsNumbered (started {s = s} at r) id =
    let old = Reached-IsNumbered r id in ground (arith, old)
Reached-IsNumbered (ended at r) id = Reached-IsNumbered r id
