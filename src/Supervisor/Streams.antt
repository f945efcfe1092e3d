-- ===== src/Supervisor/Streams.antt =====
-- What a subscriber of internal/api/supervisor.go reads from its channel.
use heros_agent.Base.{
  ℕ, suc, ◌+◌, ◌==◌, ◌≤◌, ◌<◌, ltb, ◌≡◌, ◌≢◌, refl, sym, ◌∙◌, ap, subst, true, false, none, some,
  List, [], ◌∷◌, ◌++◌, String, length, length-append, append_assoc, append-nil, arith, ◌⊎◌, inl,
  inr, Bool-cases, Option-cases, insert, map, lookup-insert_self,
}
use heros_agent.Supervisor.Reached.{
  Reached, AllBelow, Reached-IsNumbered, without_first, drop_first, take_one,
}
use heros_agent.Supervisor.{
  Event, Channel, Supervisor, capacity, put, send_all, offer, subscribe, unsubscribe, publish,
  remove_channel, history_of, subs_of,
}
use heros_agent.Supervisor.Moves.{
  IsSubsequence, Move, told, taken, joins, leaves, told_in, waiting_in, join, reads, holding, seen,
  IsRoomy, seen-IsSubsequence, seen_all,
}

-- Sending a history to a new channel fills it, or never ends.
send_all_cases :
    (ch : Channel) (es : List Event)
    → length ch.buffer ≤ capacity
    → ((length ch.buffer + length es ≤ capacity)
        × (send_all ch es ≡ some (holding ch (ch.buffer ++ es))))
      ⊎ ((capacity < length ch.buffer + length es) × (send_all ch es ≡ none))
unfolding send_all
send_all_cases ch [] small =
    inl (omega arith, ap (λ b. some (holding ch b)) (sym (append-nil ch.buffer)))
send_all_cases ch (e ∷ es) small = elim (Bool-cases (ltb (length ch.buffer) capacity)) [
  | inr full ↦ inr (ground arith, rw full refl)
  | inl room ↦
      let longer = length-append ch.buffer (e ∷ []) in
      elim (send_all_cases (put ch e) es (ground arith)) [
        | inl (fits, sent) ↦ inl (
          omega (arith, fits, longer),
          rw room (sent ∙ ap (λ b. some (holding ch b)) (append_assoc ch.buffer (e ∷ []) es)),
        )
        | inr (over, stuck) ↦ inr (omega (arith, over, longer), rw room stuck)
      ]
]

-- The first channel of a number, with what waits in it.
data Has (number : ℕ) (b : List Event) : List Channel → Type 0 where
  here :
      {ch : Channel} {chs : List Channel}
      → ch.number ≡ number
      → ch.buffer ≡ b
      → Has number b (ch ∷ chs)
  later :
      {ch : Channel} {chs : List Channel}
      → ch.number ≢ number
      → Has number b chs
      → Has number b (ch ∷ chs)

Has-waiting_in :
    {number : ℕ} {b : List Event} {chs : List Channel}
    → Has number b chs
    → waiting_in number chs ≡ b
Has-waiting_in {number} (here {ch = ch} is holds) = ground (arith, is, holds)
Has-waiting_in {number} (later {ch = ch} apart rest) =
    let found = Has-waiting_in rest in ground (arith, apart, found)

Has-map :
    {number : ℕ} {b : List Event} {chs : List Channel} (e : Event) (any : Channel)
    → Has number b chs
    → Has number (offer e (holding any b)).buffer (map (offer e) chs)
unfolding offer
Has-map {number} {b} e any (here {ch = ch} is holds) =
    here (ground (arith, is)) (ground (arith, holds))
Has-map e any (later {ch = ch} apart rest) =
    later (λ same. apart (ground (arith, same))) (Has-map e any rest)

Has-drop_first :
    {number : ℕ} {e : Event} {es : List Event} {chs : List Channel}
    → Has number (e ∷ es) chs
    → Has number es (drop_first number chs)
Has-drop_first {number} (here {ch = ch} is holds) =
    let same : (ch.number == number) ≡ true = ground (arith, is) in
    rw same (here is (ap without_first holds))
Has-drop_first {number} (later {ch = ch} apart rest) =
    let differ : (ch.number == number) ≡ false = ground (arith, apart) in
    rw differ (later apart (Has-drop_first rest))

Has-append :
    {number : ℕ} {b : List Event} {chs : List Channel} (more : List Channel)
    → Has number b chs
    → Has number b (chs ++ more)
Has-append more (here is holds) = here is holds
Has-append more (later apart rest) = later apart (Has-append more rest)

Has-remove_channel :
    {number : ℕ} {b : List Event} {chs : List Channel} (other : ℕ)
    → other ≢ number
    → Has number b chs
    → Has number b (remove_channel other chs)
Has-remove_channel {number} other ne (here {ch = ch} is holds) =
    let differ : (ch.number == other) ≡ false = ground (arith, is, ne) in rw differ (here is holds)
Has-remove_channel other ne (later {ch = ch} apart rest) = elim (Bool-cases (ch.number == other)) [
  | inl e ↦ rw e rest
  | inr e ↦ rw e (later apart (Has-remove_channel other ne rest))
]

Has-new :
    (number : ℕ) (b : List Event) (chs : List Channel)
    → AllBelow number chs
    → Has number b (chs ++ record { number = number; buffer = b } ∷ [])
Has-new number b [] old = here refl refl
Has-new number b (ch ∷ chs) (lower, old) =
    later (λ e. absurd (omega (arith, lower, e))) (Has-new number b chs old)

subs_of-insert :
    (id : String) (chs : List Channel) (s : Supervisor)
    → subs_of id (record s { subs = insert id chs s.subs }) ≡ chs
subs_of-insert id chs s = ground (arith, lookup-insert_self id chs s.subs)

Has-publish :
    {number : ℕ} {b : List Event} (id : String) (e : Event) (any : Channel) (s : Supervisor)
    → Has number b (subs_of id s)
    → Has number (offer e (holding any b)).buffer (subs_of id (publish id e s))
unfolding publish
Has-publish {number} {b} id e any s has =
    let chs = map (offer e) (subs_of id s) in
    let at = lookup-insert_self id chs s.subs in
    subst (Has number (offer e (holding any b)).buffer) (ground (arith, at)) (Has-map e any has)

Has-join :
    {number : ℕ} {b : List Event} (id : String) (s : Supervisor)
    → Has number b (subs_of id s)
    → Has number b (subs_of id (join id s))
unfolding subscribe
Has-join {number} {b} id s has =
    elim (Option-cases (send_all (record { number = s.next; buffer = [] }) (history_of id s))) [
      | inl e ↦
          let same : join id s ≡ s = ground (arith, e) in
          subst (λ x. Has number b (subs_of id x)) (sym same) has
      | inr (ch, e) ↦
          let at = lookup-insert_self id (subs_of id s ++ ch ∷ []) s.subs in
          let same : subs_of id (join id s) ≡ subs_of id s ++ ch ∷ [] = ground (arith, e, at) in
          subst (Has number b) (sym same) (Has-append (ch ∷ []) has)
    ]

Has-leave :
    {number : ℕ} {b : List Event} (id : String) (other : ℕ) (s : Supervisor)
    → other ≢ number
    → Has number b (subs_of id s)
    → Has number b (subs_of id (unsubscribe id other s))
unfolding unsubscribe
Has-leave {number} {b} id other s apart has =
    subst (Has number b) (sym (subs_of-insert id (remove_channel other (subs_of id s)) s))
      (Has-remove_channel other apart has)

Has-take_one :
    {number : ℕ} {e : Event} {es : List Event} (id : String) (s : Supervisor)
    → Has number (e ∷ es) (subs_of id s)
    → Has number es (subs_of id (take_one id number s))
Has-take_one {number} {es = es} id s has =
    subst (Has number es) (sym (subs_of-insert id (drop_first number (subs_of id s)) s))
      (Has-drop_first has)

-- What a subscriber reads of the supervisor is what its buffer says.
reads-seen :
    (id : String) (number : ℕ) (any : Channel) (moves : List (Move number)) (b : List Event)
    (s : Supervisor)
    → Has number b (subs_of id s)
    → reads id number moves s ≡ seen any moves b
unfolding reads seen
reads-seen id number any [] b s has = Has-waiting_in has
reads-seen id number any (told e ∷ moves) b s has =
    reads-seen id number any moves (offer e (holding any b)).buffer (publish id e s)
      (Has-publish id e any s has)
reads-seen id number any (joins ∷ moves) b s has =
    reads-seen id number any moves b (join id s) (Has-join id s has)
reads-seen id number any (leaves other apart ∷ moves) b s has =
    reads-seen id number any moves b (unsubscribe id other s) (Has-leave id other s apart has)
reads-seen id number any (taken ∷ moves) [] s has =
    rw (Has-waiting_in has, reads) (reads-seen id number any moves [] s has)
reads-seen id number any (taken ∷ moves) (e ∷ es) s has =
    rw (Has-waiting_in has, reads)
      (ap (λ l. e ∷ l)
        (reads-seen id number any moves es (take_one id number s) (Has-take_one id s has)))

-- A subscriber reads, in their order and each at most once, the events that were published before it
-- came and those that are published then, whoever else comes or goes; it reads all of them as long as
-- fewer than 256 events wait in its channel whenever one is published. But the call that makes the
-- subscriber returns exactly if no more than 256 events have been published for the goal; otherwise it
-- blocks for ever. This is for a supervisor as its methods and its subscribers made it from a new one.
pub subscribe_lem :
    (id : String) (s : Supervisor)
    → Reached s
    → ((length (history_of id s) ≤ capacity)
        × (ch : Channel) × (s' : Supervisor) × (subscribe id s ≡ some (ch, s'))
        × ((moves : List (Move ch.number))
            → IsSubsequence (reads id ch.number moves s') (history_of id s ++ told_in moves)
              × (IsRoomy moves (history_of id s)
                  → reads id ch.number moves s' ≡ history_of id s ++ told_in moves)))
      ⊎ ((capacity < length (history_of id s)) × (subscribe id s ≡ none))
unfolding subscribe
subscribe_lem id s reached =
    let made : Channel = record { number = s.next; buffer = [] } in
    let past = history_of id s in
    elim (send_all_cases made past (omega arith)) [
      | inr (over, stuck) ↦ inr (omega (arith, over), rw (stuck, subscribe) refl)
      | inl (fits, sent) ↦
          let ch = holding made past in
          let s' : Supervisor = record s {
            subs = insert id (subs_of id s ++ ch ∷ []) s.subs;
            next = suc s.next;
          } in
          let at = lookup-insert_self id (subs_of id s ++ ch ∷ []) s.subs in
          let registered : Has s.next past (subs_of id s') =
            subst (Has s.next past) (ground (arith, at))
              (Has-new s.next past (subs_of id s) (Reached-IsNumbered reached id)) in
          inl (
            omega (arith, fits),
            ch,
            s',
            rw (sent, subscribe) refl,
            λ moves.
                let same = reads-seen id s.next ch moves past s' registered in
                (
                  subst (λ l. IsSubsequence l (past ++ told_in moves)) (sym same)
                      (seen-IsSubsequence ch moves past),
                  λ roomy. same ∙ seen_all ch moves past roomy,
                ),
          )
    ]
