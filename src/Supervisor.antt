-- ===== src/Supervisor.antt =====
-- internal/api/supervisor.go: the loop that drives one goal, a cycle of the worker at a time, and the
-- events that it publishes to the subscribers of the goal. Each method runs under the supervisor's
-- mutex. A channel is its buffer, with the number by which the program tells channels apart.
pub mod Calls
pub mod Endings
pub mod Reached
pub mod Moves
pub mod Streams
use heros_agent.Base.{
  ℕ, suc, ◌+◌, ◌==◌, ltb, Bool, true, false, not, ◌&&◌, Option, none, some, List, [], ◌∷◌, ◌++◌,
  String, str_eq, Map, lookup, insert, length, map, if◌then◌else◌,
}
use heros_agent.Base.Int64.{ℤ, pos}
use heros_agent.Base.Text.{Text, verbatim}
use heros_agent.Errors.{Error, Result, ok, err}
use heros_agent.Task.States as TaskStates
use heros_agent.Task.States.{same_state}
use heros_agent.Dag.{Dag, progress}
use heros_agent.Goal.{Goal}
use heros_agent.Store.{Memory, load_goal, load_dag}
use heros_agent.Worker.{
  Worker, World, Did, Outcome, work, retry, nothing, complete, stall, stop, replan,
  blocked_on_approval, await_approval,
}
use heros_agent.Worker.Cycle.{run_once}

pub record Event : Type 0 where
  pub kind : String
  pub task_id : String
  pub state : String
  pub detail : Text
  pub result : List ℕ
  pub tokens : ℤ
  pub cost_micro_cents : ℤ
  pub done : ℕ
  pub total : ℕ
  pub terminal : Bool

pub record Channel : Type 0 where
  pub number : ℕ
  pub buffer : List Event

-- `next` is the number of the next channel that is made.
pub record Supervisor : Type 0 where
  pub subs : Map (List Channel)
  pub history : Map (List Event)
  pub running : Map Bool
  pub next : ℕ

abbrev pub new_supervisor : Supervisor
new_supervisor = record { subs = []; history = []; running = []; next = 0 }

abbrev pub capacity : ℕ
capacity = 256

-- Go's map answers nil for a key that is not there.
abbrev pub history_of : String → Supervisor → List Event
history_of id s = elim (lookup id s.history) [ none ↦ [] | some es ↦ es ]

abbrev pub subs_of : String → Supervisor → List Channel
subs_of id s = elim (lookup id s.subs) [ none ↦ [] | some cs ↦ cs ]

abbrev pub put : Channel → Event → Channel
put ch e = record ch { buffer = ch.buffer ++ e ∷ [] }

-- The loop that sends the history; a send to a full channel that nobody reads yet waits for ever, and
-- this is none.
unfoldable pub send_all : Channel → List Event → Option Channel
send_all ch [] = some ch
send_all ch (e ∷ es) =
    let rest = send_all (put ch e) es in if ltb (length ch.buffer) capacity then rest else none

-- None when the call never returns; it holds the mutex then.
unfoldable pub subscribe : String → Supervisor → Option (Channel × Supervisor)
subscribe id s = elim (send_all (record { number = s.next; buffer = [] }) (history_of id s)) [
  | none ↦ none
  | some ch ↦
      some (ch, record s { subs = insert id (subs_of id s ++ ch ∷ []) s.subs; next = suc s.next })
]

abbrev pub remove_channel : ℕ → List Channel → List Channel
remove_channel number [] = []
remove_channel number (ch ∷ chs) =
    if ch.number == number then chs else ch ∷ remove_channel number chs

unfoldable pub unsubscribe : String → ℕ → Supervisor → Supervisor
unsubscribe id number s = record s {
  subs = insert id (remove_channel number (subs_of id s)) s.subs;
}

-- `select` with a default: a full channel is skipped.
unfoldable pub offer : Event → Channel → Channel
offer e ch = if ltb (length ch.buffer) capacity then put ch e else ch

unfoldable pub publish : String → Event → Supervisor → Supervisor
publish id e s = record s {
  history = insert id (history_of id s ++ e ∷ []) s.history;
  subs = insert id (map (offer e) (subs_of id s)) s.subs;
}

abbrev pub is_running : String → Supervisor → Bool
is_running id s = elim (lookup id s.running) [ none ↦ false | some b ↦ b ]

-- Whether a driver is started.
unfoldable pub start : String → Supervisor → Bool × Supervisor
start id s =
    if is_running id s then (false, s) else (true, record s { running = insert id true s.running })

-- The deferred end of drive.
unfoldable pub finish : String → Supervisor → Supervisor
finish id s = record s { running = insert id false s.running }

abbrev pub did_name : Did → String
did_name work = "work"
did_name retry = "retry"
did_name nothing = "nothing"
did_name complete = "complete"
did_name stall = "stall"
did_name stop = "stop"
did_name replan = "replan"
did_name blocked_on_approval = "blocked_on_approval"
did_name await_approval = "await_approval"

-- The event of a cycle from the goal, and what the graph adds to it.
abbrev pub event_of : Goal → Outcome → Event
event_of g out = record {
  kind = "task";
  task_id = out.task_id;
  state = "";
  detail = out.detail;
  result = [];
  tokens = g.spend.tokens;
  cost_micro_cents = g.spend.cost_micro_cents;
  done = 0;
  total = 0;
  terminal = false;
}

unfoldable pub with_graph : Event → Dag → String → Event
with_graph e d task_id =
    let counted = record e { done = (progress d).0; total = (progress d).1 } in
    if str_eq task_id "" then counted else (elim (lookup task_id d.tasks) [
      | none ↦ counted
      | some t ↦ record counted {
        state = TaskStates.state_name t.state;
        result = if same_state t.state TaskStates.succeeded then t.result else [];
      }
    ])

abbrev about_goal : Event → String → Bool → Event
about_goal e state terminal = record e { kind = "goal"; state = state; terminal = terminal }

-- The switch on what the cycle did: none is not worth an event.
unfoldable pub classify : Did → Event → Option Event
classify nothing e = none
classify replan e = some (about_goal e "replan" false)
classify complete e = some (about_goal e (did_name complete) true)
classify stall e = some (about_goal e (did_name stall) true)
classify stop e = some (about_goal e (did_name stop) true)
classify blocked_on_approval e = some (about_goal e (did_name blocked_on_approval) true)
classify work e = some e
classify retry e = some e
classify await_approval e = some e

unfoldable pub emit : String → Outcome → Memory → Supervisor → Supervisor
emit id out m s = elim (load_goal id m).1 [
  | err e ↦ s
  | ok g ↦
      let e = event_of g out in
      let seen : Event = elim (load_dag id m).1 [
        | err failed ↦ e
        | ok d ↦ with_graph e d out.task_id
      ] in
      elim (classify out.did seen) [ none ↦ s | some told ↦ publish id told s ]
]

-- One round of the loop: the time, whether the context was cancelled before it, during it and while it
-- waited, and what others do to the store before the next one.
pub record Round : Type 0 where
  pub now : ℕ
  pub cancelled : Bool
  pub ctx_error : Option Error
  pub cancelled_waiting : Bool
  pub others : Memory → Memory

pub record Driven : Type 0 where
  pub supervisor : Supervisor
  pub world : World
  pub ended : Bool

abbrev pub failed_event : Error → Event
failed_event e = record {
  kind = "goal";
  task_id = "";
  state = "error";
  detail = e.message;
  result = [];
  tokens = pos 0;
  cost_micro_cents = pos 0;
  done = 0;
  total = 0;
  terminal = true;
}

abbrev pub is_nothing : Did → Bool
is_nothing nothing = true
is_nothing _ = false

abbrev pub over : String → Supervisor → World → Driven
over id s w = record { supervisor = finish id s; world = w; ended = true }

-- The loop, for the rounds that are given; it may go on after them.
unfoldable pub drive : Worker → String → List Round → Supervisor → World → Driven
drive wk id [] s w = record { supervisor = s; world = w; ended = false }
drive wk id (r ∷ rs) s w =
    let (w', out, failed) = run_once wk id r.now r.ctx_error w in
    let s' = emit id out w'.store s in
    let again = drive wk id rs s' (record w' { store = r.others w'.store }) in
    if r.cancelled then over id s w else (elim failed [
      | some e ↦ over id (publish id (failed_event e) s) w'
      | none ↦
          if not out.more
          then over id s' w'
          else if is_nothing out.did && r.cancelled_waiting
          then over id s' w'
          else again
    ])
