-- ===== src/Supervisor/Endings.antt =====
-- How a cycle's outcome ends the loop of internal/api/supervisor.go and the stream of its events.
use heros_agent.Base.{
  ℕ, ◌≡◌, refl, ◌∙◌, subst, ap, true, false, not, Option, none, some, List, [], ◌∷◌, ◌++◌, String,
  arith, inl, inr, ◌⊎◌, lookup, lookup-insert_self,
}
use heros_agent.Errors.{Error, ok, err}
use heros_agent.Goal.{Goal}
use heros_agent.Store.{Memory, load_goal, load_dag}
use heros_agent.Worker.{
  Worker, World, Did, Outcome, work, retry, nothing, complete, stall, stop, replan,
  blocked_on_approval, await_approval,
}
use heros_agent.Worker.Cycle.{run_once}
use heros_agent.Supervisor.{
  Supervisor, Event, emit, publish, classify, history_of, event_of, with_graph,
}
use heros_agent.Worker.Agreed.{ends, agrees, agreed-more, nothing_more, run_once-Agrees}

classified :
    (did : Did) (e : Event)
    → e.terminal ≡ false
    → ((did ≡ nothing) × (classify did e ≡ none))
      ⊎ ((t : Event) × (classify did e ≡ some t) × (t.terminal ≡ ends did))
unfolding classify
classified work e h = inr (e, refl, h)
classified retry e h = inr (e, refl, h)
classified nothing e h = inl (refl, refl)
classified complete e h = inr (_, refl, refl)
classified stall e h = inr (_, refl, refl)
classified stop e h = inr (_, refl, refl)
classified replan e h = inr (_, refl, refl)
classified blocked_on_approval e h = inr (_, refl, refl)
classified await_approval e h = inr (e, refl, h)

-- The event that is classified, before it is.
seen : String → Outcome → Memory → Goal → Event
seen id out m g = elim (load_dag id m).1 [
  | err failed ↦ event_of g out
  | ok d ↦ with_graph (event_of g out) d out.task_id
]

seen-open :
    (id : String) (out : Outcome) (m : Memory) (g : Goal) → (seen id out m g).terminal ≡ false
unfolding seen with_graph
seen-open id out m g = ground arith

emit-seen :
    (id : String) (out : Outcome) (m : Memory) (s : Supervisor) (g : Goal)
    → lookup id m.goals ≡ some g
    → emit id out m s
      ≡ (elim (classify out.did (seen id out m g)) [ none ↦ s | some told ↦ publish id told s ])
unfolding emit seen load_goal
emit-seen id out m s g at = ground arith

publish-history :
    (id : String) (e : Event) (s : Supervisor)
    → history_of id (publish id e s) ≡ history_of id s ++ e ∷ []
unfolding publish
publish-history id e s = ground (arith, lookup-insert_self id (history_of id s ++ e ∷ []) s.history)

-- The events of the goal before and after the outcome of a cycle was published.
abbrev pub Told : List Event → Outcome → List Event → Type 0
Told before out after =
    ((e : Event) × (after ≡ before ++ e ∷ []) × (e.terminal ≡ not out.more))
    ⊎ ((after ≡ before) × (out.did ≡ nothing) × (out.more ≡ true))

emit-Told :
    (id : String) (out : Outcome) (m : Memory) (s : Supervisor) (g : Goal)
    → lookup id m.goals ≡ some g
    → agrees out none ≡ true
    → Told (history_of id s) out (history_of id (emit id out m s))
emit-Told id out m s g at agreed =
    let same = emit-seen id out m s g at in
    let more = agreed-more out agreed in
    elim (classified out.did (seen id out m g) (seen-open id out m g)) [
      | inl (idle_did, untold) ↦
          let still : emit id out m s ≡ s = same ∙ rw untold refl in
          inr (ap (history_of id) still, idle_did, nothing_more out idle_did more)
      | inr (t, told, last) ↦
          let grown : emit id out m s ≡ publish id t s = same ∙ rw told refl in
          inl (t, ap (history_of id) grown ∙ publish-history id t s, last ∙ more)
    ]

module _ (wk : Worker) (goal_id : String) (now : ℕ) (ctx_error : Option Error) where
  -- Whenever a cycle ends without an error and its goal can be read, the console is told so: unless the
  -- cycle found nothing to do for now, one event is added to the goal's history, and it is marked as the
  -- last one exactly if the loop ends with this cycle. So a stream is closed when the run is over, and
  -- not before.
  pub run_once-emit :
      (w : World) (g : Goal) (s : Supervisor)
      → (run_once wk goal_id now ctx_error w).2 ≡ none
      → lookup goal_id (run_once wk goal_id now ctx_error w).0.store.goals ≡ some g
      → Told (history_of goal_id s) (run_once wk goal_id now ctx_error w).1 (
          history_of goal_id (
            emit goal_id
              (run_once wk goal_id now ctx_error w).1
              (run_once wk goal_id now ctx_error w).0.store
              s))
  run_once-emit w g s quiet at =
      let out = (run_once wk goal_id now ctx_error w).1 in
      let agreed : agrees out none ≡ true =
        subst (λ o. agrees out o ≡ true) quiet (run_once-Agrees wk goal_id now ctx_error w) in
      emit-Told goal_id out (run_once wk goal_id now ctx_error w).0.store s g at agreed
