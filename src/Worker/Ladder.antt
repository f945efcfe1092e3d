-- ===== src/Worker/Ladder.antt =====
-- What becomes of a task of internal/worker/worker.go once its tool has returned.
use heros_agent.Base.{
  ℕ, ◌≡◌, ◌≢◌, refl, subst, sym, false, Option, none, some, [], ◌∷◌, String, arith, inl, inr,
  Bool-cases, Option-cases,
}
use heros_agent.Base.Int64.{ℤ, ◌≤ℤ◌, ◌<ℤ◌, leb_ℤ}
use heros_agent.Base.Text.{Text, verbatim, int}
use heros_agent.Errors.{Error, verify_inconclusive, is_verify_inconclusive}
use heros_agent.Task.{Task}
use heros_agent.Task.States.{State, ready, running, succeeded, failed}
use heros_agent.Dag.{Dag}
use heros_agent.Dag.Evolve.{IsSound}
use heros_agent.Goal.{Goal}
use heros_agent.Store.Leases.{release, complete}
use heros_agent.Store.Persons.{checkpoint}
use heros_agent.Store.Holders.{Holds}
use heros_agent.Store.Settled.{
  Left, Left-dags, release-Left, complete-succeeded-Left, complete-failed-Left,
}
use heros_agent.Worker.{Worker, World, Answer, ToolResult, Did, retry, work, record_episode}
use heros_agent.Worker.Cycle.{fail, handle_failure, persist, hand_back, after_call}

-- The state that a task is to be in, and what the cycle reports, by what became of the context and of the
-- tool, the attempts there may be, and the one that this was.
pub data Settles (ctx_error fault : Option Error) (most attempt : ℤ) : State → Did → Type 0 where
  handed_back :
      (why : Error) → ctx_error ≡ some why → Settles ctx_error fault most attempt ready retry
  finished : ctx_error ≡ none → fault ≡ none → Settles ctx_error fault most attempt succeeded work
  unconfirmed :
      (e : Error)
      → ctx_error ≡ none
      → fault ≡ some e
      → e.sentinel ≡ verify_inconclusive
      → Settles ctx_error fault most attempt failed work
  exhausted :
      (e : Error)
      → ctx_error ≡ none
      → fault ≡ some e
      → most ≤ℤ attempt
      → Settles ctx_error fault most attempt failed work
  tried_again :
      (e : Error)
      → ctx_error ≡ none
      → fault ≡ some e
      → e.sentinel ≢ verify_inconclusive
      → attempt <ℤ most
      → Settles ctx_error fault most attempt ready retry

-- What the cycle reports, and the task as it is then in the store.
abbrev pub Ends : String → Task → State → Did → Answer → Type 0
Ends goal_id t next did a = (a.1.did ≡ did) × Left a.0.store goal_id t.id next t.attempt

module _ (wk : Worker) (goal_id : String) (now : ℕ) (ctx_error : Option Error) (d : Dag) (t : Task)
    (g : Goal) (w : World) (holds : Holds w.store goal_id t.id wk.id now d t)
    (runs : t.state ≡ running) where
  hand_back-Ends :
      (why : Error) → Ends goal_id t ready retry (hand_back wk goal_id now ctx_error t why w)
  unfolding hand_back
  hand_back-Ends why =
      let (left, fine) = release-Left w.store goal_id wk.id now d t holds runs in
      let after = hand_back wk goal_id now ctx_error t why w in
      let same : after.0.store.dags ≡ (release goal_id t.id wk.id now w.store).0.dags =
        ground (arith, fine) in
      (ground (arith, fine), Left-dags _ after.0.store same left)

  fail-Ends :
      (why : Text)
      → IsSound d.tasks
      → Ends goal_id t failed work (fail wk goal_id now ctx_error t g why w)
  unfolding fail record_episode
  fail-Ends why sound =
      let (left, fine) = complete-failed-Left w.store goal_id wk.id now d t holds runs why sound in
      let after = fail wk goal_id now ctx_error t g why w in
      let same : after.0.store.dags
          ≡ (complete goal_id t.id wk.id failed [] why now w.store).0.dags =
        ground (arith, fine) in
      (ground (arith, fine), Left-dags _ after.0.store same left)

  persist-Ends :
      (res : ToolResult)
      → Ends goal_id t succeeded work (persist wk goal_id now ctx_error t g res w)
  unfolding persist record_episode checkpoint
  persist-Ends res =
      let (left, fine) =
        complete-succeeded-Left w.store goal_id wk.id now d t holds runs res.output in
      let after = persist wk goal_id now ctx_error t g res w in
      let same : after.0.store.dags
          ≡ (complete goal_id t.id wk.id succeeded res.output [] now w.store).0.dags =
        ground (arith, fine) in
      (ground (arith, fine), Left-dags _ after.0.store same left)

  again-Ends :
      (e : Error)
      → is_verify_inconclusive e.sentinel ≡ false
      → leb_ℤ g.ceilings.max_attempts_per_task t.attempt ≡ false
      → Ends goal_id t ready retry (handle_failure wk goal_id now ctx_error t g e w)
  unfolding handle_failure
  again-Ends e seen more =
      let (left, fine) = release-Left w.store goal_id wk.id now d t holds runs in
      let after = handle_failure wk goal_id now ctx_error t g e w in
      let same : after.0.store.dags ≡ (release goal_id t.id wk.id now w.store).0.dags =
        ground (arith, seen, more, fine) in
      (ground (arith, seen, more, fine), Left-dags _ after.0.store same left)

  handle_failure-Ends :
      (e : Error)
      → IsSound d.tasks
      → ctx_error ≡ none
      → (next : State) × (did : Did) × Settles ctx_error
          (some e)
          g.ceilings.max_attempts_per_task
          t.attempt
          next
          did
        × Ends goal_id t next did (handle_failure wk goal_id now ctx_error t g e w)
  unfolding handle_failure
  handle_failure-Ends e sound live = elim (Bool-cases (is_verify_inconclusive e.sentinel)) [
    | inl blind ↦
        let why =
          verbatim "effect could not be confirmed and must not be retried blindly: " ∷ e.message in
        let same : handle_failure wk goal_id now ctx_error t g e w
            ≡ fail wk goal_id now ctx_error t g why w =
          ground (arith, blind) in
        (
          failed,
          work,
          unconfirmed e live refl (ground (arith, blind)),
          subst (Ends goal_id t failed work) (sym same) (fail-Ends why sound),
        )
    | inr seen ↦ elim (Bool-cases (leb_ℤ g.ceilings.max_attempts_per_task t.attempt)) [
      | inl last ↦
          let why = int t.attempt ∷ verbatim " attempts exhausted: " ∷ e.message in
          let same : handle_failure wk goal_id now ctx_error t g e w
              ≡ fail wk goal_id now ctx_error t g why w =
            ground (arith, seen, last) in
          (
            failed,
            work,
            exhausted e live refl (ground (arith, last)),
            subst (Ends goal_id t failed work) (sym same) (fail-Ends why sound),
          )
      | inr more ↦ (
        ready,
        retry,
        tried_again e live refl (λ h. ground (arith, seen, h)) (ground (arith, more)),
        again-Ends e seen more,
      )
    ]
  ]

  -- What a cycle makes of a running task that it holds, on a well-formed graph, once the tool has returned.
  -- If the context was cancelled meanwhile, the task is ready again, whatever the tool answered. Otherwise
  -- it has succeeded if the tool did; it has failed if the effect could not be confirmed or no attempts are
  -- left; and in all other cases it is ready again. In each case the store has it so, at the attempt it was
  -- at and held by nobody; and the cycle reports that it retries if the task is ready, and that it worked if not.
  pub after_call_lem :
      (res : ToolResult) (fault : Option Error)
      → IsSound d.tasks
      → (next : State) × (did : Did) × Settles ctx_error fault g.ceilings.max_attempts_per_task
          t.attempt next did
        × Ends goal_id t next did (after_call wk goal_id now ctx_error t g res fault w)
  unfolding after_call
  after_call_lem res fault sound = elim (Option-cases ctx_error) [
    | inr (why, over) ↦
        let same : after_call wk goal_id now ctx_error t g res fault w
            ≡ hand_back wk goal_id now ctx_error t why w =
          ground (arith, over) in
        (
          ready,
          retry,
          handed_back why over,
          subst (Ends goal_id t ready retry) (sym same) (hand_back-Ends why),
        )
    | inl live ↦ elim (Option-cases fault) [
      | inl won ↦
          let same : after_call wk goal_id now ctx_error t g res fault w
              ≡ persist wk goal_id now ctx_error t g res w =
            ground (arith, live, won) in
          (
            succeeded,
            work,
            finished live won,
            subst (Ends goal_id t succeeded work) (sym same) (persist-Ends res),
          )
      | inr (e, lost) ↦
          let (next, did, settles, ends) = handle_failure-Ends e sound live in
          let same : after_call wk goal_id now ctx_error t g res fault w
              ≡ handle_failure wk goal_id now ctx_error t g e w =
            ground (arith, live, lost) in
          (
            next,
            did,
            subst (λ f. Settles ctx_error f g.ceilings.max_attempts_per_task t.attempt next did)
                (sym lost) settles,
            subst (Ends goal_id t next did) (sym same) ends,
          )
    ]
  ]
