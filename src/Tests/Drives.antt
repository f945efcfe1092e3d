-- ===== src/Tests/Drives.antt =====
-- A driver of a goal whose tool succeeds.
use heros_agent.Base.{
  ℕ, ◌+◌, ◌≤◌, ◌≡◌, refl, false, none, List, [], ◌∷◌, length, arith, lookup, All, ◌⊎◌, subst, some,
  ◌++◌, ◌<◌,
}
use heros_agent.Goal.States as GoalStates
use heros_agent.Supervisor.{Round, Supervisor, new_supervisor, drive}
use heros_agent.Supervisor.Calls.{drive-calls}
use heros_agent.Supervisor.Streams.{subscribe_lem}
use heros_agent.Worker.Quiet.{calls}
use heros_agent.Worker.Budget.{budget, AllProper, IsProper, Thrifty}
use heros_agent.Goal.{Goal}
use heros_agent.Supervisor.{
  emit, subscribe, history_of, capacity, Channel, Event, event_of, publish,
}
use heros_agent.Supervisor.Moves.{IsSubsequence, IsRoomy, Move, reads, told_in}
use heros_agent.Supervisor.Reached.{fresh, published}
use heros_agent.Supervisor.Endings.{Told, run_once-emit}
use heros_agent.Worker.Cycle.{run_once}
use heros_agent.Worker.{World, Outcome}
use heros_agent.Errors.{Error}
use heros_agent.Base.{Option}
use heros_agent.Tests.Stores.{goal_in}
use heros_agent.Tests.Cycles.{worker, world_with, pull_request}

abbrev quiet_round : Round
quiet_round = record {
  now = 5;
  cancelled = false;
  ctx_error = none;
  cancelled_waiting = false;
  others = λ m. m;
}

worker-Thrifty : Thrifty (worker none) "g"
worker-Thrifty c m proper = (proper, omega arith)

stored-AllProper : AllProper "g" (world_with pull_request).store
unfolding lookup
stored-AllProper g at =
    let same : goal_in GoalStates.running ≡ g = ground arith in
    subst (IsProper "g") same (record {
      keyed = refl;
      counted = (omega arith, omega arith);
      bounded = (omega arith, omega arith);
    })

drive-calls_example :
    length (
      calls
        (drive
          (worker none)
          "g"
          (quiet_round ∷ quiet_round ∷ [])
          new_supervisor
          (world_with pull_request)).world.log)
    ≤ length (calls (world_with pull_request).log) + budget "g" (world_with pull_request).store
drive-calls_example =
    drive-calls (worker none) "g" (quiet_round ∷ quiet_round ∷ []) new_supervisor
      (world_with pull_request) worker-Thrifty
      ((λ m p. (p, omega arith)), ((λ m p. (p, omega arith)), tt)) stored-AllProper

-- The worker completes the pull request.
abbrev ran : World × Outcome × Option Error
ran = run_once (worker none) "g" 5 none (world_with pull_request)

ran_quiet : ran.2 ≡ none
unfolding run_once heros_agent.Store.load_goal lookup heros_agent.Base.insert
    heros_agent.Goal.claimable heros_agent.Worker.Cycle.under_ceilings
    heros_agent.Goal.check_ceilings_reached heros_agent.Bounds.exceeded
    heros_agent.Bounds.cost_ceiling heros_agent.Base.Int64.mul64 heros_agent.Base.Int64.add64
    heros_agent.Worker.Cycle.claim_one heros_agent.Store.Leases.claim heros_agent.Dag.claimable_set
    heros_agent.Dag.collect heros_agent.Dag.ids heros_agent.Dag.Sort.sort
    heros_agent.Dag.may_be_claimed heros_agent.Dag.unclaimed heros_agent.Dag.dependencies_succeeded
    heros_agent.Dag.all_succeeded heros_agent.Dag.all_terminal heros_agent.Store.Leases.claim_first
    heros_agent.Store.Leases.take_lease heros_agent.Store.Leases.to_ready
    heros_agent.Task.transition heros_agent.Task.States.can_transition_to
    heros_agent.Worker.Cycle.with_task heros_agent.Task.require_idempotency
    heros_agent.Worker.Cycle.gate heros_agent.Worker.gate_effects heros_agent.Worker.Cycle.execute
    heros_agent.Worker.Cycle.dependency_results heros_agent.Worker.Cycle.invoke_tool
    heros_agent.Worker.saving heros_agent.Store.save_goal
    heros_agent.Store.refuse_terminal_overwrite heros_agent.Worker.Cycle.charge
    heros_agent.Worker.Cycle.after_call heros_agent.Worker.Cycle.persist
    heros_agent.Worker.record_episode heros_agent.Store.Leases.complete
    heros_agent.Store.Leases.held heros_agent.Store.Leases.check_lease
    heros_agent.Store.Leases.spread heros_agent.Store.Persons.checkpoint
    heros_agent.Worker.Cycle.note_unasked heros_agent.Worker.Cycle.call_for
    heros_agent.Task.effect_bearing_kind
ran_quiet = refl

ran_kept : (g : Goal) × (lookup "g" ran.0.store.goals ≡ some g)
unfolding run_once heros_agent.Store.load_goal lookup heros_agent.Base.insert
    heros_agent.Goal.claimable heros_agent.Worker.Cycle.under_ceilings
    heros_agent.Goal.check_ceilings_reached heros_agent.Bounds.exceeded
    heros_agent.Bounds.cost_ceiling heros_agent.Base.Int64.mul64 heros_agent.Base.Int64.add64
    heros_agent.Worker.Cycle.claim_one heros_agent.Store.Leases.claim heros_agent.Dag.claimable_set
    heros_agent.Dag.collect heros_agent.Dag.ids heros_agent.Dag.Sort.sort
    heros_agent.Dag.may_be_claimed heros_agent.Dag.unclaimed heros_agent.Dag.dependencies_succeeded
    heros_agent.Dag.all_succeeded heros_agent.Dag.all_terminal heros_agent.Store.Leases.claim_first
    heros_agent.Store.Leases.take_lease heros_agent.Store.Leases.to_ready
    heros_agent.Task.transition heros_agent.Task.States.can_transition_to
    heros_agent.Worker.Cycle.with_task heros_agent.Task.require_idempotency
    heros_agent.Worker.Cycle.gate heros_agent.Worker.gate_effects heros_agent.Worker.Cycle.execute
    heros_agent.Worker.Cycle.dependency_results heros_agent.Worker.Cycle.invoke_tool
    heros_agent.Worker.saving heros_agent.Store.save_goal
    heros_agent.Store.refuse_terminal_overwrite heros_agent.Worker.Cycle.charge
    heros_agent.Worker.Cycle.after_call heros_agent.Worker.Cycle.persist
    heros_agent.Worker.record_episode heros_agent.Store.Leases.complete
    heros_agent.Store.Leases.held heros_agent.Store.Leases.check_lease
    heros_agent.Store.Leases.spread heros_agent.Store.Persons.checkpoint
    heros_agent.Worker.Cycle.note_unasked heros_agent.Worker.Cycle.call_for
    heros_agent.Task.effect_bearing_kind
ran_kept = (_, refl)

run_once-emit_example :
    Told
      (history_of "g" new_supervisor)
      ran.1
      (history_of "g" (emit "g" ran.1 ran.0.store new_supervisor))
run_once-emit_example =
    run_once-emit (worker none) "g" 5 none (world_with pull_request) ran_kept.0 new_supervisor
      ran_quiet ran_kept.1

-- A supervisor that has published an event.
abbrev an_event : Event
an_event = event_of (goal_in GoalStates.running) ran.1

abbrev told_once : Supervisor
told_once = publish "g" an_event new_supervisor

subscribe_lem_example :
    ((length (history_of "g" told_once) ≤ capacity)
      × (ch : Channel) × (s' : Supervisor) × (subscribe "g" told_once ≡ some (ch, s'))
      × ((moves : List (Move ch.number))
          → IsSubsequence (reads "g" ch.number moves s') (history_of "g" told_once ++ told_in moves)
            × (IsRoomy moves (history_of "g" told_once)
                → reads "g" ch.number moves s' ≡ history_of "g" told_once ++ told_in moves)))
    ⊎ ((capacity < length (history_of "g" told_once)) × (subscribe "g" told_once ≡ none))
subscribe_lem_example = subscribe_lem "g" told_once (published "g" an_event fresh)
