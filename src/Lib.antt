-- ===== src/Lib.antt =====
-- heros: the durable core of a long-running agent that improves other agents. A goal is admitted under
-- ceilings, planned as a graph of tasks, and worked off by any number of workers that claim one task
-- at a time from a store under a lease; persons approve what is parked and may stop a run. Paths are
-- from the repository's root.
--
-- The parts, and where they are:
--   Base: strings' maps (Base/Maps), Go's sort by a string (Base/Sorting), numbers as decimal text
--     (Base/Decimal), Go's 64-bit integers with their wrap-around (Base/Int64), and
--     formatted messages as lists of pieces (Base/Text).
--   Errors: an error is the sentinel that `errors.Is` finds and its message; `Result` is a Go result
--     with its error.
--   Bounds (internal/bounds/bounds.go): Ceilings, Spend, Validate, Exceeded, Refusal, Causes.
--   Intent (internal/intent/intent.go): the closed set of intents, their tiers, the axes.
--   Task (internal/task/task.go): State and its transitions, Task, Transition, RequireIdempotency.
--   Dag (internal/task/task.go): DAG. Dag/Build is NewDAG and detectCycle; Dag itself has ReadySet,
--     ClaimableSet, PropagateFailure, Progress and Stalled; Dag/Sort is the sort in `ids`.
--   Goal (internal/goal/goal.go): Admit, Refuse, EvaluateCompletion, Pause, Resume, Cancel,
--     CheckCeilings.
--   Store (internal/store/store.go): Memory. Store has the loads and saves, Store/Leases has Claim,
--     Renew, Complete and Release, Store/Persons has Decide, Cancel and the checkpoints, Store/Listing
--     has ListGoals and LatestGoal. Store/Runs has the runs of the store by several callers.
--   Store/Scoped (internal/store/scoped.go): the view of the store that one tenant has. Store/Calls has
--     the calls of tenants on their views; Store/Slots, Store/Isolation, Store/Alone, Store/Owners and
--     Store/Listed say what they mean to each other.
--   Worker (internal/worker/worker.go): Worker/Cycle is RunOnce with fail, handleFailure, record and
--     dependencyResults; Worker/Idle is idle, Worker/Met says when a criterion is met, and Worker/Ladder
--     and Store/Settled what becomes of a task once its tool has returned. Worker/Budget, Worker/Fitting, Worker/Bounded,
--     Worker/Charged and Worker/Paid follow the ceiling on iterations through a cycle. Tests has
--     concrete runs.
--   Supervisor (internal/api/supervisor.go): Subscribe, Unsubscribe, publish, Start, drive and emit.
--     Supervisor/Reached has the states that they reach, and Supervisor/Moves what is read of a channel.
--   Edit (internal/edit/edit.go): Validate and Apply of a proposal, on texts as bytes and files as a map.
--   Memory (internal/memory/memory.go): episodes, summaries and claims, Promote and Compress. Memory/Mem
--     (internal/memory/store.go) is the in-process store of them, Memory/Scoped
--     (internal/memory/scoped.go) the view of it that one tenant has.
--   RateLimit (internal/ratelimit/ratelimit.go): New, Allow and Restore of a token bucket.
--   Tools (internal/toolcontract/toolcontract.go): Registry with Register, Replace and Invoke.
--   Planner (internal/planner/planner.go): Registry with NewRegistry, Build and Revise. Planner/Plans
--     (internal/planner/plans.go) has the four planners and the helpers that they share.
--   Tenancy (internal/tenancy/role.go): the roles and what each may do.
--   Autonomy (internal/autonomy/autonomy.go): the policy that an organization's level drives.
--
-- A name in Go, ClaimableSet, is claimable_set here. Go's maps are association lists with at most one
-- entry for a key that the code can reach; a map that is ranged over only to collect its keys is read
-- in the order of the list, and `ids` sorts what it collects, as the code does. An instant is a
-- natural number, the nanoseconds after Go's zero time, and 0 is the zero time; a duration that is
-- added to an instant is a natural number too. A state, a kind or an intent is a data type with the
-- constants that the code declares: a value outside them, which a Go string could hold, has no
-- counterpart.
--
-- A method of the store runs under its mutex from the first line to the last, so it is one function
-- from the store before to the store after and the result. Where the code changes a task in place and
-- then fails, it has not changed anything that another call can see: the checks come first. A field
-- that is read through a nil *Task panics in Go; here it is the error `panic`. Loops over a list are
-- structural. Two loops have fuel. PropagateFailure repeats its pass until nothing changes; a pass that
-- changes something blocks a task, so the fuel is one pass more than there are tasks. A round of
-- detectCycle greys a task or takes an entry from its stack, so the fuel is one for each task and each
-- edge, and one for the root. Running out is the error `unfinished`.
--
-- A cycle of the worker calls the store several times. The world of a cycle is the store and a log of
-- the tools called and the episodes recorded. The registry of tools is a parameter that answers with
-- the store as it is when the tool returns, since others use the store while it runs; that they do so
-- between the other calls of a cycle is not modelled. So are parameters the approval policy, the
-- reviser, and the sentence of commonestFailure, whose order of ranging over a Go map is not fixed.
-- The tools and their verifiers, and the planners where they may be any, are parameters of the
-- registries in the same way, as is the JSON decoder of decodeFindings; a
-- reviser that has both an error and tasks answers with the error, which is what its caller reads.
-- NewDAG in idle is given the tasks of the stored graph in the order of its list.
--
-- The two steps of a method of a tenant's view, the guard and the method behind it, are one function
-- in Store/Scoped; what others may do between them is in Store/Owners. In Memory/Scoped a claim and
-- the write behind it are one step. The loop of drive ends only when a cycle says so, so it is given
-- the rounds to run: each has its time, what became of the context, and what others do to the store
-- before the next round. The supervisor of a run is changed by its driver alone meanwhile, but for
-- what Supervisor/Moves says of a channel and its reader. A channel is its buffer, and a send that
-- nobody will ever receive is the result none, of a call that never returns. That Unsubscribe closes
-- the channel is not in its state. Where a path leads, what fails while a file is written, and what
-- others do to the files meanwhile are parameters of Edit. Floating-point arithmetic is a parameter
-- of RateLimit.
--
-- Not modelled: that SaveGoal keeps, and ListGoals and LatestGoal return, a pointer to the stored
-- goal, and LoadDAG and Claim a pointer to the stored graph or task; the Postgres stores; the
-- preferences and conversations of internal/memory; Diff and IdempotencyKey of internal/edit; the
-- router, and what is around these parts (the HTTP surface, the tools themselves, the language model,
-- mail).
mod Base
pub mod Autonomy
pub mod Bounds
pub mod Dag
pub mod Edit
pub mod Errors
pub mod Goal
pub mod Intent
pub mod Memory
pub mod Planner
pub mod RateLimit
pub mod Store
pub mod Task
pub mod Tenancy
pub mod Tools
pub mod Worker
pub mod Supervisor
mod Tests
