-- ===== src/Supervisor/Calls.antt =====
-- The loop of internal/api/supervisor.go against the ceiling on iterations.
use heros_agent.Base.{
  ℕ, ◌+◌, ◌≤◌, ◌&&◌, List, [], ◌∷◌, String, length, arith, inl, inr, Bool-cases, Option-cases, All,
}
use heros_agent.Worker.{Worker, World}
use heros_agent.Worker.Cycle.{run_once}
use heros_agent.Worker.Quiet.{calls}
use heros_agent.Worker.Budget.{budget, AllProper, IsThrifty, Thrifty}
use heros_agent.Worker.Fitting.{Fits}
use heros_agent.Worker.Paid.{run_once-Fits}
use heros_agent.Supervisor.{Supervisor, Round, drive, is_nothing, emit}

others-Fits :
    (id : String) (limit : ℕ) (r : Round) (w : World)
    → IsThrifty id r.others
    → Fits id limit w
    → Fits id limit (record w { store = r.others w.store })
others-Fits id limit r w thrifty fits =
    let (proper, less) = thrifty w.store fits.proper in
    let h = fits.within in record { proper = proper; within = omega (arith, less, h) }

drive-Fits :
    (wk : Worker) (id : String) (limit : ℕ) (rs : List Round) (s : Supervisor) (w : World)
    → Thrifty wk id
    → All (λ (r : Round). IsThrifty id r.others) rs
    → Fits id limit w
    → Fits id limit (drive wk id rs s w).world
unfolding drive
drive-Fits wk id limit [] s w thrifty quiet fits = fits
drive-Fits wk id limit (r ∷ rs) s w thrifty (first, rest) fits =
    let (w', out, failed) = run_once wk id r.now r.ctx_error w in
    let s' = emit id out w'.store s in
    let next = record w' { store = r.others w'.store } in
    let after = run_once-Fits wk id r.now r.ctx_error limit thrifty w fits in
    let again =
      drive-Fits wk id limit rs s' next thrifty rest (others-Fits id limit r w' first after) in
    elim (Bool-cases r.cancelled) [
      | inl e ↦ rw e fits
      | inr e ↦ rw e (elim (Option-cases failed) [
        | inr (x, f) ↦ rw f after
        | inl f ↦ rw f (elim (Bool-cases out.more) [
          | inr m ↦ rw m after
          | inl m ↦ rw m (elim (Bool-cases (is_nothing out.did && r.cancelled_waiting)) [
            | inl i ↦ rw i after
            | inr i ↦ rw i again
          ])
        ])
      ])
    ]

-- However many rounds a driver runs, the tools that it calls are no more than the iterations that the
-- goal had left under its ceiling when the driver began. Conditions: the goal is stored under its own
-- id with its count and ceiling within an int, and neither a tool nor others, who use the store
-- meanwhile, give the goal more iterations than it had left.
pub drive-calls :
    (wk : Worker) (id : String) (rs : List Round) (s : Supervisor) (w : World)
    → Thrifty wk id
    → All (λ (r : Round). IsThrifty id r.others) rs
    → AllProper id w.store
    → length (calls (drive wk id rs s w).world.log) ≤ length (calls w.log) + budget id w.store
drive-calls wk id rs s w thrifty quiet proper =
    let limit = length (calls w.log) + budget id w.store in
    let start : Fits id limit w = record { proper = proper; within = omega arith } in
    let end = (drive-Fits wk id limit rs s w thrifty quiet start).within in omega (arith, end)
