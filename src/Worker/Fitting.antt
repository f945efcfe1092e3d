-- ===== src/Worker/Fitting.antt =====
-- internal/worker/worker.go: the tools called and what is left of the ceiling on iterations, against a
-- limit.
use heros_agent.Base.{
  ℕ, ◌+◌, ◌≤◌, ◌≡◌, refl, sym, ◌∙◌, ap, subst, true, not, some, String, length, arith, ◌⊎◌, ◌||◌,
  inl, inr, Bool-cases, if◌then◌else◌, lookup, lookup-insert, eq_iff, Map,
}
use heros_agent.Base.Int64.{FitsInt64}
use heros_agent.Base.Text.{Text}
use heros_agent.Errors.{Result, ok, err, is_goal_terminal}
use heros_agent.Bounds.{Ceilings, Spend}
use heros_agent.Goal.{Goal}
use heros_agent.Goal.States as GoalStates
use heros_agent.Store.{Memory, save_goal, refuse_terminal_overwrite}
use heros_agent.Store.Runs.{same_state-true}
use heros_agent.Worker.{
  Worker, World, Answer, saving, stopped, stopped_by, stopped_elsewhere, record_episode,
  EpisodeKind,
}
use heros_agent.Worker.Quiet.{calls, calling-cases}
use heros_agent.Worker.Budget.{
  left, budget_of, budget, IsProper, AllProper, record_episode-calls, record_episode-store,
}

module _ (id : String) (limit : ℕ) where
  -- The tools called and what may still be spent come to no more than the limit.
  pub record Fits (w : World) : Type 0 where
    pub proper : AllProper id w.store
    pub within : length (calls w.log) + budget id w.store ≤ limit

  pub Fits-goals :
      (w w' : World)
      → w'.store.goals ≡ w.store.goals
      → calls w'.log ≡ calls w.log
      → Fits w
      → Fits w'
  Fits-goals w w' same quiet fits = record {
    proper = λ g at. fits.proper g (ap (lookup id) (sym same) ∙ at);
    within =
        let b : budget id w'.store ≡ budget id w.store =
          ap {B = ℕ} (λ (gs : Map Goal). budget_of (lookup id gs)) same in
        let c : length (calls w'.log) ≡ length (calls w.log) = ap {B = ℕ} (λ cs. length cs) quiet in
        let h = fits.within in omega (arith, b, c, h);
  }

  -- The same goal, but for its state and what does not count here.
  pub record Alike (g g' : Goal) : Type 0 where
    pub same_id : g'.id ≡ g.id
    pub ceilings : g'.ceilings ≡ g.ceilings
    pub spend : g'.spend ≡ g.spend

  left-same :
      (g g' : Goal)
      → g'.spend.iterations ≡ g.spend.iterations
      → g'.ceilings.max_iterations ≡ g.ceilings.max_iterations
      → left g' ≡ left g
  unfolding left
  left-same g g' s c = rw (s, c) refl

  left-Alike : (g g' : Goal) → Alike g g' → left g' ≤ left g
  left-Alike g g' alike =
      let s : g'.spend.iterations ≡ g.spend.iterations =
        ap (λ (x : Spend). x.iterations) alike.spend in
      let c : g'.ceilings.max_iterations ≡ g.ceilings.max_iterations =
        ap (λ (x : Ceilings). x.max_iterations) alike.ceilings in
      let l = left-same g g' s c in omega (arith, l)

  budget_of-falls :
      (g g' : Goal)
      → (GoalStates.terminal g.state ≡ true → GoalStates.terminal g'.state ≡ true)
      → left g' ≤ left g
      → budget_of (some g') ≤ budget_of (some g)
  unfolding budget_of
  budget_of-falls g g' over less = ground arith

  IsProper-Alike : (g g' : Goal) → Alike g g' → IsProper id g → IsProper id g'
  IsProper-Alike g g' alike proper = record {
    keyed = alike.same_id ∙ proper.keyed;
    counted = subst (λ (s : Spend). FitsInt64 s.iterations) (sym alike.spend) proper.counted;
    bounded =
        subst (λ (c : Ceilings). FitsInt64 c.max_iterations) (sym alike.ceilings) proper.bounded;
  }

  -- The key under which it is saved.
  saved_id :
      (w : World) (g g' : Goal)
      → Fits w
      → lookup id w.store.goals ≡ some g
      → Alike g g'
      → g'.id ≡ id
  saved_id w g g' fits at alike = alike.same_id ∙ (fits.proper g at).keyed

  module _ (w : World) (g g' : Goal) (same : g'.id ≡ id)
      (at : lookup id w.store.goals ≡ some g) where
    still_ended :
        (not (GoalStates.terminal g.state) || GoalStates.same_state g'.state g.state) ≡ true
        → GoalStates.terminal g.state ≡ true
        → GoalStates.terminal g'.state ≡ true
    still_ended passed over =
        ap GoalStates.terminal (same_state-true g'.state g.state (ground arith)) ∙ over

    -- SaveGoal leaves the goal, or puts the new one there; one that has ended is not brought back.
    pub saved_cases :
        ((lookup id (save_goal g' w.store).0.goals ≡ some g) × (GoalStates.terminal g.state ≡ true))
        ⊎ ((lookup id (save_goal g' w.store).0.goals ≡ some g')
            × (GoalStates.terminal g.state ≡ true → GoalStates.terminal g'.state ≡ true))
    unfolding save_goal refuse_terminal_overwrite
    saved_cases =
        let found : lookup g'.id w.store.goals ≡ some g =
          ap (λ k. lookup k w.store.goals) same ∙ at in
        elim (Bool-cases
          (not (GoalStates.terminal g.state) || GoalStates.same_state g'.state g.state)) [
            | inr refused ↦ inl (ground arith, ground arith)
            | inl passed ↦ inr (
              ground (arith, lookup-insert g'.id id g' w.store.goals, eq_iff g'.id id),
              still_ended passed,
            )
          ]

  saved-Fits :
      (w : World) (g g' : Goal)
      → Fits w
      → lookup id w.store.goals ≡ some g
      → Alike g g'
      → Fits (record w { store = (save_goal g' w.store).0 })
  saved-Fits w g g' fits at alike =
      let same = saved_id w g g' fits at alike in
      let h = fits.within in
      elim (saved_cases w g g' same at) [
        | inl (kept, over) ↦ record {
          proper = λ k there. fits.proper k (at ∙ sym kept ∙ there);
          within = ground arith;
        }
        | inr (put, over) ↦ record {
          proper = λ k there.
              let e : g' ≡ k = ground arith in
              subst (IsProper id) e (IsProper-Alike g g' alike (fits.proper g at));
          within =
              let before : budget id w.store ≡ budget_of (some g) = ap budget_of at in
              let after : budget id (save_goal g' w.store).0 ≡ budget_of (some g') =
                ap budget_of put in
              let less = budget_of-falls g g' over (left-Alike g g' alike) in
              omega (arith, before, after, less, h);
        }
      ]

  -- What follows on SaveGoal goes on from what it left.
  pub saving-Fits_of :
      (w : World) (g' : Goal) (go : World → Answer)
      → Fits (record w { store = (save_goal g' w.store).0 })
      → ((w' : World) → Fits w' → Fits (go w').0)
      → Fits (saving g' w go).0
  unfolding saving
  saving-Fits_of w g' go saved on_go =
      let here : (m : Memory) (r : Result (Unit {0}))
          → save_goal g' w.store ≡ (m, r)
          → Fits (record w { store = m }) =
        λ m r at.
          subst (λ n. Fits (record w { store = n }))
            (ap (λ (x : Memory × Result (Unit {0})). x.0) at) saved in
      calling-cases (λ a. Fits a.0) (save_goal g' w.store) w
        (λ e w'.
          if is_goal_terminal e.sentinel then stopped stopped_elsewhere w' else stopped_by e w')
        (λ _ w'. go w')
        (λ e m at. elim (Bool-cases (is_goal_terminal e.sentinel)) [
          | inl ended ↦ rw ended (here m (err e) at)
          | inr other ↦ rw other (here m (err e) at)
        ])
        (λ done m at. on_go (record w { store = m }) (here m (ok done) at))

  pub saving-Fits :
      (w : World) (g g' : Goal) (go : World → Answer)
      → Fits w
      → lookup id w.store.goals ≡ some g
      → Alike g g'
      → ((w' : World) → Fits w' → Fits (go w').0)
      → Fits (saving g' w go).0
  saving-Fits w g g' go fits at alike = saving-Fits_of w g' go (saved-Fits w g g' fits at alike)

  pub record_episode-Fits :
      (wk : Worker) (tenant goal_id task_id : String) (kind : EpisodeKind) (summary detail : Text)
      (now : ℕ) (w : World)
      → Fits w
      → Fits (record_episode wk tenant goal_id task_id kind summary detail now w)
  record_episode-Fits wk tenant goal_id task_id kind summary detail now w fits =
      let quiet = record_episode-calls wk tenant goal_id task_id kind summary detail now w in
      let same = record_episode-store wk tenant goal_id task_id kind summary detail now w in
      Fits-goals w (record_episode wk tenant goal_id task_id kind summary detail now w)
        (ap (λ (m : Memory). m.goals) same) quiet fits
