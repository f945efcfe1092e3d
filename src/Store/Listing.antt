-- ===== src/Store/Listing.antt =====
-- internal/store/store.go: ListGoals and LatestGoal, the two methods that read every goal.
use heros_agent.Base.{
  ltb, Bool, true, not, ◌&&◌, Option, none, some, List, [], ◌∷◌, String, str_eq, values, sort_by,
  if◌then◌else◌,
}
use heros_agent.Errors.{ok}
use heros_agent.Goal.{Goal}
use heros_agent.Goal.States as GoalStates
use heros_agent.Store.{Method}

-- `state == "" || g.State == state`, where none is the empty text.
abbrev pub in_state : Option GoalStates.State → Goal → Bool
in_state none g = true
in_state (some s) g = GoalStates.same_state g.state s

abbrev pub select : (Goal → Bool) → List Goal → List Goal
select test [] = []
select test (g ∷ gs) = let rest = select test gs in if test g then g ∷ rest else rest

unfoldable pub list_goals : Option GoalStates.State → Method (List Goal)
list_goals state m =
    (m, ok (sort_by (λ (g : Goal). g.id) (select (in_state state) (values m.goals))))

-- `best == nil || g.CreatedAt.After(best.CreatedAt)`.
abbrev pub newer : Goal → Option Goal → Option Goal
newer g none = some g
newer g (some best) = if ltb best.created_at g.created_at then some g else some best

-- The loop of LatestGoal, with the newest goal so far. Among goals of one instant it keeps the first
-- that the map gives.
unfoldable pub newest : String → List Goal → Option Goal → Option Goal
newest tenant [] best = best
newest tenant (g ∷ gs) best =
    newest tenant gs
      (if not (str_eq tenant "") && not (str_eq g.tenant tenant) then best else newer g best)

unfoldable pub latest_goal : String → Method (Option Goal)
latest_goal tenant m = (m, ok (newest tenant (values m.goals) none))
