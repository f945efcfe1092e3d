-- ===== src/Tests/Tenants.antt =====
-- A store with a goal of the tenant "t", and calls of this tenant and of another one.
use heros_agent.Base.{
  ◌≡◌, ◌≢◌, refl, true, false, Option, none, some, List, [], ◌∷◌, String, values, arith, ◌⊎◌,
  str_eq, eq_iff,
}
use heros_agent.Errors.{ok}
use heros_agent.Goal.{Goal}
use heros_agent.Goal.States as GoalStates
use heros_agent.Task.States.{pending}
use heros_agent.Store.{Memory}
use heros_agent.Store.Scoped.{owns, latest_goal}
use heros_agent.Store.Calls.{
  Call, cancels, loads, reads, respond, refusal, in_two_steps, heard, calls_of,
}
use heros_agent.Store.Isolation.{view, respond-others}
use heros_agent.Store.Alone.{CreatesNone, heard_alone}
use heros_agent.Store.Owners.{start, then_call, in_two_steps_atomic}
use heros_agent.Store.Listed.{IsNewest, latest_goal_lem}
use heros_agent.Tests.Samples.{two_dag}
use heros_agent.Tests.Stores.{store_with}

abbrev shared : Memory
shared = store_with GoalStates.running (two_dag pending)

respond-others_example : view "t" "g" (respond "x" (cancels "g" 5) shared).0 ≡ view "t" "g" shared
respond-others_example = respond-others "x" "t" (cancels "g" 5) shared "g" refl

-- The tenant "x" tries to cancel the goal of "t".
refused_test : respond "x" (cancels "g" 5) shared ≡ (shared, refusal (cancels "g" 5))
unfolding heros_agent.Store.Scoped.cancel heros_agent.Store.Scoped.guarded owns
    heros_agent.Base.lookup
refused_test = refl

abbrev mixed : List (String × Call)
mixed = ("x", cancels "g" 5) ∷ ("t", loads "g") ∷ ("x", reads "g") ∷ []

mixed-CreatesNone : CreatesNone "t" mixed
mixed-CreatesNone = ((λ e. refl), ((λ e. refl), ((λ e. refl), tt)))

heard_alone_example : heard "t" mixed shared ≡ heard "t" (calls_of "t" mixed) shared
heard_alone_example = heard_alone "t" mixed shared mixed-CreatesNone

in_two_steps_atomic_example :
    ((owns "t" "g" shared ≡ true)
      × (in_two_steps "t" (loads "g") shared (respond "x" (cancels "g" 5) shared).0
          ≡ respond "t" (loads "g") (respond "x" (cancels "g" 5) shared).0))
    ⊎ ((owns "t" "g" shared ≡ false)
        × (respond "t" (loads "g") shared ≡ (shared, refusal (loads "g")))
        × (in_two_steps "t" (loads "g") shared (respond "x" (cancels "g" 5) shared).0
            ≡ ((respond "x" (cancels "g" 5) shared).0, refusal (loads "g"))))
in_two_steps_atomic_example =
    in_two_steps_atomic "t" (loads "g") refl (then_call "x" (cancels "g" 5) start)

named : ◌≢◌ {A = String} "t" ""
named e = let same : str_eq "t" "" ≡ true = (eq_iff "t" "").1 e in absurd (ground arith)

latest_goal_lem_example :
    (r : Option Goal) × (latest_goal "t" "x" shared ≡ (shared, ok r))
    × IsNewest "t" (values shared.goals) none r
latest_goal_lem_example = latest_goal_lem "t" "x" shared named
