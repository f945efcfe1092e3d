-- ===== src/Store/Listed.antt =====
-- internal/store/scoped.go: the two methods of a tenant's view that read every goal.
use heros_agent.Base.{
  ◌≡◌, ◌≢◌, refl, sym, ap, ◌∙◌, arith, ◌≤◌, ltb, false, Option, none, some, List, [], ◌∷◌, String,
  str_eq, values, eq_iff, Bool-cases, inl, inr, ◌⊎◌, str_eq-false,
}
use mathlib.Core.List.{Memᴰ}
use mathlib.Core.List.Memᴰ
use heros_agent.Errors.{ok}
use heros_agent.Goal.{Goal}
use heros_agent.Goal.States as GoalStates
use heros_agent.Store.{Memory}
use heros_agent.Store.Listing
use heros_agent.Store.Listing.{newer, newest}
use heros_agent.Store.Scoped.{latest_goal}

-- The newest of the tenant's goals in a list, and of one that is given: none, if there are none of both.
abbrev pub IsNewest : String → List Goal → Option Goal → Option Goal → Type 0
IsNewest tenant gs best none = (best ≡ none) × ((h : Goal) → Memᴰ h gs → h.tenant ≢ tenant)
IsNewest tenant gs best (some g) =
    ((best ≡ some g) ⊎ (Memᴰ g gs × (g.tenant ≡ tenant)))
    × ((b : Goal) → best ≡ some b → b.created_at ≤ g.created_at)
    × ((h : Goal) → Memᴰ h gs → h.tenant ≡ tenant → h.created_at ≤ g.created_at)

module _ (tenant : String) (named : str_eq tenant "" ≡ false) where
  -- A goal of another tenant is passed over.
  IsNewest-over :
      (g : Goal) (gs : List Goal) (best r : Option Goal)
      → g.tenant ≢ tenant
      → IsNewest tenant gs best r
      → IsNewest tenant (g ∷ gs) best r
  IsNewest-over g gs best none other (without, foreign) = (
    without,
    λ h there. elim (Memᴰ.cases_cons there) [
      | inl e ↦ λ mine. other (ap (λ (k : Goal). k.tenant) (sym e) ∙ mine)
      | inr later ↦ foreign h later
    ],
  )
  IsNewest-over g gs best (some r) other (origin, above_best, above) = (
    elim origin [ inl e ↦ inl e | inr (there, mine) ↦ inr (Memᴰ.tail there, mine) ],
    above_best,
    λ h there mine. elim (Memᴰ.cases_cons there) [
      | inl e ↦ absurd (other (ap (λ (k : Goal). k.tenant) (sym e) ∙ mine))
      | inr later ↦ above h later mine
    ],
  )

  -- One of its own is compared with the best so far.
  IsNewest-own :
      (g : Goal) (gs : List Goal) (best kept : Option Goal) (r : Option Goal)
      → g.tenant ≡ tenant
      → ((kept ≡ some g) ⊎ (kept ≡ best))
      → (k : Goal) → kept ≡ some k
      → g.created_at ≤ k.created_at
      → ((b : Goal) → best ≡ some b → b.created_at ≤ k.created_at)
      → IsNewest tenant gs kept r
      → IsNewest tenant (g ∷ gs) best r
  IsNewest-own g gs best kept none mine which k is over_g over_best (without, foreign) =
      absurd (ground arith)
  IsNewest-own g gs best kept (some r) mine which k is over_g over_best
        (origin, above_best, above) =
      (
        elim origin [
          | inr (there, own) ↦ inr (Memᴰ.tail there, own)
          | inl e ↦ elim which [
            | inl new ↦ inr (Memᴰ.head (ground arith), ground arith)
            | inr old ↦ inl (sym old ∙ e)
          ]
        ],
        λ b e. omega (arith, over_best b e, above_best k is),
        λ h there own. elim (Memᴰ.cases_cons there) [
          | inl e ↦
              let same : h.created_at ≡ g.created_at = ap (λ (x : Goal). x.created_at) e in
              omega (arith, above_best k is)
          | inr later ↦ above h later own
        ],
      )

  newest-newer :
      (g : Goal) (gs : List Goal) (best : Option Goal)
      → g.tenant ≡ tenant
      → ((kept : Option Goal) → IsNewest tenant gs kept (newest tenant gs kept))
      → IsNewest tenant (g ∷ gs) best (newest tenant gs (newer g best))
  newest-newer g gs none mine rest =
      IsNewest-own g gs none (some g) (newest tenant gs (some g)) mine (inl refl) g refl
        (omega arith) (λ b e. ground arith) (rest (some g))
  newest-newer g gs (some b) mine rest = elim (Bool-cases (ltb b.created_at g.created_at)) [
    | inl later ↦ rw later (
        IsNewest-own g gs (some b) (some g) (newest tenant gs (some g)) mine (inl refl) g refl
          (omega arith) (λ c e. ground arith) (rest (some g)))
    | inr early ↦ rw early (
        IsNewest-own g gs (some b) (some b) (newest tenant gs (some b)) mine (inr refl) b refl
          (ground arith) (λ c e. ground arith) (rest (some b)))
  ]

  newest_lem :
      (gs : List Goal) (best : Option Goal) → IsNewest tenant gs best (newest tenant gs best)
  unfolding newest
  newest_lem [] none = (refl, λ h there. elim there [ ])
  newest_lem [] (some b) = (inl refl, λ c e. ground arith, λ h there. elim there [ ])
  newest_lem (g ∷ gs) best = elim (Bool-cases (str_eq g.tenant tenant)) [
    | inr e ↦
        rw (named, e)
          (IsNewest-over g gs best (newest tenant gs best)
            (λ mine. ground (arith, eq_iff g.tenant tenant)) (newest_lem gs best))
    | inl e ↦ rw (named, e) (newest-newer g gs best ((eq_iff g.tenant tenant).0 e) (newest_lem gs))
  ]

-- Through a named tenant's view LatestGoal answers, whatever name it is given, with the newest of the
-- tenant's own goals, or with none if it has none, and leaves the store as it is.
pub latest_goal_lem :
    (tenant ignored : String) (m : Memory)
    → tenant ≢ ""
    → (r : Option Goal) × (latest_goal tenant ignored m ≡ (m, ok r))
      × IsNewest tenant (values m.goals) none r
unfolding latest_goal Listing.latest_goal
latest_goal_lem tenant ignored m named = (
  newest tenant (values m.goals) none,
  refl,
  newest_lem tenant (str_eq-false tenant "" named) (values m.goals) none,
)
