-- ===== src/Autonomy/Closed.antt =====
-- NeedsApproval (internal/autonomy/autonomy.go): when a task goes ahead without a person.
use heros_agent.Base.{
  ◌≡◌, arith, true, false, Option, some, String, str_eq, eq_iff, ◌⊎◌, ◌↔◌, inl, inr, Bool-cases,
  Option-cases,
}
use heros_agent.Errors.{ok, err_or_ok}
use heros_agent.Task.{Task, effect_bearing_kind}
use heros_agent.Goal.{Goal}
use heros_agent.Autonomy.{
  Source, Class, workspace, publish, class_of, may_proceed, decide, needs_approval,
}

-- The organization's level was read, and lets this class of change go ahead.
pub data Permits (level : String) : Class → Type 0 where
  assisted_workspace : level ≡ "assisted" → Permits level workspace
  autonomous_workspace : level ≡ "autonomous" → Permits level workspace
  autonomous_publish : level ≡ "autonomous" → Permits level publish

pub record IsPermitted (source : Option Source) (g : Goal) (t : Task) : Type 0 where
  pub read : Source
  pub level : String
  pub class : Class
  pub wired : source ≡ some read
  pub answered : read g.tenant ≡ ok level
  pub known : class_of t.kind ≡ some class
  pub permits : Permits level class

Permits-of : (level : String) (c : Class) → may_proceed level c ≡ true → Permits level c
unfolding may_proceed
Permits-of level workspace h = elim (Bool-cases (str_eq level "assisted")) [
  | inl e ↦ assisted_workspace ((eq_iff level "assisted").0 e)
  | inr e ↦ autonomous_workspace ((eq_iff level "autonomous").0 (ground arith))
]
Permits-of level publish h = autonomous_publish ((eq_iff level "autonomous").0 h)

Permits-may_proceed : {level : String} {c : Class} → Permits level c → may_proceed level c ≡ true
unfolding may_proceed
Permits-may_proceed {level} (assisted_workspace e) = ground (arith, eq_iff level "assisted", e)
Permits-may_proceed {level} (autonomous_workspace e) = ground (arith, eq_iff level "autonomous", e)
Permits-may_proceed {level} (autonomous_publish e) = ground (arith, eq_iff level "autonomous", e)

-- A task goes ahead without a person exactly if its kind changes nothing outside the platform, or a
-- source is wired, it answered with a level, the kind has a class, and the level is "autonomous", or
-- "assisted" and the class is a change of the workspace.
pub needs_approval_iff :
    (source : Option Source) (g : Goal) (t : Task)
    → ((needs_approval source g t).0 ≡ false)
      ↔ ((effect_bearing_kind t.kind ≡ false) ⊎ IsPermitted source g t)
unfolding needs_approval decide
needs_approval_iff source g t = (to, from)
  where
    to :
        (needs_approval source g t).0 ≡ false
        → (effect_bearing_kind t.kind ≡ false) ⊎ IsPermitted source g t
    to h = elim (Bool-cases (effect_bearing_kind t.kind)) [
      | inr e ↦ inl e
      | inl e ↦ elim (Option-cases (class_of t.kind)) [
        | inl e1 ↦ absurd (ground arith)
        | inr (c, known) ↦ elim (Option-cases source) [
          | inl e2 ↦ absurd (ground arith)
          | inr (read, wired) ↦ elim (err_or_ok (read g.tenant)) [
            | inl (e3, answered) ↦ absurd (ground arith)
            | inr (level, answered) ↦ inr (record {
              read = read;
              level = level;
              class = c;
              wired = wired;
              answered = answered;
              known = known;
              permits = Permits-of level c (ground arith);
            })
          ]
        ]
      ]
    ]

    from :
        (effect_bearing_kind t.kind ≡ false) ⊎ IsPermitted source g t
        → (needs_approval source g t).0 ≡ false
    from (inl e) = ground arith
    from (inr p) = ground (arith, p.wired, p.answered, p.known, Permits-may_proceed p.permits)
