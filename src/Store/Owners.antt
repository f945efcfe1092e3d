-- ===== src/Store/Owners.antt =====
-- internal/store/scoped.go: the guard of a call and the method behind it, as two steps.
use heros_agent.Base.{
  ◌≡◌, refl, sym, ◌∙◌, subst, arith, true, false, String, str_eq, lookup-insert, eq_iff, Bool-cases,
  inl, inr, ◌⊎◌, str_eq-true,
}
use heros_agent.Goal.{Goal}
use heros_agent.Store
use heros_agent.Store.{Memory}
use heros_agent.Store.Scoped
use heros_agent.Store.Scoped.{owns, guarded, as_tenant}
use heros_agent.Store.Calls.{Call, is_create, goal_of, respond, unguarded, refusal, in_two_steps}
use heros_agent.Store.Isolation.{
  unguarded-IsLocal, respond-own, respond-foreign, owns-slot, create_of, owns-Alike, respond-others,
}

-- The calls of any tenants, in any order.
pub data Run (m : Memory) : Memory → Type 0 where
  start : Run m m
  then_call : {n : Memory} (by : String) (c : Call) → Run m n → Run m (respond by c n).0

create_goal-keeps :
    (by tenant : String) (g : Goal) (m : Memory) (id : String)
    → owns tenant id m ≡ true
    → owns tenant id (Scoped.create_goal by g m).0 ≡ true
unfolding Scoped.create_goal Store.create_goal owns
create_goal-keeps by tenant g m id own =
    ground (arith, lookup-insert g.id id (as_tenant by g) m.goals, eq_iff g.id id)

respond-keeps_own :
    (by : String) (c : Call) (m : Memory) (id : String)
    → is_create c ≡ false
    → owns by id m ≡ true
    → owns by id (respond by c m).0 ≡ true
respond-keeps_own by c m id plain own =
    let method = unguarded-IsLocal by c plain in
    elim (Bool-cases (owns by (goal_of c) m)) [
      | inr foreign ↦ rw (respond-foreign by c m plain foreign) own
      | inl mine ↦ rw (respond-own by c m plain mine) (elim (Bool-cases (str_eq (goal_of c) id)) [
        | inr apart ↦ owns-slot by id (unguarded by c m).0 m (method.far m id apart) ∙ own
        | inl e ↦
            subst (λ k. owns by k (unguarded by c m).0 ≡ true) (str_eq-true (goal_of c) id e)
              (method.keeps m mine)
      ])
    ]

respond-keeps :
    (by tenant : String) (c : Call) (m : Memory) (id : String)
    → owns tenant id m ≡ true
    → owns tenant id (respond by c m).0 ≡ true
respond-keeps by tenant c m id own = elim (Bool-cases (is_create c)) [
  | inl made ↦
      let (g, same) = create_of c made in
      subst (λ k. owns tenant id (respond by k m).0 ≡ true) (sym same)
        (create_goal-keeps by tenant g m id own)
  | inr plain ↦ elim (Bool-cases (str_eq by tenant)) [
    | inr other ↦
        sym
          (owns-Alike tenant id m (respond by c m).0 (sym (respond-others by tenant c m id other)))
        ∙ own
    | inl self ↦
        let same = str_eq-true by tenant self in
        subst (λ t. owns t id (respond by c m).0 ≡ true) same
          (respond-keeps_own by c m id plain (subst (λ t. owns t id m ≡ true) (sym same) own))
  ]
]

-- A tenant's goal stays its own, whatever the tenants call.
pub Run-keeps :
    (tenant id : String) {m n : Memory}
    → Run m n
    → owns tenant id m ≡ true
    → owns tenant id n ≡ true
Run-keeps tenant id start own = own
Run-keeps tenant id (then_call {n} by c r) own =
    respond-keeps by tenant c n id (Run-keeps tenant id r own)

-- The guard and the method behind it are two steps under the mutex. Whatever the tenants call between
-- the two, the call ends as if it were one step: at the method, if the guard has passed; at the guard,
-- if not, and then it leaves the store as it is.
pub in_two_steps_atomic :
    (tenant : String) (c : Call) {before now : Memory}
    → is_create c ≡ false
    → Run before now
    → ((owns tenant (goal_of c) before ≡ true)
        × (in_two_steps tenant c before now ≡ respond tenant c now))
      ⊎ ((owns tenant (goal_of c) before ≡ false)
          × (respond tenant c before ≡ (before, refusal c))
          × (in_two_steps tenant c before now ≡ (now, refusal c)))
unfolding in_two_steps
in_two_steps_atomic tenant c {before} {now} plain r =
    elim (Bool-cases (owns tenant (goal_of c) before)) [
      | inl own ↦
          inl (
            own,
            rw own (sym (respond-own tenant c now plain (Run-keeps tenant (goal_of c) r own))),
          )
      | inr foreign ↦ inr (foreign, respond-foreign tenant c before plain foreign, rw foreign refl)
    ]
