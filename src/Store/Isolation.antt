-- ===== src/Store/Isolation.antt =====
-- internal/store/scoped.go: what the tenants of one store can see and change of each other's runs.
use heros_agent.Base.{
  ◌≡◌, refl, sym, ap, ◌∙◌, subst, arith, Bool, true, false, Option, none, some, String, str_eq,
  lookup, if◌then◌else◌, lookup-insert, eq_iff, Bool-cases, Option-cases, inl, inr, str_eq-true,
}
use heros_agent.Goal.{Goal}
use heros_agent.Store
use heros_agent.Store.{Memory}
use heros_agent.Store.Scoped
use heros_agent.Store.Scoped.{owns, guarded, as_tenant}
use heros_agent.Store.Slots.{
  Slot, slot, IsLocal, load_goal-IsLocal, save_goal-IsLocal, save_dag-IsLocal, load_dag-IsLocal,
  claim-IsLocal, renew-IsLocal, complete-IsLocal, release-IsLocal, decide-IsLocal, cancel-IsLocal,
  checkpoint-IsLocal, latest_checkpoint-IsLocal,
}
use heros_agent.Store.Calls.{
  Call, creates, loads, saves, plans, loads_dag, claims, renews, completes, releases, decides,
  cancels, notes, reads, is_create, goal_of, respond, unguarded, refusal,
}

pub unguarded-IsLocal :
    (tenant : String) (c : Call)
    → is_create c ≡ false
    → IsLocal tenant (goal_of c) (unguarded tenant c)
unguarded-IsLocal tenant (creates g) h = absurd (ground arith)
unguarded-IsLocal tenant (loads id) h = load_goal-IsLocal tenant id
unguarded-IsLocal tenant (saves g) h = save_goal-IsLocal tenant g
unguarded-IsLocal tenant (plans d) h = save_dag-IsLocal tenant d
unguarded-IsLocal tenant (loads_dag id) h = load_dag-IsLocal tenant id
unguarded-IsLocal tenant (claims id worker lease now) h = claim-IsLocal tenant id worker lease now
unguarded-IsLocal tenant (renews id task worker lease now) h =
    renew-IsLocal tenant id task worker lease now
unguarded-IsLocal tenant (completes id task worker next result failure now) h =
    complete-IsLocal tenant id task worker next result failure now
unguarded-IsLocal tenant (releases id task worker now) h = release-IsLocal tenant id task worker now
unguarded-IsLocal tenant (decides id task approve now) h = decide-IsLocal tenant id task approve now
unguarded-IsLocal tenant (cancels id now) h = cancel-IsLocal tenant id now
unguarded-IsLocal tenant (notes cp) h = checkpoint-IsLocal tenant cp
unguarded-IsLocal tenant (reads id) h = latest_checkpoint-IsLocal tenant id

-- Every call but a creation is the store's own behind the guard.
respond_lem :
    (tenant : String) (c : Call) (m : Memory)
    → is_create c ≡ false
    → respond tenant c m
      ≡ (if owns tenant (goal_of c) m then unguarded tenant c m else (m, refusal c))
unfolding guarded Scoped.load_goal Scoped.save_goal Scoped.save_dag Scoped.load_dag Scoped.claim
    Scoped.renew Scoped.complete Scoped.release Scoped.decide Scoped.cancel Scoped.checkpoint
    Scoped.latest_checkpoint
respond_lem tenant (creates g) m h = absurd (ground arith)
respond_lem tenant (loads id) m h = refl
respond_lem tenant (saves g) m h = refl
respond_lem tenant (plans d) m h = refl
respond_lem tenant (loads_dag id) m h = refl
respond_lem tenant (claims id worker lease now) m h = refl
respond_lem tenant (renews id task worker lease now) m h = refl
respond_lem tenant (completes id task worker next result failure now) m h = refl
respond_lem tenant (releases id task worker now) m h = refl
respond_lem tenant (decides id task approve now) m h = refl
respond_lem tenant (cancels id now) m h = refl
respond_lem tenant (notes cp) m h = refl
respond_lem tenant (reads id) m h = refl

module _ (tenant : String) (c : Call) (m : Memory) (plain : is_create c ≡ false) where
  pub respond-own : owns tenant (goal_of c) m ≡ true → respond tenant c m ≡ unguarded tenant c m
  respond-own own = respond_lem tenant c m plain ∙ rw own refl

  pub respond-foreign : owns tenant (goal_of c) m ≡ false → respond tenant c m ≡ (m, refusal c)
  respond-foreign foreign = respond_lem tenant c m plain ∙ rw foreign refl

-- What a tenant's view shows of a goal: everything under its id, or nothing.
unfoldable pub view : String → String → Memory → Option Slot
view tenant id m = if owns tenant id m then some (slot id m) else none

owns-apart :
    (m : Memory) (id tenant other : String)
    → str_eq tenant other ≡ false
    → owns tenant id m ≡ true
    → owns other id m ≡ false
unfolding owns
owns-apart m id tenant other apart own = elim (Option-cases (lookup id m.goals)) [
  | inl e ↦ ground arith
  | inr (g, e) ↦ ground (arith, eq_iff g.tenant tenant, eq_iff tenant other, eq_iff g.tenant other)
]

pub owns-slot :
    (tenant id : String) (m n : Memory)
    → slot id m ≡ slot id n
    → owns tenant id m ≡ owns tenant id n
unfolding owns
owns-slot tenant id m n e =
    ap {B = Bool} (λ (s : Slot). elim s.goal [ none ↦ false | some g ↦ str_eq g.tenant tenant ]) e

pub view-slot :
    (tenant id : String) (m n : Memory)
    → slot id m ≡ slot id n
    → view tenant id m ≡ view tenant id n
unfolding view
view-slot tenant id m n e = rw (owns-slot tenant id m n e, e) refl

view-none : (tenant id : String) (m : Memory) → owns tenant id m ≡ false → view tenant id m ≡ none
unfolding view
view-none tenant id m foreign = rw foreign refl

create_goal-others :
    (by tenant : String) (g : Goal) (m : Memory) (id : String)
    → str_eq by tenant ≡ false
    → view tenant id (Scoped.create_goal by g m).0 ≡ view tenant id m
unfolding Scoped.create_goal Store.create_goal view owns
create_goal-others by tenant g m id apart =
    ground (arith, lookup-insert g.id id (as_tenant by g) m.goals, eq_iff g.id id)

pub create_of : (c : Call) → is_create c ≡ true → (g : Goal) × (c ≡ creates g)
create_of (creates g) h = (g, refl)
create_of (loads id) h = absurd (ground arith)
create_of _ h = absurd (ground arith)

respond-others_plain :
    (by tenant : String) (c : Call) (m : Memory) (id : String)
    → is_create c ≡ false
    → str_eq by tenant ≡ false
    → view tenant id (respond by c m).0 ≡ view tenant id m
respond-others_plain by tenant c m id plain apart =
    let method = unguarded-IsLocal by c plain in
    elim (Bool-cases (owns by (goal_of c) m)) [
      | inr foreign ↦ rw (respond-foreign by c m plain foreign) refl
      | inl own ↦ rw (respond-own by c m plain own) (elim (Bool-cases (str_eq (goal_of c) id)) [
        | inr e ↦ view-slot tenant id (unguarded by c m).0 m (method.far m id e)
        | inl e ↦
            let here = str_eq-true (goal_of c) id e in
            let before =
              owns-apart m id by tenant apart (subst (λ k. owns by k m ≡ true) here own) in
            let after =
              owns-apart (unguarded by c m).0 id by tenant apart
                (subst (λ k. owns by k (unguarded by c m).0 ≡ true) here (method.keeps m own)) in
            view-none tenant id (unguarded by c m).0 after ∙ sym (view-none tenant id m before)
      ])
    ]

pub owns-Alike :
    (tenant id : String) (m n : Memory)
    → view tenant id m ≡ view tenant id n
    → owns tenant id m ≡ owns tenant id n
unfolding view
owns-Alike tenant id m n e = ground arith

pub slot-Alike :
    (tenant id : String) (m n : Memory)
    → view tenant id m ≡ view tenant id n
    → owns tenant id m ≡ true
    → slot id m ≡ slot id n
unfolding view
slot-Alike tenant id m n e own = ground arith

-- Whatever one tenant calls, another tenant's view of every goal stays as it is: its goals, their
-- graphs and checkpoints are not changed, and none is added to its view.
pub respond-others :
    (by tenant : String) (c : Call) (m : Memory) (id : String)
    → str_eq by tenant ≡ false
    → view tenant id (respond by c m).0 ≡ view tenant id m
respond-others by tenant c m id apart = elim (Bool-cases (is_create c)) [
  | inr plain ↦ respond-others_plain by tenant c m id plain apart
  | inl made ↦
      let (g, same) = create_of c made in
      subst (λ k. view tenant id (respond by k m).0 ≡ view tenant id m) (sym same)
        (create_goal-others by tenant g m id apart)
]
