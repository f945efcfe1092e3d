-- ===== src/Store/Alone.antt =====
-- internal/store/scoped.go: each tenant is answered as if it were alone.
use heros_agent.Base.{
  ◌≡◌, refl, sym, ◌∙◌, subst, true, false, List, [], ◌∷◌, String, str_eq, Bool-cases, inl, inr,
  str_eq-true, All,
}
use heros_agent.Store.{Memory}
use heros_agent.Store.Scoped.{owns}
use heros_agent.Store.Calls.{Call, Reply, is_create, goal_of, respond, unguarded, heard, calls_of}
use heros_agent.Store.Isolation.{
  unguarded-IsLocal, respond-own, respond-foreign, view, view-slot, owns-Alike, slot-Alike,
  respond-others,
}

-- Two stores that a tenant cannot tell apart by what it sees.
abbrev pub Alike : String → Memory → Memory → Type 0
Alike tenant m n = (id : String) → view tenant id m ≡ view tenant id n

-- In two stores that look alike to it, a tenant's call gets one answer, and they look alike after it.
respond-Alike :
    (tenant : String) (c : Call) (m n : Memory)
    → is_create c ≡ false
    → Alike tenant m n
    → Alike tenant (respond tenant c m).0 (respond tenant c n).0
      × ((respond tenant c m).1 ≡ (respond tenant c n).1)
respond-Alike tenant c m n plain alike =
    let method = unguarded-IsLocal tenant c plain in
    let at = goal_of c in
    let both = owns-Alike tenant at m n (alike at) in
    elim (Bool-cases (owns tenant at m)) [
      | inr foreign ↦
          rw
            (
              respond-foreign tenant c m plain foreign,
              respond-foreign tenant c n plain (sym both ∙ foreign),
            )
            (alike, refl)
      | inl own ↦
          let e = slot-Alike tenant at m n (alike at) own in
          rw (respond-own tenant c m plain own, respond-own tenant c n plain (sym both ∙ own))
            (
              λ id. elim (Bool-cases (str_eq at id)) [
                | inr apart ↦
                    view-slot tenant id (unguarded tenant c m).0 m (method.far m id apart)
                    ∙ alike id
                    ∙ sym (view-slot tenant id (unguarded tenant c n).0 n (method.far n id apart))
                | inl here ↦
                    subst
                      (λ k.
                        view tenant k (unguarded tenant c m).0
                        ≡ view tenant k (unguarded tenant c n).0)
                      (str_eq-true at id here)
                      (view-slot tenant at (unguarded tenant c m).0 (unguarded tenant c n).0
                        (method.near m n e))
              ],
              method.told m n e,
            )
    ]

-- The tenant itself creates no goal among these calls; the others may.
abbrev pub CreatesNone : String → List (String × Call) → Type 0
CreatesNone tenant calls =
    All (λ (call : String × Call). str_eq call.0 tenant ≡ true → is_create call.1 ≡ false) calls

heard-own :
    (tenant by : String) (c : Call) (calls : List (String × Call)) (m : Memory)
    → str_eq by tenant ≡ true
    → heard tenant ((by, c) ∷ calls) m ≡ (
        let reply : Reply = (c, (respond by c m).1) in
        reply ∷ heard tenant calls (respond by c m).0)
unfolding heard
heard-own tenant by c calls m own = rw own refl

heard-Alike :
    (tenant : String) (calls : List (String × Call)) (m n : Memory)
    → CreatesNone tenant calls
    → Alike tenant m n
    → heard tenant calls m ≡ heard tenant (calls_of tenant calls) n
unfolding heard calls_of
heard-Alike tenant [] m n none_made alike = refl
heard-Alike tenant ((by, c) ∷ calls) m n (first, others) alike =
    elim (Bool-cases (str_eq by tenant)) [
      | inl own ↦
          let same = str_eq-true by tenant own in
          let (alike', told) =
            respond-Alike by c m n (first own) (subst (λ t. Alike t m n) (sym same) alike) in
          let rest =
            heard-Alike tenant calls (respond by c m).0 (respond by c n).0 others
              (subst (λ t. Alike t (respond by c m).0 (respond by c n).0) same alike') in
          rw own (
            (λ i. (c, told i) ∷ rest i) ∙ sym (heard-own tenant by c (calls_of tenant calls) n own))
      | inr other ↦ rw other (
          heard-Alike tenant calls (respond by c m).0 n others
            (λ id. respond-others by tenant c m id other ∙ alike id))
    ]

-- The answers that a tenant gets to its calls on its runs are those that it would get if it were alone:
-- the calls of all other tenants, whatever they are and wherever they come between, make no difference
-- to any of them. Condition: the tenant itself creates no goal meanwhile.
pub heard_alone :
    (tenant : String) (calls : List (String × Call)) (m : Memory)
    → CreatesNone tenant calls
    → heard tenant calls m ≡ heard tenant (calls_of tenant calls) m
heard_alone tenant calls m none_made = heard-Alike tenant calls m m none_made (λ id. refl)
