-- ===== src/Tenancy/Grants.antt =====
-- CanManage and CanGrant (internal/tenancy/role.go): who may give which role.
use heros_agent.Base.{◌≡◌, refl, true, arith}
use heros_agent.Tenancy.{
  Role, owner, admin, member, viewer, unknown, Capability, can, can_grant, can_manage,
}

-- If CanGrant lets an actor give a role, then whatever that role may do the actor may do too, and if it
-- is the owner's role the actor is an owner.
pub can_grant_lem :
    (actor target : Role)
    → can_grant actor target ≡ true
    → ((c : Capability) → can target c ≡ true → can actor c ≡ true)
      × (target ≡ owner → actor ≡ owner)
unfolding can_grant can_manage can
can_grant_lem owner target h = (λ c has. refl, λ e. refl)
can_grant_lem admin target h = (within target h, λ e. ground (arith, e))
  where
    within :
        (t : Role)
        → can_grant admin t ≡ true
        → (c : Capability) → can t c ≡ true
        → can admin c ≡ true
    within t h' c has = ground arith
can_grant_lem member target h = absurd (ground arith)
can_grant_lem viewer target h = absurd (ground arith)
can_grant_lem (unknown r) target h = absurd (ground arith)
