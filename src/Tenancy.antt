-- ===== src/Tenancy.antt =====
-- internal/tenancy/role.go: the roles of an organization's members and what each may do. A role is a
-- text in Go; one that the table does not know is `unknown`.
pub mod Grants
use heros_agent.Base.{Bool, true, false, List, [], ◌∷◌, String, if◌then◌else◌, not}

pub data Role : Type 0 where
  owner admin member viewer : Role
  unknown : String → Role

pub data Capability : Type 0 where
  read_goals load_subject run_goals approve_change invite_member manage_members : Capability
  transfer_ownership set_autonomy : Capability

unfoldable pub capabilities : List Capability
capabilities =
    read_goals ∷ load_subject ∷ run_goals ∷ approve_change ∷ invite_member ∷ manage_members
    ∷ transfer_ownership ∷ set_autonomy ∷ []

-- The table `grants`, read by Can: a role that is not in it may do nothing.
unfoldable pub can : Role → Capability → Bool
can owner c = true
can admin transfer_ownership = false
can admin set_autonomy = false
can admin _ = true
can member read_goals = true
can member load_subject = true
can member run_goals = true
can member approve_change = true
can member _ = false
can viewer read_goals = true
can viewer _ = false
can (unknown r) c = false

unfoldable pub valid_role : Role → Bool
valid_role (unknown r) = false
valid_role _ = true

abbrev is_owner : Role → Bool
is_owner owner = true
is_owner _ = false

unfoldable pub can_manage : Role → Role → Bool
can_manage actor target =
    if not (can actor manage_members)
    then false
    else if is_owner target
    then can actor transfer_ownership
    else true

unfoldable pub can_grant : Role → Role → Bool
can_grant actor target = can_manage actor target
