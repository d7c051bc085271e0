-- ===== src/Organizations/Permissions/Policy.antt =====
-- What the permission tests promise together, whoever the actor is.
use campus_agent.Base.{ℕ, ◌<◌, ◌≡◌, ◌⊎◌, Bool, true, false, ◌&&◌, Option, none, some, arith}
use campus_agent.Organizations.Models.{
  User, Organization, OrganizationMembership, OrganizationRole, owner, admin, member, guest,
  is_active, is_owner,
}
use campus_agent.Organizations.Permissions.{
  is_admin_level, get_role, can_view_organization, can_view_members, can_update_organization,
  can_delete_organization, can_add_member, can_remove_member, can_change_member_role,
  can_transfer_ownership,
}

abbrev pub rank : OrganizationRole → ℕ
rank owner = 3
rank admin = 2
rank member = 1
rank guest = 0

-- The answers of all tests that take the actor's membership, for a given target and role.
abbrev pub answers :
    User
    → Organization
    → OrganizationMembership
    → OrganizationRole
    → Option OrganizationMembership
    → Bool × Bool × Bool × Bool × Bool × Bool × Bool × Bool
answers actor organization target role m = (
  can_view_organization (some actor) organization m,
  can_view_members actor organization m,
  can_update_organization actor m,
  can_delete_organization actor m,
  can_add_member actor m role,
  can_remove_member actor m target,
  can_change_member_role actor m target role,
  can_transfer_ownership actor m,
)

-- A membership that is not active (invited, pending, left or removed) gives no right at all: every
-- test answers as it does for a user with no membership.
pub inactive_gives_nothing :
    (actor : User) (organization : Organization) (target m : OrganizationMembership)
    (role : OrganizationRole)
    → is_active m.status ≡ false
    → answers actor organization target role (some m) ≡ answers actor organization target role none
unfolding can_view_organization can_view_members can_update_organization can_delete_organization
    can_add_member can_remove_member can_change_member_role can_transfer_ownership
inactive_gives_nothing actor organization target m role h = ground arith

-- Who is no global administrator and holds no active OWNER membership can neither add an owner,
-- make a member one, change or remove an active owner, hand ownership over nor delete.
pub owner_rights_need_owner :
    (actor : User) (m : Option OrganizationMembership) (target : OrganizationMembership)
    (role : OrganizationRole)
    → is_admin_level actor ≡ false
    → (get_role m ≡ some owner → ⊥)
    → (can_add_member actor m owner ≡ false)
      × (can_change_member_role actor m target owner ≡ false)
      × ((is_owner target.role && can_remove_member actor m target) ≡ false)
      × ((is_owner target.role && can_change_member_role actor m target role) ≡ false)
      × (can_transfer_ownership actor m ≡ false)
      × (can_delete_organization actor m ≡ false)
unfolding can_add_member can_remove_member can_change_member_role can_transfer_ownership
    can_delete_organization
owner_rights_need_owner actor none target role h k =
    (ground arith, ground arith, ground arith, ground arith, ground arith, ground arith)
owner_rights_need_owner actor (some m) target role h k =
    (ground arith, ground arith, ground arith, ground arith, ground arith, ground arith)

-- Outside the global administrators only an active owner may remove an active member, or an active
-- admin if the member ranks below admins.
pub remove_needs_rank :
    (actor : User) (m : Option OrganizationMembership) (target : OrganizationMembership)
    → is_admin_level actor ≡ false
    → is_active target.status ≡ true
    → can_remove_member actor m target ≡ true
    → (get_role m ≡ some owner) ⊎ ((get_role m ≡ some admin) × (rank target.role < rank admin))
unfolding can_remove_member
remove_needs_rank actor none target a b c = ground arith
remove_needs_rank actor (some m) target a b c = ground arith
