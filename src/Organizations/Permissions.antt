-- ===== src/Organizations/Permissions.antt =====
-- apps/api/src/modules/organizations/permissions.py: who may do what in an organization.
pub mod Policy
use campus_agent.Base.{Bool, true, false, ◌||◌, Option, none, some, if◌then◌else◌}
use campus_agent.Organizations.Models.{
  GlobalRole, school_admin, system_admin, User, Organization, OrganizationMembership,
  OrganizationRole, owner, admin, member, guest, is_owner, is_member_or_guest, is_active, is_public,
}

abbrev pub is_system_admin : User → Bool
is_system_admin actor = elim (actor.global_role) [ system_admin ↦ true | _ ↦ false ]

abbrev pub is_school_admin : User → Bool
is_school_admin actor = elim (actor.global_role) [ school_admin ↦ true | _ ↦ false ]

abbrev pub is_admin_level : User → Bool
is_admin_level actor = is_system_admin actor || is_school_admin actor

-- `_get_role`
abbrev pub get_role : Option OrganizationMembership → Option OrganizationRole
get_role none = none
get_role (some m) = if is_active m.status then some m.role else none

abbrev holds_role : (OrganizationRole → Bool) → Option OrganizationRole → Bool
holds_role p none = false
holds_role p (some r) = p r

-- `actor` is None for a visitor who has not logged in.
unfoldable pub can_view_organization :
    Option User → Organization → Option OrganizationMembership → Bool
can_view_organization actor organization membership =
    if elim actor [ none ↦ false | some u ↦ is_admin_level u ]
    then true
    else if holds_role (λ _. true) (get_role membership)
    then true
    else is_public organization.visibility

member_list_role : OrganizationRole → Organization → Bool
member_list_role guest organization = is_public organization.visibility
member_list_role _ organization = true

unfoldable pub can_view_members : User → Organization → Option OrganizationMembership → Bool
unfolding member_list_role
can_view_members actor organization membership =
    if is_admin_level actor
    then true
    else holds_role (λ r. member_list_role r organization) (get_role membership)

abbrev is_owner_or_admin : OrganizationRole → Bool
is_owner_or_admin owner = true
is_owner_or_admin admin = true
is_owner_or_admin _ = false

unfoldable pub can_update_organization : User → Option OrganizationMembership → Bool
can_update_organization actor membership =
    if is_admin_level actor then true else holds_role is_owner_or_admin (get_role membership)

unfoldable pub can_delete_organization : User → Option OrganizationMembership → Bool
can_delete_organization actor membership =
    if is_system_admin actor then true else holds_role is_owner (get_role membership)

-- The part of `can_add_member` after the test for a global administrator.
abbrev role_may_add : OrganizationRole → OrganizationRole → Bool
role_may_add owner target_role = true
role_may_add admin target_role = is_member_or_guest target_role
role_may_add _ target_role = false

unfoldable pub can_add_member : User → Option OrganizationMembership → OrganizationRole → Bool
can_add_member actor actor_membership target_role =
    if is_admin_level actor
    then true
    else holds_role (λ r. role_may_add r target_role) (get_role actor_membership)

abbrev role_may_remove : OrganizationRole → Option OrganizationRole → Bool
role_may_remove owner target_role = true
role_may_remove admin target_role = holds_role is_member_or_guest target_role
role_may_remove _ target_role = false

unfoldable pub can_remove_member :
    User → Option OrganizationMembership → OrganizationMembership → Bool
can_remove_member actor actor_membership target_membership =
    if is_admin_level actor
    then true
    else holds_role (λ r. role_may_remove r (get_role (some target_membership)))
        (get_role actor_membership)

abbrev role_may_change : OrganizationRole → Option OrganizationRole → OrganizationRole → Bool
role_may_change owner target_role new_role = true
role_may_change admin target_role new_role =
    if is_owner new_role then false else holds_role is_member_or_guest target_role
role_may_change _ target_role new_role = false

unfoldable pub can_change_member_role :
    User → Option OrganizationMembership → OrganizationMembership → OrganizationRole → Bool
can_change_member_role actor actor_membership target_membership new_role =
    if is_admin_level actor
    then true
    else holds_role (λ r. role_may_change r (get_role (some target_membership)) new_role)
        (get_role actor_membership)

unfoldable pub can_transfer_ownership : User → Option OrganizationMembership → Bool
can_transfer_ownership actor actor_membership =
    if is_system_admin actor then true else holds_role is_owner (get_role actor_membership)
