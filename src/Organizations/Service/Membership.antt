-- ===== src/Organizations/Service/Membership.antt =====
-- apps/api/src/modules/organizations/service.py: adding and removing members, roles, ownership,
-- joining and leaving. Each function is one unit of work: what it checks, what it commits and the
-- event that it publishes after the commit.
use campus_agent.Base.{
  ℕ, Bool, true, false, ◌&&◌, not, Option, none, some, String, ◌==◌, if◌then◌else◌, leb,
}
use campus_agent.Base.Action.{◌>>=◌, ◌>>◌, return, gets, require, raise_if, modify, when}
use campus_agent.Organizations.Models.{
  User, OrganizationJoinPolicy, OrganizationRole, MembershipStatus, OrganizationMembership,
  LeaveAction, Missing, organization_not_found, permission_denied, member_already_exists,
  last_owner, invalid_join_policy, not_found, member_joined, member_left, member_role_changed,
  Store, is_owner, is_current,
}
use campus_agent.Organizations.Permissions.{
  can_add_member, can_remove_member, can_change_member_role, can_transfer_ownership,
}
use campus_agent.Organizations.Repository.{
  is_row, is_active_row, get_active_by_id, get_by_org_user, get_active_by_org_user,
  count_active_owners, get_user_by_id,
}
use campus_agent.Organizations.Service.Common.{
  Service, validate_role, check_capacity, get_membership, MemberRead, membership_to_read, add_row,
  change_row, publish,
}

-- Whether the (organization, user) row is one that may not be used again.
abbrev pub blocks : Option OrganizationMembership → Bool
blocks none = false
blocks (some m) = is_current m.status

-- The new row, or the old one (LEFT or REMOVED) used again: what it holds, and its storing.
abbrev pub renewed :
    Option OrganizationMembership
    → (OrganizationMembership → OrganizationMembership)
    → OrganizationMembership
    → OrganizationMembership
renewed none f fresh = fresh
renewed (some m) f fresh = f m

abbrev pub renew_row :
    Option OrganizationMembership
    → (OrganizationMembership → OrganizationMembership)
    → OrganizationMembership
    → Store
    → Store
renew_row none f fresh s = add_row fresh s
renew_row (some m) f fresh s = change_row (is_row fresh.organization_id fresh.user_id) f s

unfoldable pub add_member : User → ℕ → ℕ → String → Service MemberRead
unfolding validate_role check_capacity
add_member actor organization_id target_user_id role_name = do
  target_role ← validate_role role_name
  org ← require (get_active_by_id organization_id) organization_not_found
  actor_membership ← gets (get_membership org.id actor)
  raise_if (not (can_add_member actor actor_membership target_role)) permission_denied
  raise_if (is_owner target_role && not (can_transfer_ownership actor actor_membership))
      permission_denied
  target_user ← require (get_user_by_id target_user_id) (not_found Missing.user)
  check_capacity org
  existing ← gets (get_by_org_user org.id target_user_id)
  raise_if (blocks existing) member_already_exists
  now ← gets (λ s. s.now)
  let again = λ (m : OrganizationMembership). record m {
    role = target_role;
    status = MembershipStatus.active;
    invited_by = some actor.id;
    joined_at = some now;
    left_at = none;
  }
  let fresh : OrganizationMembership = record {
    organization_id = org.id;
    user_id = target_user_id;
    role = target_role;
    status = MembershipStatus.active;
    invited_by = some actor.id;
    joined_at = some now;
    left_at = none;
  }
  let membership = renewed existing again fresh
  modify (renew_row existing again fresh)
  modify (publish (member_joined org.id target_user_id actor.id membership.role membership.status))
  return (membership_to_read membership target_user)

unfoldable pub update_member_role : User → ℕ → ℕ → String → Service MemberRead
unfolding validate_role
update_member_role actor organization_id target_user_id role_name = do
  new_role ← validate_role role_name
  org ← require (get_active_by_id organization_id) organization_not_found
  actor_membership ← gets (get_membership org.id actor)
  target ← require (get_active_by_org_user org.id target_user_id) (not_found Missing.user)
  raise_if (not (can_change_member_role actor actor_membership target new_role)) permission_denied
  raise_if (is_owner new_role && not (can_transfer_ownership actor actor_membership))
      permission_denied
  owner_count ← gets (count_active_owners org.id)
  raise_if ((is_owner target.role && not (is_owner new_role)) && leb owner_count 1) last_owner
  let change = λ (m : OrganizationMembership). record m { role = new_role }
  modify (change_row (is_active_row org.id target_user_id) change)
  modify (publish (member_role_changed org.id target_user_id actor.id target.role new_role))
  target_user ← require (get_user_by_id target_user_id) (not_found Missing.user)
  return (membership_to_read (change target) target_user)

abbrev lacks_owner_role : Option OrganizationMembership → Bool
lacks_owner_role none = true
lacks_owner_role (some m) = not (is_owner m.role)

unfoldable pub transfer_ownership : User → ℕ → ℕ → Service MemberRead
transfer_ownership actor organization_id target_user_id = do
  org ← require (get_active_by_id organization_id) organization_not_found
  actor_membership ← gets (get_membership org.id actor)
  raise_if (not (can_transfer_ownership actor actor_membership)) permission_denied
  raise_if (lacks_owner_role actor_membership) permission_denied
  raise_if (target_user_id == actor.id) permission_denied
  target ← require (get_active_by_org_user org.id target_user_id) (not_found Missing.target_member)
  let demote = λ (m : OrganizationMembership). record m { role = OrganizationRole.admin }
  let promote = λ (m : OrganizationMembership). record m { role = OrganizationRole.owner }
  modify (change_row (is_active_row org.id actor.id) demote)
  modify (change_row (is_active_row org.id target_user_id) promote)
  target_user ← require (get_user_by_id target_user_id) (not_found Missing.user)
  return (membership_to_read (promote target) target_user)

unfoldable pub remove_member : User → ℕ → ℕ → Service (Unit {0})
remove_member actor organization_id target_user_id = do
  org ← require (get_active_by_id organization_id) organization_not_found
  actor_membership ← gets (get_membership org.id actor)
  target ← require (get_active_by_org_user org.id target_user_id) (not_found Missing.user)
  raise_if (not (can_remove_member actor actor_membership target)) permission_denied
  owner_count ← gets (count_active_owners org.id)
  raise_if (is_owner target.role && leb owner_count 1) last_owner
  now ← gets (λ s. s.now)
  modify (
      change_row (is_active_row org.id target_user_id)
        (λ m. record m { status = MembershipStatus.removed; left_at = some now }))
  modify (publish (member_left org.id target_user_id actor.id LeaveAction.removed))

unfoldable pub leave_organization : User → ℕ → Service (Unit {0})
leave_organization actor organization_id = do
  org ← require (get_active_by_id organization_id) organization_not_found
  membership ← require (get_active_by_org_user org.id actor.id) permission_denied
  owner_count ← gets (count_active_owners org.id)
  raise_if (is_owner membership.role && leb owner_count 1) last_owner
  now ← gets (λ s. s.now)
  modify (
      change_row (is_active_row org.id actor.id)
        (λ m. record m { status = MembershipStatus.left; left_at = some now }))
  modify (publish (member_left org.id actor.id actor.id LeaveAction.left))

-- The status and the joining time that a join policy gives; none where it forbids joining.
abbrev pub joining_status : OrganizationJoinPolicy → Option MembershipStatus
joining_status OrganizationJoinPolicy.open_join = some MembershipStatus.active
joining_status OrganizationJoinPolicy.approval = some MembershipStatus.pending
joining_status _ = none

abbrev pub is_open : OrganizationJoinPolicy → Bool
is_open OrganizationJoinPolicy.open_join = true
is_open _ = false

-- What `join_organization` returns.
pub record JoinRead : Type 0 where
  pub organization_id : ℕ
  pub user_id : ℕ
  pub role : OrganizationRole
  pub status : MembershipStatus

unfoldable pub join_organization : User → ℕ → Service JoinRead
unfolding check_capacity
join_organization actor organization_id = do
  org ← require (get_active_by_id organization_id) organization_not_found
  existing ← gets (get_by_org_user org.id actor.id)
  raise_if (blocks existing) member_already_exists
  status ← require (λ _. joining_status org.join_policy) invalid_join_policy
  when (is_open org.join_policy) (check_capacity org)
  now ← gets (λ s. s.now)
  let joined_at : Option ℕ = if is_open org.join_policy then some now else none
  let again = λ (m : OrganizationMembership). record m {
    role = OrganizationRole.member;
    status = status;
    joined_at = joined_at;
    left_at = none;
  }
  let fresh : OrganizationMembership = record {
    organization_id = org.id;
    user_id = actor.id;
    role = OrganizationRole.member;
    status = status;
    invited_by = none;
    joined_at = joined_at;
    left_at = none;
  }
  let membership = renewed existing again fresh
  modify (renew_row existing again fresh)
  modify (publish (member_joined org.id actor.id actor.id membership.role membership.status))
  return (record {
    organization_id = org.id;
    user_id = actor.id;
    role = membership.role;
    status = membership.status;
  })
