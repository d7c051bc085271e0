-- ===== src/Organizations/Service/Requests.antt =====
-- apps/api/src/modules/organizations/service.py: invitations and join requests, which wait for the
-- invited user's or an administrator's decision, and the list of members.
use text.Mathlib.Text.{◌==◌ as str_eq}
use campus_agent.Base.{
  ℕ, Bool, ◌&&◌, not, Option, none, some, List, [], ◌∷◌, String, ◌==◌, if◌then◌else◌, select,
}
use campus_agent.Base.Action.{◌>>=◌, ◌>>◌, return, raise, gets, require, raise_if, modify}
use campus_agent.Organizations.Models.{
  User, OrganizationRole, MembershipStatus, OrganizationMembership, Missing, organization_not_found,
  permission_denied, member_already_exists, not_found, invalid_invitation_decision,
  invalid_review_decision, invalid_membership_status, Store, is_owner, is_active, is_pending,
  is_invited,
}
use campus_agent.Organizations.Permissions.{can_add_member, can_view_members}
use campus_agent.Organizations.Repository.{
  is_row, get_active_by_id, get_by_org_user, get_user_by_id, user_by_id,
}
use campus_agent.Organizations.Service.Common.{
  Service, validate_role, check_capacity, get_membership, MemberRead, membership_to_read,
  change_row,
}
use campus_agent.Organizations.Service.Membership.{blocks, renewed, renew_row}

unfoldable pub invite_member : User → ℕ → ℕ → String → Service MemberRead
unfolding validate_role
invite_member actor organization_id target_user_id role_name = do
  target_role ← validate_role role_name
  raise_if (is_owner target_role) permission_denied
  org ← require (get_active_by_id organization_id) organization_not_found
  actor_membership ← gets (get_membership org.id actor)
  raise_if (not (can_add_member actor actor_membership target_role)) permission_denied
  target_user ← require (get_user_by_id target_user_id) (not_found Missing.user)
  existing ← gets (get_by_org_user org.id target_user_id)
  raise_if (blocks existing) member_already_exists
  let again = λ (m : OrganizationMembership). record m {
    role = target_role;
    status = MembershipStatus.invited;
    invited_by = some actor.id;
    joined_at = none;
    left_at = none;
  }
  let fresh : OrganizationMembership = record {
    organization_id = org.id;
    user_id = target_user_id;
    role = target_role;
    status = MembershipStatus.invited;
    invited_by = some actor.id;
    joined_at = none;
    left_at = none;
  }
  modify (renew_row existing again fresh)
  return (membership_to_read (renewed existing again fresh) target_user)

-- A row found by `get_by_org_user` whose status passes a test.
abbrev keep_if :
    (MembershipStatus → Bool) → Option OrganizationMembership → Option OrganizationMembership
keep_if p none = none
keep_if p (some m) = if p m.status then some m else none

-- The result is None after DECLINE.
unfoldable pub decide_invitation : User → ℕ → String → Service (Option MemberRead)
unfolding check_capacity
decide_invitation actor organization_id decision = do
  org ← require (get_active_by_id organization_id) organization_not_found
  membership ←
      require (λ s. keep_if is_invited (get_by_org_user org.id actor.id s))
        (not_found Missing.pending_invitation)
  now ← gets (λ s. s.now)
  let accept = λ (m : OrganizationMembership). record m {
    status = MembershipStatus.active;
    joined_at = some now;
    left_at = none;
  }
  let decline = λ (m : OrganizationMembership). record m {
    status = MembershipStatus.removed;
    left_at = some now;
  }
  if str_eq decision "ACCEPT"
      then (do
        check_capacity org
        modify (change_row (is_row org.id actor.id) accept)
        return (some (membership_to_read (accept membership) actor)))
      else if str_eq decision "DECLINE"
      then (do modify (change_row (is_row org.id actor.id) decline); return none)
      else raise invalid_invitation_decision

-- The result is None after REJECT. The reviewed user is looked up after the commit.
unfoldable pub review_member_request : User → ℕ → ℕ → String → String → Service (Option MemberRead)
unfolding validate_role check_capacity
review_member_request actor organization_id target_user_id decision role_name = do
  target_role ← validate_role role_name
  org ← require (get_active_by_id organization_id) organization_not_found
  actor_membership ← gets (get_membership org.id actor)
  raise_if (not (can_add_member actor actor_membership target_role)) permission_denied
  target ←
      require (λ s. keep_if is_pending (get_by_org_user org.id target_user_id s))
        (not_found Missing.pending_request)
  now ← gets (λ s. s.now)
  let approve = λ (m : OrganizationMembership). record m {
    status = MembershipStatus.active;
    role = target_role;
    joined_at = some now;
    invited_by = some actor.id;
  }
  let reject = λ (m : OrganizationMembership). record m {
    status = MembershipStatus.removed;
    left_at = some now;
  }
  if str_eq decision "APPROVE"
      then (do
        check_capacity org
        modify (change_row (is_row org.id target_user_id) approve)
        target_user ← require (get_user_by_id target_user_id) (not_found Missing.user)
        return (some (membership_to_read (approve target) target_user)))
      else if str_eq decision "REJECT"
      then (do modify (change_row (is_row org.id target_user_id) reject); return none)
      else raise invalid_review_decision

unfoldable pub parse_membership_status : String → Option MembershipStatus
parse_membership_status v =
    if str_eq v "INVITED"
    then some MembershipStatus.invited
    else if str_eq v "PENDING"
    then some MembershipStatus.pending
    else if str_eq v "ACTIVE"
    then some MembershipStatus.active
    else if str_eq v "LEFT"
    then some MembershipStatus.left
    else if str_eq v "REMOVED"
    then some MembershipStatus.removed
    else none

abbrev status_index : MembershipStatus → ℕ
status_index MembershipStatus.invited = 0
status_index MembershipStatus.pending = 1
status_index MembershipStatus.active = 2
status_index MembershipStatus.left = 3
status_index MembershipStatus.removed = 4

-- `list_by_org_status`
abbrev pub has_status : ℕ → MembershipStatus → OrganizationMembership → Bool
has_status organization_id status m =
    m.organization_id == organization_id && status_index m.status == status_index status

-- The loop that looks up the user of each membership and skips those that are gone.
unfoldable pub read_members : Store → List OrganizationMembership → List MemberRead
read_members s [] = []
read_members s (m ∷ rest) =
    let others = read_members s rest in
    elim (user_by_id m.user_id s) [ none ↦ others | some u ↦ membership_to_read m u ∷ others ]

unfoldable pub list_members : User → ℕ → String → Service (List MemberRead)
unfolding read_members
list_members actor organization_id status_filter = do
  org ← require (get_active_by_id organization_id) organization_not_found
  membership ← gets (get_membership org.id actor)
  raise_if (not (can_view_members actor org membership)) permission_denied
  status ← require (λ _. parse_membership_status status_filter) invalid_membership_status
  raise_if (not (is_active status) && not (can_add_member actor membership OrganizationRole.member))
      permission_denied
  memberships ← gets (λ s. select (has_status org.id status) s.memberships)
  gets (λ s. read_members s memberships)
