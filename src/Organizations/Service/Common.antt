-- ===== src/Organizations/Service/Common.antt =====
-- The helpers at both ends of apps/api/src/modules/organizations/service.py: validation of enum
-- strings, the capacity check, the conversion of rows to replies, and the changes of the store.
use text.Mathlib.Text.{◌==◌ as str_eq}
use campus_agent.Base.{
  ℕ, Bool, false, Option, none, some, [], ◌∷◌, ◌++◌, String, if◌then◌else◌, leb, update_first,
}
use campus_agent.Base.Action.{Action, require, raise_if}
use campus_agent.Organizations.Models.{
  User, GlobalRole, OrganizationType, OrganizationVisibility, OrganizationJoinPolicy,
  OrganizationRole, MembershipStatus, Organization, OrganizationMembership, OrganizationEvent,
  OrganizationError, capacity_exceeded, invalid_join_policy, Store,
}
use campus_agent.Organizations.Repository.{get_active_by_org_user, count_active_members}

abbrev pub Service : Type 0 → Type 0
Service A = Action Store OrganizationError A

-- The enum member that a string spells; `_validate_role` and its kin raise if there is none.
unfoldable pub parse_role : String → Option OrganizationRole
parse_role v =
    if str_eq v "OWNER"
    then some OrganizationRole.owner
    else if str_eq v "ADMIN"
    then some OrganizationRole.admin
    else if str_eq v "MEMBER"
    then some OrganizationRole.member
    else if str_eq v "GUEST"
    then some OrganizationRole.guest
    else none

unfoldable pub parse_visibility : String → Option OrganizationVisibility
parse_visibility v =
    if str_eq v "PUBLIC"
    then some OrganizationVisibility.public
    else if str_eq v "MEMBERS_ONLY"
    then some OrganizationVisibility.members_only
    else if str_eq v "PRIVATE"
    then some OrganizationVisibility.private
    else none

unfoldable pub parse_join_policy : String → Option OrganizationJoinPolicy
parse_join_policy v =
    if str_eq v "OPEN"
    then some OrganizationJoinPolicy.open_join
    else if str_eq v "APPROVAL"
    then some OrganizationJoinPolicy.approval
    else if str_eq v "INVITE_ONLY"
    then some OrganizationJoinPolicy.invite_only
    else if str_eq v "CLOSED"
    then some OrganizationJoinPolicy.closed
    else none

unfoldable pub parse_org_type : String → Option OrganizationType
parse_org_type v =
    if str_eq v "SCHOOL"
    then some OrganizationType.school
    else if str_eq v "COLLEGE"
    then some OrganizationType.college
    else if str_eq v "DEPARTMENT"
    then some OrganizationType.department
    else if str_eq v "CLASS"
    then some OrganizationType.class
    else if str_eq v "DORM"
    then some OrganizationType.dorm
    else if str_eq v "CLUB"
    then some OrganizationType.club
    else if str_eq v "COURSE"
    then some OrganizationType.course
    else if str_eq v "LAB"
    then some OrganizationType.lab
    else if str_eq v "TEAM"
    then some OrganizationType.team
    else if str_eq v "OTHER"
    then some OrganizationType.other
    else none

unfoldable pub validate_role : String → Service OrganizationRole
validate_role v = require (λ _. parse_role v) invalid_join_policy

unfoldable pub validate_visibility : String → Service OrganizationVisibility
validate_visibility v = require (λ _. parse_visibility v) invalid_join_policy

unfoldable pub validate_join_policy : String → Service OrganizationJoinPolicy
validate_join_policy v = require (λ _. parse_join_policy v) invalid_join_policy

unfoldable pub validate_org_type : String → Service OrganizationType
validate_org_type v = require (λ _. parse_org_type v) invalid_join_policy

-- `current >= org.capacity`, where a capacity is set.
abbrev pub is_full : Option ℕ → ℕ → Bool
is_full none current = false
is_full (some capacity) current = leb capacity current

unfoldable pub check_capacity : Organization → Service (Unit {0})
check_capacity org s =
    raise_if (is_full org.capacity (count_active_members org.id s)) capacity_exceeded s

-- `_get_membership` for an actor who has logged in.
abbrev pub get_membership : ℕ → User → Store → Option OrganizationMembership
get_membership organization_id actor s = get_active_by_org_user organization_id actor.id s

-- What `_membership_to_read` returns: no email, student number or password hash.
pub record MemberRead : Type 0 where
  pub user_id : ℕ
  pub display_name : String
  pub avatar_url : Option String
  pub global_role : GlobalRole
  pub role : OrganizationRole
  pub status : MembershipStatus
  pub joined_at : Option ℕ

abbrev pub membership_to_read : OrganizationMembership → User → MemberRead
membership_to_read m u = record {
  user_id = m.user_id;
  display_name = u.display_name;
  avatar_url = u.avatar_url;
  global_role = u.global_role;
  role = m.role;
  status = m.status;
  joined_at = m.joined_at;
}

-- `session.add(membership)`
abbrev pub add_row : OrganizationMembership → Store → Store
add_row m s = record s { memberships = s.memberships ++ m ∷ [] }

-- Assignments to the attributes of the row that the query with the condition `p` returned.
abbrev pub change_row :
    (OrganizationMembership → Bool)
    → (OrganizationMembership → OrganizationMembership)
    → Store
    → Store
change_row p f s = record s { memberships = update_first p f s.memberships }

abbrev pub publish : OrganizationEvent → Store → Store
publish e s = record s { events = s.events ++ e ∷ [] }
