-- ===== src/Organizations/Repository.antt =====
-- apps/api/src/modules/organizations/repository.py, and the query of users that the service makes:
-- the conditions and the answers of the queries. A `limit` and `offset` are arguments there.
use campus_agent.Base.{
  ℕ, ◌==◌, Bool, true, false, ◌&&◌, not, Option, none, some, List, String, if◌then◌else◌, find,
  select, count_if, is_some,
}
use campus_agent.Organizations.Models.{
  User, UserStatus, Organization, OrganizationMembership, Store, is_owner, is_active, is_deleted,
}
use text.Mathlib.Text.{◌==◌ as str_eq}

-- A row of the pair (organization, user); the table has a unique constraint on the pair.
abbrev pub is_row : ℕ → ℕ → OrganizationMembership → Bool
is_row organization_id user_id m = m.organization_id == organization_id && m.user_id == user_id

abbrev pub is_active_row : ℕ → ℕ → OrganizationMembership → Bool
is_active_row organization_id user_id m = is_row organization_id user_id m && is_active m.status

abbrev pub is_active_member : ℕ → OrganizationMembership → Bool
is_active_member organization_id m = m.organization_id == organization_id && is_active m.status

abbrev pub is_active_owner : ℕ → OrganizationMembership → Bool
is_active_owner organization_id m =
    m.organization_id == organization_id && (is_owner m.role && is_active m.status)

abbrev drop_deleted : Option Organization → Option Organization
drop_deleted none = none
drop_deleted (some o) = if is_deleted o.status then none else some o

-- An archived organization is still returned.
unfoldable pub get_active_by_id : ℕ → Store → Option Organization
get_active_by_id id s = drop_deleted (find (λ o. o.id == id) s.organizations)

abbrev has_slug : String → Organization → Bool
has_slug slug o =
    (elim (o.slug) [ none ↦ false | some v ↦ str_eq v slug ]) && not (is_deleted o.status)

unfoldable pub slug_exists : String → Store → Bool
slug_exists slug s = is_some (find (has_slug slug) s.organizations)

abbrev holds_slug : String → Organization → Bool
holds_slug slug o = elim (o.slug) [ none ↦ false | some v ↦ str_eq v slug ]

-- The unique constraint of the column, which the slug of a deleted organization counts for too.
abbrev pub breaks_slug : Option String → Store → Bool
breaks_slug none s = false
breaks_slug (some v) s = is_some (find (holds_slug v) s.organizations)

unfoldable pub get_by_org_user : ℕ → ℕ → Store → Option OrganizationMembership
get_by_org_user organization_id user_id s = find (is_row organization_id user_id) s.memberships

unfoldable pub get_active_by_org_user : ℕ → ℕ → Store → Option OrganizationMembership
get_active_by_org_user organization_id user_id s =
    find (is_active_row organization_id user_id) s.memberships

unfoldable pub list_active_by_org : ℕ → Store → List OrganizationMembership
list_active_by_org organization_id s = select (is_active_member organization_id) s.memberships

unfoldable pub count_active_owners : ℕ → Store → ℕ
count_active_owners organization_id s = count_if (is_active_owner organization_id) s.memberships

unfoldable pub count_active_members : ℕ → Store → ℕ
count_active_members organization_id s = count_if (is_active_member organization_id) s.memberships

abbrev is_deleted_user : User → Bool
is_deleted_user u = elim (u.status) [ UserStatus.deleted ↦ true | _ ↦ false ]

abbrev keep_undeleted : Option User → Option User
keep_undeleted none = none
keep_undeleted (some u) = if is_some u.deleted_at then none else some u

-- `UserRepository.get_by_id`
unfoldable pub user_by_id : ℕ → Store → Option User
user_by_id id s = keep_undeleted (find (λ u. u.id == id) s.users)

-- `UserRepository.get_by_id`, and the test of `_get_user_by_id` in the service.
abbrev keep_user : Option User → Option User
keep_user none = none
keep_user (some u) =
    if is_some u.deleted_at then none else if is_deleted_user u then none else some u

unfoldable pub get_user_by_id : ℕ → Store → Option User
get_user_by_id id s = keep_user (find (λ u. u.id == id) s.users)
