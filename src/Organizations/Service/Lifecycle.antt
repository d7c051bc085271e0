-- ===== src/Organizations/Service/Lifecycle.antt =====
-- apps/api/src/modules/organizations/service.py: creating, reading, updating and deleting
-- organizations.
use text.Mathlib.Text.{◌==◌ as str_eq}
use campus_agent.Base.{
  ℕ, Bool, false, ◌&&◌, not, Option, none, some, [], ◌∷◌, ◌++◌, String, ◌==◌, ltb, update_first,
  is_some,
}
use campus_agent.Base.Action.{◌>>=◌, ◌>>◌, return, gets, require, raise_if, modify}
use campus_agent.Organizations.Models.{
  User, Organization, OrganizationRole, OrganizationStatus, OrganizationVisibility,
  OrganizationJoinPolicy, MembershipStatus, OrganizationMembership, ArchiveAction,
  organization_not_found, permission_denied, slug_already_exists, integrity_error,
  invalid_join_policy, organization_created, organization_archived, Store,
}
use campus_agent.Organizations.Permissions.{
  can_view_organization, can_update_organization, can_delete_organization,
}
use campus_agent.Organizations.Repository.{get_active_by_id, slug_exists, breaks_slug}
use campus_agent.Organizations.Service.Common.{
  Service, validate_org_type, validate_visibility, validate_join_policy, parse_visibility,
  parse_join_policy, get_membership, add_row, publish,
}

-- The fields of the request; a missing visibility or policy has its default.
pub record OrganizationCreate : Type 0 where
  pub name : String
  pub org_type : String
  pub slug : Option String
  pub parent_id : Option ℕ
  pub description : Option String
  pub visibility : Option String
  pub join_policy : Option String
  pub capacity : Option ℕ

abbrev get_default : Option String → String → String
get_default none d = d
get_default (some v) d = v

-- `if slug and slug_exists(slug)`
abbrev slug_taken : Option String → Store → Bool
slug_taken none s = false
slug_taken (some v) s = not (str_eq v "") && slug_exists v s

-- Whether the parent that is named, if one is, does not exist.
abbrev parent_missing : Option ℕ → Store → Bool
parent_missing none s = false
parent_missing (some p) s = not (is_some (get_active_by_id p s))

abbrev add_organization : Organization → Store → Store
add_organization o s = record s { organizations = s.organizations ++ o ∷ [] }

-- `new_id` is the UUID that the database default draws. The reply is the row. A slug that the table
-- holds already raises at the flush, and nothing is committed.
unfoldable pub create_organization : ℕ → User → OrganizationCreate → Service Organization
unfolding validate_org_type validate_visibility validate_join_policy
create_organization new_id actor form = do
  org_type ← validate_org_type form.org_type
  visibility ← validate_visibility (get_default form.visibility "PUBLIC")
  join_policy ← validate_join_policy (get_default form.join_policy "INVITE_ONLY")
  orphan ← gets (parent_missing form.parent_id)
  raise_if orphan organization_not_found
  taken ← gets (slug_taken form.slug)
  raise_if taken slug_already_exists
  broken ← gets (breaks_slug form.slug)
  raise_if broken integrity_error
  now ← gets (λ s. s.now)
  let org : Organization = record {
    id = new_id;
    name = form.name;
    slug = form.slug;
    org_type = org_type;
    parent_id = form.parent_id;
    description = form.description;
    visibility = visibility;
    join_policy = join_policy;
    status = OrganizationStatus.active;
    capacity = form.capacity;
    created_by = actor.id;
    deleted_at = none;
  }
  let membership : OrganizationMembership = record {
    organization_id = new_id;
    user_id = actor.id;
    role = OrganizationRole.owner;
    status = MembershipStatus.active;
    invited_by = some actor.id;
    joined_at = some now;
    left_at = none;
  }
  modify (add_organization org)
  modify (add_row membership)
  modify (publish (organization_created new_id actor.id org_type))
  return org

abbrev visitor_membership : ℕ → Option User → Store → Option OrganizationMembership
visitor_membership id none s = none
visitor_membership id (some actor) s = get_membership id actor s

unfoldable pub get_organization : Option User → ℕ → Service Organization
get_organization actor organization_id = do
  org ← require (get_active_by_id organization_id) organization_not_found
  membership ← gets (visitor_membership org.id actor)
  raise_if (not (can_view_organization actor org membership)) permission_denied
  return org

-- A field that the request leaves out, or sets to null, is none; a description may be set to null.
pub record OrganizationUpdate : Type 0 where
  pub name : Option String
  pub description : Option (Option String)
  pub visibility : Option String
  pub join_policy : Option String
  pub capacity : Option ℕ

abbrev pub new_or {ℓ} : {A : Type ℓ} → Option A → A → A
new_or none old = old
new_or (some v) old = v

abbrev pub some_or {ℓ} : {A : Type ℓ} → Option A → Option A → Option A
some_or none old = old
some_or (some v) old = some v

abbrev pub parsed_or {ℓ} : {A : Type ℓ} → (String → Option A) → Option String → A → Option A
parsed_or parse none old = some old
parsed_or parse (some v) old = parse v

abbrev below_one : Option ℕ → Bool
below_one none = false
below_one (some c) = ltb c 1

abbrev pub change_organization : ℕ → (Organization → Organization) → Store → Store
change_organization id f s = record s {
  organizations = update_first (λ o. o.id == id) f s.organizations;
}

abbrev pub updated :
    OrganizationUpdate
    → OrganizationVisibility
    → OrganizationJoinPolicy
    → Organization
    → Organization
updated form visibility join_policy o = record o {
  name = new_or form.name o.name;
  description = new_or form.description o.description;
  visibility = visibility;
  join_policy = join_policy;
  capacity = some_or form.capacity o.capacity;
}

-- The assignments before an invalid field are not committed.
unfoldable pub update_organization : User → ℕ → OrganizationUpdate → Service Organization
update_organization actor organization_id form = do
  org ← require (get_active_by_id organization_id) organization_not_found
  membership ← gets (get_membership org.id actor)
  raise_if (not (can_update_organization actor membership)) permission_denied
  visibility ←
      require (λ _. parsed_or parse_visibility form.visibility org.visibility) invalid_join_policy
  join_policy ←
      require (λ _. parsed_or parse_join_policy form.join_policy org.join_policy)
        invalid_join_policy
  raise_if (below_one form.capacity) invalid_join_policy
  modify (change_organization org.id (updated form visibility join_policy))
  return (updated form visibility join_policy org)

unfoldable pub delete_organization : User → ℕ → Service (Unit {0})
delete_organization actor organization_id = do
  org ← require (get_active_by_id organization_id) organization_not_found
  membership ← gets (get_membership org.id actor)
  raise_if (not (can_delete_organization actor membership)) permission_denied
  now ← gets (λ s. s.now)
  modify (
      change_organization org.id
        (λ o. record o { status = OrganizationStatus.deleted; deleted_at = some now }))
  modify (publish (organization_archived org.id actor.id ArchiveAction.deleted))
