-- ===== src/Organizations/Tests.antt =====
-- A small campus, and what the theorems on organizations say of it.
use campus_agent.Base.{
  ℕ, ◌≡◌, ◌<◌, refl, none, some, List, [], ◌∷◌, String, arith, count_if, find, true, false, ◌&&◌,
  is_some,
}
use campus_agent.Base.Action.{err}
use campus_agent.Organizations.Models.{
  User, GlobalRole, UserStatus, Organization, OrganizationType, OrganizationVisibility,
  OrganizationJoinPolicy, OrganizationStatus, OrganizationRole, MembershipStatus,
  OrganizationMembership, permission_denied, last_owner, Store, is_owner,
}
use campus_agent.Organizations.Permissions.{
  can_add_member, can_remove_member, can_change_member_role, can_transfer_ownership,
  can_delete_organization, can_update_organization,
}
use campus_agent.Organizations.Permissions.Policy.{
  answers, inactive_gives_nothing, owner_rights_need_owner,
}
use campus_agent.Organizations.Repository.{
  get_active_by_id, get_by_org_user, get_active_by_org_user, count_active_owners,
  count_active_members,
}
use campus_agent.Organizations.Service.Lifecycle.{
  OrganizationCreate, OrganizationUpdate, update_organization, delete_organization,
}
use campus_agent.Organizations.Service.{parse_visibility, parse_join_policy}
use campus_agent.Organizations.Service.Membership.{add_member, leave_organization}
use campus_agent.Organizations.Service.Requests.{review_member_request}
use campus_agent.Organizations.Service.Invariants.{HasUniqueRows, IsWithinCapacity}
use campus_agent.Organizations.Service.Serve.{
  MemberRequest, remove, join, leave, transfer, serve, replay,
}
use campus_agent.Organizations.Service.Atomic.{serve-error_unchanged}
use campus_agent.Organizations.Service.History.{
  replay-keeps_owner, replay-HasUniqueRows, replay-IsWithinCapacity,
}
use campus_agent.Organizations.Service.Founding.{delete_organization-closes}
use campus_agent.Organizations.Service.Escalation.{
  review_member_request-grants_owner, update_organization-sets_capacity,
}

abbrev user : ℕ → String → GlobalRole → User
user id name role = record {
  id = id;
  display_name = name;
  avatar_url = none;
  global_role = role;
  status = UserStatus.active;
  deleted_at = none;
}

abbrev alice : User
alice = user 1 "Alice" GlobalRole.student

abbrev bob : User
bob = user 2 "Bob" GlobalRole.student

abbrev dean : User
dean = user 3 "Dean" GlobalRole.school_admin

abbrev chess_club : Organization
chess_club = record {
  id = 10;
  name = "Chess";
  slug = some "chess";
  org_type = OrganizationType.club;
  parent_id = none;
  description = none;
  visibility = OrganizationVisibility.public;
  join_policy = OrganizationJoinPolicy.open_join;
  status = OrganizationStatus.active;
  capacity = some 2;
  created_by = 1;
  deleted_at = none;
}

abbrev membership : ℕ → OrganizationRole → MembershipStatus → OrganizationMembership
membership user_id role status = record {
  organization_id = 10;
  user_id = user_id;
  role = role;
  status = status;
  invited_by = none;
  joined_at = none;
  left_at = none;
}

abbrev alice_row : OrganizationMembership
alice_row = membership 1 OrganizationRole.owner MembershipStatus.active

abbrev bob_row : OrganizationMembership
bob_row = membership 2 OrganizationRole.member MembershipStatus.pending

-- Alice owns the chess club, and Bob has asked to join it.
abbrev campus : Store
campus = record {
  users = alice ∷ bob ∷ dean ∷ [];
  organizations = chess_club ∷ [];
  memberships = alice_row ∷ bob_row ∷ [];
  events = [];
  now = 100;
}

abbrev requests : List MemberRequest
requests =
    remove dean 10 1 ∷ leave alice 10 ∷ join dean 10 ∷ transfer alice 10 3 ∷ leave alice 10 ∷ []

replay-keeps_owner_example : 0 < count_active_owners 10 (replay requests campus)
unfolding count_active_owners count_if
replay-keeps_owner_example = replay-keeps_owner requests campus 10 (omega arith)

campus-HasUniqueRows : HasUniqueRows campus
unfolding count_if
campus-HasUniqueRows o u = ground arith

replay-HasUniqueRows_example : HasUniqueRows (replay requests campus)
replay-HasUniqueRows_example = replay-HasUniqueRows requests campus campus-HasUniqueRows

campus-IsWithinCapacity : IsWithinCapacity campus
unfolding get_active_by_id count_active_members count_if find
campus-IsWithinCapacity id = ground arith

replay-IsWithinCapacity_example : IsWithinCapacity (replay requests campus)
replay-IsWithinCapacity_example = replay-IsWithinCapacity requests campus campus-IsWithinCapacity

-- The last owner cannot leave.
serve-error_unchanged_example : (serve (leave alice 10) campus).1 ≡ campus
unfolding serve leave_organization get_active_by_id find get_active_by_org_user count_active_owners
    count_if
serve-error_unchanged_example =
    serve-error_unchanged (leave alice 10) campus last_owner refl (λ e. cc)

abbrev reading_group : OrganizationCreate
reading_group = record {
  name = "Reading";
  org_type = "CLUB";
  slug = none;
  parent_id = some 10;
  description = none;
  visibility = none;
  join_policy = some "OPEN";
  capacity = some 8;
}

abbrev reading_row : Organization
reading_row = record {
  id = 11;
  name = "Reading";
  slug = none;
  org_type = OrganizationType.club;
  parent_id = some 10;
  description = none;
  visibility = OrganizationVisibility.public;
  join_policy = OrganizationJoinPolicy.open_join;
  status = OrganizationStatus.active;
  capacity = some 8;
  created_by = 2;
  deleted_at = none;
}

delete_organization-closes_example :
    (get_active_by_id 10 (delete_organization alice 10 campus).1 ≡ none)
    × ((delete_organization alice 10 campus).1.memberships ≡ campus.memberships)
    × ((serve (join bob 10) (delete_organization alice 10 campus).1).1
        ≡ (delete_organization alice 10 campus).1)
    × (is_some (serve (join bob 10) (delete_organization alice 10 campus).1).0 ≡ true)
unfolding delete_organization get_active_by_id find can_delete_organization get_active_by_org_user
delete_organization-closes_example = delete_organization-closes alice campus (join bob 10) refl

review_member_request-grants_owner_example :
    (add_member dean 10 2 "OWNER" campus ≡ (err permission_denied, campus))
    × (get_by_org_user 10 2 (review_member_request dean 10 2 "APPROVE" "OWNER" campus).1
        ≡ some (record bob_row {
          status = MembershipStatus.active;
          role = OrganizationRole.owner;
          joined_at = some 100;
          invited_by = some 3;
        }))
unfolding get_active_by_id get_by_org_user count_active_members count_if find get_active_by_org_user
review_member_request-grants_owner_example =
    review_member_request-grants_owner dean 10 2 campus chess_club bob_row refl refl refl refl refl
      refl

abbrev no_room : OrganizationUpdate
no_room = record {
  name = none;
  description = none;
  visibility = none;
  join_policy = none;
  capacity = some 1;
}

abbrev bob_admin : OrganizationMembership
bob_admin = membership 2 OrganizationRole.admin MembershipStatus.active

-- The chess club with two active members.
abbrev full_campus : Store
full_campus = record campus { memberships = alice_row ∷ bob_admin ∷ [] }

update_organization-sets_capacity_example :
    (get_active_by_id 10 (update_organization alice 10 no_room full_campus).1
      ≡ some (record chess_club { capacity = some 1 }))
    × (no_room.capacity ≡ some 1)
    × (count_active_members 10 (update_organization alice 10 no_room full_campus).1
        ≡ count_active_members 10 full_campus)
unfolding update_organization get_active_by_id find get_active_by_org_user can_update_organization
    parse_visibility parse_join_policy
update_organization-sets_capacity_example =
    update_organization-sets_capacity alice 10 1 no_room full_campus
      (record chess_club { capacity = some 1 }) refl refl

-- Bob's request gives him no right.
inactive_gives_nothing_example :
    answers bob chess_club alice_row OrganizationRole.guest (some bob_row)
    ≡ answers bob chess_club alice_row OrganizationRole.guest none
inactive_gives_nothing_example =
    inactive_gives_nothing bob chess_club alice_row bob_row OrganizationRole.guest refl

owner_rights_need_owner_example :
    (can_add_member bob (some bob_admin) OrganizationRole.owner ≡ false)
    × (can_change_member_role bob (some bob_admin) alice_row OrganizationRole.owner ≡ false)
    × ((is_owner alice_row.role && can_remove_member bob (some bob_admin) alice_row) ≡ false)
    × ((is_owner alice_row.role
          && can_change_member_role bob (some bob_admin) alice_row OrganizationRole.guest)
        ≡ false)
    × (can_transfer_ownership bob (some bob_admin) ≡ false)
    × (can_delete_organization bob (some bob_admin) ≡ false)
owner_rights_need_owner_example =
    owner_rights_need_owner bob (some bob_admin) alice_row OrganizationRole.guest refl (λ e. cc)

abbrev guest_row : OrganizationMembership
guest_row = membership 4 OrganizationRole.guest MembershipStatus.active
