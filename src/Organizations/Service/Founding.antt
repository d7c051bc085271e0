-- ===== src/Organizations/Service/Founding.antt =====
-- The life of an organization: what creating, updating and deleting one leave in the store.
use campus_agent.Base.{
  ℕ, ◌≡◌, refl, ◌≢◌, true, false, none, some, [], ◌∷◌, ◌++◌, arith, ◌==◌, ==_refl, find, count_if,
  update_first, Option-cases, inl, inr, is_some,
}
use campus_agent.Base.Table.{find-append, find-holds, count_if-append, find-update_first_self}
use campus_agent.Base.Action.{ok}
use campus_agent.Organizations.Models.{
  User, Organization, OrganizationRole, OrganizationMembership, MembershipStatus,
  OrganizationStatus, Store, is_deleted,
}
use campus_agent.Organizations.Repository.{
  is_active_owner, is_active_member, get_active_by_id, count_active_owners, count_active_members,
}
use campus_agent.Organizations.Service.Lifecycle.{
  OrganizationCreate, create_organization, delete_organization, change_organization,
}
use campus_agent.Organizations.Service.Changes.{get_active_by_id-id}
use campus_agent.Organizations.Service.Membership.{
  add_member, update_member_role, transfer_ownership, remove_member, leave_organization,
  join_organization,
}
use campus_agent.Organizations.Service.Requests.{
  invite_member, decide_invitation, review_member_request,
}
use campus_agent.Organizations.Service.Serve.{
  MemberRequest, add, invite, role, decide, review, transfer, remove, join, leave, serve,
}

abbrev founder : ℕ → User → Store → OrganizationMembership
founder new_id actor s = record {
  organization_id = new_id;
  user_id = actor.id;
  role = OrganizationRole.owner;
  status = MembershipStatus.active;
  invited_by = some actor.id;
  joined_at = some s.now;
  left_at = none;
}

create_organization-rows :
    (new_id : ℕ) (actor : User) (form : OrganizationCreate) (s : Store) (org : Organization)
    → (create_organization new_id actor form s).0 ≡ ok org
    → let s' = (create_organization new_id actor form s).1 in
      (s'.organizations ≡ s.organizations ++ org ∷ [])
      × (s'.memberships ≡ s.memberships ++ founder new_id actor s ∷ [])
      × (org.id ≡ new_id)
      × (is_deleted org.status ≡ false)
unfolding create_organization
create_organization-rows new_id actor form s org h = ground arith

-- Creating an organization under an id that no organization and no active membership has makes it
-- known, with its creator as its one active member and one active owner.
pub create_organization-has_owner :
    (new_id : ℕ) (actor : User) (form : OrganizationCreate) (s : Store) (org : Organization)
    → find (λ o. o.id == new_id) s.organizations ≡ none
    → count_active_members new_id s ≡ 0
    → count_active_owners new_id s ≡ 0
    → (create_organization new_id actor form s).0 ≡ ok org
    → let s' = (create_organization new_id actor form s).1 in
      (get_active_by_id new_id s' ≡ some org)
      × (count_active_owners new_id s' ≡ 1)
      × (count_active_members new_id s' ≡ 1)
unfolding get_active_by_id count_active_owners count_active_members count_if
create_organization-has_owner new_id actor form s org fresh m0 o0 h =
    let (os, ms, here, live) = create_organization-rows new_id actor form s org h in
    (
      rw (os, find-append (λ o. o.id == new_id) s.organizations org fresh) (ground arith),
      rw (ms, count_if-append (is_active_owner new_id) s.memberships (founder new_id actor s ∷ []))
          (ground (arith, ==_refl new_id)),
      rw (ms, count_if-append (is_active_member new_id) s.memberships (founder new_id actor s ∷ []))
          (ground (arith, ==_refl new_id)),
    )

-- The organization that a membership request is about.
abbrev pub request_org : MemberRequest → ℕ
request_org (add _ id _ _) = id
request_org (invite _ id _ _) = id
request_org (role _ id _ _) = id
request_org (decide _ id _) = id
request_org (review _ id _ _ _) = id
request_org (transfer _ id _) = id
request_org (remove _ id _) = id
request_org (join _ id) = id
request_org (leave _ id) = id

serve-unknown :
    (r : MemberRequest) (s : Store)
    → get_active_by_id (request_org r) s ≡ none
    → ((serve r s).1 ≡ s) × (is_some (serve r s).0 ≡ true)
unfolding serve add_member invite_member update_member_role decide_invitation review_member_request
    transfer_ownership remove_member join_organization leave_organization
serve-unknown (add _ _ _ _) s h = ground arith
serve-unknown _ s h = ground arith

abbrev closed : ℕ → Organization → Organization
closed now o = record o { status = OrganizationStatus.deleted; deleted_at = some now }

delete_organization-rows :
    (actor : User) (id : ℕ) (s : Store) (org : Organization)
    → get_active_by_id id s ≡ some org
    → (delete_organization actor id s).0 ≡ ok tt
    → let s' = (delete_organization actor id s).1 in
      (s'.organizations ≡ update_first (λ o. o.id == org.id) (closed s.now) s.organizations)
      × (s'.memberships ≡ s.memberships)
unfolding delete_organization
delete_organization-rows actor id s org e h = ground arith

delete_needs_organization :
    (actor : User) (id : ℕ) (s : Store)
    → get_active_by_id id s ≡ none
    → (delete_organization actor id s).0 ≢ ok tt
unfolding delete_organization
delete_needs_organization actor id s absent h = ground arith

close_found :
    (id : ℕ) (s : Store) (org : Organization)
    → get_active_by_id id s ≡ some org
    → get_active_by_id id (change_organization id (closed s.now) s) ≡ none
unfolding get_active_by_id
close_found id s org e = elim (Option-cases (find (λ o. o.id == id) s.organizations)) [
  | inl absent ↦ ground arith
  | inr (o, found) ↦
      rw
        (find-update_first_self (λ x. x.id == id) (closed s.now) s.organizations o found
          (find-holds (λ x. x.id == id) s.organizations {x = o} found))
        refl
]

delete_organization-unknown :
    (actor : User) (id : ℕ) (s : Store)
    → (delete_organization actor id s).0 ≡ ok tt
    → let s' = (delete_organization actor id s).1 in
      (get_active_by_id id s' ≡ none) × (s'.memberships ≡ s.memberships)
delete_organization-unknown actor id s h = elim (Option-cases (get_active_by_id id s)) [
  | inl absent ↦ absurd (delete_needs_organization actor id s absent h)
  | inr (org, e) ↦
      let (os, ms) = delete_organization-rows actor id s org e h in
      (
        unfold get_active_by_id in
            (rw (os, get_active_by_id-id id s org e) (close_found id s org e)),
        ms,
      )
]

-- After an organization is deleted it is unknown, its memberships stay as they were, and every
-- membership request about it raises and changes nothing.
pub delete_organization-closes :
    (actor : User) (s : Store) (r : MemberRequest)
    → (delete_organization actor (request_org r) s).0 ≡ ok tt
    → let s' = (delete_organization actor (request_org r) s).1 in
      (get_active_by_id (request_org r) s' ≡ none)
      × (s'.memberships ≡ s.memberships)
      × ((serve r s').1 ≡ s')
      × (is_some (serve r s').0 ≡ true)
delete_organization-closes actor s r h =
    let (gone, same) = delete_organization-unknown actor (request_org r) s h in
    let (still, raised) = serve-unknown r (delete_organization actor (request_org r) s).1 gone in
    (gone, same, still, raised)
