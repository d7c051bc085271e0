-- ===== src/Organizations/Service/Escalation.antt =====
-- Where two functions of the service disagree about who may make an owner, and about how many
-- members an organization may have.
use campus_agent.Base.{
  ℕ, ◌≡◌, refl, sym, false, none, some, arith, ◌==◌, find, Option-cases, inl, inr,
}
use mathlib.Core.Path.{subst}
use campus_agent.Base.Table.{find-update_first_self, find-holds}
use campus_agent.Base.Action.{ok, err}
use campus_agent.Organizations.Models.{
  User, school_admin, Organization, OrganizationVisibility, OrganizationJoinPolicy,
  OrganizationRole, OrganizationMembership, MembershipStatus, pending, permission_denied, Store,
}
use campus_agent.Organizations.Permissions.{can_add_member, can_transfer_ownership}
use campus_agent.Organizations.Repository.{
  is_row, get_active_by_id, get_by_org_user, count_active_members,
}
use campus_agent.Organizations.Service.Common.{
  parse_role, parse_visibility, parse_join_policy, is_full, get_membership,
}
use campus_agent.Organizations.Service.Membership.{add_member}
use campus_agent.Organizations.Service.Requests.{review_member_request}
use campus_agent.Organizations.Service.Lifecycle.{
  OrganizationUpdate, update_organization, change_organization, updated, parsed_or,
}
use campus_agent.Organizations.Service.Changes.{get_active_by_id-id}

-- A school administrator without a membership is refused when adding an OWNER, and yet makes any
-- applicant an OWNER by approving the join request with that role, where there is room.
pub review_member_request-grants_owner :
    (actor : User) (id target : ℕ) (s : Store) (org : Organization) (m : OrganizationMembership)
    → actor.global_role ≡ school_admin
    → get_active_by_id id s ≡ some org
    → get_membership org.id actor s ≡ none
    → get_by_org_user org.id target s ≡ some m
    → m.status ≡ pending
    → is_full org.capacity (count_active_members org.id s) ≡ false
    → (add_member actor id target "OWNER" s ≡ (err permission_denied, s))
      × (get_by_org_user org.id target (review_member_request actor id target "APPROVE" "OWNER" s).1
          ≡ some (record m {
            status = MembershipStatus.active;
            role = OrganizationRole.owner;
            joined_at = some s.now;
            invited_by = some actor.id;
          }))
unfolding add_member review_member_request can_add_member can_transfer_ownership parse_role
    get_by_org_user
review_member_request-grants_owner actor id target s org m admin e none_ em waits room = (
  ground arith,
  ground (
    arith,
    find-holds (is_row org.id target) s.memberships {x = m} em,
    find-update_first_self (is_row org.id target)
        (λ (x : OrganizationMembership). record x {
          status = MembershipStatus.active;
          role = OrganizationRole.owner;
          joined_at = some s.now;
          invited_by = some actor.id;
        })
        s.memberships m em,
  ),
)

-- What an accepted update stores, once the names of the visibility and the policy are read.
update_organization-rows :
    (actor : User) (id : ℕ) (form : OrganizationUpdate) (s : Store) (org old : Organization)
    (v : OrganizationVisibility) (p : OrganizationJoinPolicy)
    → get_active_by_id id s ≡ some old
    → parsed_or parse_visibility form.visibility old.visibility ≡ some v
    → parsed_or parse_join_policy form.join_policy old.join_policy ≡ some p
    → (update_organization actor id form s).0 ≡ ok org
    → let s' = (update_organization actor id form s).1 in
      (s' ≡ change_organization old.id (updated form v p) s) × (org ≡ updated form v p old)
unfolding update_organization
update_organization-rows actor id form s org old v p e ev ep h = ground arith

get_active_by_id-updated :
    (id : ℕ) (form : OrganizationUpdate) (s : Store) (old : Organization)
    (v : OrganizationVisibility) (p : OrganizationJoinPolicy)
    → get_active_by_id id s ≡ some old
    → get_active_by_id id (change_organization id (updated form v p) s)
      ≡ some (updated form v p old)
unfolding get_active_by_id
get_active_by_id-updated id form s old v p e =
    elim (Option-cases (find (λ o. o.id == id) s.organizations)) [
      | inl absent ↦ ground arith
      | inr (o, found) ↦
          rw
            (find-update_first_self (λ x. x.id == id) (updated form v p) s.organizations o found
              (find-holds (λ x. x.id == id) s.organizations {x = o} found))
            (ground arith)
    ]

-- An accepted update that names a capacity sets it, whatever the number of active members, which
-- stays as it was.
pub update_organization-sets_capacity :
    (actor : User) (id c : ℕ) (form : OrganizationUpdate) (s : Store) (org : Organization)
    → form.capacity ≡ some c
    → (update_organization actor id form s).0 ≡ ok org
    → let s' = (update_organization actor id form s).1 in
      (get_active_by_id id s' ≡ some org)
      × (org.capacity ≡ some c)
      × (count_active_members id s' ≡ count_active_members id s)
unfolding update_organization
update_organization-sets_capacity actor id c form s org ec h =
    elim (Option-cases (get_active_by_id id s)) [
      | inl absent ↦ absurd (ground arith)
      | inr (old, e) ↦
          elim (Option-cases (parsed_or parse_visibility form.visibility old.visibility)) [
            | inl bad ↦ absurd (ground arith)
            | inr (v, ev) ↦
                elim (Option-cases (parsed_or parse_join_policy form.join_policy old.join_policy)) [
                  | inl bad ↦ absurd (ground arith)
                  | inr (p, ep) ↦
                      let (stored, same) =
                        update_organization-rows actor id form s org old v p e ev ep h in
                      rw (stored, same)
                        (
                          subst
                              (λ j.
                                get_active_by_id id (change_organization j (updated form v p) s)
                                ≡ some (updated form v p old))
                              (sym (get_active_by_id-id id s old e))
                              (get_active_by_id-updated id form s old v p e),
                          ground arith,
                          unfold count_active_members in refl,
                        )
                ]
          ]
    ]
