-- ===== src/Organizations/Service/History.antt =====
-- Every sequence of membership requests, by any actors in any order: what holds at its end.
use campus_agent.Base.{ℕ, ◌<◌, ◌≡◌, refl, List, [], ◌∷◌, arith}
use campus_agent.Base.Action.{Result, ok, err}
use campus_agent.Organizations.Models.{OrganizationError, Store}
use campus_agent.Organizations.Repository.{count_active_owners}
use campus_agent.Organizations.Service.Membership.{
  add_member, update_member_role, transfer_ownership, remove_member, leave_organization,
  join_organization,
}
use campus_agent.Organizations.Service.Requests.{
  invite_member, decide_invitation, review_member_request,
}
use campus_agent.Organizations.Service.Changes.{RowChange}
use campus_agent.Organizations.Service.Changes.Members.{
  remove_member-RowChange, leave_organization-RowChange, update_member_role-RowChange,
  transfer_ownership-RowChange,
}
use campus_agent.Organizations.Service.Changes.Renewals.{
  add_member-RowChange, invite_member-RowChange, join_organization-RowChange,
}
use campus_agent.Organizations.Service.Changes.Requests.{
  decide_invitation-RowChange, review_member_request-RowChange,
}
use campus_agent.Organizations.Service.Invariants.{
  HasUniqueRows, IsWithinCapacity, RowChange-owners, RowChange-HasUniqueRows, RowChange-fits,
}
use campus_agent.Organizations.Service.Serve.{
  MemberRequest, add, invite, role, decide, review, transfer, remove, join, leave, outcome, serve,
  replay,
}

outcome-store : {A : Type 0} (x : Result OrganizationError A × Store) → (outcome x).1 ≡ x.1
outcome-store (ok _, s) = refl
outcome-store (err e, s) = refl

serve-RowChange : (r : MemberRequest) (s : Store) → RowChange s (serve r s).1
unfolding serve
serve-RowChange (add actor id target r) s =
    rw (outcome-store (add_member actor id target r s)) (add_member-RowChange actor id s target r)
serve-RowChange (invite actor id target r) s =
    rw (outcome-store (invite_member actor id target r s))
      (invite_member-RowChange actor id s target r)
serve-RowChange (role actor id target r) s =
    rw (outcome-store (update_member_role actor id target r s))
      (update_member_role-RowChange actor id s target r)
serve-RowChange (decide actor id decision) s =
    rw (outcome-store (decide_invitation actor id decision s))
      (decide_invitation-RowChange actor id s decision)
serve-RowChange (review actor id target decision r) s =
    rw (outcome-store (review_member_request actor id target decision r s))
      (review_member_request-RowChange actor id s target decision r)
serve-RowChange (transfer actor id target) s =
    rw (outcome-store (transfer_ownership actor id target s))
      (transfer_ownership-RowChange actor id s target)
serve-RowChange (remove actor id target) s =
    rw (outcome-store (remove_member actor id target s)) (remove_member-RowChange actor id s target)
serve-RowChange (join actor id) s =
    rw (outcome-store (join_organization actor id s)) (join_organization-RowChange actor id s)
serve-RowChange (leave actor id) s =
    rw (outcome-store (leave_organization actor id s)) (leave_organization-RowChange actor id s)

-- No request on memberships touches the table of organizations.
serve-organizations :
    (r : MemberRequest) (s : Store) → (serve r s).1.organizations ≡ s.organizations
unfolding serve add_member invite_member update_member_role decide_invitation review_member_request
    transfer_ownership remove_member join_organization leave_organization
serve-organizations (add actor id target r) s = ground arith
serve-organizations _ s = ground arith

-- After any sequence of membership requests, by any actors and with any arguments, every
-- organization that had an active owner has one.
pub replay-keeps_owner :
    (requests : List MemberRequest) (s : Store) (o : ℕ)
    → 0 < count_active_owners o s
    → 0 < count_active_owners o (replay requests s)
unfolding replay
replay-keeps_owner [] s o h = h
replay-keeps_owner (r ∷ rest) s o h =
    replay-keeps_owner rest (serve r s).1 o (RowChange-owners (serve-RowChange r s) o h)

-- After any sequence of membership requests there is still at most one row for each organization
-- and user, as the unique constraint of the table wants.
pub replay-HasUniqueRows :
    (requests : List MemberRequest) (s : Store)
    → HasUniqueRows s
    → HasUniqueRows (replay requests s)
unfolding replay
replay-HasUniqueRows [] s h = h
replay-HasUniqueRows (r ∷ rest) s h =
    replay-HasUniqueRows rest (serve r s).1 (RowChange-HasUniqueRows (serve-RowChange r s) h)

serve-IsWithinCapacity :
    (r : MemberRequest) (s : Store) → IsWithinCapacity s → IsWithinCapacity (serve r s).1
serve-IsWithinCapacity r s h id =
    RowChange-fits (serve-RowChange r s) (serve-organizations r s) id (h id)

-- After any sequence of membership requests no organization has more active members than its
-- capacity, if none had before.
pub replay-IsWithinCapacity :
    (requests : List MemberRequest) (s : Store)
    → IsWithinCapacity s
    → IsWithinCapacity (replay requests s)
unfolding replay
replay-IsWithinCapacity [] s h = h
replay-IsWithinCapacity (r ∷ rest) s h =
    replay-IsWithinCapacity rest (serve r s).1 (serve-IsWithinCapacity r s h)
