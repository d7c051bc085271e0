-- ===== src/Organizations/Service/Serve.antt =====
-- The calls of the service that work on memberships as values, and sequences of them.
use campus_agent.Base.{ℕ, Option, none, some, List, [], ◌∷◌, String}
use campus_agent.Base.Action.{Result, ok, err}
use campus_agent.Organizations.Models.{User, OrganizationError, Store}
use campus_agent.Organizations.Service.Membership.{
  add_member, update_member_role, transfer_ownership, remove_member, leave_organization,
  join_organization,
}
use campus_agent.Organizations.Service.Requests.{
  invite_member, decide_invitation, review_member_request,
}

-- A call of a service function that works on memberships, with its arguments.
pub data MemberRequest : Type 0 where
  add invite role : User → ℕ → ℕ → String → MemberRequest
  decide : User → ℕ → String → MemberRequest
  review : User → ℕ → ℕ → String → String → MemberRequest
  transfer remove : User → ℕ → ℕ → MemberRequest
  join leave : User → ℕ → MemberRequest

abbrev pub outcome :
    {A : Type 0} → Result OrganizationError A × Store → Option OrganizationError × Store
outcome (ok _, s) = (none, s)
outcome (err e, s) = (some e, s)

-- The error, if the call raises, and the store after it.
unfoldable pub serve : MemberRequest → Store → Option OrganizationError × Store
serve (add actor id target r) s = outcome (add_member actor id target r s)
serve (invite actor id target r) s = outcome (invite_member actor id target r s)
serve (role actor id target r) s = outcome (update_member_role actor id target r s)
serve (decide actor id decision) s = outcome (decide_invitation actor id decision s)
serve (review actor id target decision r) s =
    outcome (review_member_request actor id target decision r s)
serve (transfer actor id target) s = outcome (transfer_ownership actor id target s)
serve (remove actor id target) s = outcome (remove_member actor id target s)
serve (join actor id) s = outcome (join_organization actor id s)
serve (leave actor id) s = outcome (leave_organization actor id s)

unfoldable pub replay : List MemberRequest → Store → Store
replay [] s = s
replay (r ∷ rest) s = replay rest (serve r s).1
