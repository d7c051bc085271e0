-- ===== src/Organizations/Service/Atomic.antt =====
-- A request that raises changes nothing.
use campus_agent.Base.{
  ℕ, ◌≡◌, ◌≢◌, ◌⊎◌, Option, none, some, String, arith, Option-cases, inl, inr, Bool-cases,
}
use campus_agent.Organizations.Models.{User, OrganizationError, Missing, not_found, Store}
use campus_agent.Organizations.Repository.{get_active_by_id, count_active_members}
use campus_agent.Organizations.Service.Common.{parse_role, is_full, get_membership}
use campus_agent.Organizations.Permissions.{can_add_member}
use campus_agent.Organizations.Service.Membership.{
  add_member, update_member_role, transfer_ownership, remove_member, leave_organization,
  join_organization,
}
use campus_agent.Organizations.Service.Requests.{
  invite_member, decide_invitation, review_member_request,
}
use campus_agent.Organizations.Service.Serve.{
  MemberRequest, add, invite, role, decide, review, transfer, remove, join, leave, outcome, serve,
}

-- What a call that began at `s` has left, if it raised.
abbrev RaisesClean : Store → Option OrganizationError × Store → Type 0
RaisesClean s (none, s') = Unit
RaisesClean s (some e, s') = (e ≡ not_found Missing.user) ⊎ (s' ≡ s)

module _ (actor : User) (id : ℕ) (s : Store) where
  add_member-RaisesClean :
      (target : ℕ) (r : String) → RaisesClean s (outcome (add_member actor id target r s))
  unfolding add_member
  add_member-RaisesClean target r = elim (Option-cases (parse_role r)) [
    | inl e ↦ ground arith
    | inr (given, e) ↦ elim (Option-cases (get_active_by_id id s)) [
      | inl e' ↦ ground arith
      | inr (org, e') ↦
          elim (Bool-cases (can_add_member actor (get_membership org.id actor s) given)) [
            | inl p ↦ elim (Bool-cases (is_full org.capacity (count_active_members org.id s))) [
              | inl full ↦ ground arith
              | inr room ↦ ground arith
            ]
            | inr p ↦ ground arith
          ]
    ]
  ]

  invite_member-RaisesClean :
      (target : ℕ) (r : String) → RaisesClean s (outcome (invite_member actor id target r s))
  unfolding invite_member
  invite_member-RaisesClean target r = ground arith

  update_member_role-RaisesClean :
      (target : ℕ) (r : String) → RaisesClean s (outcome (update_member_role actor id target r s))
  unfolding update_member_role
  update_member_role-RaisesClean target r = ground arith

  decide_invitation-RaisesClean :
      (d : String) → RaisesClean s (outcome (decide_invitation actor id d s))
  unfolding decide_invitation
  decide_invitation-RaisesClean d = ground arith

  review_member_request-RaisesClean :
      (target : ℕ) (d r : String)
      → RaisesClean s (outcome (review_member_request actor id target d r s))
  unfolding review_member_request
  review_member_request-RaisesClean target d r = ground arith

  transfer_ownership-RaisesClean :
      (target : ℕ) → RaisesClean s (outcome (transfer_ownership actor id target s))
  unfolding transfer_ownership
  transfer_ownership-RaisesClean target = ground arith

  remove_member-RaisesClean :
      (target : ℕ) → RaisesClean s (outcome (remove_member actor id target s))
  unfolding remove_member
  remove_member-RaisesClean target = ground arith

  join_organization-RaisesClean : RaisesClean s (outcome (join_organization actor id s))
  unfolding join_organization
  join_organization-RaisesClean = ground arith

  leave_organization-RaisesClean : RaisesClean s (outcome (leave_organization actor id s))
  unfolding leave_organization
  leave_organization-RaisesClean = ground arith

serve-RaisesClean : (r : MemberRequest) (s : Store) → RaisesClean s (serve r s)
unfolding serve
serve-RaisesClean (add actor id target r) s = add_member-RaisesClean actor id s target r
serve-RaisesClean (invite actor id target r) s = invite_member-RaisesClean actor id s target r
serve-RaisesClean (role actor id target r) s = update_member_role-RaisesClean actor id s target r
serve-RaisesClean (decide actor id d) s = decide_invitation-RaisesClean actor id s d
serve-RaisesClean (review actor id target d r) s =
    review_member_request-RaisesClean actor id s target d r
serve-RaisesClean (transfer actor id target) s = transfer_ownership-RaisesClean actor id s target
serve-RaisesClean (remove actor id target) s = remove_member-RaisesClean actor id s target
serve-RaisesClean (join actor id) s = join_organization-RaisesClean actor id s
serve-RaisesClean (leave actor id) s = leave_organization-RaisesClean actor id s

RaisesClean-error :
    (s : Store) (x : Option OrganizationError × Store) (e : OrganizationError)
    → RaisesClean s x
    → x.0 ≡ some e
    → e ≢ not_found Missing.user
    → x.1 ≡ s
RaisesClean-error s (none, s') e c h ne = cc
RaisesClean-error s (some e', s') e (inl missing) h ne = absurd (ne (cc))
RaisesClean-error s (some e', s') e (inr same) h ne = same

-- A request that raises has left the store as it was, with no row changed and no event published,
-- unless it raises because the user it is about is missing: three functions look that user up
-- only after their commit.
pub serve-error_unchanged :
    (r : MemberRequest) (s : Store) (e : OrganizationError)
    → (serve r s).0 ≡ some e
    → e ≢ not_found Missing.user
    → (serve r s).1 ≡ s
serve-error_unchanged r s e = RaisesClean-error s (serve r s) e (serve-RaisesClean r s)
