-- ===== src/Organizations/Service/Changes/Requests.antt =====
-- Decisions on invitations and on join requests as changes of rows.
use text.Mathlib.Text.{◌==◌ as str_eq}
use campus_agent.Base.{
  ℕ, ◌≡◌, inl, inr, Bool, none, some, String, arith, if◌then◌else◌, find, Option-cases, Bool-cases,
}
use campus_agent.Organizations.Models.{
  User, Organization, OrganizationRole, OrganizationMembership, MembershipStatus, Store,
}
use campus_agent.Organizations.Repository.{is_row, get_active_by_id, get_by_org_user}
use campus_agent.Organizations.Service.Common.{parse_role}
use campus_agent.Organizations.Service.Requests.{decide_invitation, review_member_request}
use campus_agent.Organizations.Service.Changes.{
  RowChange, untouched, Edits, RowChange-of_Edits, row-org,
}

module _ (actor : User) (id : ℕ) (s : Store) where
  abbrev accepted : OrganizationMembership → OrganizationMembership
  accepted m = record m { status = MembershipStatus.active; joined_at = some s.now; left_at = none }

  abbrev turned_down : OrganizationMembership → OrganizationMembership
  turned_down m = record m { status = MembershipStatus.removed; left_at = some s.now }

  abbrev approved : OrganizationRole → OrganizationMembership → OrganizationMembership
  approved r m = record m {
    status = MembershipStatus.active;
    role = r;
    joined_at = some s.now;
    invited_by = some actor.id;
  }

  -- The change of the row that a decision makes.
  abbrev decided :
      Bool
      → (OrganizationMembership → OrganizationMembership)
      → OrganizationMembership
      → OrganizationMembership
  decided positive f m = if positive then f m else turned_down m

  decide_invitation-Edits :
      (decision : String) (org : Organization) (m : OrganizationMembership)
      → get_active_by_id id s ≡ some org
      → find (is_row org.id actor.id) s.memberships ≡ some m
      → Edits s
          (decide_invitation actor id decision s).1
          org
          (is_row org.id actor.id)
          (decided (str_eq decision "ACCEPT") accepted)
          m
  unfolding decide_invitation get_by_org_user
  decide_invitation-Edits decision org m e e' = elim (Bool-cases (str_eq decision "ACCEPT")) [
    | inl yes_ ↦ rw yes_ (ground arith)
    | inr no_ ↦ rw no_ (ground arith)
  ]

  pub decide_invitation-RowChange :
      (decision : String) → RowChange s (decide_invitation actor id decision s).1
  unfolding decide_invitation get_by_org_user
  decide_invitation-RowChange decision = elim (Option-cases (get_active_by_id id s)) [
    | inl e ↦ untouched (ground arith)
    | inr (org, e) ↦ elim (Option-cases (find (is_row org.id actor.id) s.memberships)) [
      | inl e' ↦ untouched (ground arith)
      | inr (m, e') ↦
          RowChange-of_Edits id s _ org (is_row org.id actor.id)
            (decided (str_eq decision "ACCEPT") accepted) m e e' (row-org org.id actor.id s m e')
            (ground arith) (decide_invitation-Edits decision org m e e')
    ]
  ]

  review_member_request-Edits :
      (target : ℕ) (decision role_name : String) (r : OrganizationRole) (org : Organization)
      (m : OrganizationMembership)
      → parse_role role_name ≡ some r
      → get_active_by_id id s ≡ some org
      → find (is_row org.id target) s.memberships ≡ some m
      → Edits s
          (review_member_request actor id target decision role_name s).1
          org
          (is_row org.id target)
          (decided (str_eq decision "APPROVE") (approved r))
          m
  unfolding review_member_request get_by_org_user
  review_member_request-Edits target decision role_name r org m er e e' =
      elim (Bool-cases (str_eq decision "APPROVE")) [
        | inl yes_ ↦ rw yes_ (ground arith)
        | inr no_ ↦ rw no_ (ground arith)
      ]

  pub review_member_request-RowChange :
      (target : ℕ) (decision role_name : String)
      → RowChange s (review_member_request actor id target decision role_name s).1
  unfolding review_member_request get_by_org_user
  review_member_request-RowChange target decision role_name =
      elim (Option-cases (parse_role role_name)) [
        | inl er ↦ untouched (ground arith)
        | inr (r, er) ↦ elim (Option-cases (get_active_by_id id s)) [
          | inl e ↦ untouched (ground arith)
          | inr (org, e) ↦ elim (Option-cases (find (is_row org.id target) s.memberships)) [
            | inl e' ↦ untouched (ground arith)
            | inr (m, e') ↦
                RowChange-of_Edits id s _ org (is_row org.id target)
                  (decided (str_eq decision "APPROVE") (approved r)) m e e'
                  (row-org org.id target s m e') (ground arith)
                  (review_member_request-Edits target decision role_name r org m er e e')
          ]
        ]
      ]
