-- ===== src/Organizations/Service/Changes/Members.antt =====
-- Removing and leaving, changes of role and the transfer of ownership as changes of rows.
use campus_agent.Base.{
  ℕ, ◌≡◌, refl, ◌≢◌, ◌⊎◌, inl, inr, some, String, arith, find, update_first, Option-cases,
}
use campus_agent.Organizations.Models.{
  User, Organization, OrganizationRole, OrganizationMembership, MembershipStatus, Store,
}
use campus_agent.Organizations.Repository.{is_active_row, get_active_by_id, get_active_by_org_user}
use campus_agent.Organizations.Service.Common.{parse_role}
use campus_agent.Organizations.Service.Membership.{
  update_member_role, transfer_ownership, remove_member, leave_organization,
}
use campus_agent.Organizations.Service.Changes.{
  RowChange, untouched, transferred, with_role, Edits, RowChange-of_Edits, active_row-org,
}

module _ (actor : User) (id : ℕ) (s : Store) where
  remove_member-Edits :
      (target : ℕ) (org : Organization) (m : OrganizationMembership)
      → get_active_by_id id s ≡ some org
      → find (is_active_row org.id target) s.memberships ≡ some m
      → Edits s
          (remove_member actor id target s).1
          org
          (is_active_row org.id target)
          (λ m. record m { status = MembershipStatus.removed; left_at = some s.now })
          m
  unfolding remove_member get_active_by_org_user
  remove_member-Edits target org m e e' = ground arith

  pub remove_member-RowChange : (target : ℕ) → RowChange s (remove_member actor id target s).1
  unfolding remove_member get_active_by_org_user
  remove_member-RowChange target = elim (Option-cases (get_active_by_id id s)) [
    | inl e ↦ untouched (ground arith)
    | inr (org, e) ↦ elim (Option-cases (find (is_active_row org.id target) s.memberships)) [
      | inl e' ↦ untouched (ground arith)
      | inr (m, e') ↦
          RowChange-of_Edits id s _ org _ _ m e e' (active_row-org org.id target s m e')
            (refl, refl) (remove_member-Edits target org m e e')
    ]
  ]

  leave_organization-Edits :
      (org : Organization) (m : OrganizationMembership)
      → get_active_by_id id s ≡ some org
      → find (is_active_row org.id actor.id) s.memberships ≡ some m
      → Edits s
          (leave_organization actor id s).1
          org
          (is_active_row org.id actor.id)
          (λ m. record m { status = MembershipStatus.left; left_at = some s.now })
          m
  unfolding leave_organization get_active_by_org_user
  leave_organization-Edits org m e e' = ground arith

  pub leave_organization-RowChange : RowChange s (leave_organization actor id s).1
  unfolding leave_organization get_active_by_org_user
  leave_organization-RowChange = elim (Option-cases (get_active_by_id id s)) [
    | inl e ↦ untouched (ground arith)
    | inr (org, e) ↦ elim (Option-cases (find (is_active_row org.id actor.id) s.memberships)) [
      | inl e' ↦ untouched (ground arith)
      | inr (m, e') ↦
          RowChange-of_Edits id s _ org _ _ m e e' (active_row-org org.id actor.id s m e')
            (refl, refl) (leave_organization-Edits org m e e')
    ]
  ]

  update_member_role-Edits :
      (target : ℕ) (role_name : String) (r : OrganizationRole) (org : Organization)
      (m : OrganizationMembership)
      → parse_role role_name ≡ some r
      → get_active_by_id id s ≡ some org
      → find (is_active_row org.id target) s.memberships ≡ some m
      → Edits s
          (update_member_role actor id target role_name s).1
          org
          (is_active_row org.id target)
          (with_role r)
          m
  unfolding update_member_role get_active_by_org_user
  update_member_role-Edits target role_name r org m er e e' = ground arith

  pub update_member_role-RowChange :
      (target : ℕ) (role_name : String)
      → RowChange s (update_member_role actor id target role_name s).1
  unfolding update_member_role get_active_by_org_user
  update_member_role-RowChange target role_name = elim (Option-cases (parse_role role_name)) [
    | inl er ↦ untouched (ground arith)
    | inr (r, er) ↦ elim (Option-cases (get_active_by_id id s)) [
      | inl e ↦ untouched (ground arith)
      | inr (org, e) ↦ elim (Option-cases (find (is_active_row org.id target) s.memberships)) [
        | inl e' ↦ untouched (ground arith)
        | inr (m, e') ↦
            RowChange-of_Edits id s _ org _ _ m e e' (active_row-org org.id target s m e')
              (refl, refl) (update_member_role-Edits target role_name r org m er e e')
      ]
    ]
  ]

  transfer_ownership-cases :
      (target : ℕ) (org : Organization) (m n : OrganizationMembership)
      → get_active_by_id id s ≡ some org
      → find (is_active_row org.id actor.id) s.memberships ≡ some m
      → find (is_active_row org.id target) s.memberships ≡ some n
      → ((transfer_ownership actor id target s).1.memberships ≡ s.memberships)
        ⊎ ((actor.id ≢ target)
            × ((transfer_ownership actor id target s).1.memberships
                ≡ update_first (is_active_row org.id target) (with_role OrganizationRole.owner) (
                    update_first
                      (is_active_row org.id actor.id)
                      (with_role OrganizationRole.admin)
                      s.memberships)))
  unfolding transfer_ownership get_active_by_org_user
  transfer_ownership-cases target org m n e e' e'' = ground arith

  pub transfer_ownership-RowChange :
      (target : ℕ) → RowChange s (transfer_ownership actor id target s).1
  unfolding transfer_ownership get_active_by_org_user
  transfer_ownership-RowChange target = elim (Option-cases (get_active_by_id id s)) [
    | inl e ↦ untouched (ground arith)
    | inr (org, e) ↦ elim (Option-cases (find (is_active_row org.id actor.id) s.memberships)) [
      | inl e' ↦ untouched (ground arith)
      | inr (m, e') ↦ elim (Option-cases (find (is_active_row org.id target) s.memberships)) [
        | inl e'' ↦ untouched (ground arith)
        | inr (n, e'') ↦ elim (transfer_ownership-cases target org m n e e' e'') [
          | inl same ↦ untouched same
          | inr (apart, both) ↦ transferred org.id actor.id target m n apart e' e'' both
        ]
      ]
    ]
  ]
