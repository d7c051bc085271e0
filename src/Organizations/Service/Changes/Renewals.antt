-- ===== src/Organizations/Service/Changes/Renewals.antt =====
-- Adding, inviting and joining as changes of rows: a new row, or a row that is used again.
use campus_agent.Base.{
  ℕ, ◌≡◌, refl, sym, ◌⊎◌, inl, inr, true, false, Option, none, some, [], ◌∷◌, ◌++◌, String, arith,
  if◌then◌else◌, find, Option-cases,
}
use mathlib.Core.Path.{subst}
use campus_agent.Organizations.Models.{
  User, Organization, OrganizationRole, OrganizationMembership, MembershipStatus, Store, is_active,
}
use campus_agent.Organizations.Repository.{
  is_row, get_active_by_id, get_by_org_user, count_active_members,
}
use campus_agent.Organizations.Service.Common.{parse_role, is_full}
use campus_agent.Organizations.Service.Membership.{
  add_member, join_organization, joining_status, is_open,
}
use campus_agent.Organizations.Service.Requests.{invite_member}
use campus_agent.Organizations.Service.Changes.{
  HasRoom, RowChange, untouched, added, Edits, HasRoom-of_not_full, RowChange-of_Edits, row-org,
}

-- What a call does that adds the row `fresh`, or uses the row `m` again.
abbrev Adds : Store → Store → Organization → OrganizationMembership → Type 0
Adds s s' org fresh =
    (s'.memberships ≡ s.memberships)
    ⊎ ((s'.memberships ≡ s.memberships ++ fresh ∷ [])
        × (is_active fresh.status ≡ true
            → is_full org.capacity (count_active_members org.id s) ≡ false))

RowChange-of_Adds :
    (id : ℕ) (s s' : Store) (org : Organization) (fresh : OrganizationMembership)
    → get_active_by_id id s ≡ some org
    → fresh.organization_id ≡ org.id
    → get_by_org_user fresh.organization_id fresh.user_id s ≡ none
    → Adds s s' org fresh
    → RowChange s s'
RowChange-of_Adds id s s' org fresh eo here absent adds = elim adds [
  | inl same ↦ untouched same
  | inr (e, room) ↦
      added fresh absent
        (λ a. subst (HasRoom s) (sym here) (HasRoom-of_not_full id s org eo (room a))) e
]

module _ (actor : User) (id : ℕ) (s : Store) where
  abbrev new_row :
      Organization
      → ℕ
      → OrganizationRole
      → MembershipStatus
      → Option ℕ
      → Option ℕ
      → OrganizationMembership
  new_row org user_id role status invited_by joined_at = record {
    organization_id = org.id;
    user_id = user_id;
    role = role;
    status = status;
    invited_by = invited_by;
    joined_at = joined_at;
    left_at = none;
  }

  abbrev again :
      OrganizationRole
      → MembershipStatus
      → Option ℕ
      → OrganizationMembership
      → OrganizationMembership
  again role status joined_at m = record m {
    role = role;
    status = status;
    invited_by = some actor.id;
    joined_at = joined_at;
    left_at = none;
  }

  add_member-Adds :
      (target : ℕ) (role_name : String) (r : OrganizationRole) (org : Organization)
      → parse_role role_name ≡ some r
      → get_active_by_id id s ≡ some org
      → find (is_row org.id target) s.memberships ≡ none
      → Adds s
          (add_member actor id target role_name s).1
          org
          (new_row org target r MembershipStatus.active (some actor.id) (some s.now))
  unfolding add_member get_by_org_user
  add_member-Adds target role_name r org er e e' = ground arith

  add_member-Edits :
      (target : ℕ) (role_name : String) (r : OrganizationRole) (org : Organization)
      (m : OrganizationMembership)
      → parse_role role_name ≡ some r
      → get_active_by_id id s ≡ some org
      → find (is_row org.id target) s.memberships ≡ some m
      → Edits s
          (add_member actor id target role_name s).1
          org
          (is_row org.id target)
          (again r MembershipStatus.active (some s.now))
          m
  unfolding add_member get_by_org_user
  add_member-Edits target role_name r org m er e e' = ground arith

  pub add_member-RowChange :
      (target : ℕ) (role_name : String) → RowChange s (add_member actor id target role_name s).1
  unfolding add_member get_by_org_user
  add_member-RowChange target role_name = elim (Option-cases (parse_role role_name)) [
    | inl er ↦ untouched (ground arith)
    | inr (r, er) ↦ elim (Option-cases (get_active_by_id id s)) [
      | inl e ↦ untouched (ground arith)
      | inr (org, e) ↦ elim (Option-cases (find (is_row org.id target) s.memberships)) [
        | inl e' ↦
            RowChange-of_Adds id s _ org _ e refl e'
              (add_member-Adds target role_name r org er e e')
        | inr (m, e') ↦
            RowChange-of_Edits id s _ org _ _ m e e' (row-org org.id target s m e') (refl, refl)
              (add_member-Edits target role_name r org m er e e')
      ]
    ]
  ]

  invite_member-Adds :
      (target : ℕ) (role_name : String) (r : OrganizationRole) (org : Organization)
      → parse_role role_name ≡ some r
      → get_active_by_id id s ≡ some org
      → find (is_row org.id target) s.memberships ≡ none
      → Adds s
          (invite_member actor id target role_name s).1
          org
          (new_row org target r MembershipStatus.invited (some actor.id) none)
  unfolding invite_member get_by_org_user
  invite_member-Adds target role_name r org er e e' = ground arith

  invite_member-Edits :
      (target : ℕ) (role_name : String) (r : OrganizationRole) (org : Organization)
      (m : OrganizationMembership)
      → parse_role role_name ≡ some r
      → get_active_by_id id s ≡ some org
      → find (is_row org.id target) s.memberships ≡ some m
      → Edits s
          (invite_member actor id target role_name s).1
          org
          (is_row org.id target)
          (again r MembershipStatus.invited none)
          m
  unfolding invite_member get_by_org_user
  invite_member-Edits target role_name r org m er e e' = ground arith

  pub invite_member-RowChange :
      (target : ℕ) (role_name : String) → RowChange s (invite_member actor id target role_name s).1
  unfolding invite_member get_by_org_user
  invite_member-RowChange target role_name = elim (Option-cases (parse_role role_name)) [
    | inl er ↦ untouched (ground arith)
    | inr (r, er) ↦ elim (Option-cases (get_active_by_id id s)) [
      | inl e ↦ untouched (ground arith)
      | inr (org, e) ↦ elim (Option-cases (find (is_row org.id target) s.memberships)) [
        | inl e' ↦
            RowChange-of_Adds id s _ org _ e refl e'
              (invite_member-Adds target role_name r org er e e')
        | inr (m, e') ↦
            RowChange-of_Edits id s _ org _ _ m e e' (row-org org.id target s m e') (refl, refl)
              (invite_member-Edits target role_name r org m er e e')
      ]
    ]
  ]

  abbrev joined_time : Organization → Option ℕ
  joined_time org = if is_open org.join_policy then some s.now else none

  -- Joining keeps the `invited_by` of a row that is used again.
  abbrev rejoined :
      Organization → MembershipStatus → OrganizationMembership → OrganizationMembership
  rejoined org status m = record m {
    role = OrganizationRole.member;
    status = status;
    joined_at = joined_time org;
    left_at = none;
  }

  join_organization-Adds :
      (org : Organization) (status : MembershipStatus)
      → get_active_by_id id s ≡ some org
      → joining_status org.join_policy ≡ some status
      → find (is_row org.id actor.id) s.memberships ≡ none
      → Adds s
          (join_organization actor id s).1
          org
          (new_row org actor.id OrganizationRole.member status none (joined_time org))
  unfolding join_organization get_by_org_user
  join_organization-Adds org status e es e' = ground arith

  join_organization-Edits :
      (org : Organization) (status : MembershipStatus) (m : OrganizationMembership)
      → get_active_by_id id s ≡ some org
      → joining_status org.join_policy ≡ some status
      → find (is_row org.id actor.id) s.memberships ≡ some m
      → Edits s
          (join_organization actor id s).1
          org
          (is_row org.id actor.id)
          (rejoined org status)
          m
  unfolding join_organization get_by_org_user
  join_organization-Edits org status m e es e' = ground arith

  pub join_organization-RowChange : RowChange s (join_organization actor id s).1
  unfolding join_organization get_by_org_user
  join_organization-RowChange = elim (Option-cases (get_active_by_id id s)) [
    | inl e ↦ untouched (ground arith)
    | inr (org, e) ↦ elim (Option-cases (joining_status org.join_policy)) [
      | inl es ↦ untouched (ground arith)
      | inr (status, es) ↦ elim (Option-cases (find (is_row org.id actor.id) s.memberships)) [
        | inl e' ↦
            RowChange-of_Adds id s _ org _ e refl e' (join_organization-Adds org status e es e')
        | inr (m, e') ↦
            RowChange-of_Edits id s _ org _ _ m e e' (row-org org.id actor.id s m e') (refl, refl)
              (join_organization-Edits org status m e es e')
      ]
    ]
  ]
