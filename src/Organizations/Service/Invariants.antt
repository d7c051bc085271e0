-- ===== src/Organizations/Service/Invariants.antt =====
-- What every change of rows keeps: an owner in each organization, one row for each organization and
-- user, and no more active members than the organization has room for.
use campus_agent.Base.{
  ℕ, ◌+◌, ◌≤◌, ◌<◌, ◌≡◌, ◌≢◌, Bool, true, false, Option, none, some, List, [], ◌∷◌, arith, ◌==◌,
  find, count_if, update_first, to_ℕ, Bool-cases, Option-cases, leb, inl, inr, sym, ap, ◌∙◌,
}
use mathlib.Core.Path.{subst}
use campus_agent.Base.Table.{
  find-holds, count_if-update_first, count_if-append, count_if-find-none, find-update_first_ne,
  find-update_first_self, count_if-find_holds,
}
use campus_agent.Organizations.Models.{
  Organization, OrganizationRole, OrganizationMembership, Store, is_active,
}
use campus_agent.Organizations.Repository.{
  is_row, is_active_row, is_active_owner, is_active_member, get_active_by_id, get_by_org_user,
  get_active_by_org_user, count_active_owners, count_active_members,
}
use campus_agent.Organizations.Service.Changes.{
  HasRoom, RowChange, untouched, added, changed, transferred, with_role,
}

-- The table has at most one row for an organization and a user.
abbrev pub HasUniqueRows : Store → Type 0
HasUniqueRows s = (o u : ℕ) → count_if (is_row o u) s.memberships ≤ 1

-- An organization that is found and has a capacity has no more active members than that.
abbrev pub fits : Option Organization → ℕ → Bool
fits none members = true
fits (some org) members = elim (org.capacity) [ none ↦ true | some c ↦ leb members c ]

abbrev pub IsWithinCapacity : Store → Type 0
IsWithinCapacity s = (id : ℕ) → fits (get_active_by_id id s) (count_active_members id s) ≡ true

-- The table after the first of the two changes of a transfer.
abbrev demote : ℕ → ℕ → List OrganizationMembership → List OrganizationMembership
demote id a t = update_first (is_active_row id a) (with_role OrganizationRole.admin) t

module _ (id a b : ℕ) (apart : a ≢ b) (t : List OrganizationMembership)
    (m n : OrganizationMembership) (em : find (is_active_row id a) t ≡ some m)
    (en : find (is_active_row id b) t ≡ some n) where
  -- The second change of a transfer still finds its row.
  find-demoted : find (is_active_row id b) (demote id a t) ≡ some n
  find-demoted =
      find-update_first_ne (is_active_row id b) (is_active_row id a)
        (with_role OrganizationRole.admin) t (λ x h. ground arith) (λ x h. ground arith)
      ∙ en

  count_if-transferred :
      (q : OrganizationMembership → Bool)
      → count_if q
            (update_first (is_active_row id b) (with_role OrganizationRole.owner) (demote id a t))
          + to_ℕ (q n)
          + to_ℕ (q m)
        ≡ count_if q t
          + to_ℕ (q (with_role OrganizationRole.owner n))
          + to_ℕ (q (with_role OrganizationRole.admin m))
  count_if-transferred q = omega (
    arith,
    count_if-update_first q (is_active_row id a) (with_role OrganizationRole.admin) t m em,
    count_if-update_first q (is_active_row id b) (with_role OrganizationRole.owner) (demote id a t)
        n find-demoted,
  )

  transferred-owners :
      (o : ℕ)
      → 0 < count_if (is_active_owner o) t
      → 0
        < count_if
            (is_active_owner o)
            (update_first (is_active_row id b) (with_role OrganizationRole.owner) (demote id a t))
  transferred-owners o h = elim (Bool-cases (o == id)) [
    | inl here ↦
        count_if-find_holds (is_active_row id b) (is_active_owner o)
          (update_first (is_active_row id b) (with_role OrganizationRole.owner) (demote id a t))
          (with_role OrganizationRole.owner n)
          (find-update_first_self (is_active_row id b) (with_role OrganizationRole.owner)
            (demote id a t) n find-demoted (find-holds (is_active_row id b) t {x = n} en))
          (ground (arith, find-holds (is_active_row id b) t {x = n} en))
    | inr elsewhere ↦ ground (
      arith,
      find-holds (is_active_row id a) t {x = m} em,
      find-holds (is_active_row id b) t {x = n} en,
      count_if-transferred (is_active_owner o),
    )
  ]

  transferred-members :
      (o : ℕ)
      → count_if
          (is_active_member o)
          (update_first (is_active_row id b) (with_role OrganizationRole.owner) (demote id a t))
        ≡ count_if (is_active_member o) t
  transferred-members o = omega (arith, count_if-transferred (is_active_member o))

  transferred-rows :
      (o u : ℕ)
      → count_if
          (is_row o u)
          (update_first (is_active_row id b) (with_role OrganizationRole.owner) (demote id a t))
        ≡ count_if (is_row o u) t
  transferred-rows o u = omega (arith, count_if-transferred (is_row o u))

to_ℕ-le : (b : Bool) → to_ℕ b ≤ 1
to_ℕ-le true = omega arith
to_ℕ-le false = omega arith

is_active_of :
    (id : ℕ) (m : OrganizationMembership) → is_active_member id m ≡ true → is_active m.status ≡ true
is_active_of id m h = ground arith

member_org :
    (id : ℕ) (m : OrganizationMembership) → is_active_member id m ≡ true → m.organization_id ≡ id
member_org id m h = ground arith

HasRoom-at :
    (m : OrganizationMembership) (id : ℕ) (s : Store)
    → is_active_member id m ≡ true
    → HasRoom s m.organization_id
    → HasRoom s id
HasRoom-at m id s h room = subst (HasRoom s) (member_org id m h) room

module _ {s s' : Store} where
  -- Whatever a change of rows does, an organization with an active owner has one afterwards.
  pub RowChange-owners :
      RowChange s s' → (o : ℕ) → 0 < count_active_owners o s → 0 < count_active_owners o s'
  unfolding count_active_owners get_active_by_org_user
  RowChange-owners (untouched e) o h = rw e h
  RowChange-owners (added m _ _ e) o h =
      rw e (omega (arith, count_if-append (is_active_owner o) s.memberships (m ∷ [])))
  RowChange-owners (changed p f m em keys owners _ e) o h =
      rw e
        (ground (arith, count_if-update_first (is_active_owner o) p f s.memberships m em, owners))
  RowChange-owners (transferred id a b m n apart em en e) o h =
      rw e (transferred-owners id a b apart s.memberships m n em en o h)

  pub RowChange-HasUniqueRows : RowChange s s' → HasUniqueRows s → HasUniqueRows s'
  unfolding get_active_by_org_user get_by_org_user count_if
  RowChange-HasUniqueRows (untouched e) h o u = rw e (h o u)
  RowChange-HasUniqueRows (added m fresh _ e) h o u = rw e (
      ground (
        arith,
        h o u,
        count_if-append (is_row o u) s.memberships (m ∷ []),
        count_if-find-none (is_row m.organization_id m.user_id) s.memberships fresh,
      ))
  RowChange-HasUniqueRows (changed p f m em keys _ _ e) h o u =
      rw e (ground (arith, h o u, count_if-update_first (is_row o u) p f s.memberships m em))
  RowChange-HasUniqueRows (transferred id a b m n apart em en e) h o u =
      rw (e, transferred-rows id a b apart s.memberships m n em en o u) (h o u)

  -- An added or newly active row is within the capacity, and no other change adds a member.
  pub RowChange-members :
      RowChange s s'
      → (id : ℕ) (org : Organization) (c : ℕ) → get_active_by_id id s ≡ some org
      → org.capacity ≡ some c
      → count_active_members id s ≤ c
      → count_active_members id s' ≤ c
  unfolding count_active_members get_active_by_org_user count_if
  RowChange-members (untouched e) id org c eo ec h = rw e h
  RowChange-members (added m _ room e) id org c eo ec h =
      rw e (elim (Bool-cases (is_active_member id m)) [
        | inl counts ↦ omega (
          arith,
          count_if-append (is_active_member id) s.memberships (m ∷ []),
          to_ℕ-le (is_active_member id m),
          HasRoom-at m id s counts (room (is_active_of id m counts)) org c eo ec,
        )
        | inr not_counted ↦ omega (
          arith,
          count_if-append (is_active_member id) s.memberships (m ∷ []),
          ap to_ℕ not_counted,
        )
      ])
  RowChange-members (changed p f m em keys _ room e) id org c eo ec h =
      rw e (elim (Bool-cases (is_active m.status)) [
        | inl was ↦
            ground (arith, count_if-update_first (is_active_member id) p f s.memberships m em)
        | inr was_not ↦ elim (Bool-cases (is_active_member id (f m))) [
          | inl counts ↦ omega (
            arith,
            count_if-update_first (is_active_member id) p f s.memberships m em,
            to_ℕ-le (is_active_member id (f m)),
            HasRoom-at (f m) id s counts
                (subst (HasRoom s) (sym keys.0) (room was_not (is_active_of id (f m) counts))) org c
                eo ec,
          )
          | inr not_counted ↦ omega (
            arith,
            count_if-update_first (is_active_member id) p f s.memberships m em,
            ap to_ℕ not_counted,
          )
        ]
      ])
  RowChange-members (transferred i a b m n apart em en e) id org c eo ec h =
      rw (e, transferred-members i a b apart s.memberships m n em en id) h

  -- The same for an organization with or without a capacity, if the organizations are as before.
  pub RowChange-fits :
      RowChange s s'
      → s'.organizations ≡ s.organizations
      → (id : ℕ) → fits (get_active_by_id id s) (count_active_members id s) ≡ true
      → fits (get_active_by_id id s') (count_active_members id s') ≡ true
  unfolding get_active_by_id
  RowChange-fits r e id h = rw e (elim (Option-cases (get_active_by_id id s)) [
    | inl absent ↦ ground arith
    | inr (org, found) ↦ elim (Option-cases (org.capacity)) [
      | inl unbounded ↦ ground arith
      | inr (c, bound) ↦ ground (arith, RowChange-members r id org c found bound)
    ]
  ])
