-- ===== src/Organizations/Service/Changes.antt =====
-- What the service functions may do to the table of memberships: an abstract view, in which each
-- call leaves the table alone, adds one row, changes one row, or hands the owner's role over.
pub mod Members
pub mod Renewals
pub mod Requests
use campus_agent.Base.{
  ℕ, ◌≤◌, ◌<◌, ◌≡◌, refl, sym, ◌≢◌, ◌⊎◌, inl, inr, Bool, true, false, ◌&&◌, not, Option, none, some,
  List, [], ◌∷◌, ◌++◌, String, arith, ◌==◌, if◌then◌else◌, find, update_first, Option-cases,
}
use mathlib.Core.Path.{subst}
use campus_agent.Base.Table.{find-holds}
use campus_agent.Organizations.Models.{
  User, Organization, OrganizationRole, OrganizationMembership, MembershipStatus, Store, is_owner,
  is_active,
}
use campus_agent.Organizations.Repository.{
  is_row, is_active_row, is_active_owner, get_active_by_id, get_by_org_user, get_active_by_org_user,
  count_active_owners, count_active_members, get_user_by_id,
}
use campus_agent.Organizations.Service.Common.{parse_role, is_full}
use campus_agent.Organizations.Service.Membership.{
  add_member, update_member_role, transfer_ownership, remove_member, leave_organization,
  join_organization, blocks, renew_row,
}

-- The organization of a new or newly active row has room for it.
abbrev pub HasRoom : Store → ℕ → Type 0
HasRoom s id =
    (org : Organization) (c : ℕ)
    → get_active_by_id id s ≡ some org
    → org.capacity ≡ some c
    → count_active_members id s < c

abbrev pub with_role : OrganizationRole → OrganizationMembership → OrganizationMembership
with_role r m = record m { role = r }

pub data RowChange (s s' : Store) : Type 0 where
  untouched : s'.memberships ≡ s.memberships → RowChange s s'
  added :
      (m : OrganizationMembership)
      → get_by_org_user m.organization_id m.user_id s ≡ none
      → (is_active m.status ≡ true → HasRoom s m.organization_id)
      → s'.memberships ≡ s.memberships ++ m ∷ []
      → RowChange s s'
  changed :
      (p : OrganizationMembership → Bool) (f : OrganizationMembership → OrganizationMembership)
      (m : OrganizationMembership)
      → find p s.memberships ≡ some m
      → ((f m).organization_id ≡ m.organization_id) × ((f m).user_id ≡ m.user_id)
      → (is_active_owner m.organization_id m ≡ true
          → is_active_owner m.organization_id (f m) ≡ false
          → 1 < count_active_owners m.organization_id s)
      → (is_active m.status ≡ false → is_active (f m).status ≡ true → HasRoom s m.organization_id)
      → s'.memberships ≡ update_first p f s.memberships
      → RowChange s s'
  transferred :
      (id a b : ℕ) (m n : OrganizationMembership)
      → a ≢ b
      → get_active_by_org_user id a s ≡ some m
      → get_active_by_org_user id b s ≡ some n
      → s'.memberships
        ≡ update_first
            (is_active_row id b)
            (with_role OrganizationRole.owner)
            (update_first (is_active_row id a) (with_role OrganizationRole.admin) s.memberships)
      → RowChange s s'

pub get_active_by_id-id :
    (id : ℕ) (s : Store) (org : Organization) → get_active_by_id id s ≡ some org → org.id ≡ id
unfolding get_active_by_id
get_active_by_id-id id s org e = elim (Option-cases (find (λ o. o.id == id) s.organizations)) [
  | inl h ↦ ground arith
  | inr (o, h) ↦ ground (arith, find-holds (λ o. o.id == id) s.organizations {x = o} h)
]

pub HasRoom-of_not_full :
    (id : ℕ) (s : Store) (org : Organization)
    → get_active_by_id id s ≡ some org
    → is_full org.capacity (count_active_members org.id s) ≡ false
    → HasRoom s org.id
HasRoom-of_not_full id s org e room found c e' k = ground (arith, get_active_by_id-id id s org e)

-- What a call does that may change the row `m`, found by `p` in the organization `org`.
abbrev pub Edits :
    Store
    → Store
    → Organization
    → (OrganizationMembership → Bool)
    → (OrganizationMembership → OrganizationMembership)
    → OrganizationMembership
    → Type 0
Edits s s' org p f m =
    (s'.memberships ≡ s.memberships)
    ⊎ ((s'.memberships ≡ update_first p f s.memberships)
        × (is_active_owner org.id m ≡ true
            → is_active_owner org.id (f m) ≡ false
            → 1 < count_active_owners org.id s)
        × (is_active m.status ≡ false
            → is_active (f m).status ≡ true
            → is_full org.capacity (count_active_members org.id s) ≡ false))

pub RowChange-of_Edits :
    (id : ℕ) (s s' : Store) (org : Organization) (p : OrganizationMembership → Bool)
    (f : OrganizationMembership → OrganizationMembership) (m : OrganizationMembership)
    → get_active_by_id id s ≡ some org
    → find p s.memberships ≡ some m
    → m.organization_id ≡ org.id
    → ((f m).organization_id ≡ m.organization_id) × ((f m).user_id ≡ m.user_id)
    → Edits s s' org p f m
    → RowChange s s'
RowChange-of_Edits id s s' org p f m eo em here keys edits = elim edits [
  | inl same ↦ untouched same
  | inr (e, owners, room) ↦
      changed p f m em keys
        (subst
          (λ o.
            is_active_owner o m ≡ true
            → is_active_owner o (f m) ≡ false
            → 1 < count_active_owners o s)
          (sym here) owners)
        (λ a b. subst (HasRoom s) (sym here) (HasRoom-of_not_full id s org eo (room a b))) e
]

pub active_row-org :
    (o u : ℕ) (s : Store) (m : OrganizationMembership)
    → find (is_active_row o u) s.memberships ≡ some m
    → m.organization_id ≡ o
active_row-org o u s m e = ground (arith, find-holds (is_active_row o u) s.memberships {x = m} e)

pub row-org :
    (o u : ℕ) (s : Store) (m : OrganizationMembership)
    → find (is_row o u) s.memberships ≡ some m
    → m.organization_id ≡ o
row-org o u s m e = ground (arith, find-holds (is_row o u) s.memberships {x = m} e)
