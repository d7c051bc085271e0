-- ===== src/Organizations/Models.antt =====
-- apps/api/src/modules/organizations/models.py, events.py and exceptions.py, with the part of
-- modules/users/models.py that they use: the rows, the store of the service, events and errors.
-- A UUID is a number and a time is a number; columns that the database fills in by itself
-- (`created_at`, `updated_at`), the surrogate key of a membership and the time and random id of an
-- event are left out.
use campus_agent.Base.{ℕ, Bool, Option, List, String, true, false}

pub data GlobalRole : Type 0 where
  student teacher counselor org_admin school_admin system_admin : GlobalRole

pub data UserStatus : Type 0 where
  active disabled deleted : UserStatus

pub record User : Type 0 where
  pub id : ℕ
  pub display_name : String
  pub avatar_url : Option String
  pub global_role : GlobalRole
  pub status : UserStatus
  pub deleted_at : Option ℕ

pub data OrganizationType : Type 0 where
  school college department class dorm club course lab team other : OrganizationType

pub data OrganizationVisibility : Type 0 where
  public members_only private : OrganizationVisibility

pub data OrganizationJoinPolicy : Type 0 where
  open_join approval invite_only closed : OrganizationJoinPolicy

pub data OrganizationStatus : Type 0 where
  active archived deleted : OrganizationStatus

pub data OrganizationRole : Type 0 where
  owner admin member guest : OrganizationRole

pub data MembershipStatus : Type 0 where
  invited pending active left removed : MembershipStatus

pub record Organization : Type 0 where
  pub id : ℕ
  pub name : String
  pub slug : Option String
  pub org_type : OrganizationType
  pub parent_id : Option ℕ
  pub description : Option String
  pub visibility : OrganizationVisibility
  pub join_policy : OrganizationJoinPolicy
  pub status : OrganizationStatus
  pub capacity : Option ℕ
  pub created_by : ℕ
  pub deleted_at : Option ℕ

pub record OrganizationMembership : Type 0 where
  pub organization_id : ℕ
  pub user_id : ℕ
  pub role : OrganizationRole
  pub status : MembershipStatus
  pub invited_by : Option ℕ
  pub joined_at : Option ℕ
  pub left_at : Option ℕ

pub data ArchiveAction : Type 0 where
  archived deleted : ArchiveAction

pub data LeaveAction : Type 0 where
  left removed : LeaveAction

-- The fields of each event, in the order in which events.py declares them.
pub data OrganizationEvent : Type 0 where
  organization_created : ℕ → ℕ → OrganizationType → OrganizationEvent
  organization_archived : ℕ → ℕ → ArchiveAction → OrganizationEvent
  member_joined : ℕ → ℕ → ℕ → OrganizationRole → MembershipStatus → OrganizationEvent
  member_left : ℕ → ℕ → ℕ → LeaveAction → OrganizationEvent
  member_role_changed : ℕ → ℕ → ℕ → OrganizationRole → OrganizationRole → OrganizationEvent

-- What a `NotFoundError` says is missing.
pub data Missing : Type 0 where
  user pending_invitation pending_request target_member : Missing

pub data OrganizationError : Type 0 where
  organization_not_found permission_denied member_already_exists last_owner : OrganizationError
  invalid_join_policy capacity_exceeded slug_already_exists : OrganizationError
  invalid_invitation_decision invalid_review_decision : OrganizationError
  invalid_membership_status integrity_error : OrganizationError
  not_found : Missing → OrganizationError

-- The committed tables, the events published so far, and the clock that `utc_now` reads.
pub record Store : Type 0 where
  pub users : List User
  pub organizations : List Organization
  pub memberships : List OrganizationMembership
  pub events : List OrganizationEvent
  pub now : ℕ

-- Comparisons with a member of an enumeration.
abbrev pub is_owner : OrganizationRole → Bool
is_owner owner = true
is_owner _ = false

abbrev pub is_member_or_guest : OrganizationRole → Bool
is_member_or_guest member = true
is_member_or_guest guest = true
is_member_or_guest _ = false

abbrev pub is_active : MembershipStatus → Bool
is_active MembershipStatus.active = true
is_active _ = false

abbrev pub is_pending : MembershipStatus → Bool
is_pending pending = true
is_pending _ = false

abbrev pub is_invited : MembershipStatus → Bool
is_invited invited = true
is_invited _ = false

-- `status in (ACTIVE, PENDING, INVITED)`
abbrev pub is_current : MembershipStatus → Bool
is_current MembershipStatus.active = true
is_current pending = true
is_current invited = true
is_current _ = false

abbrev pub is_deleted : OrganizationStatus → Bool
is_deleted OrganizationStatus.deleted = true
is_deleted _ = false

abbrev pub is_public : OrganizationVisibility → Bool
is_public public = true
is_public _ = false
