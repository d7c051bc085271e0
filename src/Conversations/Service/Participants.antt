-- ===== src/Conversations/Service/Participants.antt =====
-- Participants: added, removed, synchronised with an organization, and listed.
use mathlib.Core.List.{map}
use campus_agent.Base.{
  ℕ, not, Option, none, some, List, [], ◌∷◌, ◌++◌, String, ◌==◌, if◌then◌else◌, update_first, find,
  length,
}
use campus_agent.Base.Action.{◌>>=◌, ◌>>◌, return, gets, modify, require, raise_if}
use campus_agent.Organizations.Models.{User, OrganizationRole}
use campus_agent.Conversations.Models.{
  Conversation, ConversationParticipant, ParticipantStatus, conversation_not_found,
  permission_denied, already_exists, user_not_found, participant_not_found, LeaveAction,
  participant_joined, participant_left, Store, Service, publish,
}
use campus_agent.Conversations.Permissions.{
  is_active_participant, can_read_conversation, can_add_participant, can_remove_participant,
}
use campus_agent.Conversations.Repository.{
  get_active_by_id, get_active_by_conversation_user, get_any_by_conversation_user,
  list_active_by_conversation, is_row, is_active_row, find_org_group,
}
use campus_agent.Conversations.Service.Common.{
  live_user, user_by_id, ParticipantRead, participant_to_read, new_participant,
}
use campus_agent.Conversations.Service.Creation.{conversation_role}

abbrev pub rejoined : String → ConversationParticipant → ConversationParticipant
rejoined role p = record p { status = ParticipantStatus.active; role = role; left_at = none }

-- The row that is there becomes active, or there is a new one.
abbrev pub join : ℕ → ℕ → ℕ → String → Store → Store
join id conversation_id user_id role s =
    elim (find (is_row conversation_id user_id) s.participants) [
      | some _ ↦ record s {
        participants = update_first (is_row conversation_id user_id) (rejoined role) s.participants;
      }
      | none ↦ record s {
        participants = s.participants ++ new_participant id conversation_id user_id role s.now ∷ [];
      }
    ]

abbrev joined : ℕ → ℕ → ℕ → String → Option ConversationParticipant → ℕ → ConversationParticipant
joined id conversation_id user_id role none now =
    new_participant id conversation_id user_id role now
joined id conversation_id user_id role (some p) now = rejoined role p

unfoldable pub add_participant : ℕ → User → ℕ → ℕ → String → Service ParticipantRead
add_participant id actor conversation_id target_user_id target_role = do
  conv ← require (get_active_by_id conversation_id) conversation_not_found
  actor_participant ← gets (get_active_by_conversation_user conv.id actor.id)
  raise_if (not (can_add_participant conv actor actor_participant)) permission_denied
  target_user ← require (live_user target_user_id) user_not_found
  existing ← gets (get_any_by_conversation_user conv.id target_user_id)
  raise_if (is_active_participant existing) already_exists
  now ← gets (λ s. s.now)
  modify (join id conv.id target_user_id target_role)
  modify (publish (participant_joined conv.id target_user_id actor.id target_role))
  return (
      participant_to_read (joined id conv.id target_user_id target_role existing now)
        (some target_user))

abbrev pub gone : ParticipantStatus → ℕ → ConversationParticipant → ConversationParticipant
gone status now p = record p { status = status; left_at = some now }

abbrev leave_action : Option ConversationParticipant → ConversationParticipant → LeaveAction
leave_action none target = LeaveAction.removed
leave_action (some p) target = if target.id == p.id then LeaveAction.left else LeaveAction.removed

unfoldable pub remove_participant : User → ℕ → ℕ → Service (Unit {0})
remove_participant actor conversation_id target_user_id = do
  conv ← require (get_active_by_id conversation_id) conversation_not_found
  actor_participant ← gets (get_active_by_conversation_user conv.id actor.id)
  target ← require (get_active_by_conversation_user conv.id target_user_id) participant_not_found
  raise_if (not (can_remove_participant actor actor_participant target)) permission_denied
  modify (λ s. record s {
    participants =
        update_first (is_active_row conv.id target_user_id) (gone ParticipantStatus.removed s.now)
          s.participants;
  })
  modify (
      publish
        (participant_left conv.id target_user_id actor.id (leave_action actor_participant target)))

unfoldable pub sync_org_member_joined : ℕ → ℕ → ℕ → OrganizationRole → Store → Store
sync_org_member_joined id organization_id user_id role s = elim (find_org_group organization_id s) [
  | none ↦ s
  | some conv ↦ join id conv.id user_id (conversation_role role) s
]

unfoldable pub sync_org_member_left : ℕ → ℕ → Store → Store
sync_org_member_left organization_id user_id s = elim (find_org_group organization_id s) [
  | none ↦ s
  | some conv ↦ record s {
    participants =
        update_first (is_active_row conv.id user_id) (gone ParticipantStatus.left s.now)
          s.participants;
  }
]

unfoldable pub get_conversation : User → ℕ → Service Conversation
get_conversation actor conversation_id = do
  conv ← require (get_active_by_id conversation_id) conversation_not_found
  participant ← gets (get_active_by_conversation_user conv.id actor.id)
  raise_if (not (can_read_conversation actor participant)) permission_denied
  return conv

abbrev with_user : Store → ConversationParticipant → ParticipantRead
with_user s p = elim (p.participant_user_id) [
  | none ↦ participant_to_read p none
  | some id ↦ participant_to_read p (user_by_id id s)
]

unfoldable pub list_participants : User → ℕ → Service (List ParticipantRead × ℕ)
list_participants actor conversation_id = do
  conv ← require (get_active_by_id conversation_id) conversation_not_found
  participant ← gets (get_active_by_conversation_user conv.id actor.id)
  raise_if (not (can_read_conversation actor participant)) permission_denied
  participants ← gets (list_active_by_conversation conversation_id)
  items ← gets (λ s. map (with_user s) participants)
  return (items, length items)
