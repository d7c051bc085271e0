-- ===== src/Conversations/Service/Common.antt =====
-- The guard against private content, the parsing of message types and the replies.
use text.Mathlib.Text.{◌==◌ as str_eq}
use campus_agent.Base.{
  ℕ, Bool, false, ◌||◌, Option, none, some, List, [], ◌∷◌, String, ◌==◌, if◌then◌else◌, any, find,
  is_some,
}
use campus_agent.Organizations.Models.{User}
use campus_agent.Organizations.Repository.{get_user_by_id}
use campus_agent.Conversations.Models.{
  ParticipantType, ParticipantStatus, MessageType, image, file, agent_public, scene_card, vote,
  proposal, privacy_notice, ConversationParticipant, Message, SenderType, MessageStatus, Store,
  is_deleted_message,
}

-- What the guard uses of Python's strings and regular expressions.
pub record Screen : Type 0 where
  pub lower : String → String
  pub contains : String → String → Bool  -- `a in b`
  pub has_sensitive_key : String → Bool  -- `_SENSITIVE_PATTERN.search(b)`

abbrev sensitive_field_names : List String
sensitive_field_names =
    "private_preference" ∷ "raw_preference" ∷ "memory_content" ∷ "budget_detail"
    ∷ "dietary_restriction_private" ∷ "personal_note" ∷ []

abbrev names_field : Screen → Option String → Bool
names_field screen none = false
names_field screen (some content) =
    any (λ field. screen.contains field (screen.lower content)) sensitive_field_names

abbrev keys_field : Screen → Option String → Bool
keys_field screen none = false
keys_field screen (some payload) =
    if str_eq payload "" then false else screen.has_sensitive_key payload

-- `_check_sensitive_content` raises.
unfoldable pub is_sensitive : Screen → Option String → Option String → Bool
is_sensitive screen content payload_json =
    names_field screen content || keys_field screen payload_json

-- `_validate_message_type`
unfoldable pub parse_message_type : String → Option MessageType
parse_message_type v =
    if str_eq v "TEXT"
    then some MessageType.text
    else if str_eq v "IMAGE"
    then some image
    else if str_eq v "FILE"
    then some file
    else if str_eq v "SYSTEM"
    then some MessageType.system
    else if str_eq v "AGENT_PUBLIC"
    then some agent_public
    else if str_eq v "SCENE_CARD"
    then some scene_card
    else if str_eq v "VOTE"
    then some vote
    else if str_eq v "PROPOSAL"
    then some proposal
    else if str_eq v "RESULT"
    then some MessageType.result
    else if str_eq v "PRIVACY_NOTICE"
    then some privacy_notice
    else none

-- `_get_user_by_id`
unfoldable pub live_user : ℕ → Store → Option User
live_user id s = get_user_by_id id s.organizations

abbrev drop_deleted_user : Option User → Option User
drop_deleted_user none = none
drop_deleted_user (some u) = if is_some u.deleted_at then none else some u

-- `UserRepository.get_by_id`
unfoldable pub user_by_id : ℕ → Store → Option User
user_by_id id s = drop_deleted_user (find (λ u. u.id == id) s.organizations.users)

pub record MessageRead : Type 0 where
  pub id : ℕ
  pub conversation_id : ℕ
  pub sender_type : SenderType
  pub sender_user_id : Option ℕ
  pub message_type : MessageType
  pub content : Option String
  pub status : MessageStatus
  pub sequence : ℕ
  pub created_at : ℕ
  pub deleted_at : Option ℕ

-- `_message_to_read`
abbrev pub message_to_read : Message → MessageRead
message_to_read m = record {
  id = m.id;
  conversation_id = m.conversation_id;
  sender_type = m.sender_type;
  sender_user_id = m.sender_user_id;
  message_type = m.message_type;
  content = if is_deleted_message m.status then none else m.content;
  status = m.status;
  sequence = m.sequence;
  created_at = m.created_at;
  deleted_at = m.deleted_at;
}

-- `_participant_to_read`, with the name of the user.
pub record ParticipantRead : Type 0 where
  pub participant : ConversationParticipant
  pub display_name : Option String
  pub avatar_url : Option String

abbrev pub participant_to_read : ConversationParticipant → Option User → ParticipantRead
participant_to_read p none = record { participant = p; display_name = none; avatar_url = none }
participant_to_read p (some u) = record {
  participant = p;
  display_name = some u.display_name;
  avatar_url = u.avatar_url;
}

-- A new active row of a user.
abbrev pub new_participant : ℕ → ℕ → ℕ → String → ℕ → ConversationParticipant
new_participant id conversation_id user_id role now = record {
  id = id;
  conversation_id = conversation_id;
  participant_type = ParticipantType.user;
  participant_user_id = some user_id;
  role = role;
  status = ParticipantStatus.active;
  joined_at = now;
  left_at = none;
}
