-- ===== src/Conversations/Models.antt =====
-- apps/api/src/modules/conversations/models.py, exceptions.py and events.py: rows, errors, events and
-- the store, which has the tables of modules/organizations beside its own. Agents take part in no
-- conversation yet, so the columns for them are left out, as are `created_at` and `updated_at` where
-- nothing reads them.
use campus_agent.Base.{ℕ, Bool, true, false, Option, List, [], ◌∷◌, ◌++◌, String}
use campus_agent.Base.Action.{Action}
use campus_agent.Organizations.Models as Organizations

pub data ConversationType : Type 0 where
  private group org_group scene : ConversationType

pub data ConversationStatus : Type 0 where
  active archived deleted : ConversationStatus

pub data ParticipantType : Type 0 where
  user agent : ParticipantType

pub data ParticipantStatus : Type 0 where
  active left removed : ParticipantStatus

pub data MessageType : Type 0 where
  text image file system agent_public scene_card vote proposal result privacy_notice : MessageType

pub data MessageStatus : Type 0 where
  active deleted : MessageStatus

pub data SenderType : Type 0 where
  user agent system : SenderType

pub record Conversation : Type 0 where
  pub id : ℕ
  pub conversation_type : ConversationType
  pub title : Option String
  pub organization_id : Option ℕ
  pub created_by : ℕ
  pub status : ConversationStatus

-- A role is text: `add_participant` stores whatever it is given.
pub record ConversationParticipant : Type 0 where
  pub id : ℕ
  pub conversation_id : ℕ
  pub participant_type : ParticipantType
  pub participant_user_id : Option ℕ
  pub role : String
  pub status : ParticipantStatus
  pub joined_at : ℕ
  pub left_at : Option ℕ

pub record Message : Type 0 where
  pub id : ℕ
  pub conversation_id : ℕ
  pub sender_type : SenderType
  pub sender_user_id : Option ℕ
  pub message_type : MessageType
  pub content : Option String
  pub payload_json : Option String
  pub idempotency_key : Option String
  pub status : MessageStatus
  pub sequence : ℕ
  pub created_at : ℕ
  pub deleted_at : Option ℕ

pub data ConversationError : Type 0 where
  conversation_not_found permission_denied already_exists : ConversationError
  message_not_found sensitive_content : ConversationError
  user_not_found participant_not_found : ConversationError  -- both a `NotFoundError`

pub data LeaveAction : Type 0 where
  left removed : LeaveAction

-- The fields of each event but its random id and its time.
pub data ConversationEvent : Type 0 where
  conversation_created : ℕ → ℕ → ConversationType → ConversationEvent
  participant_joined : ℕ → ℕ → ℕ → String → ConversationEvent
  participant_left : ℕ → ℕ → ℕ → LeaveAction → ConversationEvent
  message_created : ℕ → ℕ → SenderType → Option ℕ → MessageType → ℕ → ConversationEvent
  message_deleted : ℕ → ℕ → ℕ → ConversationEvent

pub record Store : Type 0 where
  pub organizations : Organizations.Store
  pub conversations : List Conversation
  pub participants : List ConversationParticipant
  pub messages : List Message
  pub events : List ConversationEvent
  pub now : ℕ

abbrev pub Service : Type 0 → Type 0
Service A = Action Store ConversationError A

abbrev pub publish : ConversationEvent → Store → Store
publish e s = record s { events = s.events ++ e ∷ [] }

abbrev pub is_active : ParticipantStatus → Bool
is_active ParticipantStatus.active = true
is_active _ = false

abbrev pub is_deleted_message : MessageStatus → Bool
is_deleted_message MessageStatus.deleted = true
is_deleted_message _ = false

abbrev pub is_deleted : ConversationStatus → Bool
is_deleted ConversationStatus.deleted = true
is_deleted _ = false

abbrev pub is_user : ParticipantType → Bool
is_user ParticipantType.user = true
is_user _ = false

abbrev pub is_private : ConversationType → Bool
is_private private = true
is_private _ = false

abbrev pub is_org_group : ConversationType → Bool
is_org_group org_group = true
is_org_group _ = false
