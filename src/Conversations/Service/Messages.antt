-- ===== src/Conversations/Service/Messages.antt =====
-- Messages: written by users and by the system, listed and deleted. Ids are drawn at random.
use mathlib.Core.List.{map}
use text.Mathlib.Text.{◌==◌ as str_eq}
use campus_agent.Base.{
  ℕ, Bool, false, ◌||◌, not, Option, none, some, List, [], ◌∷◌, ◌++◌, String, ◌==◌, if◌then◌else◌,
  update_first,
}
use campus_agent.Base.Action.{◌>>=◌, ◌>>◌, return, gets, modify, require, raise_if}
use campus_agent.Organizations.Models.{User}
use campus_agent.Conversations.Models.{
  ConversationParticipant, Message, MessageType, agent_public, MessageStatus, SenderType,
  conversation_not_found, permission_denied, message_not_found, sensitive_content, message_created,
  message_deleted, Store, Service, publish,
}
use campus_agent.Conversations.Permissions.{
  is_admin_level, leads, can_list_messages, can_write_message,
}
use campus_agent.Conversations.Repository.{
  get_active_by_id, get_active_by_conversation_user, get_active_message, get_by_idempotency_key,
  get_next_sequence, list_by_conversation, is_in, is_id,
}
use campus_agent.Conversations.Service.Common.{
  Screen, is_sensitive, parse_message_type, MessageRead, message_to_read,
}

pub record CreateMessage : Type 0 where
  pub content : Option String
  pub message_type : String
  pub idempotency_key : Option String

abbrev pub new_message :
    ℕ
    → ℕ
    → SenderType
    → Option ℕ
    → MessageType
    → Option String
    → Option String
    → Option String
    → ℕ
    → ℕ
    → Message
new_message id conversation_id sender_type sender_user_id message_type content payload_json key
      sequence now =
    record {
      id = id;
      conversation_id = conversation_id;
      sender_type = sender_type;
      sender_user_id = sender_user_id;
      message_type = message_type;
      content = content;
      payload_json = payload_json;
      idempotency_key = key;
      status = MessageStatus.active;
      sequence = sequence;
      created_at = now;
      deleted_at = none;
    }

-- The row, its commit and its event.
abbrev pub add_message : Message → Store → Store
add_message m s =
    publish
      (message_created m.conversation_id m.id m.sender_type m.sender_user_id m.message_type
        m.sequence)
      (record s { messages = s.messages ++ m ∷ [] })

-- The message that has the key already, if there is a key.
abbrev pub find_existing : ℕ → Option String → Store → Option Message
find_existing conversation_id none s = none
find_existing conversation_id (some key) s =
    if str_eq key "" then none else get_by_idempotency_key conversation_id key s

abbrev pub system_sender : MessageType → SenderType
system_sender agent_public = SenderType.agent
system_sender _ = SenderType.system

module _ (screen : Screen) where
  unfoldable pub create_message : User → ℕ → CreateMessage → ℕ → Service MessageRead
  create_message actor conversation_id body id = do
    conv ← require (get_active_by_id conversation_id) conversation_not_found
    participant ← gets (get_active_by_conversation_user conv.id actor.id)
    raise_if (not (can_write_message actor participant)) permission_denied
    message_type ← require (λ _. parse_message_type body.message_type) message_not_found
    raise_if (is_sensitive screen body.content none) sensitive_content
    existing ← gets (find_existing conversation_id body.idempotency_key)
    sequence ← gets (get_next_sequence conversation_id)
    now ← gets (λ s. s.now)
    let message =
        new_message id conversation_id SenderType.user (some actor.id) message_type body.content
          none body.idempotency_key sequence now
    elim existing [
      | some m ↦ return (message_to_read m)
      | none ↦ modify (add_message message) >> return (message_to_read message)
    ]

  -- `payload_json` is the payload as JSON text, none where it is empty.
  unfoldable pub create_system_message :
      ℕ → String → String → Option String → ℕ → Service MessageRead
  create_system_message conversation_id content message_type payload_json id = do
    conversation ← require (get_active_by_id conversation_id) conversation_not_found
    parsed ← require (λ _. parse_message_type message_type) message_not_found
    raise_if (is_sensitive screen (some content) payload_json) sensitive_content
    sequence ← gets (get_next_sequence conversation_id)
    now ← gets (λ s. s.now)
    let message =
        new_message id conversation_id (system_sender parsed) none parsed (some content)
          payload_json none sequence now
    modify (add_message message)
    return (message_to_read message)

unfoldable pub list_messages : User → ℕ → ℕ → ℕ → Service (List MessageRead × ℕ)
list_messages actor conversation_id page page_size = do
  conv ← require (get_active_by_id conversation_id) conversation_not_found
  participant ← gets (get_active_by_conversation_user conv.id actor.id)
  raise_if (not (can_list_messages actor participant)) permission_denied
  found ← gets (list_by_conversation conversation_id page page_size)
  return (map message_to_read found.0, found.1)

abbrev pub in_conversation : ℕ → Option Message → Option Message
in_conversation conversation_id none = none
in_conversation conversation_id (some m) = if is_in conversation_id m then some m else none

abbrev pub may_delete : User → Option ConversationParticipant → Message → Bool
may_delete actor participant m =
    is_id actor.id m.sender_user_id
    || ((elim participant [ none ↦ false | some p ↦ leads p.role ]) || is_admin_level actor)

abbrev pub deleted : ℕ → Message → Message
deleted now m = record m { status = MessageStatus.deleted; deleted_at = some now }

unfoldable pub delete_message : User → ℕ → ℕ → Service (Unit {0})
delete_message actor conversation_id message_id = do
  conv ← require (get_active_by_id conversation_id) conversation_not_found
  participant ← gets (get_active_by_conversation_user conv.id actor.id)
  raise_if (not (can_list_messages actor participant)) permission_denied
  m ←
      require (λ s. in_conversation conversation_id (get_active_message message_id s))
        message_not_found
  raise_if (not (may_delete actor participant m)) permission_denied
  modify (λ s.
      publish (message_deleted conversation_id message_id actor.id)
        (record s { messages = update_first (λ x. x.id == message_id) (deleted s.now) s.messages }))
