-- ===== src/Conversations/Tests.antt =====
-- A group of three, and what the theorems on conversations say of it.
use text.Mathlib.Text.{◌==◌ as str_eq}
use campus_agent.Base.{
  ℕ, ◌+◌, ◌≤◌, ◌≡◌, refl, false, none, some, List, [], ◌∷◌, arith, count_if, find, select, any, all,
}
use campus_agent.Base.Action.{ok, err}
use campus_agent.Organizations.Models.{User, student, UserStatus}
use campus_agent.Organizations.Models as Organizations
use campus_agent.Organizations.Repository.{get_user_by_id}
use campus_agent.Conversations.Models.{
  MessageType, SenderType, MessageStatus, permission_denied, Store,
}
use campus_agent.Conversations.Permissions.{
  is_admin_level, can_list_messages, can_write_message, can_remove_participant,
}
use campus_agent.Conversations.Repository.{
  get_active_by_id, get_active_by_conversation_user, is_row, get_active_message,
  get_by_idempotency_key, get_next_sequence, max_sequence,
}
use campus_agent.Conversations.Service.{
  Screen, is_sensitive, parse_message_type, MessageRead, live_user,
}
use campus_agent.Conversations.Service.Creation.{rows_of, unique_members, create_group_conversation}
use campus_agent.Conversations.Service.Participants.{remove_participant, get_conversation}
use campus_agent.Conversations.Service.Messages.{
  CreateMessage, create_message, create_system_message, delete_message, list_messages,
}
use campus_agent.Conversations.Service.Numbering.{
  MessageRequest, write, announce, erase, replay, sequences, IsNumbered, replay-IsNumbered,
}
use campus_agent.Conversations.Service.Retries.{create_message-once}
use campus_agent.Conversations.Service.Rows.{HasOneRow}
use campus_agent.Conversations.Service.Membership.{
  MemberRequest, open_group, serve, Reachable, Reachable-HasOneRow,
}
use campus_agent.Conversations.Service.Removal.{remove_participant-shuts_out}

abbrev screen : Screen
screen = record {
  lower = λ s. s;
  contains = λ field content. str_eq field content;
  has_sensitive_key = λ _. false;
}

abbrev student_of : ℕ → User
student_of id = record {
  id = id;
  display_name = "A";
  avatar_url = none;
  global_role = student;
  status = UserStatus.active;
  deleted_at = none;
}

abbrev campus : Organizations.Store
campus = record {
  users = student_of 1 ∷ student_of 2 ∷ student_of 3 ∷ [];
  organizations = [];
  memberships = [];
  events = [];
  now = 10;
}

abbrev empty : Store
empty = record {
  organizations = campus;
  conversations = [];
  participants = [];
  messages = [];
  events = [];
  now = 10;
}

abbrev opening : MemberRequest
opening = open_group 50 (λ n. 100 + n) (student_of 1) (some "trip") none (2 ∷ 3 ∷ 2 ∷ [])

abbrev three : Store
three = serve opening empty

abbrev hello : CreateMessage
hello = record { content = some "hello"; message_type = "TEXT"; idempotency_key = some "k1" }

abbrev hello_again : CreateMessage
hello_again = record { content = some "hi"; message_type = "TEXT"; idempotency_key = some "k1" }

abbrev said : MessageRead
said = record {
  id = 70;
  conversation_id = 50;
  sender_type = SenderType.user;
  sender_user_id = some 1;
  message_type = MessageType.text;
  content = some "hello";
  status = MessageStatus.active;
  sequence = 1;
  created_at = 10;
  deleted_at = none;
}

abbrev requests : List MessageRequest
requests =
    write (student_of 1) 50 hello 70
    ∷ erase (student_of 1) 50 70
    ∷ announce 50 "voting is open" "SYSTEM" none 71
    ∷ []

replay-IsNumbered_example : IsNumbered 1 (sequences 50 (replay screen requests three).messages)
unfolding serve create_group_conversation sequences live_user get_user_by_id find all
replay-IsNumbered_example = replay-IsNumbered screen requests three 50 tt

-- What is written and erased between the two requests with one key.
abbrev between : List MessageRequest
between = announce 50 "voting is open" "SYSTEM" none 71 ∷ erase (student_of 1) 50 70 ∷ []

create_message-once_example :
    let after = replay screen between (create_message screen (student_of 1) 50 hello 70 three).1 in
    (answer : MessageRead) × (create_message screen (student_of 2) 50 hello_again 72 after
      ≡ (ok answer, after))
    × (answer.id ≡ 70)
    × (answer.sequence ≡ 1)
    × (answer.sender_user_id ≡ some 1)
unfolding serve create_group_conversation create_message live_user get_user_by_id find all any
    is_sensitive rows_of unique_members get_active_by_id get_active_by_conversation_user
    can_write_message is_admin_level parse_message_type get_by_idempotency_key get_next_sequence
    max_sequence select replay delete_message create_system_message can_list_messages
    get_active_message
create_message-once_example =
    create_message-once screen (student_of 1) (student_of 2) 50 hello hello_again 70 72 between
      three said "k1" MessageType.text refl refl refl refl refl refl refl

no_rows : HasOneRow empty
unfolding count_if
no_rows c u = omega arith

path : Reachable empty three
unfolding count_if
path = Reachable.step opening Reachable.here refl

Reachable-HasOneRow_example : count_if (is_row 50 2) three.participants ≤ 1
Reachable-HasOneRow_example = Reachable-HasOneRow path no_rows 50 2

remove_participant-shuts_out_example :
    let after = replay screen requests (remove_participant (student_of 1) 50 2 three).1 in
    ((create_message screen (student_of 2) 50 hello 73 after) ≡ (err permission_denied, after))
    × ((list_messages (student_of 2) 50 1 20 after).0 ≡ err permission_denied)
    × ((get_conversation (student_of 2) 50 after).0 ≡ err permission_denied)
unfolding serve create_group_conversation remove_participant live_user get_user_by_id find all any
    rows_of unique_members get_active_by_id get_active_by_conversation_user can_remove_participant
    is_admin_level
remove_participant-shuts_out_example =
    remove_participant-shuts_out screen (student_of 1) (student_of 2) 50 requests hello 73 1 20 path
      no_rows refl refl
