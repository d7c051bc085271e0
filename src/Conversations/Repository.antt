-- ===== src/Conversations/Repository.antt =====
-- apps/api/src/modules/conversations/repository.py: the conditions and the answers of the queries.
use mathlib.Core.List.{reverse}
use text.Mathlib.Text.{◌==◌ as str_eq}
use campus_agent.Base.{
  ℕ, zero, suc, ◌+◌, ◌-◌, ◌*◌, Bool, false, ◌&&◌, ◌||◌, not, Option, none, some, List, [], ◌∷◌,
  String, ◌==◌, leb, if◌then◌else◌, find, select, count_if, all, any, take,
}
use campus_agent.Base.Sort.{sort_by}
use campus_agent.Conversations.Models.{
  Conversation, ConversationParticipant, Message, Store, is_active, is_deleted, is_deleted_message,
  is_user, is_private, is_org_group,
}

abbrev drop_deleted : Option Conversation → Option Conversation
drop_deleted none = none
drop_deleted (some c) = if is_deleted c.status then none else some c

-- An archived conversation is still returned.
unfoldable pub get_active_by_id : ℕ → Store → Option Conversation
get_active_by_id id s = drop_deleted (find (λ c. c.id == id) s.conversations)

abbrev pub is_id : ℕ → Option ℕ → Bool
is_id id none = false
is_id id (some j) = j == id

-- A row of the pair (conversation, user).
abbrev pub is_row : ℕ → ℕ → ConversationParticipant → Bool
is_row conversation_id user_id p =
    p.conversation_id == conversation_id
    && (is_id user_id p.participant_user_id && is_user p.participant_type)

abbrev pub is_active_row : ℕ → ℕ → ConversationParticipant → Bool
is_active_row conversation_id user_id p = is_row conversation_id user_id p && is_active p.status

unfoldable pub get_active_by_conversation_user : ℕ → ℕ → Store → Option ConversationParticipant
get_active_by_conversation_user conversation_id user_id s =
    find (is_active_row conversation_id user_id) s.participants

unfoldable pub get_any_by_conversation_user : ℕ → ℕ → Store → Option ConversationParticipant
get_any_by_conversation_user conversation_id user_id s =
    find (is_row conversation_id user_id) s.participants

abbrev pub is_active_in : ℕ → ConversationParticipant → Bool
is_active_in conversation_id p = p.conversation_id == conversation_id && is_active p.status

unfoldable pub list_active_by_conversation : ℕ → Store → List ConversationParticipant
list_active_by_conversation conversation_id s = select (is_active_in conversation_id) s.participants

-- The set of the active users of a conversation is {a, b}.
abbrev is_pair : ℕ → ℕ → ℕ → Store → Bool
is_pair a b conversation_id s =
    all
      (λ p.
        not (is_active_in conversation_id p && is_user p.participant_type)
        || (is_id a p.participant_user_id || is_id b p.participant_user_id))
      s.participants
    && (any (is_active_row conversation_id a) s.participants
        && any (is_active_row conversation_id b) s.participants)

unfoldable pub find_private_conversation : ℕ → ℕ → Store → Option Conversation
find_private_conversation a b s =
    find (λ c. (is_private c.conversation_type && not (is_deleted c.status)) && is_pair a b c.id s)
      s.conversations

unfoldable pub find_org_group : ℕ → Store → Option Conversation
find_org_group organization_id s =
    find
      (λ c.
        is_id organization_id c.organization_id
        && (is_org_group c.conversation_type && not (is_deleted c.status)))
      s.conversations

abbrev drop_deleted_message : Option Message → Option Message
drop_deleted_message none = none
drop_deleted_message (some m) = if is_deleted_message m.status then none else some m

unfoldable pub get_active_message : ℕ → Store → Option Message
get_active_message id s = drop_deleted_message (find (λ m. m.id == id) s.messages)

abbrev pub is_in : ℕ → Message → Bool
is_in conversation_id m = m.conversation_id == conversation_id

abbrev has_key : Option String → String → Bool
has_key none key = false
has_key (some k) key = str_eq k key

abbrev pub is_keyed : ℕ → String → Message → Bool
is_keyed conversation_id key m = is_in conversation_id m && has_key m.idempotency_key key

unfoldable pub get_by_idempotency_key : ℕ → String → Store → Option Message
get_by_idempotency_key conversation_id key s = find (is_keyed conversation_id key) s.messages

-- `func.max`, and 0 where there is no row.
unfoldable pub max_sequence : List Message → ℕ
max_sequence [] = 0
max_sequence (m ∷ rest) = let r = max_sequence rest in if leb r m.sequence then m.sequence else r

unfoldable pub get_next_sequence : ℕ → Store → ℕ
get_next_sequence conversation_id s = max_sequence (select (is_in conversation_id) s.messages) + 1

abbrev skip : {A : Type 0} → ℕ → List A → List A
skip zero xs = xs
skip (suc n) [] = []
skip (suc n) (x ∷ xs) = skip n xs

-- The page, the newest first, and the number of all.
unfoldable pub list_by_conversation : ℕ → ℕ → ℕ → Store → List Message × ℕ
list_by_conversation conversation_id page page_size s = (
  take page_size (
      skip ((page - 1) * page_size)
        (reverse (sort_by (λ m. m.created_at) (select (is_in conversation_id) s.messages)))),
  count_if (is_in conversation_id) s.messages,
)
