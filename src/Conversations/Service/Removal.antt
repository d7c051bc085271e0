-- ===== src/Conversations/Service/Removal.antt =====
-- Whoever is removed from a conversation is out of it.
use campus_agent.Base.{
  ◌∙◌, ℕ, ◌≤◌, ◌≡◌, true, false, none, some, List, [], ◌∷◌, arith, inl, inr, Option-cases,
  Bool-cases, find, count_if, update_first,
}
use campus_agent.Base.Table.{find-holds, find-count_if_zero, count_if-update_first}
use campus_agent.Base.Action.{ok, err}
use campus_agent.Organizations.Models.{User}
use campus_agent.Conversations.Models.{
  Conversation, ConversationParticipant, ParticipantStatus, permission_denied, Store,
}
use campus_agent.Conversations.Permissions.{
  is_admin_level, can_read_conversation, can_list_messages, can_write_message,
  can_remove_participant,
}
use campus_agent.Conversations.Repository.{
  get_active_by_id, get_active_by_conversation_user, is_row, is_active_row,
}
use campus_agent.Conversations.Service.Common.{Screen}
use campus_agent.Conversations.Service.Participants.{gone, remove_participant, get_conversation}
use campus_agent.Conversations.Service.Messages.{CreateMessage, create_message, list_messages}
use campus_agent.Conversations.Service.Numbering.{MessageRequest, replay}
use campus_agent.Conversations.Service.Frame.{replay-conversations}
use campus_agent.Conversations.Service.Rows.{HasOneRow}
use campus_agent.Conversations.Service.Membership.{Reachable, Reachable-HasOneRow}

-- What a removal that succeeds has found and done.
record Removed (c target : ℕ) (s after : Store) : Type 0 where
  conv : Conversation
  t : ConversationParticipant
  found : get_active_by_id c s ≡ some conv
  member : find (is_active_row conv.id target) s.participants ≡ some t
  kept : after.conversations ≡ s.conversations
  rows :
      after.participants
      ≡ update_first
          (is_active_row conv.id target)
          (gone ParticipantStatus.removed s.now)
          s.participants

remove_participant-Removed :
    (actor : User) (c target : ℕ) (s : Store)
    → (remove_participant actor c target s).0 ≡ ok tt
    → Removed c target s (remove_participant actor c target s).1
unfolding remove_participant get_active_by_conversation_user
remove_participant-Removed actor c target s h = elim (Option-cases (get_active_by_id c s)) [
  | inl e ↦ absurd (ground arith)
  | inr (conv, e) ↦ elim (Option-cases (find (is_active_row conv.id target) s.participants)) [
    | inl f ↦ absurd (ground arith)
    | inr (t, f) ↦
        elim (Bool-cases
          (can_remove_participant actor (get_active_by_conversation_user conv.id actor.id s) t)) [
            | inr w ↦ absurd (ground arith)
            | inl w ↦ record {
              conv = conv;
              t = t;
              found = e;
              member = f;
              kept = ground arith;
              rows = ground arith;
            }
          ]
  ]
]

active-count :
    (c u : ℕ) (t : List ConversationParticipant)
    → count_if (is_active_row c u) t ≤ count_if (is_row c u) t
unfolding count_if
active-count c u [] = omega arith
active-count c u (p ∷ t) = ground (arith, active-count c u t)

-- No active row is left of the user.
removed-gone :
    (c target now : ℕ) (t : List ConversationParticipant) (p : ConversationParticipant)
    → find (is_active_row c target) t ≡ some p
    → count_if (is_row c target) t ≤ 1
    → find
        (is_active_row c target)
        (update_first (is_active_row c target) (gone ParticipantStatus.removed now) t)
      ≡ none
removed-gone c target now t p f h =
    let q = is_active_row c target in
    let after = update_first q (gone ParticipantStatus.removed now) t in
    let held : q p ≡ true = find-holds q t {x = p} f in
    let out : q (gone ParticipantStatus.removed now p) ≡ false = ground arith in
    let moved = count_if-update_first q q (gone ParticipantStatus.removed now) t p f in
    find-count_if_zero q after (ground (arith, moved, held, out, active-count c target t))

-- Someone who is no administrator and has no active row is refused.
outsider-refused :
    (screen : Screen) (u : User) (c : ℕ) (s : Store) (conv : Conversation) (body : CreateMessage)
    (id page page_size : ℕ)
    → get_active_by_id c s ≡ some conv
    → get_active_by_conversation_user conv.id u.id s ≡ none
    → is_admin_level u ≡ false
    → ((create_message screen u c body id s) ≡ (err permission_denied, s))
      × ((list_messages u c page page_size s).0 ≡ err permission_denied)
      × ((get_conversation u c s).0 ≡ err permission_denied)
unfolding create_message list_messages get_conversation can_read_conversation can_list_messages
    can_write_message
outsider-refused screen u c s conv body id page page_size e none_found plain =
    (ground arith, ground arith, ground arith)

-- In a state reached from one with one row at most for each user and conversation, by requests that
-- give new conversations new ids, open no private conversation of a user with themselves and find
-- memberships of an organization unique, a user who is no administrator is removed from a
-- conversation. Whatever messages are written, announced or erased afterwards, by anyone, as long as
-- the user is not added again: a message of theirs is refused and changes nothing, and so are the
-- listing of messages and the conversation itself.
pub remove_participant-shuts_out :
    {start s : Store} (screen : Screen) (actor target : User) (c : ℕ)
    (between : List MessageRequest) (body : CreateMessage) (id page page_size : ℕ)
    → Reachable start s
    → HasOneRow start
    → (remove_participant actor c target.id s).0 ≡ ok tt
    → is_admin_level target ≡ false
    → let after = replay screen between (remove_participant actor c target.id s).1 in
      ((create_message screen target c body id after) ≡ (err permission_denied, after))
      × ((list_messages target c page page_size after).0 ≡ err permission_denied)
      × ((get_conversation target c after).0 ≡ err permission_denied)
unfolding get_active_by_id get_active_by_conversation_user
remove_participant-shuts_out {start} {s} screen actor target c between body id page page_size path
      one h plain =
    let r = remove_participant-Removed actor c target.id s h in
    let frame = replay-conversations screen between (remove_participant actor c target.id s).1 in
    let after = replay screen between (remove_participant actor c target.id s).1 in
    let found : get_active_by_id c after ≡ some r.conv = rw (frame.0 ∙ r.kept) r.found in
    let out : get_active_by_conversation_user r.conv.id target.id after ≡ none =
      rw (frame.1 ∙ r.rows) (
        removed-gone r.conv.id target.id s.now s.participants r.t r.member
          (Reachable-HasOneRow path one r.conv.id target.id)) in
    outsider-refused screen target c after r.conv body id page page_size found out plain
