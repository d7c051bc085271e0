-- ===== src/Conversations/Service/Retries.antt =====
-- A message with an idempotency key is written once.
use text.Mathlib.Text.{◌==◌ as str_eq}
use text.Mathlib.TextEquality.{eq_iff}
use mathlib.Core.Path.{subst}
use campus_agent.Base.{
  List, if◌then◌else◌, ℕ, ◌≡◌, refl, sym, ◌∙◌, true, false, Option, none, some, [], ◌∷◌, ◌++◌,
  String, ◌==◌, arith, inl, inr, Option-cases, Bool-cases, find, ==_iff,
}
use campus_agent.Base.Table.{find-append, find-append_some, find-holds, find-update_first_either}
use campus_agent.Base.Action.{ok}
use campus_agent.Organizations.Models.{User}
use campus_agent.Conversations.Models.{Conversation, Message, MessageType, SenderType, Store}
use campus_agent.Conversations.Permissions.{can_write_message}
use campus_agent.Conversations.Repository.{
  get_active_by_id, get_active_by_conversation_user, is_keyed, get_by_idempotency_key,
  get_next_sequence,
}
use campus_agent.Conversations.Service.Common.{
  Screen, is_sensitive, parse_message_type, MessageRead, message_to_read,
}
use campus_agent.Conversations.Service.Messages.{
  CreateMessage, new_message, create_message, find_existing, deleted,
}
use campus_agent.Conversations.Service.Numbering.{
  MessageRequest, serve, replay, Written, serve-Written,
}
use campus_agent.Conversations.Service.Frame.{replay-conversations}

-- What a request that succeeds leaves behind: its message is found by its key.
record Sent (c : ℕ) (key : String) (s after : Store) (r : MessageRead) : Type 0 where
  conv : Conversation
  m : Message
  found : get_active_by_id c s ≡ some conv
  same : after.conversations ≡ s.conversations
  keyed : find_existing c (some key) after ≡ some m
  answer : r ≡ message_to_read m

-- The message that had the key has it still.
still_keyed :
    (c : ℕ) (given : Option String) (key : String) (s after : Store) (m : Message)
    → given ≡ some key
    → find_existing c given s ≡ some m
    → after.messages ≡ s.messages
    → find_existing c (some key) after ≡ some m
unfolding get_by_idempotency_key
still_keyed c given key s after m k f e =
    let before : find_existing c (some key) s ≡ some m =
      subst (λ z. find_existing c z s ≡ some m) k f in
    rw e before

-- A new message is the first that has its key.
newly_keyed :
    (c : ℕ) (given : Option String) (key : String) (s after : Store) (m : Message)
    → given ≡ some key
    → str_eq key "" ≡ false
    → find_existing c given s ≡ none
    → m.conversation_id ≡ c
    → m.idempotency_key ≡ given
    → after.messages ≡ s.messages ++ m ∷ []
    → find_existing c (some key) after ≡ some m
unfolding get_by_idempotency_key
newly_keyed c given key s after m k nonempty f home own rows =
    let before : find_existing c (some key) s ≡ none =
      subst (λ z. find_existing c z s ≡ none) k f in
    let missing : find (is_keyed c key) s.messages ≡ none = ground arith in
    let same : str_eq key key ≡ true = (eq_iff key key).1 refl in
    let held : is_keyed c key m ≡ true = ground arith in
    let added : find (is_keyed c key) (s.messages ++ m ∷ []) ≡ some m =
      find-append (is_keyed c key) s.messages m missing ∙ rw held refl in
    rw nonempty (rw rows added)

create_message-Sent :
    (screen : Screen) (actor : User) (c : ℕ) (body : CreateMessage) (id : ℕ) (s : Store)
    (r : MessageRead) (key : String)
    → body.idempotency_key ≡ some key
    → str_eq key "" ≡ false
    → (create_message screen actor c body id s).0 ≡ ok r
    → Sent c key s (create_message screen actor c body id s).1 r
unfolding create_message
create_message-Sent screen actor c body id s r key k nonempty h =
    elim (Option-cases (get_active_by_id c s)) [
      | inl e ↦ absurd (ground arith)
      | inr (conv, e) ↦
          elim (Bool-cases
            (can_write_message actor (get_active_by_conversation_user conv.id actor.id s))) [
              | inr w ↦ absurd (ground arith)
              | inl w ↦ elim (Option-cases (parse_message_type body.message_type)) [
                | inl p ↦ absurd (ground arith)
                | inr (t, p) ↦ elim (Bool-cases (is_sensitive screen body.content none)) [
                  | inl x ↦ absurd (ground arith)
                  | inr x ↦ elim (Option-cases (find_existing c body.idempotency_key s)) [
                    | inr (m, f) ↦ record {
                      conv = conv;
                      m = m;
                      found = e;
                      same = ground arith;
                      keyed = still_keyed c body.idempotency_key key s _ m k f (ground arith);
                      answer = ground arith;
                    }
                    | inl f ↦ record {
                      conv = conv;
                      m =
                          new_message id c SenderType.user (some actor.id) t body.content none
                            body.idempotency_key (get_next_sequence c s) s.now;
                      found = e;
                      same = ground arith;
                      keyed =
                          newly_keyed c body.idempotency_key key s _ _ k nonempty f refl refl
                            (ground arith);
                      answer = ground arith;
                    }
                  ]
                ]
              ]
            ]
    ]

conversation-id :
    (c : ℕ) (s : Store) (conv : Conversation) → get_active_by_id c s ≡ some conv → conv.id ≡ c
unfolding get_active_by_id
conversation-id c s conv e = elim (Option-cases (find (λ x. x.id == c) s.conversations)) [
  | inl none_found ↦ absurd (ground arith)
  | inr (x, f) ↦
      let held : (x.id == c) ≡ true = find-holds (λ x. x.id == c) s.conversations {x = x} f in
      ground (arith, ==_iff x.id c)
]

answered :
    (screen : Screen) (again : User) (c : ℕ) (repeated : CreateMessage) (id : ℕ) (s : Store)
    (t : MessageType) (conv : Conversation) (m : Message)
    → get_active_by_id c s ≡ some conv
    → can_write_message again (get_active_by_conversation_user conv.id again.id s) ≡ true
    → parse_message_type repeated.message_type ≡ some t
    → is_sensitive screen repeated.content none ≡ false
    → find_existing c repeated.idempotency_key s ≡ some m
    → create_message screen again c repeated id s ≡ (ok (message_to_read m), s)
unfolding create_message
answered screen again c repeated id s t conv m e w p x f = ground arith

-- The message that the key names stays the one it was, though it may be deleted.
Keeps : ℕ → String → Message → Store → Type 0
Keeps c key m s =
    (kept : Message) × (get_by_idempotency_key c key s ≡ some kept)
    × (kept.id ≡ m.id)
    × (kept.sequence ≡ m.sequence)
    × (kept.sender_user_id ≡ m.sender_user_id)

Written-Keeps :
    (c : ℕ) (key : String) (m : Message) (s after : Store)
    → Written s after.messages
    → Keeps c key m s
    → Keeps c key m after
unfolding Keeps get_by_idempotency_key
Written-Keeps c key m s after (Written.same e) h = rw e h
Written-Keeps c key m s after (Written.added x _ e) (kept, found, i, n, u) =
    (kept, rw e (find-append_some (is_keyed c key) s.messages (x ∷ []) {x = kept} found), i, n, u)
Written-Keeps c key m s after (Written.erased id e) (kept, found, i, n, u) =
    elim (find-update_first_either (is_keyed c key) (λ x. x.id == id) (deleted s.now) s.messages
      kept (λ x. refl) found) [
        | inl f ↦ (kept, rw e f, i, n, u)
        | inr f ↦ (deleted s.now kept, rw e f, i, n, u)
      ]

replay-Keeps :
    (screen : Screen) (requests : List MessageRequest) (c : ℕ) (key : String) (m : Message)
    (s : Store)
    → Keeps c key m s
    → Keeps c key m (replay screen requests s)
unfolding replay
replay-Keeps screen [] c key m s h = h
replay-Keeps screen (r ∷ rest) c key m s h =
    replay-Keeps screen rest c key m (serve screen r s)
      (Written-Keeps c key m s (serve screen r s) (serve-Written screen r s) h)

-- A message with a key that is not empty has been written, and any messages have been written,
-- announced or erased since. Then a request of anyone who may write in the conversation that gives
-- the same key, with any content that passes the checks, writes nothing: it is answered with the
-- message that has that id, sequence and sender, and changes nothing.
pub create_message-once :
    (screen : Screen) (actor again : User) (c : ℕ) (body repeated : CreateMessage) (id id' : ℕ)
    (between : List MessageRequest) (s : Store) (r : MessageRead) (key : String) (t : MessageType)
    → body.idempotency_key ≡ some key
    → repeated.idempotency_key ≡ some key
    → str_eq key "" ≡ false
    → (create_message screen actor c body id s).0 ≡ ok r
    → can_write_message again (
        get_active_by_conversation_user c again.id
          (replay screen between (create_message screen actor c body id s).1))
      ≡ true
    → parse_message_type repeated.message_type ≡ some t
    → is_sensitive screen repeated.content none ≡ false
    → let after = replay screen between (create_message screen actor c body id s).1 in
      (answer : MessageRead) × (create_message screen again c repeated id' after
        ≡ (ok answer, after))
      × (answer.id ≡ r.id)
      × (answer.sequence ≡ r.sequence)
      × (answer.sender_user_id ≡ r.sender_user_id)
unfolding get_active_by_id get_active_by_conversation_user Keeps
create_message-once screen actor again c body repeated id id' between s r key t k k' nonempty h w p
      x =
    let sent = create_message-Sent screen actor c body id s r key k nonempty h in
    let first = (create_message screen actor c body id s).1 in
    let after = replay screen between first in
    let home : sent.conv.id ≡ c = conversation-id c s sent.conv sent.found in
    let open_ : get_active_by_id c after ≡ some sent.conv =
      rw ((replay-conversations screen between first).0 ∙ sent.same) sent.found in
    let (kept, found, i, n, u) = replay-Keeps screen between c key sent.m first (
      sent.m,
      subst (λ b. (if b then none else get_by_idempotency_key c key first) ≡ some sent.m) nonempty
          sent.keyed,
      refl,
      refl,
      refl,
    ) in
    let keyed : find_existing c (some key) after ≡ some kept =
      subst (λ b. (if b then none else get_by_idempotency_key c key after) ≡ some kept)
        (sym nonempty) found in
    rw sent.answer (
      message_to_read kept,
      answered screen again c repeated id' after t sent.conv kept open_ (rw home w) p x
          (subst (λ z. find_existing c z after ≡ some kept) (sym k') keyed),
      i,
      n,
      u,
    )
