-- ===== src/Conversations/Service/Numbering.antt =====
-- The sequence numbers of the messages of a conversation, after any requests.
use campus_agent.Base.{
  ℕ, ◌+◌, ◌≡◌, refl, true, Option, none, some, List, [], ◌∷◌, ◌++◌, String, ◌==◌, ltb, length,
  arith, inl, inr, if◌then◌else◌, Option-cases, Bool-cases, ==_iff, select, update_first,
}
use mathlib.Core.Path.{subst}
use campus_agent.Organizations.Models.{User}
use campus_agent.Conversations.Models.{Message, SenderType, Store}
use campus_agent.Conversations.Permissions.{can_write_message, can_list_messages}
use campus_agent.Conversations.Repository.{
  get_active_by_id, get_active_message, get_active_by_conversation_user, is_in, max_sequence,
  get_next_sequence,
}
use campus_agent.Conversations.Service.Common.{Screen, is_sensitive, parse_message_type}
use campus_agent.Conversations.Service.Messages.{
  CreateMessage, create_message, create_system_message, delete_message, find_existing, deleted,
  new_message, system_sender, in_conversation, may_delete,
}

-- The requests that write messages.
pub data MessageRequest : Type 0 where
  write : User → ℕ → CreateMessage → ℕ → MessageRequest
  announce : ℕ → String → String → Option String → ℕ → MessageRequest
  erase : User → ℕ → ℕ → MessageRequest

unfoldable pub serve : Screen → MessageRequest → Store → Store
serve screen (write actor conversation_id body id) s =
    (create_message screen actor conversation_id body id s).1
serve screen (announce conversation_id content message_type payload id) s =
    (create_system_message screen conversation_id content message_type payload id s).1
serve screen (erase actor conversation_id message_id) s =
    (delete_message actor conversation_id message_id s).1

unfoldable pub replay : Screen → List MessageRequest → Store → Store
unfolding serve
replay screen [] s = s
replay screen (r ∷ rest) s = replay screen rest (serve screen r s)

-- The numbers of the messages of a conversation, in the order in which they were written.
unfoldable pub sequences : ℕ → List Message → List ℕ
sequences c [] = []
sequences c (m ∷ t) = let rest = sequences c t in if is_in c m then m.sequence ∷ rest else rest

-- The list is k, k + 1, and so on.
abbrev pub IsNumbered : ℕ → List ℕ → Type 0
IsNumbered k [] = Unit
IsNumbered k (x ∷ xs) = (x ≡ k) × IsNumbered (k + 1) xs

IsNumbered-append :
    (k : ℕ) (xs : List ℕ) (x : ℕ)
    → IsNumbered k xs
    → x ≡ k + length xs
    → IsNumbered k (xs ++ x ∷ [])
IsNumbered-append k [] x h e = (omega (arith, e), tt)
IsNumbered-append k (y ∷ xs) x (h, rest) e =
    (h, IsNumbered-append (k + 1) xs x rest (omega (arith, e)))

first_number :
    (c k : ℕ) (m : Message) (t : List Message)
    → is_in c m ≡ true
    → m.sequence ≡ k + 1
    → max_sequence (select (is_in c) t)
      ≡ (if ltb 0 (length (sequences c t)) then k + 1 + length (sequences c t) else 0)
    → max_sequence (select (is_in c) (m ∷ t))
      ≡ (if ltb 0 (length (sequences c (m ∷ t))) then k + length (sequences c (m ∷ t)) else 0)
unfolding max_sequence select sequences
first_number c k m t e x h = elim (Bool-cases (ltb 0 (length (sequences c t)))) [
  | inl some_left ↦ ground arith
  | inr none_left ↦ ground arith
]

max_sequence-numbered :
    (c k : ℕ) (t : List Message)
    → IsNumbered (k + 1) (sequences c t)
    → max_sequence (select (is_in c) t)
      ≡ (if ltb 0 (length (sequences c t)) then k + length (sequences c t) else 0)
unfolding max_sequence select sequences
max_sequence-numbered c k [] h = refl
max_sequence-numbered c k (m ∷ t) h = elim (Bool-cases (is_in c m)) [
  | inl e ↦
      let both : (m.sequence ≡ k + 1) × IsNumbered (k + 1 + 1) (sequences c t) =
        subst (λ b. IsNumbered (k + 1) (if b then m.sequence ∷ sequences c t else sequences c t)) e
          h in
      first_number c k m t e both.0 (max_sequence-numbered c (k + 1) t both.1)
  | inr e ↦
      let rest : IsNumbered (k + 1) (sequences c t) =
        subst (λ b. IsNumbered (k + 1) (if b then m.sequence ∷ sequences c t else sequences c t)) e
          h in
      ground (arith, max_sequence-numbered c k t rest)
]

sequences-append :
    (c : ℕ) (t : List Message) (m : Message)
    → sequences c (t ++ m ∷ [])
      ≡ (if is_in c m then sequences c t ++ m.sequence ∷ [] else sequences c t)
unfolding sequences
sequences-append c [] m = ground arith
sequences-append c (x ∷ t) m = ground (arith, sequences-append c t m)

sequences-deleted :
    (c id now : ℕ) (t : List Message)
    → sequences c (update_first (λ x. x.id == id) (deleted now) t) ≡ sequences c t
unfolding sequences update_first
sequences-deleted c id now [] = refl
sequences-deleted c id now (x ∷ t) = ground (arith, sequences-deleted c id now t)

-- A message with the next number keeps every conversation numbered.
get_next_sequence-IsNumbered :
    (c : ℕ) (s : Store) (m : Message)
    → m.sequence ≡ get_next_sequence m.conversation_id s
    → IsNumbered 1 (sequences c s.messages)
    → IsNumbered 1 (sequences c (s.messages ++ m ∷ []))
unfolding get_next_sequence
get_next_sequence-IsNumbered c s m e h = elim (Bool-cases (is_in c m)) [
  | inl here ↦
      let same : m.conversation_id ≡ c = (==_iff m.conversation_id c).0 here in
      let top = max_sequence-numbered c 0 s.messages h in
      let e' : m.sequence ≡ max_sequence (select (is_in c) s.messages) + 1 =
        subst (λ z. m.sequence ≡ max_sequence (select (is_in z) s.messages) + 1) same e in
      rw (sequences-append c s.messages m) (
        rw here
          (IsNumbered-append 1 (sequences c s.messages) m.sequence h (ground (arith, top, e'))))
  | inr away ↦ rw (sequences-append c s.messages m) (rw away h)
]

-- What a request does to the messages.
pub data Written (s : Store) (after : List Message) : Type 0 where
  same : after ≡ s.messages → Written s after
  added :
      (m : Message)
      → m.sequence ≡ get_next_sequence m.conversation_id s
      → after ≡ s.messages ++ m ∷ []
      → Written s after
  erased :
      (id : ℕ) → after ≡ update_first (λ x. x.id == id) (deleted s.now) s.messages → Written s after

create_message-Written :
    (screen : Screen) (actor : User) (c : ℕ) (body : CreateMessage) (id : ℕ) (s : Store)
    → Written s (create_message screen actor c body id s).1.messages
unfolding create_message
create_message-Written screen actor c body id s = elim (Option-cases (get_active_by_id c s)) [
  | inl e ↦ same (ground arith)
  | inr (conv, e) ↦
      elim (Bool-cases
        (can_write_message actor (get_active_by_conversation_user conv.id actor.id s))) [
          | inr w ↦ same (ground arith)
          | inl w ↦ elim (Option-cases (parse_message_type body.message_type)) [
            | inl p ↦ same (ground arith)
            | inr (t, p) ↦ elim (Bool-cases (is_sensitive screen body.content none)) [
              | inl x ↦ same (ground arith)
              | inr x ↦ elim (Option-cases (find_existing c body.idempotency_key s)) [
                | inr (m, f) ↦ same (ground arith)
                | inl f ↦
                    added
                      (new_message id c SenderType.user (some actor.id) t body.content none
                        body.idempotency_key (get_next_sequence c s) s.now)
                      refl (ground arith)
              ]
            ]
          ]
        ]
]

create_system_message-Written :
    (screen : Screen) (c : ℕ) (content message_type : String) (payload : Option String) (id : ℕ)
    (s : Store)
    → Written s (create_system_message screen c content message_type payload id s).1.messages
unfolding create_system_message
create_system_message-Written screen c content message_type payload id s =
    elim (Option-cases (get_active_by_id c s)) [
      | inl e ↦ same (ground arith)
      | inr (conv, e) ↦ elim (Option-cases (parse_message_type message_type)) [
        | inl p ↦ same (ground arith)
        | inr (t, p) ↦ elim (Bool-cases (is_sensitive screen (some content) payload)) [
          | inl x ↦ same (ground arith)
          | inr x ↦
              added
                (new_message id c (system_sender t) none t (some content) payload none
                  (get_next_sequence c s) s.now)
                refl (ground arith)
        ]
      ]
    ]

delete_message-Written :
    (actor : User) (c id : ℕ) (s : Store) → Written s (delete_message actor c id s).1.messages
unfolding delete_message
delete_message-Written actor c id s = elim (Option-cases (get_active_by_id c s)) [
  | inl e ↦ same (ground arith)
  | inr (conv, e) ↦
      elim (Bool-cases
        (can_list_messages actor (get_active_by_conversation_user conv.id actor.id s))) [
          | inr w ↦ same (ground arith)
          | inl w ↦ elim (Option-cases (in_conversation c (get_active_message id s))) [
            | inl p ↦ same (ground arith)
            | inr (m, p) ↦
                elim (Bool-cases
                  (may_delete actor (get_active_by_conversation_user conv.id actor.id s) m)) [
                    | inr x ↦ same (ground arith)
                    | inl x ↦ erased id (ground arith)
                  ]
          ]
        ]
]

pub serve-Written :
    (screen : Screen) (r : MessageRequest) (s : Store) → Written s (serve screen r s).messages
unfolding serve
serve-Written screen (write actor c body id) s = create_message-Written screen actor c body id s
serve-Written screen (announce c content message_type payload id) s =
    create_system_message-Written screen c content message_type payload id s
serve-Written screen (erase actor c id) s = delete_message-Written actor c id s

Written-IsNumbered :
    (c : ℕ) (s : Store) (after : List Message)
    → Written s after
    → IsNumbered 1 (sequences c s.messages)
    → IsNumbered 1 (sequences c after)
Written-IsNumbered c s after (same e) h = rw e h
Written-IsNumbered c s after (added m e rows) h = rw rows (get_next_sequence-IsNumbered c s m e h)
Written-IsNumbered c s after (erased id e) h = rw e (rw (sequences-deleted c id s.now s.messages) h)

-- Where the messages of a conversation are numbered 1, 2, 3 and so on in the order in which they were
-- written, they are so after any requests, deletions of messages among them.
pub replay-IsNumbered :
    (screen : Screen) (requests : List MessageRequest) (s : Store) (conversation_id : ℕ)
    → IsNumbered 1 (sequences conversation_id s.messages)
    → IsNumbered 1 (sequences conversation_id (replay screen requests s).messages)
unfolding replay
replay-IsNumbered screen [] s c h = h
replay-IsNumbered screen (r ∷ rest) s c h =
    replay-IsNumbered screen rest (serve screen r s) c
      (Written-IsNumbered c s (serve screen r s).messages (serve-Written screen r s) h)
