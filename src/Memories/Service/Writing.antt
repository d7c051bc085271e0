-- ===== src/Memories/Service/Writing.antt =====
-- What is written is read back by its owner. Of Fernet it is assumed that it decrypts what it has
-- encrypted.
use text.Mathlib.Text.{◌==◌ as str_eq}
use campus_agent.Base.{
  ℕ, ◌≡◌, refl, ◌∙◌, true, false, [], ◌∷◌, ◌++◌, Option, none, some, String, ◌==◌, arith, ==_refl,
}
use campus_agent.Base.Table.{find-append}
use campus_agent.Base.Action.{ok, err}
use campus_agent.Memories.Models.{MemoryItem, memory_permission_denied, Store}
use campus_agent.Memories.Repository.{get_by_id}
use campus_agent.Memories.Encryption.{Fernet}
use campus_agent.Memories.Service.{
  CreateMemory, MemoryRead, Config, drop_deleted, create_memory, parse_datetime, get_memory,
  new_memory, memory_to_read,
}

-- Documented of Fernet: a token decrypts, under the key it was made with, to the text it was made of.
abbrev pub IsSound : Fernet → Type 0
IsSound f =
    (key : String) (nonce : ℕ) (plaintext token : String)
    → f.fernet_encrypt key nonce plaintext ≡ some token
    → f.fernet_decrypt key token ≡ some plaintext

module _ (config : Config) (sound : IsSound config.fernet) where
  open config use {fernet, field_encryption_key}
  open fernet use {derive_key, fernet_encrypt, fernet_decrypt}

  pub get_memory-own :
      (user_id id : ℕ) (purpose : Option String) (s : Store) (m : MemoryItem) (plaintext : String)
      → str_eq field_encryption_key "" ≡ false
      → drop_deleted (get_by_id id s) ≡ some m
      → (m.owner_user_id == user_id) ≡ true
      → fernet_decrypt (derive_key field_encryption_key) m.content_encrypted ≡ some plaintext
      → (get_memory config user_id id none purpose s).0 ≡ ok (memory_to_read m (some plaintext))
  unfolding get_memory
  get_memory-own user_id id purpose s m plaintext key e own d = ground arith

  get_memory-stranger :
      (user_id id : ℕ) (purpose : Option String) (s : Store) (m : MemoryItem)
      → drop_deleted (get_by_id id s) ≡ some m
      → (m.owner_user_id == user_id) ≡ false
      → (get_memory config user_id id none purpose s).0 ≡ err memory_permission_denied
  unfolding get_memory
  get_memory-stranger user_id id purpose s m e not_own = ground arith

  create_memory-effect :
      (user_id id nonce : ℕ) (body : CreateMemory) (s : Store) (token : String) (t : Option ℕ)
      → str_eq field_encryption_key "" ≡ false
      → fernet_encrypt (derive_key field_encryption_key) nonce body.content ≡ some token
      → parse_datetime config body.expires_at ≡ some t
      → let m = new_memory config user_id body id token 1 t s.now in
        ((create_memory config user_id body id nonce s).0
          ≡ ok (memory_to_read m (some body.content)))
        × ((create_memory config user_id body id nonce s).1.memories ≡ s.memories ++ m ∷ [])
  unfolding create_memory
  create_memory-effect user_id id nonce body s token t key e p = (ground arith, ground arith)

  -- A memory that is created under a new id is stored as the token of its content. Its owner reads
  -- the content back at any later time, and someone else who names no agent is refused.
  pub create_memory-roundtrip :
      (user_id id nonce : ℕ) (body : CreateMemory) (s : Store) (token : String) (t : Option ℕ)
      (later other : ℕ) (purpose : Option String)
      → str_eq field_encryption_key "" ≡ false
      → fernet_encrypt (derive_key field_encryption_key) nonce body.content ≡ some token
      → parse_datetime config body.expires_at ≡ some t
      → get_by_id id s ≡ none
      → (user_id == other) ≡ false
      → let s' : Store = record (create_memory config user_id body id nonce s).1 { now = later } in
        (m : MemoryItem) × (r : MemoryRead) × (get_by_id id s' ≡ some m)
        × (m.content_encrypted ≡ token)
        × (r.content ≡ some body.content)
        × ((create_memory config user_id body id nonce s).0 ≡ ok r)
        × ((get_memory config user_id id none purpose s').0 ≡ ok r)
        × ((get_memory config other id none purpose s').0 ≡ err memory_permission_denied)
  unfolding get_by_id
  create_memory-roundtrip user_id id nonce body s token t later other purpose key e p fresh
        stranger =
      let s' : Store = record (create_memory config user_id body id nonce s).1 { now = later } in
      let m = new_memory config user_id body id token 1 t s.now in
      let (answer, rows) = create_memory-effect user_id id nonce body s token t key e p in
      let found : get_by_id id s' ≡ some m =
        rw rows (find-append (λ x. x.id == id) s.memories m fresh ∙ rw (==_refl id) refl) in
      let kept : drop_deleted (get_by_id id s') ≡ some m = rw found refl in
      (
        m,
        memory_to_read m (some body.content),
        found,
        refl,
        refl,
        answer,
        get_memory-own user_id id purpose s' m body.content key kept (==_refl user_id)
            (sound (derive_key field_encryption_key) nonce body.content token e),
        get_memory-stranger other id purpose s' m kept stranger,
      )
