-- ===== src/Memories/Service.antt =====
-- apps/api/src/modules/memories/service.py: a memory is created, read, listed, changed and deleted.
-- A field that the request lacks is none.
pub mod Reading
pub mod Writing
pub mod Updating
use mathlib.Core.List.{map}
use text.Mathlib.Text.{◌==◌ as str_eq}
use campus_agent.Base.{
  ℕ, Bool, true, false, ◌&&◌, ◌||◌, not, Option, none, some, List, [], ◌∷◌, ◌++◌, String, ◌==◌, ltb,
  if◌then◌else◌, is_some, select, length,
}
use campus_agent.Base.Action.{
  Result, ok, err, ◌>>=◌, ◌>>◌, return, raise, gets, modify, require, raise_if, when,
}
use campus_agent.Memories.Models.{
  MemoryItem, MemoryError, memory_not_found, memory_permission_denied, consent_denied, value_error,
  Store, Service, commit, log_audit,
}
use campus_agent.Memories.Repository.{
  get_by_id, change_memory, is_kept, is_ahead, list_by_owner, soft_delete,
}
use campus_agent.Memories.Encryption.{
  Fernet, EncryptionService, get_encryption_service, encrypt, decrypt,
}
use campus_agent.Memories.Consent.{check_consent}

pub record CreateMemory : Type 0 where
  pub content : String
  pub agent_id : Option ℕ
  pub category : String
  pub sensitivity_level : Option String
  pub source : Option String
  pub expires_at : Option String

pub record UpdateMemory : Type 0 where
  pub content : Option String
  pub category : Option String
  pub sensitivity_level : Option String
  pub expires_at : Option (Option String)

pub record MemoryRead : Type 0 where
  pub id : ℕ
  pub owner_user_id : ℕ
  pub agent_id : Option ℕ
  pub category : String
  pub sensitivity_level : String
  pub source : String
  pub content : Option String
  pub content_hash : String
  pub encryption_key_version : ℕ
  pub expires_at : Option ℕ
  pub deleted_at : Option ℕ
  pub created_at : ℕ

-- `_memory_to_read`
abbrev pub memory_to_read : MemoryItem → Option String → MemoryRead
memory_to_read m decrypted_content = record {
  id = m.id;
  owner_user_id = m.owner_user_id;
  agent_id = m.agent_id;
  category = m.category;
  sensitivity_level = m.sensitivity_level;
  source = m.source;
  content = decrypted_content;
  content_hash = m.content_hash;
  encryption_key_version = m.encryption_key_version;
  expires_at = m.expires_at;
  deleted_at = m.deleted_at;
  created_at = m.created_at;
}

-- The settings, and what reads dates and scopes in the standard library.
pub record Config : Type 0 where
  pub fernet : Fernet
  pub field_encryption_key : String
  pub fromisoformat : String → Option ℕ
  pub categories : String → Option (List String)

abbrev pub or_default : Option String → String → String
or_default none d = d
or_default (some v) d = v

-- `purpose or "self"`
abbrev or_self : Option String → String
or_self none = "self"
or_self (some v) = if str_eq v "" then "self" else v

abbrev pub drop_deleted : Option MemoryItem → Option MemoryItem
drop_deleted none = none
drop_deleted (some m) = if is_kept m then some m else none

module _ (config : Config) where
  open config use {fernet, field_encryption_key, fromisoformat, categories}

  -- `_parse_datetime`: the value, or none where parsing raises.
  abbrev pub parse_datetime : Option String → Option (Option ℕ)
  parse_datetime none = some none
  parse_datetime (some v) = elim (fromisoformat v) [ none ↦ none | some t ↦ some (some t) ]

  -- The row of a new memory. A null takes the default too: the insert leaves the column out, and the
  -- column has the same default.
  abbrev pub new_memory : ℕ → CreateMemory → ℕ → String → ℕ → Option ℕ → ℕ → MemoryItem
  new_memory user_id body id ciphertext key_version expires_at now = record {
    id = id;
    owner_user_id = user_id;
    agent_id = body.agent_id;
    category = body.category;
    sensitivity_level = or_default body.sensitivity_level "INTERNAL";
    source = or_default body.source "USER_INPUT";
    content_encrypted = ciphertext;
    content_hash = fernet.sha256 body.content;
    encryption_key_version = key_version;
    expires_at = expires_at;
    deleted_at = none;
    created_at = now;
  }

  -- The id and the nonce are drawn at random.
  unfoldable pub create_memory : ℕ → CreateMemory → ℕ → ℕ → Service MemoryRead
  create_memory user_id body id nonce = do
    enc ← get_encryption_service fernet field_encryption_key
    ciphertext ← encrypt fernet enc nonce body.content
    expires_at ← require (λ _. parse_datetime body.expires_at) value_error
    now ← gets (λ s. s.now)
    let memory = new_memory user_id body id ciphertext enc.key_version expires_at now
    modify (λ s. commit (record s { memories = s.memories ++ memory ∷ [] }))
    modify (log_audit user_id "memory_write" id none "SUCCESS")
    return (memory_to_read memory (some body.content))

  -- The owner's branch of `get_memory`.
  abbrev pub read_own : ℕ → MemoryItem → Option String → Service MemoryRead
  read_own user_id memory purpose = do
    enc ← get_encryption_service fernet field_encryption_key
    plaintext ← decrypt fernet enc memory.content_encrypted
    modify (log_audit user_id "memory_read" memory.id (some (or_self purpose)) "SUCCESS")
    return (memory_to_read memory (some plaintext))

  -- The branch of everyone else: the memory without its content.
  abbrev pub read_metadata : ℕ → MemoryItem → ℕ → String → Service MemoryRead
  read_metadata user_id memory agent_id purpose = do
    has_consent ← gets (check_consent categories memory.owner_user_id agent_id purpose none)
    modify (λ s.
        if has_consent
        then s
        else log_audit user_id "memory_read" memory.id (some purpose) "DENIED" s)
    raise_if (not has_consent) consent_denied
    modify (log_audit user_id "memory_read" memory.id (some purpose) "SUCCESS")
    return (memory_to_read memory none)

  abbrev pub read_other : ℕ → MemoryItem → Option ℕ → Option String → Service MemoryRead
  read_other user_id memory (some agent_id) (some purpose) =
      read_metadata user_id memory agent_id purpose
  read_other user_id memory _ _ = raise memory_permission_denied

  unfoldable pub get_memory : ℕ → ℕ → Option ℕ → Option String → Service MemoryRead
  get_memory user_id memory_id agent_id purpose = do
    memory ← require (λ s. drop_deleted (get_by_id memory_id s)) memory_not_found
    (if memory.owner_user_id == user_id
        then read_own user_id memory purpose
        else read_other user_id memory agent_id purpose)

  -- Decrypting failures leave the content out.
  abbrev plaintext_of : EncryptionService → MemoryItem → Option String
  plaintext_of enc m = fernet.fernet_decrypt enc.fernet_key m.content_encrypted

  unfoldable pub list_memories : ℕ → Option String → Service (List MemoryRead × ℕ)
  list_memories user_id category = do
    memories ← gets (list_by_owner user_id category 50)
    now ← gets (λ s. s.now)
    let active_memories = select (λ m. is_ahead now m.expires_at) memories
    enc ← get_encryption_service fernet field_encryption_key
    let items = map (λ m. memory_to_read m (plaintext_of enc m)) active_memories
    return (items, length items)

  -- The owner's memory, or the error.
  abbrev pub owned : ℕ → ℕ → Service MemoryItem
  owned user_id memory_id = do
    memory ← require (λ s. drop_deleted (get_by_id memory_id s)) memory_not_found
    raise_if (not (memory.owner_user_id == user_id)) memory_permission_denied
    return memory

  abbrev with_content : Option String → String → MemoryItem → MemoryItem
  with_content none ciphertext m = m
  with_content (some content) ciphertext m = record m {
    content_encrypted = ciphertext;
    content_hash = fernet.sha256 content;
  }

  abbrev with_expiry : Option (Option ℕ) → MemoryItem → MemoryItem
  with_expiry none m = m
  with_expiry (some t) m = record m { expires_at = t }

  -- The encryption of a new content, if there is one.
  abbrev pub encrypt_new : Option String → ℕ → Service String
  encrypt_new none nonce = return ""
  encrypt_new (some content) nonce = do
    enc ← get_encryption_service fernet field_encryption_key
    encrypt fernet enc nonce content

  abbrev pub parse_new : Option (Option String) → Option (Option (Option ℕ))
  parse_new none = some none
  parse_new (some v) = elim (parse_datetime v) [ none ↦ none | some t ↦ some (some t) ]

  abbrev pub changed : UpdateMemory → String → Option (Option ℕ) → MemoryItem → MemoryItem
  changed body ciphertext expires_at m =
      let m' = with_content body.content ciphertext m in
      with_expiry expires_at (record m' {
        category = or_default body.category m'.category;
        sensitivity_level = or_default body.sensitivity_level m'.sensitivity_level;
      })

  -- The changes are committed before the content is decrypted for the answer.
  unfoldable pub update_memory : ℕ → ℕ → UpdateMemory → ℕ → Service MemoryRead
  update_memory user_id memory_id body nonce = do
    memory ← owned user_id memory_id
    ciphertext ← encrypt_new body.content nonce
    expires_at ← require (λ _. parse_new body.expires_at) value_error
    modify (λ s. commit (change_memory memory_id (changed body ciphertext expires_at) s))
    let memory' = changed body ciphertext expires_at memory
    enc ← get_encryption_service fernet field_encryption_key
    plaintext ← decrypt fernet enc memory'.content_encrypted
    return (memory_to_read memory' (some plaintext))

  unfoldable pub delete_memory : ℕ → ℕ → Service (Unit {0})
  unfolding soft_delete
  delete_memory user_id memory_id = do
    memory ← owned user_id memory_id
    modify (λ s. commit (soft_delete memory_id s))
    modify (log_audit user_id "memory_delete" memory_id none "SUCCESS")
