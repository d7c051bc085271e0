-- ===== src/Memories/Service/Reading.antt =====
-- Who sees the content of a memory.
use mathlib.Core.Path.{subst}
use text.Mathlib.Text.{◌==◌ as str_eq}
use campus_agent.Base.{
  ℕ, ◌≡◌, refl, sym, true, false, Option, none, some, String, ◌==◌, arith, inl, inr, Option-cases,
  Bool-cases,
}
use campus_agent.Base.Action.{ok}
use campus_agent.Memories.Models.{MemoryItem, Store}
use campus_agent.Memories.Repository.{get_by_id}
use campus_agent.Memories.Consent.{check_consent}
use campus_agent.Memories.Service.{
  MemoryRead, Config, drop_deleted, get_memory, read_own, read_metadata, read_other,
}

module _ (config : Config) where
  read_metadata-hides :
      (user_id agent_id : ℕ) (m : MemoryItem) (purpose : String) (s : Store) (r : MemoryRead)
      → (read_metadata config user_id m agent_id purpose s).0 ≡ ok r
      → (r.content ≡ none)
        × (r.owner_user_id ≡ m.owner_user_id)
        × (check_consent config.categories m.owner_user_id agent_id purpose none s ≡ true)
  read_metadata-hides user_id agent_id m purpose s r h =
      elim (Bool-cases (check_consent config.categories m.owner_user_id agent_id purpose none s)) [
        | inl e ↦ (ground arith, ground arith, e)
        | inr e ↦ absurd (ground arith)
      ]

  read_own-owner :
      (user_id : ℕ) (m : MemoryItem) (purpose : Option String) (s : Store) (r : MemoryRead)
      → (read_own config user_id m purpose s).0 ≡ ok r
      → r.owner_user_id ≡ m.owner_user_id
  read_own-owner user_id m purpose s r h =
      elim (Bool-cases (str_eq config.field_encryption_key "")) [
        | inl e ↦ absurd (ground arith)
        | inr e ↦
            elim (Option-cases
              (fernet_decrypt (derive_key config.field_encryption_key) m.content_encrypted)) [
                | inl e' ↦ absurd (ground arith)
                | inr (plaintext, e') ↦ ground arith
              ]
      ]
    where
      open config.fernet use {fernet_decrypt, derive_key}

  -- What a reader who is not the owner gets.
  Metadata : ℕ → Option ℕ → Option String → Store → MemoryRead → Type 0
  Metadata owner agent_id purpose s r =
      (r.content ≡ none)
      × (r.owner_user_id ≡ owner)
      × (agent : ℕ) × (reason : String) × (agent_id ≡ some agent)
      × (purpose ≡ some reason)
      × (check_consent config.categories owner agent reason none s ≡ true)

  read_other-hides :
      (user_id : ℕ) (m : MemoryItem) (agent_id : Option ℕ) (purpose : Option String) (s : Store)
      (r : MemoryRead)
      → (read_other config user_id m agent_id purpose s).0 ≡ ok r
      → Metadata m.owner_user_id agent_id purpose s r
  unfolding Metadata
  read_other-hides user_id m (some agent) (some reason) s r h =
      let (content, owner, consent) = read_metadata-hides user_id agent m reason s r h in
      (content, owner, agent, reason, refl, refl, consent)
  read_other-hides user_id m none purpose s r h = absurd (ground arith)
  read_other-hides user_id m (some agent) none s r h = absurd (ground arith)

  -- Whoever reads a memory of someone else has named an agent and a purpose for which the owner's
  -- consent is active, and gets it without its content.
  pub get_memory-owner_only :
      (user_id memory_id : ℕ) (agent_id : Option ℕ) (purpose : Option String) (s : Store)
      (r : MemoryRead)
      → (get_memory config user_id memory_id agent_id purpose s).0 ≡ ok r
      → (r.owner_user_id == user_id) ≡ false
      → (r.content ≡ none)
        × (agent : ℕ) × (reason : String) × (agent_id ≡ some agent)
        × (purpose ≡ some reason)
        × (check_consent config.categories r.owner_user_id agent reason none s ≡ true)
  unfolding get_memory Metadata
  get_memory-owner_only user_id memory_id agent_id purpose s r h other =
      elim (Option-cases (drop_deleted (get_by_id memory_id s))) [
        | inl e ↦ absurd (ground arith)
        | inr (m, e) ↦ elim (Bool-cases (m.owner_user_id == user_id)) [
          | inl own ↦
              let answer : (read_own config user_id m purpose s).0 ≡ ok r = ground arith in
              absurd (ground (arith, read_own-owner user_id m purpose s r answer))
          | inr not_own ↦
              let answer : (read_other config user_id m agent_id purpose s).0 ≡ ok r =
                ground arith in
              let (content, owner, agent, reason, a, p, consent) =
                read_other-hides user_id m agent_id purpose s r answer in
              (
                content,
                agent,
                reason,
                a,
                p,
                subst (λ z. check_consent config.categories z agent reason none s ≡ true)
                    (sym owner) consent,
              )
        ]
      ]
