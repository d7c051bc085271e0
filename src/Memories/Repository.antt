-- ===== src/Memories/Repository.antt =====
-- apps/api/src/modules/memories/repository.py: the conditions and the answers of the queries.
use mathlib.Core.List.{reverse}
use text.Mathlib.Text.{◌==◌ as str_eq}
use campus_agent.Base.{
  ℕ, zero, suc, ◌+◌, Bool, true, false, ◌&&◌, not, Option, none, some, List, [], ◌∷◌, String, ◌==◌,
  ltb, if◌then◌else◌, is_some, find, select, update_first, take,
}
use campus_agent.Base.Sort.{sort_by}
use campus_agent.Memories.Models.{MemoryItem, ConsentStatus, granted, revoked, ConsentRecord, Store}

unfoldable pub get_by_id : ℕ → Store → Option MemoryItem
get_by_id id s = find (λ m. m.id == id) s.memories

abbrev pub change_memory : ℕ → (MemoryItem → MemoryItem) → Store → Store
change_memory id f s = record s { memories = update_first (λ m. m.id == id) f s.memories }

-- `if category:` is false of the empty text too.
abbrev pub in_category : Option String → MemoryItem → Bool
in_category none m = true
in_category (some c) m = if str_eq c "" then true else str_eq m.category c

abbrev pub is_kept : MemoryItem → Bool
is_kept m = not (is_some m.deleted_at)

-- The newest first.
unfoldable pub list_by_owner : ℕ → Option String → ℕ → Store → List MemoryItem
list_by_owner owner_id category limit s = take limit (
    reverse (
      sort_by (λ m. m.created_at)
        (select (λ m. m.owner_user_id == owner_id && (is_kept m && in_category category m))
          s.memories)))

abbrev pub deleted : ℕ → MemoryItem → MemoryItem
deleted now m = record m { deleted_at = some now }

unfoldable pub soft_delete : ℕ → Store → Store
soft_delete id s = change_memory id (deleted s.now) s

abbrev pub is_past : ℕ → Option ℕ → Bool
is_past now none = false
is_past now (some t) = ltb t now

-- The condition of `get_expired`.
abbrev pub has_expired : ℕ → MemoryItem → Bool
has_expired now m = is_past now m.expires_at && is_kept m

abbrev pub is_granted : ConsentStatus → Bool
is_granted granted = true
is_granted revoked = false

abbrev pub is_ahead : ℕ → Option ℕ → Bool
is_ahead now none = true
is_ahead now (some t) = ltb now t

-- The consent is for this agent and purpose, and neither revoked nor expired.
abbrev pub is_active : ℕ → ℕ → ℕ → String → ConsentRecord → Bool
is_active now grantor_id agent_id purpose c =
    c.grantor_user_id == grantor_id
    && (c.grantee_agent_id == agent_id
        && (str_eq c.purpose purpose
            && (is_granted c.status && (not (is_some c.revoked_at) && is_ahead now c.expires_at))))

unfoldable pub get_active : ℕ → ℕ → String → Store → Option ConsentRecord
get_active grantor_id agent_id purpose s =
    find (is_active s.now grantor_id agent_id purpose) s.consents

unfoldable pub get_consent : ℕ → Store → Option ConsentRecord
get_consent id s = find (λ c. c.id == id) s.consents

unfoldable pub list_by_grantor : ℕ → Store → List ConsentRecord
list_by_grantor grantor_id s =
    reverse (sort_by (λ c. c.created_at) (select (λ c. c.grantor_user_id == grantor_id) s.consents))

abbrev pub revoke_row : ℕ → ConsentRecord → ConsentRecord
revoke_row now c = record c { status = revoked; revoked_at = some now }

unfoldable pub revoke : ℕ → Store → Store
revoke id s = record s { consents = update_first (λ c. c.id == id) (revoke_row s.now) s.consents }

-- The rows that `get_expired` lists, at most `limit`, each soft-deleted, with their number.
unfoldable pub soft_delete_expired : ℕ → ℕ → List MemoryItem → ℕ × List MemoryItem
soft_delete_expired now limit [] = (0, [])
soft_delete_expired now zero (m ∷ rest) = (0, m ∷ rest)
soft_delete_expired now (suc limit) (m ∷ rest) =
    let hit = soft_delete_expired now limit rest in
    let miss = soft_delete_expired now (suc limit) rest in
    if has_expired now m then (hit.0 + 1, deleted now m ∷ hit.1) else (miss.0, m ∷ miss.1)

abbrev pub is_revoked_consent : ConsentRecord → Bool
is_revoked_consent c = not (is_granted c.status) && is_some c.revoked_at

unfoldable pub get_revoked_consent_cleanup_candidates : ℕ → Store → List ConsentRecord
get_revoked_consent_cleanup_candidates limit s = take limit (select is_revoked_consent s.consents)
