-- ===== src/Memories/Consent.antt =====
-- apps/api/src/modules/memories/consent.py: consents are granted, checked, revoked and listed. JSON
-- is a parameter.
pub mod Reachable
use mathlib.Core.List.{map}
use text.Mathlib.Text.{◌==◌ as str_eq}
use campus_agent.Base.{
  ℕ, Bool, true, false, ◌&&◌, ◌||◌, not, Option, none, some, List, [], ◌∷◌, ◌++◌, String, ◌==◌,
  if◌then◌else◌, any, length,
}
use campus_agent.Base.Action.{
  Result, ok, err, ◌>>=◌, ◌>>◌, return, raise, gets, modify, require, raise_if, when,
}
use campus_agent.Memories.Models.{
  ConsentStatus, ConsentRecord, granted, consent_not_found, Store, Service, commit, log_audit,
}
use campus_agent.Memories.Repository.{get_active, get_consent, list_by_grantor, revoke}

-- The scope of a consent allows a category.
abbrev in_scope : Option (List String) → String → Bool
in_scope none category = true
in_scope (some []) category = true
in_scope (some (c ∷ cs)) category = any (λ d. str_eq d category) (c ∷ cs)

abbrev scope_allows : (String → Option (List String)) → Option String → Option String → Bool
scope_allows categories (some category) (some scope) =
    if str_eq category "" || str_eq scope "" then true else in_scope (categories scope) category
scope_allows categories _ _ = true

abbrev covers : (String → Option (List String)) → Option String → Option ConsentRecord → Bool
covers categories category none = false
covers categories category (some c) = scope_allows categories category c.scope_json

-- `categories` reads a scope: the list under "category" of the JSON text, if it has one.
unfoldable pub check_consent :
    (String → Option (List String)) → ℕ → ℕ → String → Option String → Store → Bool
check_consent categories grantor_id agent_id purpose category s =
    covers categories category (get_active grantor_id agent_id purpose s)

-- `json.dumps`, `json.loads` and the truth of a value.
pub record Json (J : Type 0) : Type 0 where
  pub is_truthy : J → Bool
  pub dumps : J → String
  pub loads : String → J

pub record ConsentRead (J : Type 0) : Type 0 where
  pub id : ℕ
  pub grantor_user_id : ℕ
  pub grantee_agent_id : ℕ
  pub purpose : String
  pub scope : Option J
  pub status : ConsentStatus
  pub granted_at : ℕ
  pub expires_at : Option ℕ
  pub revoked_at : Option ℕ

unfoldable pub revoke_consent : ℕ → ℕ → Service (Unit {0})
unfolding revoke
revoke_consent grantor_id consent_id = do
  consent ← require (get_consent consent_id) consent_not_found
  raise_if (not (consent.grantor_user_id == grantor_id)) consent_not_found
  modify (λ s. commit (revoke consent_id s))
  modify (log_audit grantor_id "consent_revoke" consent_id (some consent.purpose) "SUCCESS")

module _ {J : Type 0} (json : Json J) where
  open json use {is_truthy, dumps, loads}

  abbrev stored_scope : Option J → Option String
  stored_scope none = none
  stored_scope (some v) = if is_truthy v then some (dumps v) else none

  abbrev read_scope : Option String → Option J
  read_scope none = none
  read_scope (some text) = if str_eq text "" then none else some (loads text)

  -- `_consent_to_read`
  abbrev pub consent_to_read : ConsentRecord → ConsentRead J
  consent_to_read c = record {
    id = c.id;
    grantor_user_id = c.grantor_user_id;
    grantee_agent_id = c.grantee_agent_id;
    purpose = c.purpose;
    scope = read_scope c.scope_json;
    status = c.status;
    granted_at = c.granted_at;
    expires_at = c.expires_at;
    revoked_at = c.revoked_at;
  }

  abbrev pub consent_row : ℕ → ℕ → String → Option J → Option ℕ → Option ℕ → ℕ → ℕ → ConsentRecord
  consent_row grantor_id agent_id purpose scope expires_at memory_id id now = record {
    id = id;
    grantor_user_id = grantor_id;
    grantee_agent_id = agent_id;
    purpose = purpose;
    scope_json = stored_scope scope;
    status = granted;
    granted_at = now;
    expires_at = expires_at;
    revoked_at = none;
    memory_id = memory_id;
    created_at = now;
  }

  -- The branch of `grant_consent` where no consent is active; the id is drawn at random.
  abbrev pub new_consent :
      ℕ → ℕ → String → Option J → Option ℕ → Option ℕ → ℕ → Service (ConsentRead J)
  new_consent grantor_id agent_id purpose scope expires_at memory_id id = do
    now ← gets (λ s. s.now)
    let consent = consent_row grantor_id agent_id purpose scope expires_at memory_id id now
    modify (λ s. commit (record s { consents = s.consents ++ consent ∷ [] }))
    modify (log_audit grantor_id "consent_grant" id (some purpose) "SUCCESS")
    return (consent_to_read consent)

  unfoldable pub grant_consent :
      ℕ → ℕ → String → Option J → Option ℕ → Option ℕ → ℕ → Service (ConsentRead J)
  grant_consent grantor_id agent_id purpose scope expires_at memory_id id = do
    existing ← gets (get_active grantor_id agent_id purpose)
    elim existing [
      | some consent ↦ return (consent_to_read consent)
      | none ↦ new_consent grantor_id agent_id purpose scope expires_at memory_id id
    ]

  unfoldable pub list_consents : ℕ → Service (List (ConsentRead J) × ℕ)
  list_consents grantor_id = do
    consents ← gets (list_by_grantor grantor_id)
    return (map consent_to_read consents, length consents)
