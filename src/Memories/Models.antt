-- ===== src/Memories/Models.antt =====
-- apps/api/src/modules/memories/models.py and exceptions.py, and the audit rows of
-- modules/audit/service.py: rows, errors and the store. `updated_at` and the request id of an audit
-- row are left out: nothing reads them but the answer.
use campus_agent.Base.{ℕ, Option, List, [], ◌∷◌, ◌++◌, String}
use campus_agent.Base.Action.{Action}

pub record MemoryItem : Type 0 where
  pub id : ℕ
  pub owner_user_id : ℕ
  pub agent_id : Option ℕ
  pub category : String
  pub sensitivity_level : String
  pub source : String
  pub content_encrypted : String
  pub content_hash : String
  pub encryption_key_version : ℕ
  pub expires_at : Option ℕ
  pub deleted_at : Option ℕ
  pub created_at : ℕ

pub data ConsentStatus : Type 0 where
  granted revoked : ConsentStatus

pub record ConsentRecord : Type 0 where
  pub id : ℕ
  pub grantor_user_id : ℕ
  pub grantee_agent_id : ℕ
  pub purpose : String
  pub scope_json : Option String
  pub status : ConsentStatus
  pub granted_at : ℕ
  pub expires_at : Option ℕ
  pub revoked_at : Option ℕ
  pub memory_id : Option ℕ
  pub created_at : ℕ

pub data MemoryError : Type 0 where
  memory_not_found memory_permission_denied : MemoryError
  consent_not_found consent_denied : MemoryError
  encryption_key_missing encryption_failed decryption_failed : MemoryError
  value_error : MemoryError  -- of `datetime.fromisoformat`

pub record AuditLog : Type 0 where
  pub actor_id : ℕ
  pub action : String
  pub resource_id : ℕ
  pub purpose : Option String
  pub result : String

-- The tables, the audit rows that are flushed and not yet committed, and the clock.
pub record Store : Type 0 where
  pub memories : List MemoryItem
  pub consents : List ConsentRecord
  pub audits : List AuditLog
  pub pending_audits : List AuditLog
  pub now : ℕ

abbrev pub Service : Type 0 → Type 0
Service A = Action Store MemoryError A

-- `session.commit()`, as far as it is seen by the rows that were only flushed.
abbrev pub commit : Store → Store
commit s = record s { audits = s.audits ++ s.pending_audits; pending_audits = [] }

-- `log_audit` adds a row and flushes; the caller has to commit.
abbrev pub log_audit : ℕ → String → ℕ → Option String → String → Store → Store
log_audit actor_id action resource_id purpose result s = record s {
  pending_audits =
      s.pending_audits
      ++ (record {
        actor_id = actor_id;
        action = action;
        resource_id = resource_id;
        purpose = purpose;
        result = result;
      })
        ∷ [];
}
