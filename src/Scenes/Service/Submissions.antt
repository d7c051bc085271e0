-- ===== src/Scenes/Service/Submissions.antt =====
-- apps/api/src/modules/scenes/service.py: private submissions. What the code takes from elsewhere is
-- the record `Codec`: Fernet encryption and hashing of the raw preferences, the JSON of a capsule,
-- and the plugin's own validation of the preferences.
pub mod Deletion
pub mod Privacy
use campus_agent.Base.{
  ℕ, ◌+◌, Bool, true, false, not, ◌&&◌, Option, none, some, List, [], ◌∷◌, String, if◌then◌else◌,
  is_some,
}
use campus_agent.Base.Action.{◌>>=◌, ◌>>◌, return, raise, gets, require, raise_if, modify, Action}
use campus_agent.Scenes.StateMachine.{SceneState, collecting_private_input, state_eq}
use campus_agent.Scenes.Models.{
  SceneInstance, SceneParticipant, PrivateSubmission, scene_not_found, state_transition,
  consent_required, submission_invalid, value_error, integrity_error, Store, Service, commit,
  log_audit, is_accepted,
}
use campus_agent.Scenes.Repository.{
  get_by_id, get_participant, get_for_owner, change_submission, add_submission, is_taken,
}

-- `P` are the raw preferences and `C` the capsules made of them.
pub record Codec (P C : Type 0) : Type 0 where
  pub registered : String → String → Bool  -- the registry has the plugin of a key and a version
  pub validates : P → Bool  -- `plugin.validate_private_submission` does not raise
  pub build_private_capsule : P → C
  pub capsule_allowed : C → Bool  -- `validate_capsule` does not raise
  pub encrypt_payload : P → String
  pub hash_payload : P → String
  pub capsule_to_json : C → String

-- 24 hours, in seconds.
abbrev pub default_submission_expiry : ℕ
default_submission_expiry = 86400

abbrev pub consents : Option SceneParticipant → Bool
consents none = false
consents (some p) = is_accepted p.status

-- The part of the reply that the store determines: no raw content.
pub record SubmissionReply : Type 0 where
  pub submission_status : String
  pub capsule_generated : Bool
  pub expires_at : Option ℕ

pub record SubmissionStatus : Type 0 where
  pub has_submitted : Bool
  pub expires_at : Option ℕ
  pub capsule_generated : Bool

-- What `create_memory` and the commit after it do to this store: the row of the memory itself, which
-- holds the capsule, goes into the table of the memories module.
abbrev pub save_memory : ℕ → Store → Store
save_memory user_id s = commit (log_audit user_id "memory_write" (commit s))

module _ {P C : Type 0} (codec : Codec P C) where
  open codec use {
    registered, validates, build_private_capsule, capsule_allowed, encrypt_payload, hash_payload,
    capsule_to_json,
  }

  -- A row with what a submission of `preferences` at the time `now` stores in it.
  unfoldable pub filled : P → ℕ → PrivateSubmission → PrivateSubmission
  filled preferences now p = record p {
    encrypted_payload = encrypt_payload preferences;
    capsule_json = some (capsule_to_json (build_private_capsule preferences));
    payload_hash = hash_payload preferences;
    expires_at = some (now + default_submission_expiry);
    deleted_at = none;
  }

  unfoldable pub first_submission : ℕ → ℕ → P → ℕ → PrivateSubmission
  unfolding filled
  first_submission instance_id user_id preferences now = filled preferences now (record {
    scene_instance_id = instance_id;
    user_id = user_id;
    encrypted_payload = "";
    capsule_json = none;
    payload_hash = "";
    expires_at = none;
    deleted_at = none;
  })

  -- `save` is `save_to_long_term_memory`.
  unfoldable pub submit_private_preferences : ℕ → ℕ → P → Bool → Service SubmissionReply
  submit_private_preferences user_id instance_id preferences save = do
    instance_row ← require (get_by_id instance_id) scene_not_found
    raise_if (not (state_eq instance_row.status collecting_private_input)) state_transition
    participant ← gets (get_participant instance_id user_id)
    raise_if (not (consents participant)) consent_required
    raise_if (not (registered instance_row.scene_key instance_row.version_key)) scene_not_found
    raise_if (not (validates preferences)) submission_invalid
    raise_if (not (capsule_allowed (build_private_capsule preferences))) value_error
    now ← gets (λ s. s.now)
    existing ← gets (get_for_owner instance_id user_id)
    taken ← gets (is_taken instance_id user_id)
    raise_if (not (is_some existing) && taken) integrity_error
    modify (
        if is_some existing
        then change_submission instance_id user_id (filled preferences now)
        else add_submission (first_submission instance_id user_id preferences now))
    modify commit
    modify (log_audit user_id "scene_submit_private")
    modify (λ s. if save then save_memory user_id s else s)
    return (record {
      submission_status = "ACCEPTED";
      capsule_generated = true;
      expires_at = some (now + default_submission_expiry);
    })

unfoldable pub get_submission_status : ℕ → ℕ → Service SubmissionStatus
get_submission_status user_id instance_id = gets (λ s. elim (get_for_owner instance_id user_id s) [
  | none ↦ record { has_submitted = false; expires_at = none; capsule_generated = false }
  | some p ↦ record {
    has_submitted = true;
    expires_at = p.expires_at;
    capsule_generated = is_some p.capsule_json;
  }
])

-- `soft_delete` keeps the payload.
unfoldable pub delete_submission : ℕ → ℕ → Service (Unit {0})
delete_submission user_id instance_id = do
  require (get_for_owner instance_id user_id) scene_not_found
  now ← gets (λ s. s.now)
  modify (change_submission instance_id user_id (λ p. record p { deleted_at = some now }))
  modify commit
  modify (log_audit user_id "scene_delete_submission")
