-- ===== src/Scenes/Models.antt =====
-- apps/api/src/modules/scenes/models.py, events.py and exceptions.py: the rows of a scene, the store
-- of its services, the events and the errors. A UUID is a number and a time is a number; columns
-- that no operation modelled here reads (`created_at`, `updated_at`, `consent_record_id`), surrogate
-- keys that nothing refers to, and the time and random id of an event are left out.
use campus_agent.Base.{ℕ, Bool, Option, List, [], ◌∷◌, ◌++◌, String, true, false, is_some, not}
use campus_agent.Base.Action.{Action}
use campus_agent.Scenes.StateMachine.{SceneState}

pub data ParticipantStatus : Type 0 where
  invited accepted declined left : ParticipantStatus

pub data CandidateStatus : Type 0 where
  pending active eliminated selected : CandidateStatus

pub data VoteValue : Type 0 where
  approve reject abstain : VoteValue

-- The states are those of the state machine; the chat dinner stores two other texts, and is not
-- modelled.
pub record SceneInstance : Type 0 where
  pub id : ℕ
  pub scene_key : String
  pub version_key : String  -- the version of its definition
  pub conversation_id : Option ℕ
  pub organization_id : Option ℕ
  pub created_by : ℕ
  pub status : SceneState
  pub current_phase : SceneState
  pub public_context_json : Option String
  pub version : ℕ
  pub expires_at : Option ℕ
  pub completed_at : Option ℕ
  pub cancelled_at : Option ℕ
  pub failed_reason_code : Option String

pub record SceneParticipant : Type 0 where
  pub scene_instance_id : ℕ
  pub user_id : ℕ
  pub status : ParticipantStatus
  pub is_creator : Bool
  pub joined_at : Option ℕ

pub record PrivateSubmission : Type 0 where
  pub scene_instance_id : ℕ
  pub user_id : ℕ
  pub encrypted_payload : String
  pub capsule_json : Option String
  pub payload_hash : String
  pub expires_at : Option ℕ
  pub deleted_at : Option ℕ

-- A score is kept in millionths: it is rounded to six places before it is stored.
pub record SceneCandidate : Type 0 where
  pub id : ℕ
  pub scene_instance_id : ℕ
  pub candidate_key : String
  pub display_name : String
  pub public_metadata_json : Option String
  pub aggregate_score : ℕ
  pub public_reason : String
  pub status : CandidateStatus
  pub rank : ℕ

pub record SceneVote : Type 0 where
  pub scene_instance_id : ℕ
  pub user_id : ℕ
  pub candidate_id : ℕ
  pub vote_value : VoteValue
  pub idempotency_key : Option String

pub record SceneResult : Type 0 where
  pub scene_instance_id : ℕ
  pub selected_candidate_id : Option ℕ
  pub public_summary : String
  pub participant_count : ℕ
  pub submitted_count : ℕ

-- The fields of each event, in the order in which events.py declares them.
pub data SceneEvent : Type 0 where
  phase_changed : ℕ → SceneState → SceneState → ℕ → ℕ → SceneEvent
  candidate_ready : ℕ → ℕ → SceneEvent
  completed : ℕ → Bool → ℕ → ℕ → SceneEvent
  cancelled : ℕ → ℕ → SceneEvent
  expired : ℕ → SceneEvent
  failed : ℕ → String → SceneEvent
  private_data_cleaned : ℕ → ℕ → SceneEvent

pub data SceneError : Type 0 where
  scene_not_found state_transition permission_denied consent_required : SceneError
  submission_invalid plugin_error value_error : SceneError
  integrity_error : SceneError  -- the database's, not caught by the services

-- A row of the audit log: who did what.
pub record AuditLog : Type 0 where
  pub actor_id : ℕ
  pub action : String

-- The tables, the audit rows that are flushed and not yet committed, the events published so far
-- and the clock that `utc_now` reads.
pub record Store : Type 0 where
  pub instances : List SceneInstance
  pub participants : List SceneParticipant
  pub submissions : List PrivateSubmission
  pub candidates : List SceneCandidate
  pub votes : List SceneVote
  pub results : List SceneResult
  pub audits : List AuditLog
  pub pending_audits : List AuditLog
  pub events : List SceneEvent
  pub now : ℕ

abbrev pub Service : Type 0 → Type 0
Service A = Action Store SceneError A

-- `session.commit()`, as far as it is seen by the rows that were only flushed.
abbrev pub commit : Store → Store
commit s = record s { audits = s.audits ++ s.pending_audits; pending_audits = [] }

-- The end of the request: the session is closed, and what is not committed is lost.
abbrev pub close_session : Store → Store
close_session s = record s { pending_audits = [] }

-- `log_audit` adds a row and flushes; the caller has to commit.
abbrev pub log_audit : ℕ → String → Store → Store
log_audit actor_id action s = record s {
  pending_audits = s.pending_audits ++ (record { actor_id = actor_id; action = action }) ∷ [];
}

abbrev pub publish : SceneEvent → Store → Store
publish e s = record s { events = s.events ++ e ∷ [] }

abbrev pub is_invited : ParticipantStatus → Bool
is_invited ParticipantStatus.invited = true
is_invited _ = false

abbrev pub is_accepted : ParticipantStatus → Bool
is_accepted ParticipantStatus.accepted = true
is_accepted _ = false

-- `deleted_at IS NULL`
abbrev pub is_live : PrivateSubmission → Bool
is_live p = not (is_some p.deleted_at)
