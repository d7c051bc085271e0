-- ===== src/Scenes/Tests.antt =====
-- Two scenes of a dormitory, and what the theorems on scenes say of them.
use campus_agent.Base.{
  ◌+◌, Option, select, ℕ, ◌≡◌, refl, none, some, List, [], ◌∷◌, String, arith, count_if, find, any,
  Bool, true, false,
}
use campus_agent.Base.Action.{ok, err}
use campus_agent.Scenes.StateMachine.Runs.{run}
use campus_agent.Scenes.StateMachine.{
  SceneAction, SceneState, start_processing, voting, collecting_private_input, cancel, cancelled,
  is_terminal,
}
use campus_agent.Scenes.Models.{
  SceneInstance, SceneParticipant, ParticipantStatus, PrivateSubmission, SceneCandidate,
  CandidateStatus, SceneVote, VoteValue, integrity_error, Store,
}
use campus_agent.Scenes.Repository.{
  get_by_id, get_participant, get_candidate, get_vote, get_for_owner, is_taken, count_submissions,
}
use campus_agent.Scenes.Service.Submissions.{
  Codec, SubmissionReply, submit_private_preferences, delete_submission,
}
use campus_agent.Scenes.Service.Submissions.Deletion.{HasUniqueSubmissions}
use campus_agent.Scenes.Service.Submissions.Privacy.{may_submit, submit-stored, submit-after_delete}
use campus_agent.Scenes.Service.Voting.{cast_vote, parse_vote_value}
use campus_agent.Scenes.Service.Voting.Ballots.{HasUniqueVotes, may_vote, cast_vote-recorded}
use campus_agent.Scenes.Service.AuditTrail.{
  Operation, transition, delete, submit, vote, request, request-audits,
}
use campus_agent.Scenes.Service.History.{replay}
use campus_agent.Scenes.Service.Uniqueness.{replay-HasUniqueVotes}
use campus_agent.Scenes.Cleanup.{cleanup_private_data}
use campus_agent.Scenes.Cleanup.Purge.{
  the_row, holds_private, was_deleted, is_elsewhere, cleanup_private_data-purges,
}
use campus_agent.Scenes.Coordinator.{Plugin}
use campus_agent.Scenes.Calls.{Call, serve, generate_for, sweep, purge, purge_old, wait, run_calls}
use campus_agent.Scenes.Calls.Machine.{run_calls-follows_machine, run_calls-keeps_terminal}
use campus_agent.Scenes.Calls.Deleted.{delete_submission-payload_stays}

abbrev scene : ℕ → SceneState → SceneInstance
scene id status = record {
  id = id;
  scene_key = "dorm_dinner";
  version_key = "1.0.0";
  conversation_id = none;
  organization_id = none;
  created_by = 1;
  status = status;
  current_phase = status;
  public_context_json = none;
  version = 3;
  expires_at = some 50;
  completed_at = none;
  cancelled_at = none;
  failed_reason_code = none;
}

abbrev participant : ℕ → ℕ → Bool → SceneParticipant
participant id user_id is_creator = record {
  scene_instance_id = id;
  user_id = user_id;
  status = ParticipantStatus.accepted;
  is_creator = is_creator;
  joined_at = some 10;
}

abbrev submission : ℕ → PrivateSubmission
submission user_id = record {
  scene_instance_id = 7;
  user_id = user_id;
  encrypted_payload = "ciphertext";
  capsule_json = some "capsule";
  payload_hash = "hash";
  expires_at = some 90;
  deleted_at = none;
}

abbrev noodles : SceneCandidate
noodles = record {
  id = 31;
  scene_instance_id = 8;
  candidate_key = "noodles";
  display_name = "Noodles";
  public_metadata_json = none;
  aggregate_score = 800000;
  public_reason = "within budget";
  status = CandidateStatus.active;
  rank = 1;
}

abbrev ballot : ℕ → SceneVote
ballot user_id = record {
  scene_instance_id = 8;
  user_id = user_id;
  candidate_id = 31;
  vote_value = VoteValue.approve;
  idempotency_key = none;
}

-- Scene 7 collects preferences and user 2 has submitted; in scene 8 user 2 has voted.
abbrev dormitory : Store
dormitory = record {
  instances = scene 7 collecting_private_input ∷ scene 8 voting ∷ [];
  participants =
      participant 7 1 true
      ∷ participant 7 2 false
      ∷ participant 8 1 true
      ∷ participant 8 2 false
      ∷ [];
  submissions = submission 2 ∷ [];
  candidates = noodles ∷ [];
  votes = ballot 2 ∷ [];
  results = [];
  audits = [];
  pending_audits = [];
  events = [];
  now = 100;
}

-- Preferences that are already text, and are valid if there are any.
abbrev text_codec : Codec String String
text_codec = record {
  registered = λ _ _. true;
  validates = λ _. true;
  build_private_capsule = λ p. p;
  capsule_allowed = λ _. true;
  encrypt_payload = λ _. "ciphertext 2";
  hash_payload = λ _. "hash 2";
  capsule_to_json = λ _. "capsule 2";
}

dormitory-HasUniqueSubmissions : HasUniqueSubmissions dormitory
unfolding count_if
dormitory-HasUniqueSubmissions id user_id = ground arith

abbrev accepted_reply : SubmissionReply
accepted_reply = record {
  submission_status = "ACCEPTED";
  capsule_generated = true;
  expires_at = some 86500;
}

submit-stored_example :
    (may_submit text_codec 1 7 "no nuts" dormitory ≡ true)
    × ((p : PrivateSubmission) × (get_for_owner 7 1
            (submit_private_preferences text_codec 1 7 "no nuts" true dormitory).1
          ≡ some p)
        × (p.encrypted_payload ≡ "ciphertext 2")
        × (p.expires_at ≡ some 86500))
unfolding submit_private_preferences get_by_id get_participant get_for_owner find is_taken any
submit-stored_example = submit-stored text_codec 1 7 "no nuts" true dormitory accepted_reply refl

submit-after_delete_example :
    submit_private_preferences text_codec 2 7 "no nuts" true (delete_submission 2 7 dormitory).1
    ≡ (err integrity_error, (delete_submission 2 7 dormitory).1)
unfolding may_submit delete_submission get_by_id get_participant get_for_owner find
submit-after_delete_example =
    submit-after_delete text_codec 2 7 "no nuts" true dormitory (submission 2)
      dormitory-HasUniqueSubmissions refl refl

dormitory-HasUniqueVotes : HasUniqueVotes dormitory
unfolding count_if
dormitory-HasUniqueVotes id user_id = ground arith

cast_vote-recorded_example :
    (may_vote 1 8 31 dormitory ≡ true)
    × ((ballot 1).candidate_id ≡ 31)
    × (get_vote 8 1 (cast_vote 1 8 31 "APPROVE" none dormitory).1 ≡ some (ballot 1))
unfolding cast_vote parse_vote_value get_by_id get_participant get_candidate find
cast_vote-recorded_example = cast_vote-recorded 1 8 31 "APPROVE" none dormitory (ballot 1) refl

cleanup_private_data-purges_example :
    ((cleanup_private_data 7 dormitory).0 ≡ ok (count_submissions 7 dormitory))
    × (count_submissions 7 (cleanup_private_data 7 dormitory).1 ≡ 0)
    × (select (holds_private 7) (cleanup_private_data 7 dormitory).1.submissions
        ≡ select (was_deleted 7) dormitory.submissions)
    × (select (is_elsewhere 7) (cleanup_private_data 7 dormitory).1.submissions
        ≡ select (is_elsewhere 7) dormitory.submissions)
cleanup_private_data-purges_example = cleanup_private_data-purges 7 dormitory

request-audits_example :
    ((request text_codec (vote 2 8 31 "REJECT" none) dormitory).audits ≡ [])
    × ((request text_codec (vote 2 8 31 "REJECT" none) dormitory).pending_audits ≡ [])
request-audits_example = request-audits text_codec (vote 2 8 31 "REJECT" none) dormitory refl refl

abbrev requests : List (Operation String)
requests =
    submit 1 7 "no nuts" false ∷ transition 1 7 cancel ∷ delete 2 7 ∷ vote 2 8 31 "REJECT" none ∷ []

-- The requests with a generation that fails, a sweep and the purges between them.
abbrev calls : List (Call String)
calls =
    serve (submit 1 7 "no nuts" true)
    ∷ wait 1000
    ∷ sweep
    ∷ serve (transition 1 7 start_processing)
    ∷ generate_for (λ n. 40 + n) 7
    ∷ purge 7
    ∷ wait 100000
    ∷ purge_old 100
    ∷ serve (delete 2 7)
    ∷ []

-- A plugin that raises.
abbrev broken : Plugin String String
broken = record {
  generate_candidates = λ _ _. none;
  evaluate_candidate_privately = λ _ _. none;
  aggregate_results = λ _ _. none;
  build_public_result = λ _ _. none;
}

abbrev registry : String → String → Option (Plugin String String)
registry key version = some broken

run_calls-follows_machine_example :
    (j : SceneInstance) × (actions : List SceneAction) × (get_by_id 7
        (run_calls text_codec registry (λ text. some text) calls dormitory)
      ≡ some j)
    × (run collecting_private_input actions ≡ some j.status)
unfolding get_by_id find count_if
run_calls-follows_machine_example =
    run_calls-follows_machine text_codec registry (λ text. some text) calls dormitory 7
      (scene 7 collecting_private_input) (omega arith) refl

-- The dormitory after its first scene has been cancelled.
abbrev cancelled_dormitory : Store
cancelled_dormitory = record dormitory { instances = scene 7 cancelled ∷ scene 8 voting ∷ [] }

run_calls-keeps_terminal_example :
    (j : SceneInstance) × (get_by_id 7
        (run_calls text_codec registry (λ text. some text) calls cancelled_dormitory)
      ≡ some j)
    × (j.status ≡ cancelled)
unfolding get_by_id find is_terminal count_if
run_calls-keeps_terminal_example =
    run_calls-keeps_terminal text_codec registry (λ text. some text) calls cancelled_dormitory 7
      (scene 7 cancelled) (omega arith) refl refl

delete_submission-payload_stays_example :
    ((delete_submission 2 7 dormitory).0 ≡ ok tt)
    × (the_row 7 2 (
          run_calls text_codec registry
            (λ text. some text)
            calls
            (delete_submission 2 7 dormitory).1)
        ≡ some (record (submission 2) { deleted_at = some 100 }))
unfolding find
delete_submission-payload_stays_example =
    delete_submission-payload_stays text_codec registry (λ text. some text) calls 7 2 dormitory
      (submission 2) refl refl

replay-HasUniqueVotes_example : HasUniqueVotes (replay text_codec requests dormitory)
replay-HasUniqueVotes_example =
    replay-HasUniqueVotes text_codec requests dormitory dormitory-HasUniqueVotes
