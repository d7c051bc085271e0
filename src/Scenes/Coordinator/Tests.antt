-- ===== src/Scenes/Coordinator/Tests.antt =====
-- A scene that is about to generate its candidates, and a plugin that knows one dish.
use campus_agent.Base.{ℕ, ◌+◌, ◌≡◌, refl, true, none, some, [], ◌∷◌, String, find, select, any}
use campus_agent.Scenes.StateMachine.{generating_candidates}
use campus_agent.Scenes.Models.{SceneInstance, PrivateSubmission, Store}
use campus_agent.Scenes.Repository.{get_by_id, list_submissions, count_submissions}
use campus_agent.Scenes.Coordinator.{
  Plugin, CandidateInput, AggregateResult, each, last_with, aggregates, candidate_rows, clashes,
  generate, run_generation_phase,
}
use campus_agent.Scenes.Coordinator.Generation.{run_generation_phase-purges}
use campus_agent.Scenes.Cleanup.Purge.{holds_private, was_deleted, is_elsewhere}

abbrev dinner : SceneInstance
dinner = record {
  id = 7;
  scene_key = "dorm_dinner";
  version_key = "1.0.0";
  conversation_id = none;
  organization_id = none;
  created_by = 1;
  status = generating_candidates;
  current_phase = generating_candidates;
  public_context_json = none;
  version = 3;
  expires_at = none;
  completed_at = none;
  cancelled_at = none;
  failed_reason_code = none;
}

abbrev submission : ℕ → PrivateSubmission
submission user_id = record {
  scene_instance_id = 7;
  user_id = user_id;
  encrypted_payload = "ciphertext";
  capsule_json = some "capsule";
  payload_hash = "hash";
  expires_at = none;
  deleted_at = none;
}

abbrev tables : Store
tables = record {
  instances = dinner ∷ [];
  participants = [];
  submissions = submission 1 ∷ submission 2 ∷ [];
  candidates = [];
  votes = [];
  results = [];
  audits = [];
  pending_audits = [];
  events = [];
  now = 100;
}

abbrev noodles : CandidateInput
noodles = record { candidate_key = "noodles"; display_name = "Noodles"; public_metadata = none }

abbrev all_like : AggregateResult
all_like = record {
  candidate_key = "noodles";
  aggregate_score = 900000;
  public_reason = "liked";
  rank = 1;
  hard_gate_passed = true;
}

abbrev cook : Plugin String ℕ
cook = record {
  generate_candidates = λ _ _. some (noodles ∷ []);
  evaluate_candidate_privately = λ _ _. some 1;
  aggregate_results = λ _ _. some all_like;
  build_public_result = λ _ _.
      some (record { selected_candidate_key = some "noodles"; public_summary = "Noodles it is" });
}

run_generation_phase-purges_example :
    let after =
      (run_generation_phase (λ n. 30 + n) (λ _ _. some cook) (λ text. some text) 7 tables).1 in
    (count_submissions 7 after ≡ 0)
    × (select (holds_private 7) after.submissions ≡ select (was_deleted 7) tables.submissions)
    × (select (is_elsewhere 7) after.submissions ≡ select (is_elsewhere 7) tables.submissions)
unfolding run_generation_phase generate get_by_id find list_submissions select each aggregates
    candidate_rows clashes any last_with
run_generation_phase-purges_example =
    run_generation_phase-purges (λ n. 30 + n) (λ _ _. some cook) (λ text. some text) 7 tables refl
