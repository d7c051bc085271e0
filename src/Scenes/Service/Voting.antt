-- ===== src/Scenes/Service/Voting.antt =====
-- apps/api/src/modules/scenes/service.py: votes and the reads of candidates and results.
pub mod Ballots
use text.Mathlib.Text.{◌==◌ as str_eq}
use campus_agent.Base.{
  ℕ, Bool, true, false, not, Option, none, some, List, String, ◌==◌, if◌then◌else◌, select,
}
use campus_agent.Base.Action.{◌>>=◌, ◌>>◌, return, raise, gets, require, raise_if, modify}
use campus_agent.Scenes.StateMachine.{SceneState, voting, state_eq}
use campus_agent.Scenes.Models.{
  SceneInstance, SceneCandidate, SceneVote, SceneResult, VoteValue, scene_not_found,
  state_transition, permission_denied, submission_invalid, Store, Service, commit, log_audit,
}
use campus_agent.Scenes.Repository.{
  get_by_id, get_participant, get_candidate, replace_vote, get_result,
}
use campus_agent.Scenes.Service.Submissions.{consents}

unfoldable pub parse_vote_value : String → Option VoteValue
parse_vote_value v =
    if str_eq v "APPROVE"
    then some VoteValue.approve
    else if str_eq v "REJECT"
    then some VoteValue.reject
    else if str_eq v "ABSTAIN"
    then some VoteValue.abstain
    else none

-- The candidate, if it belongs to the instance.
abbrev candidate_in : ℕ → Option SceneCandidate → Option SceneCandidate
candidate_in instance_id none = none
candidate_in instance_id (some c) = if c.scene_instance_id == instance_id then some c else none

unfoldable pub cast_vote : ℕ → ℕ → ℕ → String → Option String → Service SceneVote
cast_vote user_id instance_id candidate_id value_name idempotency_key = do
  vote_value ← require (λ _. parse_vote_value value_name) submission_invalid
  instance_row ← require (get_by_id instance_id) scene_not_found
  raise_if (not (state_eq instance_row.status voting)) state_transition
  participant ← gets (get_participant instance_id user_id)
  raise_if (not (consents participant)) permission_denied
  require (λ s. candidate_in instance_id (get_candidate candidate_id s)) scene_not_found
  let vote : SceneVote = record {
    scene_instance_id = instance_id;
    user_id = user_id;
    candidate_id = candidate_id;
    vote_value = vote_value;
    idempotency_key = idempotency_key;
  }
  modify (replace_vote instance_id user_id vote)
  modify commit
  modify (log_audit user_id "scene_vote")
  return vote

unfoldable pub get_scene_result : ℕ → ℕ → Service SceneResult
get_scene_result user_id instance_id = do
  require (get_by_id instance_id) scene_not_found
  require (get_participant instance_id user_id) permission_denied
  require (get_result instance_id) scene_not_found
