-- ===== src/Scenes/Service/Uniqueness.antt =====
-- One vote for each user and scene, under every sequence of requests.
use campus_agent.Base.{List, [], ◌∷◌, arith}
use campus_agent.Scenes.Models.{Store}
use campus_agent.Scenes.Service.Transitions.{transition_state}
use campus_agent.Scenes.Service.Participants.{accept_invitation, decline_invitation, leave_scene}
use campus_agent.Scenes.Service.Submissions.{Codec, submit_private_preferences, delete_submission}
use campus_agent.Scenes.Service.Voting.Ballots.{HasUniqueVotes, cast_vote-HasUniqueVotes}
use campus_agent.Scenes.Service.AuditTrail.{
  Operation, transition, accept, decline, leave, delete, submit, vote, request,
}
use campus_agent.Scenes.Service.History.{replay}

module _ {P C : Type 0} (codec : Codec P C) where
  -- Apart from votes and submissions no request touches their tables.
  request-HasUniqueVotes :
      (o : Operation P) (s : Store) → HasUniqueVotes s → HasUniqueVotes (request codec o s)
  unfolding request accept_invitation decline_invitation leave_scene delete_submission
      submit_private_preferences transition_state
  request-HasUniqueVotes (vote user_id id candidate_id value key) s h o u =
      cast_vote-HasUniqueVotes user_id id candidate_id value key s h o u
  request-HasUniqueVotes (transition user_id id action) s h o u = ground (arith, h o u)
  request-HasUniqueVotes (accept user_id id) s h o u = ground (arith, h o u)
  request-HasUniqueVotes (decline user_id id) s h o u = ground (arith, h o u)
  request-HasUniqueVotes (leave user_id id) s h o u = ground (arith, h o u)
  request-HasUniqueVotes (delete user_id id) s h o u = ground (arith, h o u)
  request-HasUniqueVotes (submit user_id id preferences save) s h o u = ground (arith, h o u)

  -- After any sequence of requests each user still has one vote at most in each scene.
  pub replay-HasUniqueVotes :
      (requests : List (Operation P)) (s : Store)
      → HasUniqueVotes s
      → HasUniqueVotes (replay codec requests s)
  unfolding replay
  replay-HasUniqueVotes [] s h = h
  replay-HasUniqueVotes (o ∷ rest) s h =
      replay-HasUniqueVotes rest (request codec o s) (request-HasUniqueVotes o s h)
