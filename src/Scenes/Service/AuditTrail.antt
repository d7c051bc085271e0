-- ===== src/Scenes/Service/AuditTrail.antt =====
-- What the audit log holds of the operations of the service once the request is over.
use mathlib.Core.List.{append-nil}
use campus_agent.Base.{Bool, false, ℕ, ◌≡◌, Option, String, arith, []}
use campus_agent.Scenes.StateMachine.{SceneAction}
use campus_agent.Scenes.Models.{Store, close_session}
use campus_agent.Scenes.Service.Transitions.{transition_state}
use campus_agent.Scenes.Service.Participants.{accept_invitation, decline_invitation, leave_scene}
use campus_agent.Scenes.Service.Submissions.{Codec, submit_private_preferences, delete_submission}
use campus_agent.Scenes.Service.Voting.{cast_vote}
use campus_agent.Scenes.Repository.{replace_vote}

-- The operations of the service that write to the audit log.
pub data Operation (P : Type 0) : Type 0 where
  transition : ℕ → ℕ → SceneAction → Operation P
  accept decline leave delete : ℕ → ℕ → Operation P
  submit : ℕ → ℕ → P → Bool → Operation P
  vote : ℕ → ℕ → ℕ → String → Option String → Operation P

-- The operation saves a capsule to the long-term memory.
abbrev saves : {P : Type 0} → Operation P → Bool
saves (submit _ _ _ save) = save
saves _ = false

module _ {P C : Type 0} (codec : Codec P C) where
  -- One operation in a session of its own, which is closed at the end.
  unfoldable pub request : Operation P → Store → Store
  request (transition user_id id action) s = close_session (transition_state user_id id action s).1
  request (accept user_id id) s = close_session (accept_invitation user_id id s).1
  request (decline user_id id) s = close_session (decline_invitation user_id id s).1
  request (leave user_id id) s = close_session (leave_scene user_id id s).1
  request (delete user_id id) s = close_session (delete_submission user_id id s).1
  request (submit user_id id preferences save) s =
      close_session (submit_private_preferences codec user_id id preferences save s).1
  request (vote user_id id candidate_id value key) s =
      close_session (cast_vote user_id id candidate_id value key s).1

  -- One operation of the service in a session of its own, with no audit row pending at its start,
  -- leaves no trace in the audit log, unless it is a submission that is saved to the long-term
  -- memory: its audit row is added after the last commit, and it is lost when the session is closed.
  pub request-audits :
      (o : Operation P) (s : Store)
      → s.pending_audits ≡ []
      → saves o ≡ false
      → ((request o s).audits ≡ s.audits) × ((request o s).pending_audits ≡ [])
  unfolding request transition_state accept_invitation decline_invitation leave_scene
      delete_submission submit_private_preferences cast_vote replace_vote
  request-audits (transition user_id id action) s h n =
      (ground (arith, append-nil s.audits), ground arith)
  request-audits (accept user_id id) s h n = (ground (arith, append-nil s.audits), ground arith)
  request-audits (decline user_id id) s h n = (ground (arith, append-nil s.audits), ground arith)
  request-audits (leave user_id id) s h n = (ground (arith, append-nil s.audits), ground arith)
  request-audits (delete user_id id) s h n = (ground (arith, append-nil s.audits), ground arith)
  request-audits (submit user_id id preferences save) s h n =
      (ground (arith, append-nil s.audits), ground arith)
  request-audits (vote user_id id candidate_id value key) s h n =
      (ground (arith, append-nil s.audits), ground arith)
