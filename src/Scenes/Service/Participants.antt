-- ===== src/Scenes/Service/Participants.antt =====
-- apps/api/src/modules/scenes/service.py: accepting and declining an invitation, leaving, and the
-- reads that only participants may make.
use campus_agent.Base.{ℕ, not, some, List, if◌then◌else◌}
use campus_agent.Base.Action.{◌>>=◌, ◌>>◌, return, gets, require, raise_if, modify}
use campus_agent.Scenes.Models.{
  SceneInstance, SceneParticipant, ParticipantStatus, scene_not_found, permission_denied, Service,
  commit, log_audit, is_invited,
}
use campus_agent.Scenes.Repository.{
  get_by_id, get_participant, change_participant, list_by_instance,
}

unfoldable pub accept_invitation : ℕ → ℕ → Service SceneParticipant
accept_invitation user_id instance_id = do
  participant ← require (get_participant instance_id user_id) scene_not_found
  now ← gets (λ s. s.now)
  let join = λ (p : SceneParticipant). record p {
    status = ParticipantStatus.accepted;
    joined_at = some now;
  }
  if not (is_invited participant.status) then return participant else (do
    modify (change_participant instance_id user_id join)
    modify commit
    modify (log_audit user_id "scene_accept")
    return (join participant))

unfoldable pub decline_invitation : ℕ → ℕ → Service SceneParticipant
decline_invitation user_id instance_id = do
  participant ← require (get_participant instance_id user_id) scene_not_found
  let refuse = λ (p : SceneParticipant). record p { status = ParticipantStatus.declined }
  modify (change_participant instance_id user_id refuse)
  modify commit
  modify (log_audit user_id "scene_decline")
  return (refuse participant)

unfoldable pub leave_scene : ℕ → ℕ → Service (Unit {0})
leave_scene user_id instance_id = do
  participant ← require (get_participant instance_id user_id) scene_not_found
  raise_if participant.is_creator permission_denied
  modify
      (change_participant instance_id user_id (λ p. record p { status = ParticipantStatus.left }))
  modify commit
  modify (log_audit user_id "scene_leave")

unfoldable pub get_scene_instance : ℕ → ℕ → Service SceneInstance
get_scene_instance user_id instance_id = do
  instance_row ← require (get_by_id instance_id) scene_not_found
  require (get_participant instance_id user_id) permission_denied
  return instance_row

unfoldable pub list_participants : ℕ → ℕ → Service (List SceneParticipant)
list_participants user_id instance_id = do
  require (get_by_id instance_id) scene_not_found
  require (get_participant instance_id user_id) permission_denied
  gets (list_by_instance instance_id)
