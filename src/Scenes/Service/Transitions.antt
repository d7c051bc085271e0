-- ===== src/Scenes/Service/Transitions.antt =====
-- apps/api/src/modules/scenes/service.py: the transition of a scene by an action of its creator, and
-- the sweep that expires scenes whose time is over.
pub mod Laws
pub mod Sweep
use campus_agent.Base.{
  ℕ, ◌+◌, Bool, true, false, not, Option, none, some, List, [], ◌∷◌, String, ◌==◌, if◌then◌else◌,
  is_some, ltb,
}
use campus_agent.Base.Action.{
  ◌>>=◌, ◌>>◌, return, raise, gets, require, raise_if, modify, Result, ok,
}
use campus_agent.Scenes.StateMachine.{
  SceneState, SceneAction, completed, cancelled, expired, failed, publish as publish_action,
  start_collecting, start_processing, candidates_ready, voting_complete, confirm, cancel, expire,
  processing_failed, other, get_target_state, can_action,
}
use campus_agent.Scenes.Models.{
  SceneInstance, SceneEvent, scene_not_found, state_transition, permission_denied, Store, Service,
  commit, log_audit, publish,
}
use campus_agent.Scenes.Repository.{
  get_by_id, change_instance, list_expired, update_status, count_accepted, count_submissions,
  get_result,
}

-- `f"scene_{action}"`; an action that is none of the known ones is refused before it is logged.
unfoldable pub audit_name : SceneAction → String
audit_name publish_action = "scene_publish"
audit_name start_collecting = "scene_start_collecting"
audit_name start_processing = "scene_start_processing"
audit_name candidates_ready = "scene_candidates_ready"
audit_name voting_complete = "scene_voting_complete"
audit_name confirm = "scene_confirm"
audit_name cancel = "scene_cancel"
audit_name expire = "scene_expire"
audit_name processing_failed = "scene_processing_failed"
audit_name other = "scene_"

-- The terminal timestamps and the reason code that come with a target state.
abbrev completed_time : SceneState → ℕ → Option ℕ → Option ℕ
completed_time completed now old = some now
completed_time _ now old = old

abbrev cancelled_time : SceneState → ℕ → Option ℕ → Option ℕ
cancelled_time cancelled now old = some now
cancelled_time _ now old = old

abbrev reason_code : SceneState → Option String → Option String
reason_code failed old = some "processing_failed"
reason_code _ old = old

-- The assignments of a transition, the version bump included.
unfoldable pub moved : SceneState → ℕ → SceneInstance → SceneInstance
moved target now i = record i {
  status = target;
  current_phase = target;
  version = i.version + 1;
  completed_at = completed_time target now i.completed_at;
  cancelled_at = cancelled_time target now i.cancelled_at;
  failed_reason_code = reason_code target i.failed_reason_code;
}

-- The event for a target state.
unfoldable pub transition_event : SceneState → SceneState → ℕ → ℕ → Bool → ℕ → ℕ → SceneEvent
transition_event old completed id user_id has_result submitted accepted =
    SceneEvent.completed id has_result accepted submitted
transition_event old cancelled id user_id has_result submitted accepted =
    SceneEvent.cancelled id user_id
transition_event old expired id user_id has_result submitted accepted = SceneEvent.expired id
transition_event old failed id user_id has_result submitted accepted =
    SceneEvent.failed id "processing_failed"
transition_event old target id user_id has_result submitted accepted =
    SceneEvent.phase_changed id old target submitted accepted

unfoldable pub transition_state : ℕ → ℕ → SceneAction → Service SceneInstance
transition_state user_id instance_id action = do
  instance_row ← require (get_by_id instance_id) scene_not_found
  raise_if (not (instance_row.created_by == user_id)) permission_denied
  target ← require (λ _. get_target_state instance_row.status action) state_transition
  now ← gets (λ s. s.now)
  modify (change_instance instance_id (moved target now))
  modify commit
  submitted ← gets (count_submissions instance_id)
  accepted ← gets (count_accepted instance_id)
  has_result ← gets (λ s. is_some (get_result instance_id s))
  modify (
      publish (
        transition_event instance_row.status target instance_id user_id has_result submitted
          accepted))
  modify (log_audit user_id (audit_name action))
  return (moved target now instance_row)

-- The loop over the stale instances; the result of `update_status` is not looked at.
unfoldable pub expire_each : List SceneInstance → ℕ → Store → ℕ × Store
expire_each [] count s = (count, s)
expire_each (i ∷ rest) count s =
    if can_action i.status expire
    then expire_each rest (count + 1)
        (publish (SceneEvent.expired i.id) (update_status i.id expired expired i.version s).1)
    else expire_each rest count s

unfoldable pub expire_stale_instances : Service ℕ
expire_stale_instances s =
    let (count, s') = expire_each (list_expired s) 0 s in
    (ok count, if ltb 0 count then commit s' else s')
