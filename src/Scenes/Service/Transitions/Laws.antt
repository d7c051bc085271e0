-- ===== src/Scenes/Service/Transitions/Laws.antt =====
-- What a transition does to the store, and what refuses it.
use campus_agent.Base.{
  ℕ, ◌≡◌, ◌==◌, Option, some, none, inl, inr, arith, Option-cases, is_some, if◌then◌else◌,
}
use campus_agent.Base.Action.{err}
use campus_agent.Scenes.StateMachine.{SceneAction, get_target_state}
use campus_agent.Scenes.Models.{
  SceneInstance, SceneError, scene_not_found, state_transition, permission_denied, Store,
}
use campus_agent.Scenes.Repository.{get_by_id}
use campus_agent.Scenes.Service.Transitions.{transition_state}

-- The first reason to refuse an action on a scene, if there is one.
unfoldable pub refusal : ℕ → SceneAction → Option SceneInstance → Option SceneError
refusal user_id action none = some scene_not_found
refusal user_id action (some i) =
    if i.created_by == user_id
    then if is_some (get_target_state i.status action) then none else some state_transition
    else some permission_denied

pub transition_state-refuses :
    (user_id id : ℕ) (action : SceneAction) (s : Store) (e : SceneError)
    → refusal user_id action (get_by_id id s) ≡ some e
    → transition_state user_id id action s ≡ (err e, s)
unfolding transition_state refusal
transition_state-refuses user_id id action s e h = elim (Option-cases (get_by_id id s)) [
  | inl missing ↦ ground arith
  | inr (i, found) ↦ elim (Option-cases (get_target_state i.status action)) [
    | inl no_target ↦ ground arith
    | inr (target, has_target) ↦ ground arith
  ]
]
