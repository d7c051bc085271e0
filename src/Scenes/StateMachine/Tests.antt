-- ===== src/Scenes/StateMachine/Tests.antt =====
-- What the theorems on the state machine say of some of its states.
use mathlib.Core.List.{Perm}
use mathlib.Core.List.Perm
use campus_agent.Base.{◌≡◌, ◌⊎◌, none, some, List, [], ◌∷◌, true, false}
use campus_agent.Scenes.StateMachine.{
  SceneState, SceneAction, Transition, voting, cancel, get_target_state, is_active,
}
use campus_agent.Scenes.StateMachine.Laws.{flow_target, get_target_state-eq-flow_target}
use campus_agent.Scenes.StateMachine.Runs.{run, path_to_completed, run-active-or-terminal}

get_target_state-eq-flow_target_example : get_target_state voting cancel ≡ flow_target voting cancel
get_target_state-eq-flow_target_example = get_target_state-eq-flow_target voting cancel

-- The table with its first two entries in the other order.
abbrev swap_front : List Transition → List Transition
swap_front (t ∷ u ∷ rest) = u ∷ t ∷ rest
swap_front ts = ts

swap_front-perm : (ts : List Transition) → Perm (swap_front ts) ts
swap_front-perm [] = Perm.refl []
swap_front-perm (t ∷ []) = Perm.refl (t ∷ [])
swap_front-perm (t ∷ u ∷ rest) = Perm.swap t u rest

run-active-or-terminal_example :
    (is_active voting ≡ true) × (run voting (path_to_completed voting) ≡ some SceneState.completed)
    ⊎ (is_active voting ≡ false) × ((a : SceneAction) → get_target_state voting a ≡ none)
run-active-or-terminal_example = run-active-or-terminal voting
