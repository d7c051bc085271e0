-- ===== src/Scenes/StateMachine/Runs.antt =====
-- Sequences of accepted actions: a scene always moves forward, and it can always be finished.
use campus_agent.Base.{
  ℕ, ◌+◌, ◌≤◌, ◌<◌, ◌≡◌, refl, true, false, Option, none, some, List, [], ◌∷◌, arith, length,
  Option-cases, inl, inr, ◌⊎◌,
}
use campus_agent.Scenes.StateMachine.{
  SceneState, SceneAction, draft, inviting, collecting_private_input, generating_candidates, voting,
  confirming, completed, cancelled, expired, failed, publish, start_collecting, start_processing,
  candidates_ready, voting_complete, confirm, is_active, get_target_state,
}

-- The state after a list of actions, each of which must be legal where it is taken.
unfoldable pub run : SceneState → List SceneAction → Option SceneState
run s [] = some s
run s (a ∷ rest) = elim (get_target_state s a) [ none ↦ none | some u ↦ run u rest ]

-- How far along the flow a state is.
abbrev pub phase : SceneState → ℕ
phase draft = 0
phase inviting = 1
phase collecting_private_input = 2
phase generating_candidates = 3
phase voting = 4
phase confirming = 5
phase _ = 6

get_target_state-phase :
    (s : SceneState) (a : SceneAction) (u : SceneState)
    → get_target_state s a ≡ some u
    → phase s < phase u
unfolding get_target_state
get_target_state-phase draft a u h = ground arith
get_target_state-phase _ a u h = ground arith

phase-le : (s : SceneState) → phase s ≤ 6
phase-le draft = omega arith
phase-le _ = omega arith

run-phase :
    (s : SceneState) (actions : List SceneAction) (u : SceneState)
    → run s actions ≡ some u
    → phase s + length actions ≤ phase u
unfolding run
run-phase s [] u h = ground arith
run-phase s (a ∷ rest) u h = elim (Option-cases (get_target_state s a)) [
  | inl e ↦ ground arith
  | inr (v, e) ↦ ground (arith, get_target_state-phase s a v e, run-phase v rest u)
]

-- A scene goes through no cycle: from any state at most six actions are accepted, and from the
-- state `s` at most as many as there are phases left.
pub length-le-of-run :
    (s : SceneState) (actions : List SceneAction) (u : SceneState)
    → run s actions ≡ some u
    → phase s + length actions ≤ 6
length-le-of-run s actions u h = omega (arith, run-phase s actions u h, phase-le u)

-- The actions that take an active state to `completed`.
abbrev pub path_to_completed : SceneState → List SceneAction
path_to_completed draft =
    publish ∷ start_collecting ∷ start_processing ∷ candidates_ready ∷ voting_complete ∷ confirm
    ∷ []
path_to_completed inviting =
    start_collecting ∷ start_processing ∷ candidates_ready ∷ voting_complete ∷ confirm ∷ []
path_to_completed collecting_private_input =
    start_processing ∷ candidates_ready ∷ voting_complete ∷ confirm ∷ []
path_to_completed generating_candidates = candidates_ready ∷ voting_complete ∷ confirm ∷ []
path_to_completed voting = voting_complete ∷ confirm ∷ []
path_to_completed confirming = confirm ∷ []
path_to_completed _ = []

-- Every active state has a sequence of legal actions to `completed`, and a terminal state accepts
-- no action at all.
pub run-active-or-terminal :
    (s : SceneState)
    → (is_active s ≡ true) × (run s (path_to_completed s) ≡ some completed)
      ⊎ (is_active s ≡ false) × ((a : SceneAction) → get_target_state s a ≡ none)
unfolding run is_active get_target_state
run-active-or-terminal completed = inr (refl, λ a. refl)
run-active-or-terminal cancelled = inr (refl, λ a. refl)
run-active-or-terminal expired = inr (refl, λ a. refl)
run-active-or-terminal failed = inr (refl, λ a. refl)
run-active-or-terminal _ = inl (refl, refl)
