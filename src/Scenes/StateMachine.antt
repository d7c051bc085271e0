-- ===== src/Scenes/StateMachine.antt =====
-- apps/api/src/modules/scenes/state_machine.py: the states of a scene, the table of its legal
-- transitions, and the tests that the services make of it.
pub mod Laws
pub mod Runs
pub mod Tests
use campus_agent.Base.{
  ℕ, ◌≡◌, Bool, true, false, ◌&&◌, not, Option, none, some, List, [], ◌∷◌, ◌==◌, if◌then◌else◌,
  find, any,
}

pub data SceneState : Type 0 where
  draft inviting collecting_private_input generating_candidates voting confirming : SceneState
  completed cancelled expired failed : SceneState

-- The strings that name an action; `other` is any string that is none of these.
pub data SceneAction : Type 0 where
  publish start_collecting start_processing candidates_ready voting_complete confirm : SceneAction
  cancel expire processing_failed other : SceneAction

-- States and actions are compared as the members of an enumeration are.
abbrev state_index : SceneState → ℕ
state_index draft = 0
state_index inviting = 1
state_index collecting_private_input = 2
state_index generating_candidates = 3
state_index voting = 4
state_index confirming = 5
state_index completed = 6
state_index cancelled = 7
state_index expired = 8
state_index failed = 9

abbrev action_index : SceneAction → ℕ
action_index publish = 0
action_index start_collecting = 1
action_index start_processing = 2
action_index candidates_ready = 3
action_index voting_complete = 4
action_index confirm = 5
action_index cancel = 6
action_index expire = 7
action_index processing_failed = 8
action_index other = 9

abbrev pub state_eq : SceneState → SceneState → Bool
state_eq s u = state_index s == state_index u

abbrev pub action_eq : SceneAction → SceneAction → Bool
action_eq a b = action_index a == action_index b

pub record Transition : Type 0 where
  pub from_state : SceneState
  pub to_state : SceneState
  pub action : SceneAction

abbrev transition : SceneState → SceneState → SceneAction → Transition
transition s u a = record { from_state = s; to_state = u; action = a }

-- A frozenset in the source: `Laws` shows that the order in which it is walked does not matter.
unfoldable pub legal_transitions : List Transition
legal_transitions =
    transition draft inviting publish
    ∷ transition inviting collecting_private_input start_collecting
    ∷ transition collecting_private_input generating_candidates start_processing
    ∷ transition generating_candidates voting candidates_ready
    ∷ transition voting confirming voting_complete
    ∷ transition confirming completed confirm
    ∷ transition draft cancelled cancel
    ∷ transition inviting cancelled cancel
    ∷ transition collecting_private_input cancelled cancel
    ∷ transition generating_candidates cancelled cancel
    ∷ transition voting cancelled cancel
    ∷ transition confirming cancelled cancel
    ∷ transition generating_candidates failed processing_failed
    ∷ transition draft expired expire
    ∷ transition inviting expired expire
    ∷ transition collecting_private_input expired expire
    ∷ transition generating_candidates expired expire
    ∷ transition voting expired expire
    ∷ transition confirming expired expire
    ∷ []

-- `state in TERMINAL_STATES`
unfoldable pub is_terminal : SceneState → Bool
is_terminal completed = true
is_terminal cancelled = true
is_terminal expired = true
is_terminal failed = true
is_terminal _ = false

unfoldable pub is_active : SceneState → Bool
unfolding is_terminal
is_active s = not (is_terminal s)

abbrev pub starts_with : SceneState → SceneAction → Transition → Bool
starts_with s a t = state_eq t.from_state s && action_eq t.action a

abbrev leads_to : SceneState → SceneState → Transition → Bool
leads_to s u t = state_eq t.from_state s && state_eq t.to_state u

unfoldable pub can_transition : SceneState → SceneState → Bool
unfolding is_terminal legal_transitions any
can_transition s u = if is_terminal s then false else any (leads_to s u) legal_transitions

unfoldable pub can_action : SceneState → SceneAction → Bool
unfolding is_terminal legal_transitions any
can_action s a = if is_terminal s then false else any (starts_with s a) legal_transitions

abbrev pub target_of : Option Transition → Option SceneState
target_of none = none
target_of (some t) = some t.to_state

-- The loop of `get_target_state` over a given order of the set.
unfoldable pub get_target_state_from :
    List Transition → SceneState → SceneAction → Option SceneState
unfolding is_terminal find
get_target_state_from ts s a = if is_terminal s then none else target_of (find (starts_with s a) ts)

unfoldable pub get_target_state : SceneState → SceneAction → Option SceneState
unfolding get_target_state_from legal_transitions
get_target_state s a = get_target_state_from legal_transitions s a
