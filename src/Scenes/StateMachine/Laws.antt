-- ===== src/Scenes/StateMachine/Laws.antt =====
-- The table of transitions as a function, and the agreement of the three tests that read it.
use mathlib.Core.List.{Perm}
use campus_agent.Base.{
  ◌<◌, ◌≡◌, refl, ◌↔◌, Bool, true, false, ◌&&◌, not, Option, none, some, List, arith, inl, inr,
  find, count_if, is_some, Option-cases, Bool-cases, sym, ◌∙◌,
}
use campus_agent.Base.Table.{
  count_if-perm, find-holds, count_if-find-none, count_if-find-some, count_if-find_holds,
}
use campus_agent.Scenes.StateMachine.{
  SceneState, SceneAction, draft, inviting, collecting_private_input, generating_candidates, voting,
  confirming, completed, cancelled, expired, failed, publish, start_collecting, start_processing,
  candidates_ready, voting_complete, confirm, cancel, expire, processing_failed, other, Transition,
  state_eq, starts_with, legal_transitions, is_terminal, can_transition, can_action,
  get_target_state_from, get_target_state, target_of,
}

-- The flow state by state: one step forward by its own action, a way out from each active state, and
-- failure while candidates are generated.
unfoldable pub flow_target : SceneState → SceneAction → Option SceneState
flow_target completed _ = none
flow_target cancelled _ = none
flow_target expired _ = none
flow_target failed _ = none
flow_target draft publish = some inviting
flow_target inviting start_collecting = some collecting_private_input
flow_target collecting_private_input start_processing = some generating_candidates
flow_target generating_candidates candidates_ready = some voting
flow_target voting voting_complete = some confirming
flow_target confirming confirm = some completed
flow_target generating_candidates processing_failed = some failed
flow_target _ cancel = some cancelled
flow_target _ expire = some expired
flow_target _ _ = none

-- The table gives each state and action the target that the flow, written out state by state, gives
-- them, and none where the flow has none.
pub get_target_state-eq-flow_target :
    (s : SceneState) (a : SceneAction) → get_target_state s a ≡ flow_target s a
unfolding get_target_state flow_target
get_target_state-eq-flow_target draft publish = refl
get_target_state-eq-flow_target _ a = ground arith

-- `can_action` holds exactly where `get_target_state` has a target.
pub can_action-eq-is_some :
    (s : SceneState) (a : SceneAction) → can_action s a ≡ is_some (get_target_state s a)
unfolding can_action get_target_state
can_action-eq-is_some draft publish = refl
can_action-eq-is_some _ a = ground arith

-- The action on the edge between two states, where there is one.
abbrev action_between : SceneState → SceneState → SceneAction
action_between draft inviting = publish
action_between inviting collecting_private_input = start_collecting
action_between collecting_private_input generating_candidates = start_processing
action_between generating_candidates voting = candidates_ready
action_between voting confirming = voting_complete
action_between confirming completed = confirm
action_between generating_candidates failed = processing_failed
action_between _ cancelled = cancel
action_between _ expired = expire
action_between _ _ = other

can_transition_sound :
    (s u : SceneState)
    → can_transition s u ≡ true
    → get_target_state s (action_between s u) ≡ some u
unfolding can_transition get_target_state
can_transition_sound draft inviting h = refl
can_transition_sound s u h = ground arith

can_transition_complete :
    (s u : SceneState) (a : SceneAction) → flow_target s a ≡ some u → can_transition s u ≡ true
unfolding can_transition flow_target
can_transition_complete draft u publish h = ground arith
can_transition_complete s u a h = ground arith

-- A transition between two states is legal exactly when some action leads from one to the other.
pub can_transition_iff :
    (s u : SceneState)
    → (can_transition s u ≡ true) ↔ ((a : SceneAction) × (get_target_state s a ≡ some u))
can_transition_iff s u = (
  (λ h. (action_between s u, can_transition_sound s u h)),
  λ e. can_transition_complete s u e.0 (sym (get_target_state-eq-flow_target s e.0) ∙ e.1),
)

-- An entry of the table for a state and an action that does not lead to the state `u`.
abbrev strays : SceneState → SceneAction → SceneState → Transition → Bool
strays s a u t = starts_with s a t && not (state_eq t.to_state u)

state_eq→eq : (s u : SceneState) → state_eq s u ≡ true → s ≡ u
state_eq→eq draft u h = ground arith
state_eq→eq _ u h = ground arith

-- With no stray entry and some entry for the state and the action, the walk ends at `u`.
find_target :
    (ts : List Transition) (s : SceneState) (a : SceneAction) (u : SceneState)
    → count_if (strays s a u) ts ≡ 0
    → 0 < count_if (starts_with s a) ts
    → target_of (find (starts_with s a) ts) ≡ some u
find_target ts s a u no_strays some_starts = elim (Option-cases (find (starts_with s a) ts)) [
  | inl e ↦ absurd (omega (arith, count_if-find-none (starts_with s a) ts e))
  | inr (t, e) ↦ rw e (
      ground (
        arith,
        state_eq→eq t.to_state u,
        find-holds (starts_with s a) ts {x = t} e,
        count_if-find_holds (starts_with s a) (strays s a u) ts t e,
      ))
]

legal_some :
    (s : SceneState) (a : SceneAction) (u : SceneState)
    → get_target_state s a ≡ some u
    → (count_if (strays s a u) legal_transitions ≡ 0)
      × (0 < count_if (starts_with s a) legal_transitions)
unfolding get_target_state count_if
legal_some draft a u h = ground arith
legal_some _ a u h = ground arith

legal_none :
    (s : SceneState) (a : SceneAction)
    → get_target_state s a ≡ none
    → is_terminal s ≡ false
    → count_if (starts_with s a) legal_transitions ≡ 0
unfolding get_target_state count_if
legal_none draft a h k = ground arith
legal_none _ a h k = ground arith

find-none :
    (ts : List Transition) (s : SceneState) (a : SceneAction)
    → count_if (starts_with s a) ts ≡ 0
    → target_of (find (starts_with s a) ts) ≡ none
find-none ts s a h = elim (Option-cases (find (starts_with s a) ts)) [
  | inl e ↦ rw e
  | inr (t, e) ↦ absurd (omega (arith, count_if-find-some (starts_with s a) ts {x = t} e))
]

-- `LEGAL_TRANSITIONS` is a frozenset: whatever the order in which it is walked, every state and
-- action get the same target.
pub get_target_state-perm :
    (ts : List Transition) (s : SceneState) (a : SceneAction)
    → Perm ts legal_transitions
    → get_target_state_from ts s a ≡ get_target_state s a
get_target_state-perm ts s a r = elim (Bool-cases (is_terminal s)) [
  | inl t ↦ unfold get_target_state get_target_state_from in (rw t refl)
  | inr active ↦ elim (Option-cases (get_target_state s a)) [
    | inl e ↦ rw e (
        unfold get_target_state_from in
        (rw active
          (find-none ts s a (count_if-perm (starts_with s a) r ∙ legal_none s a e active))))
    | inr (u, e) ↦ rw e (
        unfold get_target_state_from in
        (rw active (
          find_target ts s a u (count_if-perm (strays s a u) r ∙ (legal_some s a u e).0)
            (rw (count_if-perm (starts_with s a) r) (legal_some s a u e).1))))
  ]
]
