-- ===== src/Scenes/Service/History.antt =====
-- What one request of the service does to the state of a scene.
use mathlib.Core.Path.{subst}
use campus_agent.Base.{
  ℕ, ◌≡◌, refl, sym, ap, ◌∙◌, true, ◌==◌, some, List, [], ◌∷◌, ◌++◌, inl, inr, ◌⊎◌, update_first,
  arith, Option-cases, Bool-cases, ==_iff,
}
use campus_agent.Base.Table.{find-holds, find-update_first_self, find-update_first_ne}
use campus_agent.Scenes.StateMachine.{SceneState, SceneAction, get_target_state, is_terminal}
use campus_agent.Scenes.StateMachine.Runs.{run}
use campus_agent.Scenes.Models.{SceneInstance, Store}
use campus_agent.Scenes.Repository.{get_by_id, replace_vote}
use campus_agent.Scenes.Service.Transitions.{moved, transition_state}
use campus_agent.Scenes.Service.Transitions.Laws.{refusal, transition_state-refuses}
use campus_agent.Scenes.Service.Participants.{accept_invitation, decline_invitation, leave_scene}
use campus_agent.Scenes.Service.Submissions.{Codec, submit_private_preferences, delete_submission}
use campus_agent.Scenes.Service.Voting.{cast_vote}
use campus_agent.Scenes.Service.AuditTrail.{
  Operation, transition, accept, decline, leave, delete, submit, vote, request,
}

-- The table of scenes after a transition.
pub transition_state-instances :
    (user_id id : ℕ) (action : SceneAction) (s : Store)
    → ((transition_state user_id id action s).1.instances ≡ s.instances)
      ⊎ ((i : SceneInstance) × (target : SceneState) × (get_by_id id s ≡ some i)
          × (get_target_state i.status action ≡ some target)
          × ((transition_state user_id id action s).1.instances
              ≡ update_first (λ r. r.id == id) (moved target s.now) s.instances))
transition_state-instances user_id id action s =
    elim (Option-cases (refusal user_id action (get_by_id id s))) [
      | inr (e, h) ↦
          inl (ap (λ r. r.1.instances) (transition_state-refuses user_id id action s e h))
      | inl h ↦ elim (Option-cases (get_by_id id s)) [
        | inl missing ↦ absurd (unfold refusal in ground arith)
        | inr (i, found) ↦ elim (Option-cases (get_target_state i.status action)) [
          | inl no_target ↦ absurd (unfold refusal in ground arith)
          | inr (target, has) ↦
              inr (i, target, found, has, unfold refusal transition_state in ground arith)
        ]
      ]
    ]

-- What a scene's row has become: its state is the same, or one action further.
unfoldable pub Follows : ℕ → SceneInstance → Store → Type 0
Follows id i s =
    (j : SceneInstance) × (actions : List SceneAction) × (get_by_id id s ≡ some j)
    × (run i.status actions ≡ some j.status)

step-Follows :
    (user_id id : ℕ) (action : SceneAction) (s : Store) (i k : SceneInstance) (target : SceneState)
    → get_by_id id s ≡ some i
    → get_by_id id s ≡ some k
    → get_target_state k.status action ≡ some target
    → (transition_state user_id id action s).1.instances
      ≡ update_first (λ r. r.id == id) (moved target s.now) s.instances
    → Follows id i (transition_state user_id id action s).1
unfolding Follows get_by_id run moved
step-Follows user_id id action s i k target h found has rows = (
  moved target s.now k,
  action ∷ [],
  rw rows (
      find-update_first_self (λ r. r.id == id) (moved target s.now) s.instances k found
        (find-holds (λ r. r.id == id) s.instances {x = k} found)),
  ground (arith, h, found, has),
)

transition_state-Follows :
    (user_id other id : ℕ) (action : SceneAction) (s : Store) (i : SceneInstance)
    → get_by_id id s ≡ some i
    → Follows id i (transition_state user_id other action s).1
unfolding Follows get_by_id run
transition_state-Follows user_id other id action s i h =
    elim (transition_state-instances user_id other action s) [
      | inl same ↦ (i, [], rw same h, refl)
      | inr (k, target, found, has, rows) ↦ elim (Bool-cases (id == other)) [
        | inl eq ↦
            let same : id ≡ other = (==_iff id other).0 eq in
            subst (λ z. Follows z i (transition_state user_id other action s).1) (sym same)
              (step-Follows user_id other action s i k target
                (ap (λ z. get_by_id z s) (sym same) ∙ h) found has rows)
        | inr ne ↦ (
          i,
          [],
          rw rows (
              find-update_first_ne (λ r. r.id == id) (λ r. r.id == other) (moved target s.now)
                s.instances (λ x e. ground (arith, ==_iff x.id other))
                (λ x e. unfold moved in ground (arith, ==_iff x.id other))
              ∙ h),
          refl,
        )
      ]
    ]

module _ {P C : Type 0} (codec : Codec P C) where
  pub request-Follows :
      (o : Operation P) (s : Store) (id : ℕ) (i : SceneInstance)
      → get_by_id id s ≡ some i
      → Follows id i (request codec o s)
  unfolding request accept_invitation decline_invitation leave_scene delete_submission
      submit_private_preferences cast_vote replace_vote Follows run get_by_id
  request-Follows (transition user_id other action) s id i h =
      transition_state-Follows user_id other id action s i h
  request-Follows (accept user_id other) s id i h = (i, [], ground arith, refl)
  request-Follows (decline user_id other) s id i h = (i, [], ground arith, refl)
  request-Follows (leave user_id other) s id i h = (i, [], ground arith, refl)
  request-Follows (delete user_id other) s id i h = (i, [], ground arith, refl)
  request-Follows (submit user_id other preferences save) s id i h = (i, [], ground arith, refl)
  request-Follows (vote user_id other candidate_id value key) s id i h = (i, [], ground arith, refl)

  unfoldable pub replay : List (Operation P) → Store → Store
  replay [] s = s
  replay (o ∷ rest) s = replay rest (request codec o s)

pub run-run :
    (u : SceneState) (first second : List SceneAction) (v w : SceneState)
    → run u first ≡ some v
    → run v second ≡ some w
    → run u (first ++ second) ≡ some w
unfolding run
run-run u [] second v w h k = ground arith
run-run u (a ∷ first) second v w h k = elim (Option-cases (get_target_state u a)) [
  | inl e ↦ ground arith
  | inr (t, e) ↦ ground (arith, run-run t first second v w)
]

pub run-terminal :
    (u v : SceneState) (actions : List SceneAction)
    → is_terminal u ≡ true
    → run u actions ≡ some v
    → u ≡ v
unfolding run get_target_state
run-terminal u v [] h k = ground arith
run-terminal u v (a ∷ rest) h k = ground arith
