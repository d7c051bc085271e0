-- ===== src/Scenes/Calls/Machine.antt =====
-- Every sequence of calls, by any users in any order, against the state machine.
use campus_agent.Base.{
  ℕ, ◌≤◌, ◌≡◌, refl, sym, ap, ◌∙◌, true, Option, some, List, [], ◌∷◌, ◌++◌, inl, inr, count_if,
  arith, String,
}
use campus_agent.Base.Table.{count_if-update_first_same}
use campus_agent.Scenes.StateMachine.{
  SceneState, SceneAction, draft, expired, expire, get_target_state, can_action, is_terminal,
}
use campus_agent.Scenes.StateMachine.Runs.{run}
use campus_agent.Scenes.Models.{SceneInstance, Store}
use campus_agent.Scenes.Repository.{get_by_id, hard_delete_payload, replace_vote}
use campus_agent.Scenes.Cleanup.{cleanup_private_data, cleanup_expired_submissions}
use campus_agent.Scenes.Service.Transitions.{moved, expire_stale_instances}
use campus_agent.Scenes.Service.Participants.{accept_invitation, decline_invitation, leave_scene}
use campus_agent.Scenes.Service.Submissions.{Codec, submit_private_preferences, delete_submission}
use campus_agent.Scenes.Service.Voting.{cast_vote}
use campus_agent.Scenes.Service.AuditTrail.{
  Operation, transition, accept, decline, leave, delete, submit, vote, request,
}
use campus_agent.Scenes.Service.History.{
  Follows, request-Follows, transition_state-instances, run-run, run-terminal,
}
use campus_agent.Scenes.Coordinator.{Plugin, has_failed}
use campus_agent.Scenes.Calls.{
  Call, serve, generate_for, sweep, purge, purge_old, wait, call, run_calls,
}
use campus_agent.Scenes.Calls.Generation.{run_generation_phase-instances, generation-Follows}
use campus_agent.Scenes.Calls.Expiry.{is_row, lapsed, sweep-IsSwept, sweep-count}

can_expire-run : (u : SceneState) → can_action u expire ≡ true → run u (expire ∷ []) ≡ some expired
unfolding can_action run get_target_state
can_expire-run draft h = ground arith
can_expire-run _ h = ground arith

sweep-Follows :
    (id : ℕ) (s : Store) (i : SceneInstance)
    → count_if (is_row id) s.instances ≤ 1
    → get_by_id id s ≡ some i
    → Follows id i (expire_stale_instances s).1
unfolding Follows run
sweep-Follows id s i a h = elim (sweep-IsSwept id s i a h) [
  | inl same ↦ (i, [], same, refl)
  | inr (can, after) ↦ (lapsed i, expire ∷ [], after, can_expire-run i.status can)
]

module _ {P C D E : Type 0} (codec : Codec P C) (registry : String → String → Option (Plugin D E))
    (capsule_from_json : String → Option D) where
  call-Follows :
      (c : Call P) (s : Store) (id : ℕ) (i : SceneInstance)
      → count_if (is_row id) s.instances ≤ 1
      → get_by_id id s ≡ some i
      → Follows id i (call codec registry capsule_from_json c s)
  unfolding call Follows run get_by_id cleanup_private_data cleanup_expired_submissions
      hard_delete_payload
  call-Follows (serve o) s id i a h = request-Follows codec o s id i h
  call-Follows (generate_for draw other) s id i a h =
      generation-Follows draw registry capsule_from_json other id s i h
  call-Follows sweep s id i a h = sweep-Follows id s i a h
  call-Follows (purge other) s id i a h = (i, [], h, refl)
  call-Follows (purge_old limit) s id i a h = (i, [], ground arith, refl)
  call-Follows (wait later) s id i a h = (i, [], h, refl)

  -- The primary key stays one.
  request-count :
      (o : Operation P) (s : Store) (id : ℕ)
      → count_if (is_row id) (request codec o s).instances ≡ count_if (is_row id) s.instances
  unfolding request accept_invitation decline_invitation leave_scene delete_submission
      submit_private_preferences cast_vote replace_vote moved
  request-count (transition user_id other action) s id =
      elim (transition_state-instances user_id other action s) [
        | inl same ↦ ap (count_if (is_row id)) same
        | inr (k, target, _, _, rows) ↦
            ap (count_if (is_row id)) rows
            ∙ count_if-update_first_same (is_row id) (is_row other) (moved target s.now) s.instances
                (λ x. refl)
      ]
  request-count (accept user_id other) s id = ground arith
  request-count (decline user_id other) s id = ground arith
  request-count (leave user_id other) s id = ground arith
  request-count (delete user_id other) s id = ground arith
  request-count (submit user_id other preferences save) s id = ground arith
  request-count (vote user_id other candidate_id value key) s id = ground arith

  call-count :
      (c : Call P) (s : Store) (id : ℕ)
      → count_if (is_row id) (call codec registry capsule_from_json c s).instances
        ≡ count_if (is_row id) s.instances
  unfolding call cleanup_private_data cleanup_expired_submissions hard_delete_payload
  call-count (serve o) s id = request-count o s id
  call-count (generate_for draw other) s id =
      elim (run_generation_phase-instances draw registry capsule_from_json other s) [
        | inl same ↦ ap (count_if (is_row id)) same
        | inr (k, _, _, rows) ↦
            ap (count_if (is_row id)) rows
            ∙ count_if-update_first_same (is_row id) (is_row k.id) has_failed s.instances
                (λ x. refl)
      ]
  call-count sweep s id = sweep-count id s
  call-count (purge other) s id = refl
  call-count (purge_old limit) s id = ground arith
  call-count (wait later) s id = refl

  -- Take any sequence of calls of the scene service, of the generation, of the sweep of stale scenes
  -- and of the purges, by any users, in any order and at any times, from a store where the ids of
  -- scenes are unique. A scene is still there afterwards, and its state is reached from the one it
  -- had by actions that the state machine accepts one after another.
  pub run_calls-follows_machine :
      (calls : List (Call P)) (s : Store) (id : ℕ) (i : SceneInstance)
      → count_if (is_row id) s.instances ≤ 1
      → get_by_id id s ≡ some i
      → (j : SceneInstance) × (actions : List SceneAction) × (get_by_id id
            (run_calls codec registry capsule_from_json calls s)
          ≡ some j)
        × (run i.status actions ≡ some j.status)
  unfolding run_calls run Follows
  run_calls-follows_machine [] s id i a h = (i, [], h, refl)
  run_calls-follows_machine (c ∷ rest) s id i a h =
      let after = call codec registry capsule_from_json c s in
      let (k, first, found, ran) = call-Follows c s id i a h in
      let (j, more, found', ran') =
        run_calls-follows_machine rest after id k (omega (arith, a, call-count c s id)) found in
      (j, first ++ more, found', run-run i.status first more k.status j.status ran ran')

  -- From a store where the ids of scenes are unique, a scene that is completed, cancelled, expired or
  -- failed keeps that state under any sequence of these calls.
  pub run_calls-keeps_terminal :
      (calls : List (Call P)) (s : Store) (id : ℕ) (i : SceneInstance)
      → count_if (is_row id) s.instances ≤ 1
      → get_by_id id s ≡ some i
      → is_terminal i.status ≡ true
      → (j : SceneInstance) × (get_by_id id (run_calls codec registry capsule_from_json calls s)
          ≡ some j)
        × (j.status ≡ i.status)
  run_calls-keeps_terminal calls s id i a h t =
      let (j, actions, found, ran) = run_calls-follows_machine calls s id i a h in
      (j, found, sym (run-terminal i.status j.status actions t ran))
