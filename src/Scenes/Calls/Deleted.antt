-- ===== src/Scenes/Calls/Deleted.antt =====
-- The row of a submission that its owner has deleted, under all calls.
use campus_agent.Base.{
  ℕ, ◌≡◌, refl, true, false, Bool, ◌+◌, Option, some, List, [], ◌∷◌, String, inl, inr, ◌⊎◌,
  update_all, arith, Option-cases, Bool-cases, ltb,
}
use campus_agent.Base.Table.{find-update_all, find-update_first_other, find-append_some}
use campus_agent.Base.Action.{ok}
use campus_agent.Scenes.StateMachine.{expire, can_action, generating_candidates, state_eq}
use campus_agent.Scenes.Models.{SceneInstance, PrivateSubmission, Store, is_live}
use campus_agent.Scenes.Repository.{
  is_submission_of, is_live_in, is_owned, purged, get_by_id, list_submissions, hard_delete_payload,
  replace_vote, list_expired, update_status,
}
use campus_agent.Scenes.Cleanup.{cleanup_private_data}
use campus_agent.Scenes.Cleanup.Purge.{the_row, cleanup-skips_deleted, delete_submission-row}
use campus_agent.Scenes.Service.Transitions.{transition_state, expire_each, expire_stale_instances}
use campus_agent.Scenes.Service.Participants.{accept_invitation, decline_invitation, leave_scene}
use campus_agent.Scenes.Service.Submissions.{
  Codec, filled, first_submission, submit_private_preferences, delete_submission,
}
use campus_agent.Scenes.Service.Submissions.Privacy.{submit-effect}
use campus_agent.Scenes.Service.Voting.{cast_vote}
use campus_agent.Scenes.Service.AuditTrail.{
  Operation, transition, accept, decline, leave, delete, submit, vote, request,
}
use campus_agent.Scenes.Coordinator.{
  Plugin, each, aggregates, candidate_rows, clashes, fail_generation, finish_generation, has_result,
  generate, capsule_texts, run_generation_phase,
}
use campus_agent.Scenes.Calls.{
  Call, serve, generate_for, sweep, purge, purge_old, wait, call, run_calls,
}

-- The change of a live row leaves the deleted one.
delete-keeps_row :
    (id user_id other user' : ℕ) (s : Store) (p : PrivateSubmission)
    → is_live p ≡ false
    → the_row id user_id s ≡ some p
    → the_row id user_id (delete_submission user' other s).1 ≡ some p
unfolding delete_submission
delete-keeps_row id user_id other user' s p k h = ground (
  arith,
  find-update_first_other (is_submission_of id user_id) (is_owned other user')
      (λ (r : PrivateSubmission). record r { deleted_at = some s.now }) s.submissions p (λ y. refl)
      (ground arith) h,
)

module _ {P C : Type 0} (codec : Codec P C) where
  submit-keeps_row :
      (id user_id other user' : ℕ) (preferences : P) (save : Bool) (s : Store)
      (p : PrivateSubmission)
      → is_live p ≡ false
      → the_row id user_id s ≡ some p
      → the_row id user_id (submit_private_preferences codec user' other preferences save s).1
        ≡ some p
  unfolding filled
  submit-keeps_row id user_id other user' preferences save s p k h =
      elim (submit-effect codec user' other preferences save s) [
        | inl (same, _) ↦ rw same h
        | inr (inl (_, _, _, rows)) ↦ rw rows (
            find-update_first_other (is_submission_of id user_id) (is_owned other user')
              (filled codec preferences s.now) s.submissions p (λ y. refl) (ground arith) h)
        | inr (inr (_, _, _, rows)) ↦ rw rows (
            find-append_some (is_submission_of id user_id) s.submissions
              (first_submission codec other user' preferences s.now ∷ []) {x = p} h)
      ]

  request-keeps_row :
      (o : Operation P) (id user_id : ℕ) (s : Store) (p : PrivateSubmission)
      → is_live p ≡ false
      → the_row id user_id s ≡ some p
      → the_row id user_id (request codec o s) ≡ some p
  unfolding request accept_invitation decline_invitation leave_scene cast_vote replace_vote
      transition_state
  request-keeps_row (transition user' other action) id user_id s p k h = ground (arith, h)
  request-keeps_row (accept user' other) id user_id s p k h = ground (arith, h)
  request-keeps_row (decline user' other) id user_id s p k h = ground (arith, h)
  request-keeps_row (leave user' other) id user_id s p k h = ground (arith, h)
  request-keeps_row (delete user' other) id user_id s p k h =
      delete-keeps_row id user_id other user' s p k h
  request-keeps_row (submit user' other preferences save) id user_id s p k h =
      submit-keeps_row id user_id other user' preferences save s p k h
  request-keeps_row (vote user' other candidate_id value key) id user_id s p k h = ground (arith, h)

module _ {D E : Type 0} where
  -- A generation changes no submission, or purges the scene it is for.
  generate-submissions :
      (draw : ℕ → ℕ) (plugin : Plugin D E) (capsules : List D) (i : SceneInstance) (s : Store)
      → ((generate draw plugin capsules i s).1.submissions ≡ s.submissions)
        ⊎ ((generate draw plugin capsules i s).1.submissions
            ≡ update_all (is_live_in i.id) (purged s.now) s.submissions)
  unfolding generate fail_generation finish_generation cleanup_private_data hard_delete_payload
  generate-submissions draw plugin capsules i s =
      elim (Option-cases (aggregates plugin capsules i.public_context_json)) [
        | inl e ↦ inr (ground arith)
        | inr (pair, e) ↦
            elim (Bool-cases (clashes (candidate_rows draw 0 i.id pair.0 pair.1) s.candidates)) [
              | inl clash ↦ inl (ground arith)
              | inr free ↦
                  elim (Option-cases (plugin.build_public_result pair.1 i.public_context_json)) [
                    | inl f ↦ inr (ground arith)
                    | inr (result, f) ↦ elim (Bool-cases (has_result i.id s)) [
                      | inl taken ↦ inl (ground arith)
                      | inr new ↦ inr (ground arith)
                    ]
                  ]
            ]
      ]

  generation-keeps_row :
      (draw : ℕ → ℕ) (registry : String → String → Option (Plugin D E))
      (capsule_from_json : String → Option D) (other id user_id : ℕ) (s : Store)
      (p : PrivateSubmission)
      → is_live p ≡ false
      → the_row id user_id s ≡ some p
      → the_row id user_id (run_generation_phase draw registry capsule_from_json other s).1 ≡ some p
  unfolding run_generation_phase
  generation-keeps_row draw registry capsule_from_json other id user_id s p k h =
      elim (Option-cases (get_by_id other s)) [
        | inl e ↦ ground arith
        | inr (i, e) ↦ elim (Bool-cases (state_eq i.status generating_candidates)) [
          | inr wrong ↦ ground arith
          | inl right ↦ elim (Option-cases (registry i.scene_key i.version_key)) [
            | inl f ↦ ground arith
            | inr (plugin, f) ↦
                elim (Option-cases
                  (each capsule_from_json (capsule_texts (list_submissions other s)))) [
                    | inl x ↦ ground arith
                    | inr (capsules, x) ↦ ground (
                      arith,
                      generate-submissions draw plugin capsules i s,
                      find-update_all (is_submission_of id user_id) (is_live_in i.id) (purged s.now)
                          s.submissions p (λ y. refl) h,
                    )
                  ]
          ]
        ]
      ]

purge-keeps_row :
    (other id user_id : ℕ) (s : Store) (p : PrivateSubmission)
    → is_live p ≡ false
    → the_row id user_id s ≡ some p
    → the_row id user_id (cleanup_private_data other s).1 ≡ some p
unfolding cleanup_private_data hard_delete_payload
purge-keeps_row other id user_id s p k h = ground (
  arith,
  find-update_all (is_submission_of id user_id) (is_live_in other) (purged s.now) s.submissions p
      (λ y. refl) h,
)

expire_each-submissions :
    (rows : List SceneInstance) (n : ℕ) (s : Store)
    → (expire_each rows n s).1.submissions ≡ s.submissions
unfolding expire_each update_status
expire_each-submissions [] n s = refl
expire_each-submissions (y ∷ rest) n s = elim (Bool-cases (can_action y.status expire)) [
  | inl can ↦ rw can (expire_each-submissions rest (n + 1) _)
  | inr cannot ↦ rw cannot (expire_each-submissions rest n s)
]

sweep-submissions : (s : Store) → (expire_stale_instances s).1.submissions ≡ s.submissions
unfolding expire_stale_instances
sweep-submissions s = elim (Bool-cases (ltb 0 (expire_each (list_expired s) 0 s).0)) [
  | inl e ↦ rw e (expire_each-submissions (list_expired s) 0 s)
  | inr e ↦ rw e (expire_each-submissions (list_expired s) 0 s)
]

module _ {P C D E : Type 0} (codec : Codec P C) (registry : String → String → Option (Plugin D E))
    (capsule_from_json : String → Option D) where
  call-keeps_row :
      (c : Call P) (id user_id : ℕ) (s : Store) (p : PrivateSubmission)
      → is_live p ≡ false
      → the_row id user_id s ≡ some p
      → the_row id user_id (call codec registry capsule_from_json c s) ≡ some p
  unfolding call
  call-keeps_row (serve o) id user_id s p k h = request-keeps_row codec o id user_id s p k h
  call-keeps_row (generate_for draw other) id user_id s p k h =
      generation-keeps_row draw registry capsule_from_json other id user_id s p k h
  call-keeps_row sweep id user_id s p k h = rw (sweep-submissions s) h
  call-keeps_row (purge other) id user_id s p k h = purge-keeps_row other id user_id s p k h
  call-keeps_row (purge_old limit) id user_id s p k h =
      cleanup-skips_deleted id user_id limit s p h k
  call-keeps_row (wait later) id user_id s p k h = h

  run_calls-keeps_row :
      (calls : List (Call P)) (id user_id : ℕ) (s : Store) (p : PrivateSubmission)
      → is_live p ≡ false
      → the_row id user_id s ≡ some p
      → the_row id user_id (run_calls codec registry capsule_from_json calls s) ≡ some p
  unfolding run_calls
  run_calls-keeps_row [] id user_id s p k h = h
  run_calls-keeps_row (c ∷ rest) id user_id s p k h =
      run_calls-keeps_row rest id user_id (call codec registry capsule_from_json c s) p k
        (call-keeps_row c id user_id s p k h)

  -- A user who deletes their live submission, of which the first row of that user and scene is, keeps
  -- its encrypted payload and capsule in the table: whatever calls follow, of the scene service, of
  -- generations, of the sweep and of the purges of the scene or of expired submissions, at any later
  -- times, none clears them.
  pub delete_submission-payload_stays :
      (calls : List (Call P)) (id user_id : ℕ) (s : Store) (p : PrivateSubmission)
      → the_row id user_id s ≡ some p
      → is_live p ≡ true
      → let after = (delete_submission user_id id s).1 in
        ((delete_submission user_id id s).0 ≡ ok tt)
        × (the_row id user_id (run_calls codec registry capsule_from_json calls after)
            ≡ some (record p { deleted_at = some s.now }))
  delete_submission-payload_stays calls id user_id s p h k =
      let deleted = delete_submission-row id user_id s p h k in
      (
        deleted.0,
        run_calls-keeps_row calls id user_id (delete_submission user_id id s).1
            (record p { deleted_at = some s.now }) refl deleted.1,
      )
