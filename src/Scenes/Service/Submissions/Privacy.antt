-- ===== src/Scenes/Service/Submissions/Privacy.antt =====
-- What the table of private submissions holds after a submission.
use campus_agent.Base.{
  ℕ, ◌+◌, ◌≡◌, ◌≢◌, refl, Bool, true, false, ◌&&◌, Option, some, none, inl, inr, ◌⊎◌, arith,
  Option-cases, Bool-cases, ==_refl,
}
use campus_agent.Base.Action.{ok, err}
use campus_agent.Base.Table.{find-holds, find-update_first_self, find-append}
use campus_agent.Scenes.StateMachine.{state_eq, collecting_private_input}
use campus_agent.Scenes.Models.{PrivateSubmission, SceneInstance, integrity_error, Store}
use campus_agent.Scenes.Repository.{
  is_owned, is_taken, get_for_owner, get_by_id, get_participant, change_submission, add_submission,
}
use campus_agent.Scenes.Service.Submissions.{
  Codec, filled, first_submission, consents, submit_private_preferences, delete_submission,
  SubmissionReply,
}
use campus_agent.Scenes.Service.Submissions.Deletion.{
  HasUniqueSubmissions, delete_submission-effect,
}

abbrev is_collecting : Option SceneInstance → Bool
is_collecting none = false
is_collecting (some i) = state_eq i.status collecting_private_input

module _ {P C : Type 0} (codec : Codec P C) where
  open codec use {registered, validates, build_private_capsule, capsule_allowed, encrypt_payload}

  abbrev is_registered : Option SceneInstance → Bool
  is_registered none = false
  is_registered (some i) = registered i.scene_key i.version_key

  -- The conditions of a submission.
  unfoldable pub may_submit : ℕ → ℕ → P → Store → Bool
  may_submit user_id id preferences s =
      (is_collecting (get_by_id id s)
        && (consents (get_participant id user_id s) && is_registered (get_by_id id s)))
      && (validates preferences && capsule_allowed (build_private_capsule preferences))

  -- A submission is refused and changes nothing, or replaces the user's live row, or adds a row
  -- where the user has none, not even a deleted one.
  pub submit-effect :
      (user_id id : ℕ) (preferences : P) (save : Bool) (s : Store)
      → ((submit_private_preferences codec user_id id preferences save s).1 ≡ s)
          × ((reply : SubmissionReply)
              → (submit_private_preferences codec user_id id preferences save s).0 ≢ ok reply)
        ⊎ ((p : PrivateSubmission) × (may_submit user_id id preferences s ≡ true)
            × (get_for_owner id user_id s ≡ some p)
            × ((submit_private_preferences codec user_id id preferences save s).1.submissions
                ≡ (change_submission id user_id (filled codec preferences s.now) s).submissions))
        ⊎ (may_submit user_id id preferences s ≡ true)
          × (get_for_owner id user_id s ≡ none)
          × (is_taken id user_id s ≡ false)
          × ((submit_private_preferences codec user_id id preferences save s).1.submissions
              ≡ (add_submission
                  (first_submission codec id user_id preferences s.now)
                  s).submissions)
  unfolding submit_private_preferences may_submit
  submit-effect user_id id preferences save s =
      elim (Bool-cases (may_submit user_id id preferences s)) [
        | inr may_not ↦ inl (ground arith, λ reply. ground arith)
        | inl may ↦ elim (Option-cases (get_for_owner id user_id s)) [
          | inr (p, e) ↦ inr (inl (p, may, e, ground arith))
          | inl e ↦ elim (Bool-cases (is_taken id user_id s)) [
            | inl taken ↦ inl (ground arith, λ reply. ground arith)
            | inr free ↦ inr (inr (may, e, free, ground arith))
          ]
        ]
      ]

  -- A submission succeeds only in the collecting phase, for a user who has accepted, with
  -- a plugin that is registered and preferences and a capsule that pass validation; afterwards the user's live row holds the
  -- encryption of these preferences, and expires after 24 hours.
  pub submit-stored :
      (user_id id : ℕ) (preferences : P) (save : Bool) (s : Store) (reply : SubmissionReply)
      → (submit_private_preferences codec user_id id preferences save s).0 ≡ ok reply
      → (may_submit user_id id preferences s ≡ true)
        × ((p : PrivateSubmission) × (get_for_owner id user_id
                (submit_private_preferences codec user_id id preferences save s).1
              ≡ some p)
            × (p.encrypted_payload ≡ encrypt_payload preferences)
            × (p.expires_at ≡ some (s.now + 86400)))
  unfolding get_for_owner filled first_submission
  submit-stored user_id id preferences save s reply h =
      elim (submit-effect user_id id preferences save s) [
        | inl (_, failed) ↦ absurd (failed reply h)
        | inr (inl (p, may, found, rows)) ↦ (
          may,
          (
            filled codec preferences s.now p,
            rw rows (
                find-update_first_self (is_owned id user_id) (filled codec preferences s.now)
                  s.submissions p found
                  (ground (arith, find-holds (is_owned id user_id) s.submissions {x = p} found))),
            refl,
            refl,
          ),
        )
        | inr (inr (may, none_found, _, rows)) ↦ (
          may,
          (
            first_submission codec id user_id preferences s.now,
            rw rows (
                ground (
                  arith,
                  ==_refl id,
                  ==_refl user_id,
                  find-append (is_owned id user_id) s.submissions
                      (first_submission codec id user_id preferences s.now) none_found,
                )),
            refl,
            refl,
          ),
        )
      ]

  submit-blocked :
      (user_id id : ℕ) (preferences : P) (save : Bool) (s : Store)
      → may_submit user_id id preferences s ≡ true
      → get_for_owner id user_id s ≡ none
      → is_taken id user_id s ≡ true
      → submit_private_preferences codec user_id id preferences save s ≡ (err integrity_error, s)
  unfolding submit_private_preferences may_submit
  submit-blocked user_id id preferences save s may gone taken = ground arith

  -- Where the table has one row at most for each user and scene, a user who has deleted a live
  -- submission cannot submit again: every submission that meets the conditions ends in the
  -- database's integrity error, and nothing changes.
  pub submit-after_delete :
      (user_id id : ℕ) (preferences : P) (save : Bool) (s : Store) (p : PrivateSubmission)
      → HasUniqueSubmissions s
      → get_for_owner id user_id s ≡ some p
      → may_submit user_id id preferences (delete_submission user_id id s).1 ≡ true
      → submit_private_preferences codec user_id id preferences save
          (delete_submission user_id id s).1
        ≡ (err integrity_error, (delete_submission user_id id s).1)
  submit-after_delete user_id id preferences save s p unique h may =
      let effect = delete_submission-effect user_id id s p unique h in
      submit-blocked user_id id preferences save (delete_submission user_id id s).1 may effect.1
        effect.2
