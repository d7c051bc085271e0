-- ===== src/Scenes/Cleanup/Purge.antt =====
-- What a purge of private submissions leaves behind, and what it does not reach.
use text.Mathlib.Text.{◌==◌ as str_eq}
use campus_agent.Base.{
  not, is_some, ◌==◌, ◌&&◌, ◌||◌, select, ℕ, ◌≡◌, refl, ◌∙◌, ap, Bool, true, false, Option, some,
  none, List, [], ◌∷◌, arith, find, update_first, zero, suc, ltb, inl, inr, Bool-cases,
  Option-cases,
}
use campus_agent.Base.Action.{ok}
use campus_agent.Base.Table.{
  length-select, select-update_all, count_if-find_holds, find-holds, count_if-update_all_none,
}
use campus_agent.Scenes.Models.{PrivateSubmission, Store, is_live}
use campus_agent.Scenes.Repository.{
  is_live_in, is_owned, is_submission_of, purged, count_submissions, get_for_owner,
  hard_delete_payload, purge_expired,
}
use campus_agent.Scenes.Cleanup.{cleanup_private_data, cleanup_expired_submissions}
use campus_agent.Scenes.Service.Submissions.{delete_submission}

-- A row of this instance that still holds private data: a payload that is not empty, or a capsule.
abbrev pub holds_private : ℕ → PrivateSubmission → Bool
holds_private id p =
    p.scene_instance_id == id && (not (str_eq p.encrypted_payload "") || is_some p.capsule_json)

abbrev pub is_elsewhere : ℕ → PrivateSubmission → Bool
is_elsewhere id p = not (p.scene_instance_id == id)

abbrev pub was_deleted : ℕ → PrivateSubmission → Bool
was_deleted id p = holds_private id p && not (is_live p)

-- The purge of an instance reports how many live submissions it had. It leaves it none, and the
-- only rows of the instance that still have a payload or a capsule are those that were deleted
-- already before. The rows of other instances are kept, each as it was.
pub cleanup_private_data-purges :
    (id : ℕ) (s : Store)
    → let (reply, after) = cleanup_private_data id s in
      (reply ≡ ok (count_submissions id s))
      × (count_submissions id after ≡ 0)
      × (select (holds_private id) after.submissions ≡ select (was_deleted id) s.submissions)
      × (select (is_elsewhere id) after.submissions ≡ select (is_elsewhere id) s.submissions)
unfolding cleanup_private_data hard_delete_payload count_submissions
cleanup_private_data-purges id s = (
  ap ok (length-select (is_live_in id) s.submissions),
  count_if-update_all_none (is_live_in id) (is_live_in id) (purged s.now) s.submissions
      (λ x h. ground arith) (λ x h. h),
  select-update_all (is_live_in id) (holds_private id) (was_deleted id) (purged s.now) s.submissions
      (λ x h. ground arith) (λ x h. ground arith) (λ x h. ground arith),
  select-update_all (is_live_in id) (is_elsewhere id) (is_elsewhere id) (purged s.now) s.submissions
      (λ x h. ground arith) (λ x h. ground arith) (λ x h. refl),
)

-- After the purge of an instance no user has a live submission in it to read, and a second purge of
-- it finds nothing more.
pub cleanup_private_data-twice :
    (id user_id : ℕ) (s : Store)
    → (get_for_owner id user_id (cleanup_private_data id s).1 ≡ none)
      × ((cleanup_private_data id (cleanup_private_data id s).1).0 ≡ ok 0)
unfolding get_for_owner
cleanup_private_data-twice id user_id s =
    let counts = λ (t : Store). cleanup_private_data-purges id t in
    let after = (cleanup_private_data id s).1 in
    let unread : find (is_owned id user_id) after.submissions ≡ none =
      elim (Option-cases (find (is_owned id user_id) after.submissions)) [
        | inl e ↦ e
        | inr (x, e) ↦ absurd (
            unfold count_submissions in
            ground (
              arith,
              (counts s).1,
              find-holds (is_owned id user_id) after.submissions {x = x} e,
              count_if-find_holds (is_owned id user_id) (is_live_in id) after.submissions x e,
            ))
      ] in
    (unread, (counts after).0 ∙ ap ok (counts s).1)

find-purge_expired :
    (q : PrivateSubmission → Bool) (now limit : ℕ) (t : List PrivateSubmission)
    (x : PrivateSubmission)
    → ((y : PrivateSubmission) → q (purged now y) ≡ q y)
    → find q t ≡ some x
    → is_live x ≡ false
    → find q (purge_expired now limit t).1 ≡ some x
unfolding find purge_expired
find-purge_expired q now limit [] x a h k = cc
find-purge_expired q now zero (y ∷ t) x a h k = h
find-purge_expired q now (suc limit) (y ∷ t) x a h k =
    ground
      (arith, a y, find-purge_expired q now limit t x a, find-purge_expired q now (suc limit) t x a)

-- The row of a user that finds a condition weaker than the one of the change.
find-update_first :
    (q p : PrivateSubmission → Bool) (f : PrivateSubmission → PrivateSubmission)
    (t : List PrivateSubmission) (x : PrivateSubmission)
    → ((y : PrivateSubmission) → p y ≡ true → q y ≡ true)
    → find q t ≡ some x
    → p x ≡ true
    → q (f x) ≡ true
    → (find p t ≡ some x) × (find q (update_first p f t) ≡ some (f x))
unfolding find update_first
find-update_first q p f [] x a h k l = cc
find-update_first q p f (y ∷ t) x a h k l = ground (arith, a y, find-update_first q p f t x a)

abbrev pub the_row : ℕ → ℕ → Store → Option PrivateSubmission
the_row id user_id s = find (is_submission_of id user_id) s.submissions

-- The row of a submission that its owner has deleted, payload and capsule included, is untouched
-- by the purge of expired submissions, whatever their limit.
pub cleanup-skips_deleted :
    (id user_id limit : ℕ) (s : Store) (p : PrivateSubmission)
    → the_row id user_id s ≡ some p
    → is_live p ≡ false
    → the_row id user_id (cleanup_expired_submissions limit s).1 ≡ some p
unfolding cleanup_expired_submissions
cleanup-skips_deleted id user_id limit s p h k =
    elim (Bool-cases (ltb 0 (purge_expired s.now limit s.submissions).0)) [
      | inl e ↦ rw e (
          find-purge_expired (is_submission_of id user_id) s.now limit s.submissions p (λ y. refl) h
            k)
      | inr e ↦ rw e (
          find-purge_expired (is_submission_of id user_id) s.now limit s.submissions p (λ y. refl) h
            k)
    ]

pub delete_submission-row :
    (id user_id : ℕ) (s : Store) (p : PrivateSubmission)
    → the_row id user_id s ≡ some p
    → is_live p ≡ true
    → ((delete_submission user_id id s).0 ≡ ok tt)
      × (the_row id user_id (delete_submission user_id id s).1
          ≡ some (record p { deleted_at = some s.now }))
unfolding delete_submission get_for_owner
delete_submission-row id user_id s p h k =
    let own = find-holds (is_submission_of id user_id) s.submissions {x = p} h in
    let found =
      find-update_first (is_submission_of id user_id) (is_owned id user_id)
        (λ (r : PrivateSubmission). record r { deleted_at = some s.now }) s.submissions p
        (λ y e. ground arith) h (ground arith) own in
    ground (arith, found.0, found.1)
