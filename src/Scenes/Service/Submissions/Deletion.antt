-- ===== src/Scenes/Service/Submissions/Deletion.antt =====
-- The table of private submissions: one row for each user and scene, which a deletion keeps.
use campus_agent.Base.{
  ℕ, ◌≡◌, ◌≤◌, refl, Bool, true, false, some, none, inl, inr, find, count_if, any, update_first,
  arith, Option-cases, Bool-cases, List, [], ◌∷◌,
}
use campus_agent.Base.Action.{ok}
use campus_agent.Base.Table.{find-holds, count_if-find-some, count_if-update_first}
use campus_agent.Scenes.Models.{PrivateSubmission, Store}
use campus_agent.Scenes.Repository.{is_owned, is_submission_of, is_taken, get_for_owner}
use campus_agent.Scenes.Service.Submissions.{delete_submission}

-- At most one row, deleted ones included, for each instance and user.
abbrev pub HasUniqueSubmissions : Store → Type 0
HasUniqueSubmissions s = (id user_id : ℕ) → count_if (is_submission_of id user_id) s.submissions ≤ 1

count_if-any :
    (p : PrivateSubmission → Bool) (t : List PrivateSubmission) → any p t ≡ false → count_if p t ≡ 0
unfolding any count_if
count_if-any p [] h = refl
count_if-any p (y ∷ t) h = ground (arith, count_if-any p t)

count_if_mono :
    (p q : PrivateSubmission → Bool) (t : List PrivateSubmission)
    → ((x : PrivateSubmission) → p x ≡ true → q x ≡ true)
    → count_if p t ≤ count_if q t
unfolding count_if
count_if_mono p q [] a = omega arith
count_if_mono p q (y ∷ t) a = ground (arith, a y, count_if_mono p q t a)

-- A change of a row that keeps its keys keeps the number of rows for every pair of keys.
count_if-update_same :
    (q p : PrivateSubmission → Bool) (f : PrivateSubmission → PrivateSubmission)
    (t : List PrivateSubmission)
    → ((x : PrivateSubmission) → q (f x) ≡ q x)
    → count_if q (update_first p f t) ≡ count_if q t
unfolding count_if update_first
count_if-update_same q p f [] a = refl
count_if-update_same q p f (y ∷ t) a = ground (arith, a y, count_if-update_same q p f t a)

-- After a user deletes a submission there is no live one, but the table still has the row.
pub delete_submission-effect :
    (user_id id : ℕ) (s : Store) (p : PrivateSubmission)
    → HasUniqueSubmissions s
    → get_for_owner id user_id s ≡ some p
    → ((delete_submission user_id id s).0 ≡ ok tt)
      × (get_for_owner id user_id (delete_submission user_id id s).1 ≡ none)
      × (is_taken id user_id (delete_submission user_id id s).1 ≡ true)
unfolding delete_submission get_for_owner is_taken
delete_submission-effect user_id id s p unique h =
    let rows = s.submissions in
    let own = is_owned id user_id in
    let drop = λ (r : PrivateSubmission). record r { deleted_at = some s.now } in
    let after = update_first own drop rows in
    let fewer = count_if-update_first own own drop rows p h in
    let live = find-holds own rows {x = p} h in
    let atmost = count_if_mono own (is_submission_of id user_id) rows (λ x e. ground arith) in
    let same = count_if-update_same (is_submission_of id user_id) own drop rows (λ x. refl) in
    let gone : find own after ≡ none = elim (Option-cases (find own after)) [
      | inl e ↦ e
      | inr (x, e) ↦ absurd (
          ground
            (arith, fewer, live, atmost, unique id user_id, count_if-find-some own after {x = x} e))
    ] in
    let kept : any (is_submission_of id user_id) after ≡ true =
      elim (Bool-cases (any (is_submission_of id user_id) after)) [
        | inl e ↦ e
        | inr e ↦ absurd (
            ground (
              arith,
              same,
              atmost,
              count_if-find-some own rows {x = p} h,
              count_if-any (is_submission_of id user_id) after e,
            ))
      ] in
    ground (arith, gone, kept)
