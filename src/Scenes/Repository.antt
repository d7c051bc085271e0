-- ===== src/Scenes/Repository.antt =====
-- apps/api/src/modules/scenes/repository.py: the conditions and the answers of the queries.
use campus_agent.Base.{
  ℕ, zero, suc, Bool, false, ◌&&◌, not, Option, none, some, List, [], ◌∷◌, ◌++◌, ◌==◌, ltb,
  if◌then◌else◌, find, select, count_if, update_first, update_all, take, any, is_some, length, ◌+◌,
}
use campus_agent.Scenes.StateMachine.{SceneState, is_terminal}
use campus_agent.Scenes.Models.{
  SceneInstance, SceneParticipant, PrivateSubmission, SceneCandidate, SceneVote, SceneResult, Store,
  is_accepted, is_live,
}

unfoldable pub get_by_id : ℕ → Store → Option SceneInstance
get_by_id id s = find (λ i. i.id == id) s.instances

abbrev pub change_instance : ℕ → (SceneInstance → SceneInstance) → Store → Store
change_instance id f s = record s { instances = update_first (λ i. i.id == id) f s.instances }

-- A time is past if it is set and before now.
abbrev pub is_past : ℕ → Option ℕ → Bool
is_past now none = false
is_past now (some t) = ltb t now

abbrev pub is_stale : ℕ → SceneInstance → Bool
is_stale now i = is_past now i.expires_at && not (is_terminal i.status)

-- `SceneInstanceRepository.list_expired`, with its default limit.
unfoldable pub list_expired : Store → List SceneInstance
list_expired s = take 50 (select (is_stale s.now) s.instances)

-- `update_status` with a version: the row is changed only if it still has that version.
unfoldable pub update_status : ℕ → SceneState → SceneState → ℕ → Store → Bool × Store
update_status id status current_phase version s =
    let hit = λ (i : SceneInstance). i.id == id && i.version == version in
    let change = λ (i : SceneInstance). record i {
      status = status;
      current_phase = current_phase;
      version = version + 1;
    } in
    (is_some (find hit s.instances), record s { instances = update_all hit change s.instances })

abbrev pub is_participant : ℕ → ℕ → SceneParticipant → Bool
is_participant instance_id user_id p = p.scene_instance_id == instance_id && p.user_id == user_id

unfoldable pub get_participant : ℕ → ℕ → Store → Option SceneParticipant
get_participant instance_id user_id s = find (is_participant instance_id user_id) s.participants

abbrev pub change_participant : ℕ → ℕ → (SceneParticipant → SceneParticipant) → Store → Store
change_participant instance_id user_id f s = record s {
  participants = update_first (is_participant instance_id user_id) f s.participants;
}

unfoldable pub list_by_instance : ℕ → Store → List SceneParticipant
list_by_instance instance_id s = select (λ p. p.scene_instance_id == instance_id) s.participants

unfoldable pub count_accepted : ℕ → Store → ℕ
count_accepted instance_id s =
    count_if (λ p. p.scene_instance_id == instance_id && is_accepted p.status) s.participants

abbrev pub is_owned : ℕ → ℕ → PrivateSubmission → Bool
is_owned instance_id user_id p =
    (p.scene_instance_id == instance_id && p.user_id == user_id) && is_live p

-- The columns of the unique constraint of the table, which deleted rows count for too.
abbrev pub is_submission_of : ℕ → ℕ → PrivateSubmission → Bool
is_submission_of instance_id user_id p = p.scene_instance_id == instance_id && p.user_id == user_id

-- The insertion of a row for this instance and user breaks the constraint.
unfoldable pub is_taken : ℕ → ℕ → Store → Bool
is_taken instance_id user_id s = any (is_submission_of instance_id user_id) s.submissions

abbrev pub is_live_in : ℕ → PrivateSubmission → Bool
is_live_in instance_id p = p.scene_instance_id == instance_id && is_live p

unfoldable pub get_for_owner : ℕ → ℕ → Store → Option PrivateSubmission
get_for_owner instance_id user_id s = find (is_owned instance_id user_id) s.submissions

unfoldable pub list_submissions : ℕ → Store → List PrivateSubmission
list_submissions instance_id s = select (is_live_in instance_id) s.submissions

unfoldable pub count_submissions : ℕ → Store → ℕ
count_submissions instance_id s = count_if (is_live_in instance_id) s.submissions

abbrev pub change_submission : ℕ → ℕ → (PrivateSubmission → PrivateSubmission) → Store → Store
change_submission instance_id user_id f s = record s {
  submissions = update_first (is_owned instance_id user_id) f s.submissions;
}

abbrev pub add_submission : PrivateSubmission → Store → Store
add_submission p s = record s { submissions = s.submissions ++ p ∷ [] }

-- What a purge leaves of a submission.
abbrev pub purged : ℕ → PrivateSubmission → PrivateSubmission
purged now p = record p { encrypted_payload = ""; capsule_json = none; deleted_at = some now }

-- `hard_delete_payload`: the number of rows, and the table after it.
unfoldable pub hard_delete_payload : ℕ → Store → ℕ × Store
hard_delete_payload instance_id s = (
  length (select (is_live_in instance_id) s.submissions),
  record s { submissions = update_all (is_live_in instance_id) (purged s.now) s.submissions },
)

abbrev pub has_expired : ℕ → PrivateSubmission → Bool
has_expired now p = is_past now p.expires_at && is_live p

-- `PrivateSubmissionRepository.list_expired` and the loop of the caller that purges its rows: at
-- most `limit` rows are purged, and the first component says how many.
unfoldable pub purge_expired : ℕ → ℕ → List PrivateSubmission → ℕ × List PrivateSubmission
purge_expired now limit [] = (0, [])
purge_expired now zero (p ∷ rest) = (0, p ∷ rest)
purge_expired now (suc limit) (p ∷ rest) =
    let hit = purge_expired now limit rest in
    let miss = purge_expired now (suc limit) rest in
    if has_expired now p then (hit.0 + 1, purged now p ∷ hit.1) else (miss.0, p ∷ miss.1)

unfoldable pub get_candidate : ℕ → Store → Option SceneCandidate
get_candidate candidate_id s = find (λ c. c.id == candidate_id) s.candidates

abbrev pub is_vote_of : ℕ → ℕ → SceneVote → Bool
is_vote_of instance_id user_id v = v.scene_instance_id == instance_id && v.user_id == user_id

unfoldable pub get_vote : ℕ → ℕ → Store → Option SceneVote
get_vote instance_id user_id s = find (is_vote_of instance_id user_id) s.votes

-- `replace_vote`: an earlier vote is overwritten, and a first vote is added.
unfoldable pub replace_vote : ℕ → ℕ → SceneVote → Store → Store
replace_vote instance_id user_id vote s = elim (find (is_vote_of instance_id user_id) s.votes) [
  | none ↦ record s { votes = s.votes ++ vote ∷ [] }
  | some _ ↦ record s {
    votes =
        update_first (is_vote_of instance_id user_id)
          (λ v. record v {
            candidate_id = vote.candidate_id;
            vote_value = vote.vote_value;
            idempotency_key = vote.idempotency_key;
          })
          s.votes;
  }
]

unfoldable pub get_result : ℕ → Store → Option SceneResult
get_result instance_id s = find (λ r. r.scene_instance_id == instance_id) s.results
