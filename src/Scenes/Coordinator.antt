-- ===== src/Scenes/Coordinator.antt =====
-- apps/api/src/modules/scenes/coordinator.py: run_generation_phase, which has a plugin make the
-- candidates of a scene out of the private capsules. The plugin is a parameter; each of its methods
-- may raise, which is none. Its calls of the facade are its own affair.
pub mod Generation
mod Tests
use text.Mathlib.Text.{◌==◌ as str_eq}
use campus_agent.Base.{
  ℕ, suc, ◌+◌, Bool, true, false, ◌&&◌, ◌||◌, not, Option, none, some, List, [], ◌∷◌, ◌++◌, String,
  ◌==◌, if◌then◌else◌, find, any, length, update_first,
}
use campus_agent.Base.Action.{Result, ok, err, ◌>>=◌, ◌>>◌, return, raise, gets, require, raise_if}
use campus_agent.Scenes.StateMachine.{SceneState, generating_candidates, failed, state_eq}
use campus_agent.Scenes.Models.{
  SceneInstance, PrivateSubmission, SceneCandidate, CandidateStatus, active, eliminated, selected,
  SceneResult, SceneEvent, candidate_ready, scene_not_found, state_transition, plugin_error,
  value_error, integrity_error, Store, Service, commit, publish,
}
use campus_agent.Scenes.Repository.{
  get_by_id, change_instance, list_submissions, count_submissions, get_result,
}
use campus_agent.Scenes.Cleanup.{cleanup_private_data}

pub record CandidateInput : Type 0 where
  pub candidate_key : String
  pub display_name : String
  pub public_metadata : Option String  -- as JSON, none where it is empty

pub record AggregateResult : Type 0 where
  pub candidate_key : String
  pub aggregate_score : ℕ
  pub public_reason : String
  pub rank : ℕ
  pub hard_gate_passed : Bool

pub record PublicResult : Type 0 where
  pub selected_candidate_key : Option String
  pub public_summary : String

-- `C` are the capsules and `E` the private evaluations. The public context is its JSON text.
pub record Plugin (C E : Type 0) : Type 0 where
  pub generate_candidates : List C → Option String → Option (List CandidateInput)
  pub evaluate_candidate_privately : CandidateInput → C → Option E
  pub aggregate_results : CandidateInput → List E → Option AggregateResult
  pub build_public_result : List AggregateResult → Option String → Option PublicResult

-- `[f x for x in xs]`, where f may raise.
unfoldable pub each : {A B : Type 0} → (A → Option B) → List A → Option (List B)
each f [] = some []
each f (x ∷ xs) =
    let rest = each f xs in
    elim (f x) [ none ↦ none | some y ↦ elim rest [ none ↦ none | some ys ↦ some (y ∷ ys) ] ]

-- The reply, without the random id of the result.
pub record GenerationReply : Type 0 where
  pub candidate_count : ℕ
  pub submitted_count : ℕ

module _ {C E : Type 0} (plugin : Plugin C E) where
  open plugin use {
    generate_candidates, evaluate_candidate_privately, aggregate_results, build_public_result,
  }

  -- `evaluations_by_candidate`: of two candidates with one key the later one counts.
  abbrev evaluated : List C → CandidateInput → Option (String × List E)
  evaluated capsules c = elim (each (evaluate_candidate_privately c) capsules) [
    | none ↦ none
    | some evals ↦ some (c.candidate_key, evals)
  ]

  unfoldable pub last_with : String → List (String × List E) → List E → List E
  last_with key [] found = found
  last_with key ((k, evals) ∷ rest) found =
      let here = last_with key rest evals in
      let further = last_with key rest found in if str_eq k key then here else further

  abbrev aggregated_with :
      List CandidateInput → List (String × List E) → Option (List AggregateResult)
  aggregated_with inputs table =
      each (λ c. aggregate_results c (last_with c.candidate_key table [])) inputs

  -- Steps 1 to 3: the candidates and their aggregates, or none where the plugin raises.
  unfoldable pub aggregates :
      List C → Option String → Option (List CandidateInput × List AggregateResult)
  aggregates capsules context = elim (generate_candidates capsules context) [
    | none ↦ none
    | some inputs ↦ elim (each (evaluated capsules) inputs) [
      | none ↦ none
      | some table ↦ elim (aggregated_with inputs table) [
        | none ↦ none
        | some results ↦ some (inputs, results)
      ]
    ]
  ]

abbrev display_name_of : Option CandidateInput → AggregateResult → String
display_name_of none a = a.candidate_key
display_name_of (some c) a = c.display_name

abbrev metadata_of : Option CandidateInput → Option String
metadata_of none = none
metadata_of (some c) = c.public_metadata

-- Step 4: the rows, the n-th with the n-th id drawn.
unfoldable pub candidate_rows :
    (ℕ → ℕ) → ℕ → ℕ → List CandidateInput → List AggregateResult → List SceneCandidate
candidate_rows draw n instance_id inputs [] = []
candidate_rows draw n instance_id inputs (a ∷ rest) =
    let ci = find (λ c. str_eq c.candidate_key a.candidate_key) inputs in
    (record {
      id = draw n;
      scene_instance_id = instance_id;
      candidate_key = a.candidate_key;
      display_name = display_name_of ci a;
      public_metadata_json = metadata_of ci;
      aggregate_score = a.aggregate_score;
      public_reason = a.public_reason;
      status = if a.hard_gate_passed then CandidateStatus.active else CandidateStatus.eliminated;
      rank = a.rank;
    })
    ∷ candidate_rows draw (n + 1) instance_id inputs rest

abbrev same_key : SceneCandidate → SceneCandidate → Bool
same_key a b = a.scene_instance_id == b.scene_instance_id && str_eq a.candidate_key b.candidate_key

-- The rows break the unique constraint on the instance and the key.
unfoldable pub clashes : List SceneCandidate → List SceneCandidate → Bool
clashes [] table = false
clashes (c ∷ rest) table = any (same_key c) table || clashes rest (c ∷ table)

abbrev is_selected : Option String → SceneCandidate → Bool
is_selected none c = false
is_selected (some key) c = if str_eq key "" then false else str_eq c.candidate_key key

abbrev id_of : Option SceneCandidate → Option ℕ
id_of none = none
id_of (some c) = some c.id

abbrev mark_selected : SceneCandidate → SceneCandidate
mark_selected c = record c { status = CandidateStatus.selected }

abbrev pub has_failed : SceneInstance → SceneInstance
has_failed i = record i {
  status = failed;
  current_phase = failed;
  version = i.version + 1;
  failed_reason_code = some "generation_failed";
}

-- The handler of an exception: FAILED, the commit of what is flushed, and the purge.
unfoldable pub fail_generation : ℕ → Store → Store
unfolding cleanup_private_data
fail_generation instance_id s =
    (cleanup_private_data instance_id (commit (change_instance instance_id has_failed s))).1

-- Step 5: the result beside the candidates, one of them marked.
abbrev pub generated : ℕ → ℕ → List SceneCandidate → PublicResult → Store → Store
generated instance_id capsules rows result s =
    let chosen = is_selected result.selected_candidate_key in
    let s' : Store = record s {
      candidates = s.candidates ++ update_first chosen mark_selected rows;
      results =
          s.results
          ++ (record {
            scene_instance_id = instance_id;
            selected_candidate_id = id_of (find chosen rows);
            public_summary = result.public_summary;
            participant_count = capsules;
            submitted_count = count_submissions instance_id s;
          })
            ∷ [];
    } in
    publish (candidate_ready instance_id (length rows)) (commit s')

-- Steps 5 to 7.
unfoldable pub finish_generation :
    ℕ → ℕ → List SceneCandidate → PublicResult → Store → GenerationReply × Store
unfolding cleanup_private_data
finish_generation instance_id capsules rows result s = (
  record { candidate_count = length rows; submitted_count = count_submissions instance_id s },
  (cleanup_private_data instance_id (generated instance_id capsules rows result s)).1,
)

abbrev pub has_result : ℕ → Store → Bool
has_result instance_id s = any (λ r. r.scene_instance_id == instance_id) s.results

-- The capsules that are stored with the submissions.
abbrev pub capsule_texts : List PrivateSubmission → List String
capsule_texts [] = []
capsule_texts (p ∷ rest) = elim (p.capsule_json) [
  | none ↦ capsule_texts rest
  | some text ↦ if str_eq text "" then capsule_texts rest else text ∷ capsule_texts rest
]

module _ {C E : Type 0} where
  -- A broken constraint leaves the session unusable, so the handler raises too and nothing is
  -- committed.
  unfoldable pub generate : (ℕ → ℕ) → Plugin C E → List C → SceneInstance → Service GenerationReply
  unfolding fail_generation finish_generation
  generate draw plugin capsules instance_row s =
      let id = instance_row.id in
      let context = instance_row.public_context_json in
      elim (aggregates plugin capsules context) [
        | none ↦ (err plugin_error, fail_generation id s)
        | some (inputs, results) ↦
            let rows = candidate_rows draw 0 id inputs results in
            let flushed : Store = record s { candidates = s.candidates ++ rows } in
            if clashes rows s.candidates
            then (err integrity_error, s)
            else elim (plugin.build_public_result results context) [
              | none ↦ (err plugin_error, fail_generation id flushed)
              | some result ↦
                  let (reply, s') = finish_generation id (length capsules) rows result s in
                  if has_result id s then (err integrity_error, s) else (ok reply, s')
            ]
      ]

  -- `registry` finds the plugin of a key and a version, and `capsule_from_json` may raise.
  unfoldable pub run_generation_phase :
      (ℕ → ℕ)
      → (String → String → Option (Plugin C E))
      → (String → Option C)
      → ℕ
      → Service GenerationReply
  run_generation_phase draw registry capsule_from_json instance_id = do
    instance_row ← require (get_by_id instance_id) scene_not_found
    raise_if (not (state_eq instance_row.status generating_candidates)) state_transition
    plugin ← require (λ _. registry instance_row.scene_key instance_row.version_key) scene_not_found
    capsules ←
        require (λ s. each capsule_from_json (capsule_texts (list_submissions instance_id s)))
          value_error
    generate draw plugin capsules instance_row
