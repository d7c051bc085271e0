-- ===== src/Scenes/Coordinator/Generation.antt =====
-- The private submissions are gone once the candidates are made, or the plugin has failed.
use campus_agent.Base.{
  select, ℕ, ◌≡◌, sym, Bool, true, false, Option, some, List, ◌++◌, String, ◌==◌, ==_iff, arith,
  inl, inr, Option-cases, Bool-cases, length,
}
use campus_agent.Base.Table.{find-holds}
use mathlib.Core.Path.{subst}
use campus_agent.Base.Action.{Result, ok, err}
use campus_agent.Scenes.StateMachine.{generating_candidates, state_eq}
use campus_agent.Scenes.Models.{
  SceneInstance, SceneError, plugin_error, SceneCandidate, Store, commit,
}
use campus_agent.Scenes.Repository.{get_by_id, change_instance, list_submissions, count_submissions}
use campus_agent.Scenes.Cleanup.Purge.{
  cleanup_private_data-purges, holds_private, was_deleted, is_elsewhere,
}
use campus_agent.Scenes.Coordinator.{
  Plugin, PublicResult, GenerationReply, each, aggregates, candidate_rows, clashes, has_failed,
  fail_generation, finish_generation, generated, has_result, generate, capsule_texts,
  run_generation_phase,
}

-- The candidates are made, or the plugin has failed.
abbrev pub is_settled : Result SceneError GenerationReply → Bool
is_settled (ok _) = true
is_settled (err plugin_error) = true
is_settled (err _) = false

-- No live submission is left of the instance, the only rows of it with a payload or a capsule are
-- those deleted before, and the rows of other instances are as they were.
abbrev pub IsPurged : ℕ → Store → Store → Type 0
IsPurged id s after =
    (count_submissions id after ≡ 0)
    × (select (holds_private id) after.submissions ≡ select (was_deleted id) s.submissions)
    × (select (is_elsewhere id) after.submissions ≡ select (is_elsewhere id) s.submissions)

fail_generation-IsPurged : (id : ℕ) (s : Store) → IsPurged id s (fail_generation id s)
unfolding fail_generation
fail_generation-IsPurged id s =
    let (_, gone, erased, kept) =
      cleanup_private_data-purges id (commit (change_instance id has_failed s)) in
    (gone, erased, kept)

finish_generation-IsPurged :
    (id n : ℕ) (rows : List SceneCandidate) (result : PublicResult) (s : Store)
    → IsPurged id s (finish_generation id n rows result s).1
unfolding finish_generation
finish_generation-IsPurged id n rows result s =
    let (_, gone, erased, kept) = cleanup_private_data-purges id (generated id n rows result s) in
    (gone, erased, kept)

module _ {C E : Type 0} where
  generate-IsPurged :
      (draw : ℕ → ℕ) (plugin : Plugin C E) (capsules : List C) (i : SceneInstance) (s : Store)
      → is_settled (generate draw plugin capsules i s).0 ≡ true
      → IsPurged i.id s (generate draw plugin capsules i s).1
  unfolding generate count_submissions
  generate-IsPurged draw plugin capsules i s h =
      let id = i.id in
      let after = (generate draw plugin capsules i s).1 in
      elim (Option-cases (aggregates plugin capsules i.public_context_json)) [
        | inl e ↦
            let failed : after ≡ fail_generation id s = ground arith in
            subst (λ z. IsPurged id s z) (sym failed) (fail_generation-IsPurged id s)
        | inr (pair, e) ↦
            let rows = candidate_rows draw 0 id pair.0 pair.1 in
            elim (Bool-cases (clashes rows s.candidates)) [
              | inl clash ↦ absurd (ground arith)
              | inr free ↦
                  elim (Option-cases (plugin.build_public_result pair.1 i.public_context_json)) [
                    | inl f ↦
                        let flushed : Store = record s { candidates = s.candidates ++ rows } in
                        let failed : after ≡ fail_generation id flushed = ground arith in
                        subst (λ z. IsPurged id s z) (sym failed)
                          (fail_generation-IsPurged id flushed)
                    | inr (result, f) ↦ elim (Bool-cases (has_result id s)) [
                      | inl taken ↦ absurd (ground arith)
                      | inr new ↦
                          let done : after
                              ≡ (finish_generation id (length capsules) rows result s).1 =
                            ground arith in
                          subst (λ z. IsPurged id s z) (sym done)
                            (finish_generation-IsPurged id (length capsules) rows result s)
                    ]
                  ]
            ]
      ]

  -- What a generation that is settled has run.
  run_generation_phase-generates :
      (draw : ℕ → ℕ) (registry : String → String → Option (Plugin C E))
      (capsule_from_json : String → Option C) (id : ℕ) (s : Store)
      → is_settled (run_generation_phase draw registry capsule_from_json id s).0 ≡ true
      → (i : SceneInstance) × (plugin : Plugin C E) × (capsules : List C) × (get_by_id id s
          ≡ some i)
        × (run_generation_phase draw registry capsule_from_json id s
            ≡ generate draw plugin capsules i s)
  unfolding run_generation_phase
  run_generation_phase-generates draw registry capsule_from_json id s h =
      elim (Option-cases (get_by_id id s)) [
        | inl e ↦ absurd (ground arith)
        | inr (i, e) ↦ elim (Bool-cases (state_eq i.status generating_candidates)) [
          | inr wrong ↦ absurd (ground arith)
          | inl right ↦ elim (Option-cases (registry i.scene_key i.version_key)) [
            | inl f ↦ absurd (ground arith)
            | inr (plugin, f) ↦
                elim (Option-cases
                  (each capsule_from_json (capsule_texts (list_submissions id s)))) [
                    | inl x ↦ absurd (ground arith)
                    | inr (capsules, x) ↦ (i, plugin, capsules, e, ground arith)
                  ]
          ]
        ]
      ]

  -- Whatever the plugin does, once the generation has made the candidates or failed by the plugin, no
  -- live private submission of the scene is left, and the only rows of the scene that still have a
  -- payload or a capsule are those that were deleted already before. The rows of other scenes are
  -- kept, each as it was.
  pub run_generation_phase-purges :
      (draw : ℕ → ℕ) (registry : String → String → Option (Plugin C E))
      (capsule_from_json : String → Option C) (id : ℕ) (s : Store)
      → is_settled (run_generation_phase draw registry capsule_from_json id s).0 ≡ true
      → let after = (run_generation_phase draw registry capsule_from_json id s).1 in
        (count_submissions id after ≡ 0)
        × (select (holds_private id) after.submissions ≡ select (was_deleted id) s.submissions)
        × (select (is_elsewhere id) after.submissions ≡ select (is_elsewhere id) s.submissions)
  unfolding get_by_id
  run_generation_phase-purges draw registry capsule_from_json id s h =
      let (i, plugin, capsules, e, same) =
        run_generation_phase-generates draw registry capsule_from_json id s h in
      let held : (i.id == id) ≡ true = find-holds (λ x. x.id == id) s.instances {x = i} e in
      let home : i.id ≡ id = (==_iff i.id id).0 held in
      let settled : is_settled (generate draw plugin capsules i s).0 ≡ true =
        subst (λ z. is_settled z.0 ≡ true) same h in
      subst (λ z. IsPurged z s (run_generation_phase draw registry capsule_from_json id s).1) home
        (subst (λ z. IsPurged i.id s z.1) (sym same)
          (generate-IsPurged draw plugin capsules i s settled))
