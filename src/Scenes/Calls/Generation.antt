-- ===== src/Scenes/Calls/Generation.antt =====
-- What a generation does to the state of a scene.
use mathlib.Core.Path.{subst}
use campus_agent.Base.{
  ℕ, ◌≡◌, refl, sym, ap, ◌∙◌, true, ◌==◌, Option, some, List, [], ◌∷◌, inl, inr, ◌⊎◌, update_first,
  find, arith, Option-cases, Bool-cases, ==_iff, String,
}
use campus_agent.Base.Table.{find-holds, find-update_first_self, find-update_first_ne}
use campus_agent.Scenes.StateMachine.{
  SceneState, processing_failed, generating_candidates, get_target_state, state_eq,
}
use campus_agent.Scenes.StateMachine.Runs.{run}
use campus_agent.Scenes.Models.{SceneInstance, Store}
use campus_agent.Scenes.Repository.{get_by_id, list_submissions, hard_delete_payload}
use campus_agent.Scenes.Cleanup.{cleanup_private_data}
use campus_agent.Scenes.Service.History.{Follows}
use campus_agent.Scenes.Coordinator.{
  Plugin, each, aggregates, candidate_rows, clashes, has_failed, fail_generation, finish_generation,
  has_result, generate, capsule_texts, run_generation_phase,
}
use campus_agent.Scenes.Calls.Expiry.{is_row}

is_generating :
    (u : SceneState) → state_eq u generating_candidates ≡ true → u ≡ generating_candidates
is_generating generating_candidates h = refl
is_generating _ h = absurd (ground arith)

module _ {D E : Type 0} where
  -- A generation changes no scene, or fails the one it is for.
  generate-instances :
      (draw : ℕ → ℕ) (plugin : Plugin D E) (capsules : List D) (i : SceneInstance) (s : Store)
      → ((generate draw plugin capsules i s).1.instances ≡ s.instances)
        ⊎ ((generate draw plugin capsules i s).1.instances
            ≡ update_first (is_row i.id) has_failed s.instances)
  unfolding generate fail_generation finish_generation cleanup_private_data hard_delete_payload
  generate-instances draw plugin capsules i s =
      elim (Option-cases (aggregates plugin capsules i.public_context_json)) [
        | inl e ↦ inr (ground arith)
        | inr (pair, e) ↦
            elim (Bool-cases (clashes (candidate_rows draw 0 i.id pair.0 pair.1) s.candidates)) [
              | inl clash ↦ inl (ground arith)
              | inr free ↦
                  elim (Option-cases (plugin.build_public_result pair.1 i.public_context_json)) [
                    | inl f ↦ inr (ground arith)
                    | inr (result, f) ↦ elim (Bool-cases (has_result i.id s)) [
                      | inl taken ↦ inl (ground arith)
                      | inr new ↦ inl (ground arith)
                    ]
                  ]
            ]
      ]

  pub run_generation_phase-instances :
      (draw : ℕ → ℕ) (registry : String → String → Option (Plugin D E))
      (capsule_from_json : String → Option D) (id : ℕ) (s : Store)
      → ((run_generation_phase draw registry capsule_from_json id s).1.instances ≡ s.instances)
        ⊎ ((i : SceneInstance) × (get_by_id id s ≡ some i)
            × (i.status ≡ generating_candidates)
            × ((run_generation_phase draw registry capsule_from_json id s).1.instances
                ≡ update_first (is_row i.id) has_failed s.instances))
  unfolding run_generation_phase
  run_generation_phase-instances draw registry capsule_from_json id s =
      elim (Option-cases (get_by_id id s)) [
        | inl e ↦ inl (ground arith)
        | inr (i, e) ↦ elim (Bool-cases (state_eq i.status generating_candidates)) [
          | inr wrong ↦ inl (ground arith)
          | inl right ↦ elim (Option-cases (registry i.scene_key i.version_key)) [
            | inl f ↦ inl (ground arith)
            | inr (plugin, f) ↦
                elim (Option-cases
                  (each capsule_from_json (capsule_texts (list_submissions id s)))) [
                    | inl x ↦ inl (ground arith)
                    | inr (capsules, x) ↦ elim (generate-instances draw plugin capsules i s) [
                      | inl same ↦ inl (ground (arith, same))
                      | inr failing ↦
                          inr (i, e, is_generating i.status right, ground (arith, failing))
                    ]
                  ]
          ]
        ]
      ]

  pub generation-Follows :
      (draw : ℕ → ℕ) (registry : String → String → Option (Plugin D E))
      (capsule_from_json : String → Option D) (other id : ℕ) (s : Store) (i : SceneInstance)
      → get_by_id id s ≡ some i
      → Follows id i (run_generation_phase draw registry capsule_from_json other s).1
  unfolding Follows run get_by_id get_target_state
  generation-Follows draw registry capsule_from_json other id s i h =
      elim (run_generation_phase-instances draw registry capsule_from_json other s) [
        | inl same ↦ (i, [], rw same h, refl)
        | inr (k, found, status, rows) ↦
            let held = find-holds (is_row other) s.instances {x = k} found in
            let home = find-holds (is_row id) s.instances {x = i} h in
            elim (Bool-cases (id == k.id)) [
              | inl eq ↦
                  let same : k ≡ i =
                    ground (
                      arith,
                      ==_iff id k.id,
                      ==_iff k.id other,
                      ==_iff i.id id,
                      held,
                      home,
                      found,
                    ) in
                  let mine : i.status ≡ generating_candidates =
                    ap (λ (z : SceneInstance). z.status) (sym same) ∙ status in
                  (
                    has_failed i,
                    processing_failed ∷ [],
                    rw rows (
                        subst
                          (λ n.
                            find (is_row id) (update_first (is_row n) has_failed s.instances)
                            ≡ some (has_failed i))
                          ((==_iff id k.id).0 eq)
                          (find-update_first_self (is_row id) has_failed s.instances i h home)),
                    rw mine refl,
                  )
              | inr ne ↦ (
                i,
                [],
                rw rows (
                    find-update_first_ne (is_row id) (is_row k.id) has_failed s.instances
                      (λ x e. ground (arith, ==_iff x.id k.id))
                      (λ x e. ground (arith, ==_iff x.id k.id))
                    ∙ h),
                refl,
              )
            ]
      ]
