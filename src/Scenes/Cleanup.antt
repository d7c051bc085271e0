-- ===== src/Scenes/Cleanup.antt =====
-- apps/api/src/modules/scenes/cleanup.py: the purge of private submissions. The plugin's own cleanup,
-- which runs last, is left out: it does nothing in either plugin, and its errors are swallowed.
pub mod Purge
use campus_agent.Base.{ℕ, ltb, if◌then◌else◌}
use campus_agent.Base.Action.{Result, ok, return}
use campus_agent.Scenes.Models.{SceneEvent, private_data_cleaned, Store, Service, commit, publish}
use campus_agent.Scenes.Repository.{hard_delete_payload, purge_expired}

unfoldable pub cleanup_private_data : ℕ → Service ℕ
cleanup_private_data instance_id s =
    let (count, s') = hard_delete_payload instance_id s in
    (ok count, publish (private_data_cleaned instance_id count) (commit s'))

unfoldable pub cleanup_instance_on_terminal : ℕ → Service ℕ
unfolding cleanup_private_data
cleanup_instance_on_terminal instance_id = cleanup_private_data instance_id

unfoldable pub cleanup_expired_submissions : ℕ → Service ℕ
cleanup_expired_submissions limit s =
    let (total, submissions) = purge_expired s.now limit s.submissions in
    let s' : Store = record s { submissions = submissions } in
    (ok total, if ltb 0 total then commit s' else s')
