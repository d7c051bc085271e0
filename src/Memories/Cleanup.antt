-- ===== src/Memories/Cleanup.antt =====
-- apps/api/src/modules/memories/cleanup.py: expired memories are soft-deleted, a hundred in one run.
-- Revoked consents are only counted.
pub mod Repeated
use campus_agent.Base.{ℕ, List, length, ltb, if◌then◌else◌}
use campus_agent.Base.Action.{Result, ok, ◌>>=◌, return, gets}
use campus_agent.Memories.Models.{Store, Service, commit}
use campus_agent.Memories.Repository.{soft_delete_expired, get_revoked_consent_cleanup_candidates}

unfoldable pub cleanup_expired_memories : Service ℕ
cleanup_expired_memories s =
    let (count, memories) = soft_delete_expired s.now 100 s.memories in
    let s' : Store = record s { memories = memories } in
    (ok count, if ltb 0 count then commit s' else s')

unfoldable pub cleanup_revoked_consents : Service ℕ
cleanup_revoked_consents = gets (λ s. length (get_revoked_consent_cleanup_candidates 50 s))

unfoldable pub run_cleanup : Service (ℕ × ℕ)
unfolding cleanup_expired_memories cleanup_revoked_consents
run_cleanup = do
  expired ← cleanup_expired_memories
  revoked ← cleanup_revoked_consents
  return (expired, revoked)
