-- ===== src/Scenes/Calls.antt =====
-- All that apps/api/src/modules/scenes writes by its service, its coordinator and its cleanup, as
-- one language of calls. The chat dinner, which sets the columns of a scene itself
-- (scenes/chat_dorm_dinner.py), is not a part of it.
pub mod Expiry
pub mod Generation
pub mod Machine
pub mod Deleted
use campus_agent.Base.{ℕ, ◌+◌, Option, List, [], ◌∷◌, String}
use campus_agent.Scenes.Models.{Store, close_session}
use campus_agent.Scenes.Service.Submissions.{Codec}
use campus_agent.Scenes.Service.Transitions.{expire_stale_instances}
use campus_agent.Scenes.Service.AuditTrail.{Operation, request}
use campus_agent.Scenes.Cleanup.{cleanup_private_data, cleanup_expired_submissions}
use campus_agent.Scenes.Coordinator.{Plugin, run_generation_phase}

-- An operation of the service; a generation with the ids it draws; the sweep of stale scenes; the
-- purge of one scene, and of at most so many expired submissions; and the passing of time.
pub data Call (P : Type 0) : Type 0 where
  serve : Operation P → Call P
  generate_for : (ℕ → ℕ) → ℕ → Call P
  sweep : Call P
  purge : ℕ → Call P
  purge_old : ℕ → Call P
  wait : ℕ → Call P

module _ {P C D E : Type 0} (codec : Codec P C) (registry : String → String → Option (Plugin D E))
    (capsule_from_json : String → Option D) where
  -- One call in a session of its own, which is closed at the end.
  unfoldable pub call : Call P → Store → Store
  call (serve o) s = request codec o s
  call (generate_for draw id) s =
      close_session (run_generation_phase draw registry capsule_from_json id s).1
  call sweep s = close_session (expire_stale_instances s).1
  call (purge id) s = close_session (cleanup_private_data id s).1
  call (purge_old limit) s = close_session (cleanup_expired_submissions limit s).1
  call (wait later) s = record s { now = s.now + later }

  unfoldable pub run_calls : List (Call P) → Store → Store
  run_calls [] s = s
  run_calls (c ∷ rest) s = run_calls rest (call c s)
