-- ===== src/Scenes.antt =====
-- The scenes module (apps/api/src/modules/scenes): a group activity from its draft to its result.
pub mod StateMachine
pub mod Models
pub mod Repository
pub mod Service
pub mod Cleanup
pub mod Coordinator
pub mod Calls
pub mod Tests
