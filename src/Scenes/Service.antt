-- ===== src/Scenes/Service.antt =====
-- apps/api/src/modules/scenes/service.py, part by part.
pub mod Transitions
pub mod Participants
pub mod Submissions
pub mod Voting
pub mod AuditTrail
pub mod History
pub mod Uniqueness
