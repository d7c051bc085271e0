-- ===== src/Memories.antt =====
-- apps/api/src/modules/memories: memories that are stored encrypted, and the consents that let an
-- agent know of them.
pub mod Models
pub mod Repository
pub mod Encryption
pub mod Service
pub mod Consent
pub mod Cleanup
mod Tests
