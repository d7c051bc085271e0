-- ===== src/Conversations.antt =====
-- apps/api/src/modules/conversations: who takes part in which conversation, and its messages.
pub mod Models
pub mod Permissions
pub mod Repository
pub mod Service
mod Tests
