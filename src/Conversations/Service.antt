-- ===== src/Conversations/Service.antt =====
-- apps/api/src/modules/conversations/service.py: what its functions share, and the functions in the
-- modules below.
mod Common
pub mod Creation
pub mod Participants
pub mod Messages
pub mod Numbering
pub mod Frame
pub mod Retries
pub mod Rows
pub mod Membership
pub mod Removal
unfoldable pub use Common.*
