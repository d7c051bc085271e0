-- ===== src/Organizations/Service.antt =====
-- apps/api/src/modules/organizations/service.py: the names that its functions share, and the parts
-- of the service in the modules below.
mod Common
pub mod Lifecycle
pub mod Membership
pub mod Requests
pub mod Changes
pub mod Invariants
pub mod Serve
pub mod Atomic
pub mod History
pub mod Founding
pub mod Escalation
unfoldable pub use Common.*
