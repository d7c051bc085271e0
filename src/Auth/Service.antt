-- ===== src/Auth/Service.antt =====
-- apps/api/src/modules/auth/service.py: what its functions share, and the functions in the modules
-- below.
mod Common
pub mod Login
pub mod Refresh
pub mod Rotation
pub mod Families
pub mod Reachable
pub mod Replay
pub mod Logout
unfoldable pub use Common.*
