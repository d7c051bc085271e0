-- ===== src/Organizations.antt =====
-- The organizations module (apps/api/src/modules/organizations): its tables, the permission rules,
-- the queries of the repositories and the service functions.
pub mod Models
pub mod Permissions
pub mod Repository
pub mod Service
pub mod Tests
