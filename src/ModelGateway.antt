-- ===== src/ModelGateway.antt =====
-- The model gateway (apps/api/src/modules/model_gateway): the one way from the modules to a language
-- model, with the routing that keeps private data inside.
pub mod Schemas
pub mod Router
pub mod Service
pub mod Tests
