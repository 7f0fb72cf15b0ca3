-- ===== src/Meta.antt =====
-- The Meta integration (app/integrations/meta): wire models, the adapter interface and errors.
pub mod Schemas
pub mod Adapter
pub mod Mock
pub mod Client
pub mod Real
