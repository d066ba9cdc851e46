-- ===== src/Domain.antt =====
-- internal/domain: the deployment's states, the data model and the request validation.
pub mod State
pub mod Clock
pub mod Model
pub mod Syntax
pub mod Validate
pub mod Create
pub mod Uuid
