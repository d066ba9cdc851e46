-- ===== src/Tests.antt =====
-- Concrete runs of the agent, and each theorem at an input that meets its hypotheses.
pub mod Fixtures
mod Storing
mod Http
mod Provisioning
mod Files
mod Serving
