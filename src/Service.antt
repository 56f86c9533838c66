-- ===== src/Service.antt =====
-- driftsql/service: sessions, their durable store, the tool runtime and the orchestrator.
pub mod Types
pub mod Repository
pub mod Toolbox
pub mod Tools
pub mod Orchestrator
pub mod Query
pub mod Lifecycle
pub mod Finish
pub mod Create
pub mod Sample
mod Tests
