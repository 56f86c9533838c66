-- ===== src/Policy.antt =====
-- driftsql/integrations/state_policy.py: which tools the agent may call next, from the events of
-- its trajectory, and the guards and masks that go with it.
pub mod Event
pub mod Recovery
pub mod Select
pub mod Guard
pub mod Repair
pub mod Mask
pub mod Guidance
pub mod Schemas
mod Tests
