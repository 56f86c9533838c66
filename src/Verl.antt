-- ===== src/Verl.antt =====
-- driftsql/integrations/verl_tools.py: the tools that the agent calls. An instance of a tool is a
-- dict, kept under the trajectory's identifier, which is given and not empty.
pub mod Terms
pub mod Instances
pub mod Asking
pub mod Schema
pub mod Knowledge
pub mod Inspecting
pub mod Executor
pub mod Contract
pub mod Execution
pub mod Box
mod Tests
