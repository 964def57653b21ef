-- ===== src/Tests.antt =====
-- Runs of the definitions at concrete inputs, and each theorem at one of them.
pub mod Fixtures
pub mod Wires
pub mod Runs
pub mod Definitions
pub mod Sagas
pub mod Clients
pub mod Deployments
