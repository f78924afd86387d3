-- ===== src/Tests.antt =====
-- Concrete runs, and the theorems at concrete inputs.
pub mod Fixtures
pub mod Engines
pub mod Streams
pub mod Choices
pub mod Texts
pub mod Configs
pub mod Snapshots
pub mod Certificates
pub mod Limits
