-- ===== src/ExtProc.antt =====
-- internal/server/extproc: the ext_proc server.
pub mod Budget
pub mod Session
pub mod Recording
pub mod Balance
pub mod Recorded
pub mod Conservation
pub mod Truncation
pub mod NodeId
pub mod Inspection
pub mod Bodies
pub mod Processor
