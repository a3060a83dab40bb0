-- ===== src/Run.antt =====
-- Running a workload: driver/kio_run.c.
pub mod Thread
pub mod Dir
pub mod Offset
pub mod Requests
pub mod Completion
pub mod Loop
pub mod Teardown
pub mod System
pub mod Stats
pub mod Latency
pub mod Session
