-- ===== src/Blocker.antt =====
-- The blocker layers (src/blocker/).
pub mod PowerRequests
pub mod Windows
pub mod Abort
pub mod SleepBlocker
pub mod ShutdownBlocker
pub mod Remote
pub mod Update
pub mod TraceSession
pub mod Local
pub mod Power
pub mod Coordinator
