-- ===== src/NetLock.antt =====
-- baseline/NetLock: a lock server behind a switch that holds the heads of the queues.
pub mod Queue
pub mod Server
pub mod Dispatch
pub mod System
pub mod Backup
pub mod Wire
pub mod Frames
pub mod Waits
pub mod Client
pub mod Main
pub mod Grants
pub mod Stray
pub mod Tests
