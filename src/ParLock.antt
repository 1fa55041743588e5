-- ===== src/ParLock.antt =====
-- baseline/ParLock: lock servers on the hosts, without the switch.
pub mod Queue
pub mod Server
pub mod Client
pub mod Waits
pub mod Api
pub mod Dequeue
pub mod System
pub mod Local
pub mod Flags
pub mod Tests
pub mod Fifo
