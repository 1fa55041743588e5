-- ===== src/Lock.antt =====
-- lib/lock.cc: the host-side lock module, its state, handlers and client calls, and their proofs.
pub mod State
pub mod Lm
pub mod Outcome
pub mod Acquire
pub mod Grant
pub mod Release
pub mod Packets
pub mod Client
pub mod Unlock
pub mod Digest
pub mod Manager
pub mod Roles
pub mod PushBack
pub mod Delays
pub mod Waiting
pub mod Table
pub mod Tests
