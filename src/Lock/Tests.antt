-- ===== src/Lock/Tests.antt =====
-- The theorems about lib/lock.cc and lib/post.h at concrete locks and packets.
pub mod Data
pub mod Managing
pub mod Switch
pub mod Callers
pub mod Sharing
