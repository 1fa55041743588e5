-- ===== src/Lock/Roles.antt =====
-- What the agent's flag says of a lock within the switch's range (lib/lock.cc), kept by every packet
-- and every call.
pub mod Acquire
pub mod Grant
pub mod Release
pub mod Packets
pub mod Calls
use fisslock_bmv2_java.Base.{
  ℕ, ◌≡◌, ◌&&◌, ◌==◌, ◌+◌, ◌%◌, ◌^◌, insert, inl, inr, List, [], ◌∷◌, ◌++◌, arith, refl, All,
  All-append, All-filter, All-take, false, true, Bool, if◌then◌else◌, Bool-cases, Option, none,
  some, Option-cases, is_empty, take, lookup, get_or, ltb, length,
}
use fisslock_bmv2_java.Post.{
  LockState, free, Wqe, PostType, Packet, mode, old_mode, post_lock_acquire,
  post_lock_grant_with_agent, post_lock_grant_wo_agent, post_lock_release, post_lock_transfer,
  post_lock_free, post_mem_diff, post_clear_seq, make_wqe, is_shared,
}
use fisslock_bmv2_java.Post.Modes.{IsRequest, mode-IsRequest, old_mode-IsRequest}
use fisslock_bmv2_java.Lock.State.{
  InnetLock, lock_out_of_range, lock_digest_wq, lock_unmarshal_wq, lock_holder,
  handle_suspend_acquire, handle_release,
}
use fisslock_bmv2_java.Lock.Digest.{lock_digest_wq_lem, wants_other}
use fisslock_bmv2_java.Lock.Outcome.{Outcome}
use fisslock_bmv2_java.Lock.Acquire.{
  process_acquire, acquire_in_range, acquire_agent, acquire_not_agent, count_notification,
}
use fisslock_bmv2_java.Lock.Grant.{
  task_for_restore, process_grant_with_agent, process_grant_wo_agent, take_grant, take_wqueue,
}
use fisslock_bmv2_java.Lock.Release.{
  process_release, pass_on, pass_on_if_free, release_missing, release_in_range, remove_waiter,
}
use fisslock_bmv2_java.Lock.Packets.{
  process_push_back, restore_wqueue, process_by_type, lock_packet_process, Preprocessor, preprocess,
}

-- The agent's lock is held in a mode; any other host's view of it is free.
abbrev pub Role : Bool → LockState → Type 0
Role true m = IsRequest m
Role false m = m ≡ free

abbrev pub AllRequests : List Wqe → Type 0
AllRequests = All (λ w. IsRequest w.op)

pub record IsWellFormed (l : InnetLock) : Type 0 where
  pub role : Role l.is_agent l.mode
  pub requests : AllRequests l.wqueue

pub suspend-AllRequests :
    (l : InnetLock) (hid tid : ℕ) (op : LockState)
    → IsRequest op
    → AllRequests l.wqueue
    → AllRequests (handle_suspend_acquire l hid tid op).wqueue
unfolding handle_suspend_acquire make_wqe
suspend-AllRequests l hid tid op r q = All-append _ l.wqueue (_ ∷ []) q (r, tt)
