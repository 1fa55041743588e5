-- ===== src/Lock/Roles/Acquire.antt =====
-- Acquire packets keep a lock well formed.
use fisslock_bmv2_java.Base.{◌≡◌, arith, false}
use fisslock_bmv2_java.Post.{Packet, mode}
use fisslock_bmv2_java.Post.Modes.{mode-IsRequest}
use fisslock_bmv2_java.Lock.State.{InnetLock, lock_out_of_range}
use fisslock_bmv2_java.Lock.Acquire.{
  process_acquire, acquire_in_range, acquire_agent, acquire_not_agent, count_notification,
}
use fisslock_bmv2_java.Lock.Roles.{IsWellFormed, suspend-AllRequests}

module _ (l : InnetLock) (p : Packet) (v : IsWellFormed l) where
  acquire_agent-IsWellFormed : IsWellFormed (acquire_agent l p).lock
  unfolding acquire_agent
  acquire_agent-IsWellFormed = ground (
    arith,
    suspend-AllRequests l p.machine_id p.task_id (mode p.mode_old_mode)
        (mode-IsRequest p.mode_old_mode) v.requests,
  )

  acquire_not_agent-IsWellFormed : IsWellFormed (acquire_not_agent l p).lock
  unfolding acquire_not_agent
  acquire_not_agent-IsWellFormed = ground (
    arith,
    suspend-AllRequests l p.machine_id p.task_id (mode p.mode_old_mode)
        (mode-IsRequest p.mode_old_mode) v.requests,
  )

acquire_in_range-IsWellFormed :
    (l : InnetLock) (p : Packet) → IsWellFormed l → IsWellFormed (acquire_in_range l p).lock
unfolding acquire_in_range
acquire_in_range-IsWellFormed l p v =
    ground (arith, acquire_agent-IsWellFormed l p v, acquire_not_agent-IsWellFormed l p v)

count_notification-IsWellFormed :
    (l : InnetLock) (p : Packet) → IsWellFormed l → IsWellFormed (count_notification l p)
unfolding count_notification
count_notification-IsWellFormed l p v = ground arith

pub process_acquire-IsWellFormed :
    (l : InnetLock) (p : Packet)
    → lock_out_of_range l ≡ false
    → IsWellFormed l
    → IsWellFormed (process_acquire l p).lock
unfolding process_acquire
process_acquire-IsWellFormed l p near v = rw near (
    acquire_in_range-IsWellFormed (count_notification l p) p
      (count_notification-IsWellFormed l p v))
