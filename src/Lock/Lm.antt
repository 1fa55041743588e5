-- ===== src/Lock/Lm.antt =====
-- `handle_acquire_lm` and `handle_release_lm` of lib/lock.cc: a host manages the locks beyond the
-- switch's range by itself.
use fisslock_bmv2_java.Base.{ℕ, Bool, true, false, List, [], ◌∷◌, if◌then◌else◌, length}
use fisslock_bmv2_java.Post.{LockState, free, lock_shared, Wqe, make_wqe, is_shared, Sent}
use fisslock_bmv2_java.Lock.State.{
  InnetLock, lock_holder, lock_add_holder, lock_remove_holder, lock_append_to_wq, lock_no_holders,
  lock_digest_wq,
}

abbrev pub acquire_by_mode : LockState → InnetLock → ℕ → ℕ → LockState → InnetLock × Bool
acquire_by_mode free l hid tid op =
    (lock_add_holder (record l { mode = op }) (lock_holder hid tid), true)
acquire_by_mode lock_shared l hid tid op =
    if is_shared op
    then (lock_add_holder l (lock_holder hid tid), true)
    else (lock_append_to_wq l (make_wqe op tid hid), false)
acquire_by_mode _ l hid tid op = (lock_append_to_wq l (make_wqe op tid hid), false)

-- True: the request is granted.
unfoldable pub handle_acquire_lm : InnetLock → ℕ → ℕ → LockState → InnetLock × Bool
unfolding lock_add_holder lock_append_to_wq
handle_acquire_lm l hid tid op = acquire_by_mode l.mode l hid tid op

-- The last holder has left: the lock becomes free, or goes to the head of the wait queue.
unfoldable pub schedule_lm : InnetLock → List Wqe → InnetLock × List Sent × Bool
schedule_lm l [] = (record l { mode = free }, [], false)
schedule_lm l (w ∷ ws) =
    if is_shared w.op
    then (let (l', grants) =
          lock_digest_wq (record l { mode = w.op; wqueue = [] }) (w ∷ ws) (length (w ∷ ws)) in
        (l', grants, false))
    else (record l { mode = w.op }, [], true)

-- True: the caller has to grant the lock to the head of the wait queue.
unfoldable pub handle_release_lm : InnetLock → ℕ → ℕ → InnetLock × List Sent × Bool
unfolding lock_remove_holder lock_no_holders schedule_lm
handle_release_lm l hid tid =
    let l' = lock_remove_holder l (lock_holder hid tid) in
    if lock_no_holders l' then schedule_lm l' l'.wqueue else (l', [], false)
