-- ===== src/Lock/Grant.antt =====
-- The two grant cases of `lock_packet_process` in lib/lock.cc.
use fisslock_bmv2_java.Base.{ℕ, ◌+◌, ◌-◌, ◌%◌, ◌^◌, true, List, [], if◌then◌else◌, ◌==◌, ltb}
use fisslock_bmv2_java.Post.{is_shared, Packet, Sent, mode, transferred}
use fisslock_bmv2_java.Lock.State.{
  InnetLock, lock_holder, lock_add_holder, lock_unmarshal_wq, lock_digest_wq, lock_local_notify,
}
use fisslock_bmv2_java.Lock.Outcome.{Outcome, drop_packet}

-- `TASK_FOR_RESTORE`, (task_id)(-1).
abbrev pub task_for_restore : ℕ
task_for_restore = 2 ^ 32 - 1

-- The lock comes with the previous agent's wait queue: digest it if the new mode is shared.
unfoldable pub take_wqueue : InnetLock → Packet → InnetLock × List Sent
take_wqueue l p =
    if ltb 0 p.wq_size
    then (if is_shared l.mode
        then lock_digest_wq l p.wq p.wq_size
        else (lock_unmarshal_wq l p.wq p.wq_size, []))
    else (l, [])

-- The mode, the counter and the wait queue that a grant brings.
unfoldable pub take_grant : InnetLock → Packet → InnetLock × List Sent
take_grant l p =
    if transferred p.hdr
    then take_wqueue moded p
    else if is_shared moded.mode
    then (record moded { ncnt = (l.ncnt + 1) % 2 ^ 32 }, [])
    else (record moded { ncnt = 0 }, [])
  where
    moded : InnetLock
    moded = record l { mode = mode p.mode_old_mode }

module _ (localhost : ℕ) where
  -- case POST_LOCK_GRANT_WITH_AGENT
  unfoldable pub process_grant_with_agent : InnetLock → Packet → Outcome
  unfolding lock_add_holder lock_local_notify
  process_grant_with_agent l p =
      if p.task_id == task_for_restore
      then drop_packet l p
      else (let (l', grants) =
            take_grant
              (lock_add_holder (record l { is_agent = true }) (lock_holder localhost p.task_id))
              p in
          record { lock = lock_local_notify l' p.task_id; packet = p; sent = grants; ret = 0 })

-- case POST_LOCK_GRANT_WO_AGENT
unfoldable pub process_grant_wo_agent : InnetLock → Packet → Outcome
unfolding lock_local_notify
process_grant_wo_agent l p = drop_packet (lock_local_notify l p.task_id) p
