-- ===== src/Lock/Acquire.antt =====
-- case POST_LOCK_ACQUIRE of `lock_packet_process` in lib/lock.cc.
use fisslock_bmv2_java.Base.{
  ℕ, ◌+◌, ◌%◌, ◌^◌, false, ◌&&◌, if◌then◌else◌, ltb, lookup, assign, erase_key, get_or,
}
use fisslock_bmv2_java.Post.{is_shared, post_lock_grant_wo_agent, Packet, mode, granted}
use fisslock_bmv2_java.Lock.State.{
  InnetLock, lock_holder, lock_out_of_range, handle_granted_acquire, handle_suspend_acquire,
}
use fisslock_bmv2_java.Lock.Lm.{handle_acquire_lm}
use fisslock_bmv2_java.Lock.Outcome.{Outcome, drop_packet, return_packet}

unfoldable pub acquire_out_of_range : InnetLock → Packet → Outcome
acquire_out_of_range l p =
    let (l', grant) = handle_acquire_lm l p.machine_id p.task_id (mode p.mode_old_mode) in
    if grant
    then return_packet l'
        (record p { type = post_lock_grant_wo_agent; hdr = record p.hdr { agent = p.machine_id } })
    else drop_packet l' p

-- An acquire that reaches a host which is not the agent.
unfoldable pub acquire_not_agent : InnetLock → Packet → Outcome
unfolding handle_granted_acquire handle_suspend_acquire
acquire_not_agent l p =
    if is_shared (mode p.mode_old_mode)
    then (if granted p.hdr
        then drop_packet (handle_granted_acquire l p.machine_id p.task_id) p
        else return_packet l p)
    else (if ltb 2 count
        then drop_packet
            (record (handle_suspend_acquire l p.machine_id p.task_id (mode p.mode_old_mode)) {
              fwd_back_cnt = erase_key lh l.fwd_back_cnt;
            })
            p
        else return_packet (record l { fwd_back_cnt = assign lh (count + 1) l.fwd_back_cnt }) p)
  where
    lh : ℕ
    lh = lock_holder p.machine_id p.task_id

    count : ℕ
    count = get_or 0 (lookup lh l.fwd_back_cnt)

unfoldable pub acquire_agent : InnetLock → Packet → Outcome
unfolding handle_granted_acquire handle_suspend_acquire
acquire_agent l p =
    if granted p.hdr
    then drop_packet (handle_granted_acquire l p.machine_id p.task_id) p
    else drop_packet (handle_suspend_acquire l p.machine_id p.task_id (mode p.mode_old_mode)) p

-- A granted shared acquire was counted by the switch: count it here too.
unfoldable pub count_notification : InnetLock → Packet → InnetLock
count_notification l p =
    if is_shared (mode p.mode_old_mode) && granted p.hdr
    then record l { ncnt = (l.ncnt + 1) % 2 ^ 32 }
    else l

-- An acquire within the switch's range, once it is counted.
unfoldable pub acquire_in_range : InnetLock → Packet → Outcome
acquire_in_range l p =
    if get_or false (lookup lh l.early_release)
    then drop_packet (record l { early_release = assign lh false l.early_release }) p
    else if l.is_agent
    then acquire_agent l p
    else acquire_not_agent l p
  where
    lh : ℕ
    lh = lock_holder p.machine_id p.task_id

-- case POST_LOCK_ACQUIRE
unfoldable pub process_acquire : InnetLock → Packet → Outcome
process_acquire l p =
    if lock_out_of_range l
    then acquire_out_of_range l p
    else acquire_in_range (count_notification l p) p
