-- ===== src/Lock/Unlock.antt =====
-- `lock_release` of lib/lock.cc.
use fisslock_bmv2_java.Base.{
  ℕ, ◌%◌, ◌^◌, true, false, ◌&&◌, List, [], ◌∷◌, ◌++◌, if◌then◌else◌, ◌==◌, length, assign, erase,
}
use fisslock_bmv2_java.Post.{
  free, Wqe, Sent, send_post_transfer, send_post_free, send_post_release, send_post_release_lm,
  send_post_grant,
}
use fisslock_bmv2_java.Lock.State.{
  InnetLock, lock_holder, lock_to_lm, lock_out_of_range, lock_add_holder, lock_has_holder,
  lock_no_holders, lock_local_notify, handle_release,
}
use fisslock_bmv2_java.Lock.Lm.{handle_release_lm}
use fisslock_bmv2_java.Lock.Client.{Conf, is_tpcc_local}

-- Every path returns 0.
pub record Released : Type 0 where
  pub lock : InnetLock
  pub sent : List Sent
  pub ret : ℕ

abbrev pub released : InnetLock → List Sent → Released
released l out = record { lock = l; sent = out; ret = 0 }

-- The TPCC branch wakes the head of the wait queue at once.
unfoldable pub wake_head : InnetLock → List Wqe → List Sent → Released
unfolding lock_local_notify
wake_head l [] out = released l out
wake_head l (w ∷ ws) out = released (record (lock_local_notify l w.task) { wqueue = ws }) out

unfoldable pub release_tpcc : Conf → InnetLock → ℕ → Released
unfolding wake_head
release_tpcc c l task =
    let (l', grants, schedule) = handle_release_lm l c.localhost_id task in
    if schedule then wake_head l' l'.wqueue grants else released l' grants

module _ (c : Conf) where
  -- A lock's manager sends the grant to the head of the wait queue.
  unfoldable pub grant_head_lm : InnetLock → List Wqe → List Sent → Released
  grant_head_lm l [] out = released l out
  grant_head_lm l (w ∷ ws) out =
      released (record l { wqueue = ws })
        (out ++ send_post_grant c.packet_modify l.id w.host w.task ∷ [])

  unfoldable pub release_as_lm : InnetLock → ℕ → Released
  unfolding grant_head_lm
  release_as_lm l task =
      let (l', grants, schedule) = handle_release_lm l c.localhost_id task in
      if schedule then grant_head_lm l' l'.wqueue grants else released l' grants

  unfoldable pub release_beyond_switch : InnetLock → ℕ → Released
  unfolding release_as_lm
  release_beyond_switch l task =
      if lock_to_lm l == c.localhost_id
      then release_as_lm l task
      else released l
          (send_post_release_lm c.packet_modify l.id c.localhost_id task (lock_to_lm l) ∷ [])

  -- With FISSLOCK_BMV2 a waiter of this host takes the lock over without a packet.
  unfoldable pub grant_local : InnetLock → Wqe → List Wqe → InnetLock
  unfolding lock_add_holder lock_local_notify
  grant_local l w ws =
      lock_local_notify
        (lock_add_holder (record l { wqueue = ws; mode = w.op })
          (lock_holder c.localhost_id w.task))
        w.task

  -- No holder is left: free the lock, or pass it to the head of the wait queue.
  unfoldable pub give_up : InnetLock → List Wqe → Released
  unfolding grant_local
  give_up l [] =
      released (record l { is_agent = false; mode = free; ncnt = 0 })
        (send_post_free c.packet_modify c.localhost_id l.id (l.ncnt % 2 ^ 8) l.mode ∷ [])
  give_up l (w ∷ ws) =
      if c.bmv2 && (w.host == c.localhost_id)
      then released (grant_local l w ws) []
      else released (record l { is_agent = false; mode = free; ncnt = 0; wqueue = [] })
          (send_post_transfer c.packet_modify c.localhost_id w.op l.id w.host w.task (length ws) ws
              (l.ncnt % 2 ^ 8) l.mode
            ∷ [])

  -- The holder leaves, or its early release is noted.
  unfoldable pub drop_holder : InnetLock → ℕ → InnetLock
  unfolding lock_has_holder handle_release
  drop_holder l task =
      if lock_has_holder l lh
      then handle_release l c.localhost_id task
      else record l { early_release = assign lh true l.early_release }
    where
      lh : ℕ
      lh = lock_holder c.localhost_id task

  unfoldable pub release_as_agent : InnetLock → ℕ → Released
  unfolding lock_no_holders
  release_as_agent l task =
      let l' = drop_holder l task in
      if lock_no_holders l' then give_up l' l'.wqueue else released l' []

  unfoldable pub release_kept : InnetLock → ℕ → Released
  release_kept l task =
      if c.tpcc_enb_local && is_tpcc_local l
      then release_tpcc c l task
      else if lock_out_of_range l
      then release_beyond_switch l task
      else if l.is_agent
      then release_as_agent l task
      else released l
          (send_post_release c.packet_modify c.localhost_id l.id c.localhost_id task ∷ [])

  unfoldable pub lock_release : InnetLock → ℕ → Released
  unfolding release_kept
  lock_release l task = release_kept (record l { local_holders = erase task l.local_holders }) task
