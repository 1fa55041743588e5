-- ===== src/Lock/Release.antt =====
-- case POST_LOCK_RELEASE of `lock_packet_process` in lib/lock.cc, with the helpers that turn the
-- packet at hand into a free or a transfer.
use fisslock_bmv2_java.Base.{
  ℕ, ◌*◌, ◌%◌, ◌^◌, true, false, ◌&&◌, List, [], ◌∷◌, Option, none, some, if◌then◌else◌, ◌==◌, ltb,
  length, assign, ◌||◌,
}
use fisslock_bmv2_java.Post.{
  free, Wqe, sizeof_wqe, post_lock_grant_wo_agent, post_lock_transfer, post_lock_free, Packet, Sent,
  pack_mode,
}
use fisslock_bmv2_java.Lock.State.{
  InnetLock, lock_holder, lock_out_of_range, lock_remove_holder, lock_has_holder, lock_no_holders,
  handle_release,
}
use fisslock_bmv2_java.Lock.Lm.{handle_release_lm}
use fisslock_bmv2_java.Lock.Outcome.{Outcome, drop_packet, return_packet}

-- The first entry with this host and task is taken out; `none` if there is none.
unfoldable pub remove_waiter : ℕ → ℕ → List Wqe → Option (List Wqe)
remove_waiter host task [] = none
remove_waiter host task (w ∷ ws) =
    if (w.host == host) && (w.task == task)
    then some ws
    else (elim (remove_waiter host task ws) [ none ↦ none | some rest ↦ some (w ∷ rest) ])

-- The head of the wait queue gets the grant in the packet at hand, and leaves the queue.
unfoldable pub grant_head : InnetLock → Packet → List Sent → List Wqe → Outcome
grant_head l p grants [] = record { lock = l; packet = p; sent = grants; ret = 0 }
grant_head l p grants (w ∷ ws) = record {
  lock = record l { wqueue = ws };
  packet = record p {
    type = post_lock_grant_wo_agent;
    hdr = record p.hdr { machine_id = w.host; task_id = w.task; agent = w.host };
  };
  sent = grants;
  ret = 1;
}

unfoldable pub release_out_of_range : InnetLock → Packet → Outcome
unfolding grant_head
release_out_of_range l p =
    let (l', grants, schedule) = handle_release_lm l p.machine_id p.task_id in
    if schedule
    then grant_head l' p grants l'.wqueue
    else record { lock = l'; packet = p; sent = grants; ret = 0 }

module _ (localhost : ℕ) where
  -- The packet becomes a free, and the host gives up the agent's role.
  unfoldable pub lock_free_helper : InnetLock → Packet → InnetLock × Packet
  lock_free_helper l p = (
    record l { is_agent = false; mode = free; ncnt = 0 },
    record p {
      type = post_lock_free;
      hdr = record p.hdr {
        mode_old_mode = pack_mode free l.mode;
        machine_id = localhost;
        task_id = 0;
        agent = localhost;
        wq_size = 0;
        ncnt = l.ncnt % 2 ^ 8;
      };
    },
  )

  -- The packet becomes a transfer to the waiter `w`, with the others behind it. The result's last
  -- part is the number of these. They are copied into the packet's buffer without a test.
  unfoldable pub lock_transfer_helper : InnetLock → Packet → Wqe → List Wqe → InnetLock × Packet × ℕ
  lock_transfer_helper l p w ws = (
    record l {
      is_agent = false;
      ncnt = 0;
      mode = free;
      wqueue = [];
      overrun = ltb p.room (length ws * sizeof_wqe) || l.overrun;
    },
    record p {
      type = post_lock_transfer;
      hdr = record p.hdr {
        mode_old_mode = pack_mode w.op l.mode;
        machine_id = w.host;
        task_id = w.task;
        agent = localhost;
        wq_size = length ws % 2 ^ 32;
        ncnt = l.ncnt % 2 ^ 8;
      };
      wq = (if ltb 0 (length ws) then ws else p.wq);
    },
    length ws,
  )

  -- With no holder left the lock is freed, or transferred to the head of the wait queue.
  unfoldable pub pass_on : InnetLock → Packet → List Wqe → Outcome
  unfolding lock_free_helper lock_transfer_helper
  pass_on l p [] = let (l', p') = lock_free_helper l p in return_packet l' p'
  pass_on l p (w ∷ ws) =
      let (l', p', wq_size) = lock_transfer_helper l p w ws in
      record {
        lock = l';
        packet = p';
        sent = [];
        ret = (if ltb 0 wq_size then wq_size * sizeof_wqe else 1);
      }

  unfoldable pub pass_on_if_free : InnetLock → Packet → Outcome
  unfolding lock_no_holders
  pass_on_if_free l p = if lock_no_holders l then pass_on l p l.wqueue else drop_packet l p

  -- The holder is not recorded: it may still wait, or its acquire may come later.
  unfoldable pub release_missing : InnetLock → Packet → Outcome
  release_missing l p = elim (remove_waiter p.machine_id p.task_id l.wqueue) [
    | some rest ↦ drop_packet (record l { wqueue = rest }) p
    | none ↦ pass_on_if_free (record l { early_release = assign lh true l.early_release }) p
  ]
    where
      lh : ℕ
      lh = lock_holder p.machine_id p.task_id

  unfoldable pub release_in_range : InnetLock → Packet → Outcome
  unfolding lock_has_holder handle_release lock_remove_holder
  release_in_range l p =
      if lock_has_holder l lh
      then (if l.is_agent
          then pass_on_if_free (handle_release l p.machine_id p.task_id) p
          else drop_packet (record (lock_remove_holder l lh) { delayed_free = true }) p)
      else release_missing l p
    where
      lh : ℕ
      lh = lock_holder p.machine_id p.task_id

  -- case POST_LOCK_RELEASE
  unfoldable pub process_release : InnetLock → Packet → Outcome
  process_release l p =
      if lock_out_of_range l then release_out_of_range l p else release_in_range l p
