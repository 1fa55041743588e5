-- ===== src/Lock/State.antt =====
-- The lock metadata of lib/lock.cc and the functions that read and update it. A handler runs under
-- the lock's mutex, so it is one step; timers, counters and logs are left out, and so are the
-- assertions, which a build without FISSLOCK_DEBUG drops. A read by `map[k]` of a missing key gives
-- the value's default and leaves the map as it is: the map is read in no other way.
use fisslock_bmv2_java.Base.{
  ℕ, ◌+◌, ◌*◌, ◌%◌, ◌/◌, ◌^◌, Bool, true, false, List, [], ◌∷◌, ◌++◌, if◌then◌else◌, leb, take,
  contains, insert, erase, is_empty, assign, emplace, ltb, ◌||◌,
}
use fisslock_bmv2_java.Post.{
  LockState, free, Wqe, make_wqe, is_shared, post_lock_grant_wo_agent, Packet, Sent, swap32,
  post_hdr_size,
}

-- `HOST_NUM` and `SWITCH_LOCK_NUM` of utils/conf.h.
abbrev pub host_num : ℕ
host_num = 8

abbrev pub switch_lock_num : ℕ
switch_lock_num = 524288 * 3

-- `LOCK_HOLDER(host, task)`: the host above 32 bits of task, where `^` is a sum.
unfoldable pub lock_holder : ℕ → ℕ → ℕ
lock_holder host task = host * 2 ^ 32 + task

unfoldable pub lock_holder_task : ℕ → ℕ
lock_holder_task lh = lh % 2 ^ 32

unfoldable pub lock_holder_host : ℕ → ℕ
lock_holder_host lh = lh / 2 ^ 32 % 2 ^ 8

-- `DPDK_TX_BURST_SIZE` of utils/dpdk.h and lib/bmv2/bmv2_compat.h.
abbrev pub dpdk_tx_burst_size : ℕ
dpdk_tx_burst_size = 1024

-- `innet_lock`, without its mutex and its condition variable. `overrun` is no field of the source:
-- it is set once the code has written beyond a buffer of fixed size, and of a lock with the mark the
-- model says nothing, whatever its other fields are.
pub record InnetLock : Type 0 where
  pub key : ℕ
  pub id : ℕ
  pub mode : LockState
  pub is_agent : Bool
  pub ncnt : ℕ  -- uint32_t
  pub holders : List ℕ
  pub wqueue : List Wqe
  pub task_granted : List (ℕ × Bool)
  pub delayed_free : Bool
  pub early_release : List (ℕ × Bool)
  pub fwd_back_cnt : List (ℕ × ℕ)
  pub local_holders : List ℕ
  pub overrun : Bool

-- `new innet_lock()` and the fields that its callers set.
unfoldable pub new_lock : ℕ → ℕ → InnetLock
new_lock key id = record {
  key = key;
  id = id;
  mode = free;
  is_agent = false;
  ncnt = 0;
  holders = [];
  wqueue = [];
  task_granted = [];
  delayed_free = false;
  early_release = [];
  fwd_back_cnt = [];
  local_holders = [];
  overrun = false;
}

-- The manager of a lock that the switch does not hold.
unfoldable pub lock_to_lm : InnetLock → ℕ
lock_to_lm l = l.id % host_num + 1

unfoldable pub lock_out_of_range : InnetLock → Bool
lock_out_of_range l = leb switch_lock_num l.id

unfoldable pub lock_add_holder : InnetLock → ℕ → InnetLock
lock_add_holder l lh = record l { holders = insert lh l.holders }

unfoldable pub lock_remove_holder : InnetLock → ℕ → InnetLock
lock_remove_holder l lh = record l { holders = erase lh l.holders }

unfoldable pub lock_has_holder : InnetLock → ℕ → Bool
lock_has_holder l lh = contains lh l.holders

unfoldable pub lock_no_holders : InnetLock → Bool
lock_no_holders l = is_empty l.holders

unfoldable pub lock_append_to_wq : InnetLock → Wqe → InnetLock
lock_append_to_wq l w = record l { wqueue = l.wqueue ++ w ∷ [] }

unfoldable pub lock_unmarshal_wq : InnetLock → List Wqe → ℕ → InnetLock
lock_unmarshal_wq l wq wq_sz = record l { wqueue = l.wqueue ++ take wq_sz wq }

unfoldable pub lock_no_waiters : InnetLock → Bool
lock_no_waiters l = is_empty l.wqueue

-- The grant that `lock_digest_wq` sends to a shared waiter.
unfoldable pub digest_grant : InnetLock → Wqe → Sent
digest_grant l w = record { packet = grant; post_size = post_hdr_size }
  where
    grant : Packet
    grant = record {
      type = post_lock_grant_wo_agent;
      hdr = record {
        mode_old_mode = 0;
        lock_id = swap32 l.id;
        machine_id = w.host;
        task_id = w.task;
        agent = w.host;
        wq_size = 0;
        ncnt = 0;
      };
      wq = [];
      room = 0;
    }

-- One round of the loop of `lock_digest_wq`: a shared waiter becomes a holder, any other waits on.
unfoldable pub digest_entry : InnetLock → Wqe → InnetLock
unfolding lock_add_holder lock_append_to_wq
digest_entry l w =
    if is_shared w.op then lock_add_holder l (lock_holder w.host w.task) else lock_append_to_wq l w

-- The loop over the entries: the lock after it, and the grants in the order in which they go out.
unfoldable pub digest_loop : InnetLock → List Wqe → InnetLock × List Sent
unfolding digest_entry digest_grant
digest_loop l [] = (l, [])
digest_loop l (w ∷ ws) =
    let (l', grants) = digest_loop (digest_entry l w) ws in
    (l', (if is_shared w.op then digest_grant l w ∷ grants else grants))

-- The handles of the grants' buffers fill an array of `DPDK_TX_BURST_SIZE`, and `wq_sz` of them are
-- asked for without a test.
unfoldable pub lock_digest_wq : InnetLock → List Wqe → ℕ → InnetLock × List Sent
lock_digest_wq l wq wq_sz =
    digest_loop (record l { overrun = ltb dpdk_tx_burst_size wq_sz || l.overrun }) (take wq_sz wq)

-- The value of a `lock_req`: 0, the address of the task's flag, an error number, or the
-- uninitialised variable that `lock_acquire_async` returns on one path.
pub data LockReq : Type 0 where
  granted_at_once : LockReq
  flag : ℕ → LockReq
  invalid_op : LockReq
  uninitialised : LockReq

unfoldable pub lock_prepare_wait : InnetLock → ℕ → InnetLock × LockReq
lock_prepare_wait l tid = (record l { task_granted = emplace tid false l.task_granted }, flag tid)

-- With LOCK_WAIT_BUSY_LOOP, the mechanism that utils/conf.h selects.
unfoldable pub lock_local_notify : InnetLock → ℕ → InnetLock
lock_local_notify l tid = record l {
  local_holders = insert tid l.local_holders;
  task_granted = assign tid true l.task_granted;
}

unfoldable pub handle_granted_acquire : InnetLock → ℕ → ℕ → InnetLock
unfolding lock_add_holder
handle_granted_acquire l hid tid = lock_add_holder l (lock_holder hid tid)

unfoldable pub handle_suspend_acquire : InnetLock → ℕ → ℕ → LockState → InnetLock
unfolding lock_append_to_wq
handle_suspend_acquire l hid tid op = lock_append_to_wq l (make_wqe op tid hid)

unfoldable pub handle_release : InnetLock → ℕ → ℕ → InnetLock
unfolding lock_remove_holder
handle_release l hid tid = lock_remove_holder l (lock_holder hid tid)
