-- ===== src/ParLock/Server.antt =====
-- The handlers of baseline/ParLock/lib/server.cc under PARLOCK_READER_FIRST, the policy that
-- utils/conf.h selects. A handler reads and writes one lock's queue under its mutex. `ERROR` ends
-- the process: the result is then `none`.
use fisslock_bmv2_java.Base.{
  ℕ, ◌&&◌, List, [], ◌∷◌, Option, none, some, if◌then◌else◌, ◌==◌, is_positive,
}
use fisslock_bmv2_java.Post.{LockState, is_shared, is_excl}
use fisslock_bmv2_java.ParLock.Queue.{
  LockQueueEntry, LockQueue, state_free, state_shared, state_exclusive, is_state_free,
  is_state_shared, is_state_exclusive, set_lock_state, add_shared_counter, sub_shared_counter,
  enqueue_request, dequeue_request, get_head_request, dequeue_shared_requests, erase_lock_request,
}

-- ParLock's `lock_post_header`, as the handlers read it.
pub record LockRequest : Type 0 where
  pub op : LockState
  pub lock_id : ℕ
  pub machine_id : ℕ
  pub lh_id : ℕ

-- How an entry gets the lock: `coroutine_wait_queue_signal` to its requester on this host, or a
-- POST_LOCK_REPLY that `net_send` sends to its host.
pub data Grant : Type 0 where
  signal : LockQueueEntry → Grant
  reply : LockQueueEntry → Grant

-- The queue after a handler, and the grants in order.
pub record Served : Type 0 where
  pub queue : LockQueue
  pub grants : List Grant

abbrev pub served : LockQueue → List Grant → Served
served q gs = record { queue = q; grants = gs }

abbrev pub entry_of : LockRequest → LockQueueEntry
entry_of hd = record { op = hd.op; requester = hd.lh_id; host = hd.machine_id }

unfoldable pub server_handle_exclusive_lock : LockQueue → LockRequest → Served
unfolding enqueue_request
server_handle_exclusive_lock q hd =
    if is_state_free q.lock_state
    then served (set_lock_state q state_exclusive) (reply (entry_of hd) ∷ [])
    else served (enqueue_request q hd.op hd.machine_id hd.lh_id) []

unfoldable pub server_handle_shared_lock : LockQueue → LockRequest → Served
unfolding enqueue_request
server_handle_shared_lock q hd =
    if is_state_exclusive q.lock_state
    then served (enqueue_request q hd.op hd.machine_id hd.lh_id) []
    else served (add_shared_counter (set_lock_state q state_shared)) (reply (entry_of hd) ∷ [])

module _ (localhost : ℕ) where
  -- A waiter of this host is signalled, any other gets a reply.
  abbrev pub grant_to : LockQueueEntry → Grant
  grant_to e = if e.host == localhost then signal e else reply e

  -- The head takes the lock exclusively.
  unfoldable pub grant_exclusive : LockQueue → LockQueueEntry → Served
  unfolding dequeue_request
  grant_exclusive q cur_head =
      served (dequeue_request (set_lock_state q state_exclusive)) (grant_to cur_head ∷ [])

  -- The loop over the shared requests that were taken out of the queue.
  unfoldable pub grant_loop : LockQueue → List LockQueueEntry → LockQueue × List Grant
  grant_loop q [] = (q, [])
  grant_loop q (e ∷ es) =
      let (q', gs) = grant_loop (add_shared_counter q) es in (q', grant_to e ∷ gs)

  unfoldable pub grant_shared : LockQueue → Served
  unfolding grant_loop
  grant_shared q =
      let (shared_head, q') = dequeue_shared_requests (set_lock_state q state_shared) in
      let (q'', gs) = grant_loop q' shared_head in served q'' gs

  -- The exclusive holder has left: the head of the queue decides.
  unfoldable pub schedule_exclusive : LockQueue → Option LockQueueEntry → Served
  schedule_exclusive q none = served q []
  schedule_exclusive q (some cur_head) =
      if is_excl cur_head.op
      then grant_exclusive q cur_head
      else if is_shared cur_head.op
      then grant_shared q
      else served q []

  -- What `server_handle_exclusive_unlock` does once its request is erased from the queue, or not.
  unfoldable pub exclusive_unlock : LockQueue → ℕ → Served
  exclusive_unlock q ret =
      if is_state_exclusive q.lock_state && (ret == 0)
      then schedule_exclusive (set_lock_state q state_free)
          (get_head_request (set_lock_state q state_free))
      else served q []

  unfoldable pub server_handle_exclusive_unlock : LockQueue → LockRequest → Served
  server_handle_exclusive_unlock q hd =
      let (q', ret) = erase_lock_request q hd.lh_id hd.machine_id hd.op in exclusive_unlock q' ret

  -- The last shared holder has left. A shared waiter at the head is an abnormal condition.
  unfoldable pub schedule_shared : LockQueue → Option LockQueueEntry → Option Served
  schedule_shared q none = some (served q [])
  schedule_shared q (some cur_head) =
      if is_excl cur_head.op
      then some (grant_exclusive q cur_head)
      else if is_shared cur_head.op
      then none
      else some (served q [])

  unfoldable pub shared_unlock : LockQueue → ℕ → Option Served
  shared_unlock q ret =
      if is_state_shared q.lock_state
      then (if ret == 0
          then (let q' = sub_shared_counter q in
              if is_positive q'.shared_counter
              then some (served q' [])
              else schedule_shared (set_lock_state q' state_free)
                  (get_head_request (set_lock_state q' state_free)))
          else none)
      else some (served q [])

  unfoldable pub server_handle_shared_unlock : LockQueue → LockRequest → Option Served
  server_handle_shared_unlock q hd =
      let (q', ret) = erase_lock_request q hd.lh_id hd.machine_id hd.op in shared_unlock q' ret
