-- ===== src/ParLock/Api.antt =====
-- baseline/ParLock/lib/lock.cc: the packet handlers of a lock server and the calls of applications,
-- with `get_lock_server` of net.cc and the loop bounds of `init_all_locks`. The locks are spread by
-- blocks: PARLOCK_TPCC_SHUFFLE and PARLOCK_ZIPF_LOAD_BALANCE are off.
use fisslock_bmv2_java.Base.{
  ℕ, ◌+◌, ◌-◌, ◌*◌, ◌/◌, ◌%◌, ◌^◌, Bool, List, [], ◌∷◌, Option, none, some, if◌then◌else◌, ◌==◌,
  leb, lookup, assign,
}
use fisslock_bmv2_java.Post.{LockState, is_shared, is_excl}
use fisslock_bmv2_java.Lock.State.{host_num}
use fisslock_bmv2_java.ParLock.Queue.{LockQueue, QueuePerLock, init_lock, init_locks}
use fisslock_bmv2_java.ParLock.Server.{
  LockRequest, Grant, signal, reply, Served, served, server_handle_exclusive_lock,
  server_handle_shared_lock, server_handle_exclusive_unlock, server_handle_shared_unlock,
}
use fisslock_bmv2_java.ParLock.Client.{acquire_lock_local, release_lock_local}
use fisslock_bmv2_java.ParLock.Waits.{
  LockWaitTable, init_lock_wait_table, add_to_wait_queue, coroutine_wait_queue_signal,
  coroutine_wait_queue_wait,
}

-- What a host is set up with: its number, MAX_LOCK_NUM, and `host_list`.
pub record Setup : Type 0 where
  pub localhost_id : ℕ
  pub max_lock_num : ℕ
  pub host_list : ℕ → ℕ

-- ParLock's `post_t`
pub data ParPost : Type 0 where
  post_lock_req post_unlock_req post_lock_reply : ParPost

-- The arguments of `net_send`.
pub record NetSend : Type 0 where
  pub dest : ℕ
  pub post_type : ParPost
  pub op : LockState
  pub lock_id : ℕ
  pub machine_id : ℕ
  pub lh_id : ℕ

-- What a host keeps.
pub record ParHost : Type 0 where
  pub queues : QueuePerLock
  pub waits : LockWaitTable

-- The grants of a handler, carried out in order.
unfoldable pub deliver : LockWaitTable → ℕ → List Grant → Option (LockWaitTable × List NetSend)
deliver w lock_id [] = some (w, [])
deliver w lock_id (signal e ∷ gs) = elim (coroutine_wait_queue_signal w lock_id e.requester) [
  | none ↦ none
  | some w' ↦ deliver w' lock_id gs
]
deliver w lock_id (reply e ∷ gs) = elim (deliver w lock_id gs) [
  | none ↦ none
  | some (w', out) ↦ some (
    w',
    record {
      dest = e.host;
      post_type = post_lock_reply;
      op = e.op;
      lock_id = lock_id;
      machine_id = e.host;
      lh_id = e.requester;
    }
        ∷ out,
  )
]

unfoldable pub finish : ParHost → ℕ → Option Served → Option (ParHost × List NetSend)
finish h lock_id none = none
finish h lock_id (some s) = elim (deliver h.waits lock_id s.grants) [
  | none ↦ none
  | some (w, out) ↦ some (record { queues = assign lock_id s.queue h.queues; waits = w }, out)
]

-- A lock without a queue is a null pointer.
unfoldable pub on_queue :
    ParHost → ℕ → (LockQueue → Option Served) → Option (ParHost × List NetSend)
unfolding finish
on_queue h lock_id f = elim (lookup lock_id h.queues) [
  | none ↦ none
  | some q ↦ finish h lock_id (f q)
]

unfoldable pub serve_lock : LockRequest → LockQueue → Option Served
serve_lock hd q =
    if is_excl hd.op
    then some (server_handle_exclusive_lock q hd)
    else if is_shared hd.op
    then some (server_handle_shared_lock q hd)
    else some (served q [])

unfoldable pub serve_unlock : ℕ → LockRequest → LockQueue → Option Served
serve_unlock localhost hd q =
    if is_excl hd.op
    then some (server_handle_exclusive_unlock localhost q hd)
    else if is_shared hd.op
    then server_handle_shared_unlock localhost q hd
    else some (served q [])

-- A packet whose operator is neither is dropped.
unfoldable pub process_lock_req : ParHost → LockRequest → Option (ParHost × List NetSend)
process_lock_req h hd = on_queue h hd.lock_id (serve_lock hd)

unfoldable pub process_unlock_req : ℕ → ParHost → LockRequest → Option (ParHost × List NetSend)
process_unlock_req localhost h hd = on_queue h hd.lock_id (serve_unlock localhost hd)

unfoldable pub process_lock_reply : ParHost → LockRequest → Option ParHost
process_lock_reply h hd = elim (coroutine_wait_queue_signal h.waits hd.lock_id hd.lh_id) [
  | none ↦ none
  | some w ↦ some (record h { waits = w })
]

module _ (c : Setup) where
  abbrev pub lock_per_host : ℕ
  lock_per_host = c.max_lock_num / host_num

  -- With fewer locks than hosts the source divides by zero.
  unfoldable pub get_lock_server : ℕ → Option ℕ
  get_lock_server lock_id =
      if lock_per_host == 0
      then none
      else if leb host_num (lock_id / lock_per_host)
      then some (c.host_list (host_num - 1))
      else some (c.host_list (lock_id / lock_per_host))

  -- With fewer locks than hosts the loop does not end.
  unfoldable pub init_all_locks : QueuePerLock → Option QueuePerLock
  init_all_locks t =
      if lock_per_host == 0
      then none
      else some (init_locks t (lock_per_host * (c.localhost_id - 1)) lock_per_host)

  unfoldable pub remote_post : ParPost → ℕ → LockState → ℕ → ℕ → NetSend
  remote_post t requester op lock_id server = record {
    dest = server;
    post_type = t;
    op = op;
    lock_id = lock_id;
    machine_id = c.localhost_id;
    lh_id = requester;
  }

  unfoldable pub acquire_at : ParHost → ℕ → ℕ → LockState → ℕ → Option (ParHost × List NetSend)
  unfolding remote_post
  acquire_at h lkey requester op server =
      if server == c.localhost_id
      then on_queue h lkey (λ q. some (acquire_lock_local c.localhost_id q requester op))
      else some (h, remote_post post_lock_req requester op lkey server ∷ [])

  -- The result's last part is the `lock_req`.
  unfoldable pub lock_acquire_async :
      ParHost → ℕ → ℕ → LockState → Option (ParHost × List NetSend × ℕ)
  unfolding acquire_at
  lock_acquire_async h lkey requester op = elim (add_to_wait_queue h.waits lkey requester) [
    | none ↦ none
    | some w ↦ elim (get_lock_server lkey) [
      | none ↦ none
      | some server ↦ elim (acquire_at (record h { waits = w }) lkey requester op server) [
        | none ↦ none
        | some (h', out) ↦ some (h', out, lkey * 2 ^ 32 + requester)
      ]
    ]
  ]

  unfoldable pub lock_release : ParHost → ℕ → ℕ → LockState → Option (ParHost × List NetSend)
  unfolding remote_post
  lock_release h lkey requester op = elim (get_lock_server lkey) [
    | none ↦ none
    | some server ↦
        if server == c.localhost_id
        then on_queue h lkey (λ q. release_lock_local c.localhost_id q requester op)
        else some (h, remote_post post_unlock_req requester op lkey server ∷ [])
  ]

unfoldable pub lock_req_granted : ParHost → ℕ → Option Bool
lock_req_granted h req = coroutine_wait_queue_wait h.waits (req / 2 ^ 32 % 2 ^ 32) (req % 2 ^ 32)

unfoldable pub lock_local_init : ParHost → ℕ → ParHost
lock_local_init h lock_id = record {
  queues = init_lock h.queues lock_id;
  waits = init_lock_wait_table h.waits lock_id;
}
