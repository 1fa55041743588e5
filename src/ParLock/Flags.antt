-- ===== src/ParLock/Flags.antt =====
-- The wait flags of baseline/ParLock/lib/coroutine_wait_queue.cc under the calls of lock.cc.
use fisslock_bmv2_java.Base.{
  ℕ, ◌+◌, ◌*◌, ◌/◌, ◌%◌, ◌^◌, ◌<◌, ◌≡◌, ◌≢◌, ◌==◌, Bool, true, false, [], some, Option-cases, arith,
  inl, inr, lookup, assign, emplace, lookup-assign, lookup-emplace,
}
use fisslock_bmv2_java.Post.{LockState}
use fisslock_bmv2_java.Post.Modes.{IsRequest}
use fisslock_bmv2_java.ParLock.Queue.{LockQueue, state_exclusive, enqueue_request}
use fisslock_bmv2_java.ParLock.Client.{acquire_lock_local}
use fisslock_bmv2_java.ParLock.Waits.{
  LockWaitTable, add_to_wait_queue, coroutine_wait_queue_signal, coroutine_wait_queue_wait,
}
use fisslock_bmv2_java.ParLock.Api.{
  Setup, ParHost, get_lock_server, acquire_at, on_queue, finish, lock_acquire_async,
  lock_req_granted, deliver,
}

-- A signal sets the requester's flag, if `add_to_wait_queue` has made one, and leaves the flags of the
-- lock's other requesters as they are.
signal_is_seen :
    (t : LockWaitTable) (lock_id requester other : ℕ) (b : Bool)
    → coroutine_wait_queue_wait t lock_id requester ≡ some b
    → other ≢ requester
    → (t' : LockWaitTable) × (coroutine_wait_queue_signal t lock_id requester ≡ some t')
      × (coroutine_wait_queue_wait t' lock_id requester ≡ some true)
      × (coroutine_wait_queue_wait t' lock_id other ≡ coroutine_wait_queue_wait t lock_id other)
unfolding coroutine_wait_queue_signal coroutine_wait_queue_wait
signal_is_seen t lock_id requester other b h ne = elim (Option-cases (lookup lock_id t)) [
  | inl n ↦ absurd (ground (arith, n))
  | inr (flags, e) ↦
      let flag : lookup requester flags ≡ some b = rw (e, coroutine_wait_queue_wait) at h in
      (
        assign lock_id (assign requester true flags) t,
        ground (arith, e, flag),
        ground (
          arith,
          lookup-assign lock_id lock_id (assign requester true flags) t,
          lookup-assign requester requester true flags,
        ),
        ground (
          arith,
          e,
          lookup-assign lock_id lock_id (assign requester true flags) t,
          lookup-assign requester other true flags,
        ),
      )
]

add_keeps_flag :
    (t : LockWaitTable) (lock_id requester : ℕ) (b : Bool)
    → coroutine_wait_queue_wait t lock_id requester ≡ some b
    → (t' : LockWaitTable) × (add_to_wait_queue t lock_id requester ≡ some t')
      × (coroutine_wait_queue_wait t' lock_id requester ≡ some b)
unfolding add_to_wait_queue coroutine_wait_queue_wait
add_keeps_flag t lock_id requester b h = elim (Option-cases (lookup lock_id t)) [
  | inl n ↦ absurd (ground (arith, n))
  | inr (flags, e) ↦
      let flag : lookup requester flags ≡ some b = rw (e, coroutine_wait_queue_wait) at h in
      (
        assign lock_id (emplace requester false flags) t,
        ground (arith, e),
        ground (
          arith,
          lookup-assign lock_id lock_id (emplace requester false flags) t,
          lookup-emplace requester requester false flags,
          flag,
        ),
      )
]

queued_locally :
    (localhost : ℕ) (q : LockQueue) (requester : ℕ) (op : LockState)
    → IsRequest op
    → q.lock_state ≡ state_exclusive
    → acquire_lock_local localhost q requester op
      ≡ record { queue = enqueue_request q op localhost requester; grants = [] }
unfolding acquire_lock_local
queued_locally localhost q requester op (inl x) e = ground (arith, x, e)
queued_locally localhost q requester op (inr x) e = ground (arith, x, e)

local_acquire :
    (c : Setup) (h : ParHost) (lkey requester : ℕ) (op : LockState) (q : LockQueue)
    → IsRequest op
    → lookup lkey h.queues ≡ some q
    → q.lock_state ≡ state_exclusive
    → acquire_at c h lkey requester op c.localhost_id
      ≡ some (
        record h { queues = assign lkey (enqueue_request q op c.localhost_id requester) h.queues },
        [],
      )
unfolding acquire_at on_queue finish deliver
local_acquire c h lkey requester op q r known held =
    let same : (c.localhost_id == c.localhost_id) ≡ true = ground arith in
    ground (arith, same, known, queued_locally c.localhost_id q requester op r held)

-- A requester whose flag a grant has set once asks again for a local lock that somebody else holds
-- exclusively: its request is queued and nothing is granted, and yet it is told at once that it has
-- the lock, since the flag is never cleared.
pub stale_flag_grants :
    (c : Setup) (h : ParHost) (lkey requester : ℕ) (op : LockState) (q : LockQueue)
    → IsRequest op
    → lkey < 2 ^ 32
    → requester < 2 ^ 32
    → get_lock_server c lkey ≡ some c.localhost_id
    → lookup lkey h.queues ≡ some q
    → q.lock_state ≡ state_exclusive
    → coroutine_wait_queue_wait h.waits lkey requester ≡ some true
    → (h' : ParHost) × (req : ℕ) × (lock_acquire_async c h lkey requester op ≡ some (h', [], req))
      × (lookup lkey h'.queues ≡ some (enqueue_request q op c.localhost_id requester))
      × (lock_req_granted h' req ≡ some true)
unfolding lock_acquire_async lock_req_granted
stale_flag_grants c h lkey requester op q r small small' here known held flag =
    let (w, added, still) = add_keeps_flag h.waits lkey requester true flag in
    let q' = enqueue_request q op c.localhost_id requester in
    let high : (lkey * 2 ^ 32 + requester) / 2 ^ 32 % 2 ^ 32 ≡ lkey = omega arith in
    let low : (lkey * 2 ^ 32 + requester) % 2 ^ 32 ≡ requester = omega arith in
    (
      record { queues = assign lkey q' h.queues; waits = w },
      lkey * 2 ^ 32 + requester,
      ground (
        arith,
        added,
        here,
        local_acquire c (record h { waits = w }) lkey requester op q r known held,
      ),
      ground (arith, lookup-assign lkey lkey q' h.queues),
      rw (high, low) still,
    )
