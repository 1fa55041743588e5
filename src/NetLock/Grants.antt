-- ===== src/NetLock/Grants.antt =====
-- The wait flags of a NetLock client (baseline/NetLock/lib/lock.cc, coroutine_wait_queue.cc).
use fisslock_bmv2_java.Base.{
  ℕ, ◌+◌, ◌*◌, ◌/◌, ◌%◌, ◌^◌, ◌<◌, ◌≡◌, ◌≢◌, Bool, true, false, List, Option, some, arith, refl,
  lookup, assign, emplace, lookup-assign, lookup-emplace, if◌then◌else◌, get_or, ◌∙◌,
}
use fisslock_bmv2_java.Post.{LockState, swap32}
use fisslock_bmv2_java.NetLock.Queue.{acquire_lock}
use fisslock_bmv2_java.NetLock.Wire.{LockPostHeader}
use fisslock_bmv2_java.NetLock.Waits.{
  LockWaitTable, add_to_wait_queue, coroutine_wait_queue_signal, poll_flag, lock_req_granted,
}
use fisslock_bmv2_java.NetLock.Client.{
  Acquired, is_grant, client_posts, preprocess, Preprocessor, lock_acquire_async,
  lock_packet_dispatch, packet_dispatch,
}

-- The table with other flags for one lock.
abbrev with_flags : LockWaitTable → ℕ → List (ℕ × Bool) → LockWaitTable
with_flags t lock_id flags = assign lock_id flags t

poll_lem :
    (t : LockWaitTable) (lock_id requester : ℕ) (flags : List (ℕ × Bool)) (b : Bool)
    → lookup lock_id t ≡ some flags
    → lookup requester flags ≡ some b
    → poll_flag t lock_id requester
      ≡ some ((if b then with_flags t lock_id (assign requester false flags) else t), b)
unfolding poll_flag
poll_lem t lock_id requester flags b e f = ground (arith, e, f)

req_parts :
    (lkey requester : ℕ)
    → lkey < 2 ^ 32
    → requester < 2 ^ 32
    → ((lkey * 2 ^ 32 + requester) / 2 ^ 32 % 2 ^ 32 ≡ lkey)
      × ((lkey * 2 ^ 32 + requester) % 2 ^ 32 ≡ requester)
req_parts lkey requester l r = omega arith

signal_lem :
    (t : LockWaitTable) (lock_id requester : ℕ) (flags : List (ℕ × Bool)) (b : Bool)
    → lookup lock_id t ≡ some flags
    → lookup requester flags ≡ some b
    → coroutine_wait_queue_signal t lock_id requester
      ≡ some (with_flags t lock_id (assign requester true flags))
unfolding coroutine_wait_queue_signal
signal_lem t lock_id requester flags b e f = ground (arith, e, f)

granted_lem :
    (t : LockWaitTable) (lkey requester : ℕ) (flags : List (ℕ × Bool)) (b : Bool)
    → lkey < 2 ^ 32
    → requester < 2 ^ 32
    → lookup lkey t ≡ some flags
    → lookup requester flags ≡ some b
    → lock_req_granted t (lkey * 2 ^ 32 + requester)
      ≡ some ((if b then with_flags t lkey (assign requester false flags) else t), b)
unfolding lock_req_granted
granted_lem t lkey requester flags b l r e f =
    let (x, y) = req_parts lkey requester l r in rw (x, y) (poll_lem t lkey requester flags b e f)

dispatch_lem :
    (pre : Option Preprocessor) (t : LockWaitTable) (hdr : LockPostHeader)
    → is_grant hdr.op_type ≡ true
    → is_grant (preprocess pre hdr).op_type ≡ true
    → packet_dispatch pre t hdr
      ≡ coroutine_wait_queue_signal t (swap32 hdr.lock_id) (swap32 hdr.txn_id)
unfolding packet_dispatch lock_packet_dispatch
dispatch_lem pre t hdr g g' = rw (g, g') refl

-- A requester whose flag of a known lock is not set acquires the lock: its request is not granted
-- until a grant of that lock to it is dispatched, then it is granted once, and the flag is as if it
-- had never been set. The flags of the lock's other requesters, and those of other locks, stay. The
-- preprocessor keeps the packet a grant; the numbers are below 2^32.
pub grant_is_consumed :
    (pre : Option Preprocessor) (t : LockWaitTable) (flags : List (ℕ × Bool)) (lkey requester : ℕ)
    (other lock : ℕ) (op : LockState) (hdr : LockPostHeader)
    → lkey < 2 ^ 32
    → requester < 2 ^ 32
    → other ≢ requester
    → lock ≢ lkey
    → lookup lkey t ≡ some flags
    → get_or false (lookup requester flags) ≡ false
    → is_grant hdr.op_type ≡ true
    → is_grant (preprocess pre hdr).op_type ≡ true
    → swap32 hdr.lock_id ≡ lkey
    → swap32 hdr.txn_id ≡ requester
    → (a : Acquired) × (lock_acquire_async t lkey requester op ≡ some a)
      × (lock_req_granted a.table a.req ≡ some (a.table, false))
      × (t' : LockWaitTable) × (packet_dispatch pre a.table hdr ≡ some t')
      × (t'' : LockWaitTable) × (flags' : List (ℕ × Bool)) × (lock_req_granted t' a.req
          ≡ some (t'', true))
      × (lock_req_granted t'' a.req ≡ some (t'', false))
      × (lookup lkey t'' ≡ some flags')
      × (lookup other flags' ≡ lookup other flags)
      × (lookup lock t'' ≡ lookup lock t)
unfolding lock_acquire_async add_to_wait_queue
grant_is_consumed pre t flags lkey requester other lock op hdr l r apart other_lock known unset g g'
      lid tid =
    let f1 = emplace requester false flags in
    let t1 = with_flags t lkey f1 in
    let f2 = assign requester true f1 in
    let t2 = with_flags t1 lkey f2 in
    let f3 = assign requester false f2 in
    let t3 = with_flags t2 lkey f3 in
    let e1 : lookup lkey t1 ≡ some f1 = ground (arith, lookup-assign lkey lkey f1 t) in
    let e2 : lookup lkey t2 ≡ some f2 = ground (arith, lookup-assign lkey lkey f2 t1) in
    let e3 : lookup lkey t3 ≡ some f3 = ground (arith, lookup-assign lkey lkey f3 t2) in
    let b1 : lookup requester f1 ≡ some false =
      ground (arith, lookup-emplace requester requester false flags) in
    let b2 : lookup requester f2 ≡ some true =
      ground (arith, lookup-assign requester requester true f1) in
    let b3 : lookup requester f3 ≡ some false =
      ground (arith, lookup-assign requester requester false f2) in
    (
      record {
        table = t1;
        posts = client_posts acquire_lock lkey requester op;
        req = lkey * 2 ^ 32 + requester;
      },
      ground (arith, known),
      granted_lem t1 lkey requester f1 false l r e1 b1,
      t2,
      dispatch_lem pre t1 hdr g g' ∙ rw (lid, tid) (signal_lem t1 lkey requester f1 false e1 b1),
      t3,
      f3,
      granted_lem t2 lkey requester f2 true l r e2 b2,
      granted_lem t3 lkey requester f3 false l r e3 b3,
      e3,
      ground (
        arith,
        lookup-assign requester other false f2,
        lookup-assign requester other true f1,
        lookup-emplace requester other false flags,
      ),
      ground (
        arith,
        lookup-assign lkey lock f3 t2,
        lookup-assign lkey lock f2 t1,
        lookup-assign lkey lock f1 t,
      ),
    )
