-- ===== src/NetLock/Server.antt =====
-- The handlers of the primary role in baseline/NetLock/lib/lock_server.cc. A handler reads and writes one lock's queue
-- under its mutex. Counters and timers are left out.
use fisslock_bmv2_java.Base.{
  ℕ, ◌&&◌, ◌||◌, List, [], ◌∷◌, map, Option, none, some, if◌then◌else◌, ◌==◌, is_positive,
}
use fisslock_bmv2_java.ParLock.Queue.{
  state_free, state_shared, state_exclusive, is_state_free, is_state_shared, is_state_exclusive,
}
use fisslock_bmv2_java.NetLock.Queue.{
  grant_lock_from_server, shared, exclusive, LockQueueNode, is_shared_node, NodeQueue,
  enqueue_request, get_head_request, get_shared_requests, set_lock_state, add_shared_counter,
  sub_shared_counter, block_queue, add_seqnum, erase_lock_request,
}

-- A call of `net_send_lock_server`.
pub record ServerPost : Type 0 where
  pub node : LockQueueNode
  pub action_type : ℕ
  pub transferred : ℕ
  pub ncnt : ℕ  -- cut to 8 bits in the packet

-- The queue after a handler, and what it sends, in order.
pub record Served : Type 0 where
  pub queue : NodeQueue
  pub posts : List ServerPost

abbrev pub served : NodeQueue → List ServerPost → Served
served q ps = record { queue = q; posts = ps }

abbrev pub grant : NodeQueue → LockQueueNode → ℕ → ServerPost
grant q n transferred = record {
  node = n;
  action_type = grant_lock_from_server;
  transferred = transferred;
  ncnt = q.seqnum;
}

-- Once the node is enqueued.
unfoldable pub acquire_shared : NodeQueue → LockQueueNode → Served
acquire_shared q node =
    if is_state_free q.lock_state || is_state_shared q.lock_state
    then served (add_shared_counter (set_lock_state q state_shared)) (grant q node 0 ∷ [])
    else served q []

unfoldable pub acquire_exclusive : NodeQueue → LockQueueNode → Served
acquire_exclusive q node =
    if is_state_free q.lock_state
    then served (set_lock_state q state_exclusive) (grant q node 0 ∷ [])
    else served q []

unfoldable pub process_primary_acquire : NodeQueue → LockQueueNode → Served
unfolding enqueue_request
process_primary_acquire q node =
    let q' = enqueue_request (block_queue q) node in
    if node.mode == shared
    then acquire_shared q' node
    else if node.mode == exclusive
    then acquire_exclusive q' node
    else served q' []

abbrev pub with_payload : List ℕ → LockQueueNode → LockQueueNode
with_payload p n = record n { payload = p }

-- `cur_head->payload = ...`: the head of the queue is that node.
abbrev pub write_head : List ℕ → List LockQueueNode → List LockQueueNode
write_head p [] = []
write_head p (n ∷ ns) = with_payload p n ∷ ns

-- The head takes the lock exclusively, with the payload of the one that leaves.
unfoldable pub grant_head : NodeQueue → LockQueueNode → LockQueueNode → Served
grant_head q node cur_head =
    let q' = record q {
      lock_state = state_exclusive;
      node_queue = write_head node.payload q.node_queue;
    } in
    served q' (grant q' (with_payload node.payload cur_head) 1 ∷ [])

-- The last shared holder has left.
unfoldable pub schedule_shared : NodeQueue → LockQueueNode → Option LockQueueNode → Served
schedule_shared q node none = served (add_seqnum q) []
schedule_shared q node (some cur_head) =
    if cur_head.mode == exclusive
    then grant_head q node cur_head
    else if cur_head.mode == shared
    then served q []
    else served (add_seqnum q) []

unfoldable pub release_shared : NodeQueue → LockQueueNode → Served
release_shared q node =
    if is_state_shared q.lock_state
    then (let q' = sub_shared_counter q in
        if is_positive q'.shared_counter
        then served q' []
        else schedule_shared (set_lock_state q' state_free) node
            (get_head_request (set_lock_state q' state_free)))
    else served q []

-- The loop over the shared requests: each gets the payload, which its entry of the queue shares.
unfoldable pub grant_loop :
    NodeQueue → LockQueueNode → List LockQueueNode → NodeQueue × List ServerPost
grant_loop q node [] = (q, [])
grant_loop q node (n ∷ ns) =
    let (q', ps) = grant_loop (add_shared_counter q) node ns in
    (q', grant q (with_payload node.payload n) 1 ∷ ps)

-- The nodes of `get_shared_requests` are those of the queue, so the payload is seen there too.
abbrev pub write_shared : List ℕ → LockQueueNode → LockQueueNode
write_shared p n = if is_shared_node n then with_payload p n else n

unfoldable pub grant_all_shared : NodeQueue → LockQueueNode → Served
unfolding grant_loop
grant_all_shared q node =
    let shared_head = get_shared_requests q in
    let q' = record q {
      lock_state = state_shared;
      node_queue = map (write_shared node.payload) q.node_queue;
    } in
    let (q'', ps) = grant_loop q' node shared_head in served q'' ps

-- The exclusive holder has left.
unfoldable pub schedule_exclusive : NodeQueue → LockQueueNode → Option LockQueueNode → Served
schedule_exclusive q node none = served (add_seqnum q) []
schedule_exclusive q node (some cur_head) =
    if cur_head.mode == exclusive
    then grant_head q node cur_head
    else if cur_head.mode == shared
    then grant_all_shared q node
    else served (add_seqnum q) []

unfoldable pub release_exclusive : NodeQueue → LockQueueNode → ℕ → Served
release_exclusive q node ret =
    if is_state_exclusive q.lock_state && (ret == 0)
    then schedule_exclusive (set_lock_state q state_free) node
        (get_head_request (set_lock_state q state_free))
    else served q []

unfoldable pub process_primary_release : NodeQueue → LockQueueNode → Served
process_primary_release q node =
    let (q', ret) =
      erase_lock_request (block_queue q) node.lock_id node.txn_id node.client_id node.mode in
    if node.mode == shared
    then release_shared q' node
    else if node.mode == exclusive
    then release_exclusive q' node ret
    else served q' []
