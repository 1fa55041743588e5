-- ===== src/NetLock/Dispatch.antt =====
-- The secondary role of baseline/NetLock/lib/lock_server.cc, the server's table of queues, and the
-- dispatch by role and operator. Counters and timers are left out.
use fisslock_bmv2_java.Base.{
  ℕ, zero, suc, ◌+◌, ◌||◌, List, [], ◌∷◌, Option, none, some, if◌then◌else◌, ◌==◌, ltb, lookup,
  assign, ℤ, pos, negsuc,
}
use fisslock_bmv2_java.NetLock.Queue.{
  acquire_lock, release_lock, push_back_lock, primary_backup, secondary_backup, LockQueueNode,
  NodeQueue, enqueue_request, dequeue_request, get_request, block_queue, get_lock_queue_size,
  LockQueues,
}
use fisslock_bmv2_java.NetLock.Server.{
  ServerPost, Served, served, process_primary_acquire, process_primary_release,
}

unfoldable pub process_secondary_acquire : NodeQueue → LockQueueNode → NodeQueue
unfolding enqueue_request
process_secondary_acquire q node = enqueue_request (block_queue q) node

-- `dequeue_length`, as the number of rounds of the loops: `len_in_switch` is signed.
unfoldable pub dequeue_length : ℕ → ℤ → ℕ
dequeue_length len_in_server (pos k) = if ltb len_in_server k then len_in_server else k
dequeue_length len_in_server (negsuc k) = 0

-- The first loop, from the node number `node_num` on.
unfoldable pub push_back_loop : NodeQueue → ℕ → ℕ → Option (List ServerPost)
unfolding get_request
push_back_loop q node_num zero = some []
push_back_loop q node_num (suc rounds) = elim (get_request q node_num) [
  | none ↦ none
  | some n ↦ elim (push_back_loop q (node_num + 1) rounds) [
    | none ↦ none
    | some ps ↦
        some
          (record { node = n; action_type = push_back_lock; transferred = 0; ncnt = q.seqnum } ∷ ps)
  ]
]

-- The second loop: a dequeue from an empty queue gives NULL, whose fields are read.
unfoldable pub dequeue_loop : NodeQueue → ℕ → Option NodeQueue
unfolding dequeue_request
dequeue_loop q zero = some q
dequeue_loop q (suc rounds) = elim (dequeue_request q).0 [
  | none ↦ none
  | some n ↦ dequeue_loop (dequeue_request q).1 rounds
]

unfoldable pub process_secondary_release : NodeQueue → ℤ → Option Served
unfolding dequeue_length
process_secondary_release q len_on_switch =
    let q' = block_queue q in
    let rounds = dequeue_length (get_lock_queue_size q') len_on_switch in
    elim (push_back_loop q' 0 rounds) [
      | none ↦ none
      | some ps ↦ elim (dequeue_loop q' rounds) [ none ↦ none | some q'' ↦ some (served q'' ps) ]
    ]

-- The server: the queues, and the slots of each lock on the switch. What it sends goes out at once.
pub record LockServer : Type 0 where
  pub lock_queue : LockQueues
  pub len_in_switch : List (ℕ × ℤ)

-- A handler on the queue of the node's lock: `block_queue` ends the process if there is none.
unfoldable pub on_queue :
    LockServer → ℕ → (NodeQueue → Option Served) → Option (LockServer × List ServerPost)
on_queue s lock_id f = elim (lookup lock_id s.lock_queue) [
  | none ↦ none
  | some q ↦ elim (f q) [
    | none ↦ none
    | some o ↦ some (record s { lock_queue = assign lock_id o.queue s.lock_queue }, o.posts)
  ]
]

unfoldable pub process_primary_backup :
    LockServer → LockQueueNode → Option (LockServer × List ServerPost)
unfolding on_queue
process_primary_backup s node =
    if node.op_type == acquire_lock
    then on_queue s node.lock_id (λ q. some (process_primary_acquire q node))
    else if node.op_type == release_lock
    then on_queue s node.lock_id (λ q. some (process_primary_release q node))
    else some (s, [])

-- An entry of `len_in_switch` that is not there is undefined.
unfoldable pub secondary_release :
    LockServer → LockQueueNode → Option (LockServer × List ServerPost)
unfolding on_queue
secondary_release s node = elim (lookup node.lock_id s.len_in_switch) [
  | none ↦ none
  | some len_on_switch ↦ on_queue s node.lock_id (λ q. process_secondary_release q len_on_switch)
]

unfoldable pub process_secondary_backup :
    LockServer → LockQueueNode → Option (LockServer × List ServerPost)
unfolding on_queue secondary_release
process_secondary_backup s node =
    if (node.op_type == acquire_lock) || (node.op_type == push_back_lock)
    then on_queue s node.lock_id (λ q. some (served (process_secondary_acquire q node) []))
    else if node.op_type == release_lock
    then secondary_release s node
    else some (s, [])

-- What `rx_loop` of server/main.cc does with a node.
unfoldable pub process_node : LockServer → LockQueueNode → Option (LockServer × List ServerPost)
unfolding process_primary_backup process_secondary_backup
process_node s node =
    if node.role == primary_backup
    then process_primary_backup s node
    else if node.role == secondary_backup
    then process_secondary_backup s node
    else some (s, [])
