-- ===== src/NetLock/Queue.antt =====
-- baseline/NetLock/lib/request.cc and lib/lock.h: the nodes of the lock queues, the queue of one
-- lock with its operations, and the table of the queues. A caller holds the queue's mutex between
-- `block_queue` and `unblock_queue`. A node is a value: its pointer is freed after its last use.
-- The states are those of `ParLock.Queue`, numbered alike.
use fisslock_bmv2_java.Base.{
  ℕ, zero, suc, ◌+◌, Bool, ◌&&◌, List, [], ◌∷◌, ◌++◌, Option, none, some, if◌then◌else◌, ◌==◌,
  length, get_elem?, filter, lookup, emplace, ℤ, pos, succ, pred,
}
use fisslock_bmv2_java.ParLock.Queue.{QueueState, state_free}

-- `ACQUIRE_LOCK` and the other operators of a message.
abbrev pub acquire_lock : ℕ
acquire_lock = 0

abbrev pub release_lock : ℕ
release_lock = 1

abbrev pub push_back_lock : ℕ
push_back_lock = 2

abbrev pub grant_lock_from_server : ℕ
grant_lock_from_server = 3

abbrev pub direct_grant_from_switch : ℕ
direct_grant_from_switch = 4

-- `PRIMARY_BACKUP` and `SECONDARY_BACKUP`, the roles in which the server gets a message.
abbrev pub primary_backup : ℕ
primary_backup = 1

abbrev pub secondary_backup : ℕ
secondary_backup = 2

-- `SHARED` and `EXCLUSIVE`, the modes.
abbrev pub shared : ℕ
shared = 0

abbrev pub exclusive : ℕ
exclusive = 1

-- `lock_queue_node`. `payload` is the buffer with its size; none is the empty list.
pub record LockQueueNode : Type 0 where
  pub op_type : ℕ
  pub mode : ℕ
  pub client_id : ℕ
  pub txn_id : ℕ
  pub lock_id : ℕ
  pub ip_src : ℕ
  pub role : ℕ
  pub payload : List ℕ

abbrev pub is_shared_node : LockQueueNode → Bool
is_shared_node n = n.mode == shared

-- `NodeQueuePerLock`, without its mutex.
pub record NodeQueue : Type 0 where
  pub node_queue : List LockQueueNode
  pub shared_counter : ℤ
  pub exclusive_counter : ℤ
  pub lock_state : QueueState
  pub seqnum : ℕ
  pub ticket_id : ℕ

abbrev pub new_node_queue : NodeQueue
new_node_queue = record {
  node_queue = [];
  shared_counter = pos 0;
  exclusive_counter = pos 0;
  lock_state = state_free;
  seqnum = 0;
  ticket_id = 0;
}

unfoldable pub enqueue_request : NodeQueue → LockQueueNode → NodeQueue
enqueue_request q node = record q { node_queue = q.node_queue ++ node ∷ [] }

-- The head, or NULL, and the queue without it.
abbrev pub pop_front : List LockQueueNode → Option LockQueueNode × List LockQueueNode
pop_front [] = (none, [])
pop_front (n ∷ ns) = (some n, ns)

unfoldable pub dequeue_request : NodeQueue → Option LockQueueNode × NodeQueue
dequeue_request q =
    let (result, rest) = pop_front q.node_queue in (result, record q { node_queue = rest })

unfoldable pub get_head_request : NodeQueue → Option LockQueueNode
get_head_request q = (pop_front q.node_queue).0

unfoldable pub get_shared_requests : NodeQueue → List LockQueueNode
get_shared_requests q = filter is_shared_node q.node_queue

-- An index beyond the queue is undefined.
unfoldable pub get_request : NodeQueue → ℕ → Option LockQueueNode
get_request q index = get_elem? q.node_queue index

abbrev pub set_lock_state : NodeQueue → QueueState → NodeQueue
set_lock_state q s = record q { lock_state = s }

abbrev pub add_shared_counter : NodeQueue → NodeQueue
add_shared_counter q = record q { shared_counter = succ q.shared_counter }

abbrev pub sub_shared_counter : NodeQueue → NodeQueue
sub_shared_counter q = record q { shared_counter = pred q.shared_counter }

abbrev pub add_exclusive_counter : NodeQueue → NodeQueue
add_exclusive_counter q = record q { exclusive_counter = succ q.exclusive_counter }

abbrev pub sub_exclusive_counter : NodeQueue → NodeQueue
sub_exclusive_counter q = record q { exclusive_counter = pred q.exclusive_counter }

abbrev pub block_queue : NodeQueue → NodeQueue
block_queue q = record q { ticket_id = q.ticket_id + 1 }

abbrev pub add_seqnum : NodeQueue → NodeQueue
add_seqnum q = record q { seqnum = q.seqnum + 1 }

abbrev pub get_lock_queue_size : NodeQueue → ℕ
get_lock_queue_size q = length q.node_queue

-- The test of `erase_lock_request`.
unfoldable pub matches : LockQueueNode → ℕ → ℕ → ℕ → ℕ → Bool
matches n lock_id requester host op =
    (n.client_id == host) && (n.lock_id == lock_id) && (n.txn_id == requester) && (n.mode == op)

module _ (lock_id requester host op : ℕ) where
  -- The loop from the entry number `cur_count` on: the other entries, and the number of the first that
  -- matches. If none does, 0.
  unfoldable pub erase_loop : ℕ → List LockQueueNode → List LockQueueNode × ℕ
  erase_loop cur_count [] = ([], 0)
  erase_loop cur_count (n ∷ ns) =
      let (rest, ret) = erase_loop (cur_count + 1) ns in
      if matches n lock_id requester host op then (ns, cur_count) else (n ∷ rest, ret)

unfoldable pub erase_lock_request : NodeQueue → ℕ → ℕ → ℕ → ℕ → NodeQueue × ℕ
erase_lock_request q lock_id requester host op =
    let (ns, ret) = erase_loop lock_id requester host op 0 q.node_queue in
    (record q { node_queue = ns }, ret)

-- `lock_queue`
abbrev pub LockQueues : Type 0
LockQueues = List (ℕ × NodeQueue)

unfoldable pub init_lock_queue : LockQueues → ℕ → LockQueues
init_lock_queue t lock_id = elim (lookup lock_id t) [
  | none ↦ emplace lock_id new_node_queue t
  | some q ↦ t
]

-- The locks from `lock_id` on, `n` of them.
unfoldable pub init_locks : LockQueues → ℕ → ℕ → LockQueues
init_locks t lock_id zero = t
init_locks t lock_id (suc n) = init_locks (init_lock_queue t lock_id) (lock_id + 1) n

unfoldable pub init_all_locks : ℕ → LockQueues
unfolding init_locks
init_all_locks max_lock_num = init_locks [] 0 max_lock_num
