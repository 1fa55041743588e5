-- ===== src/ParLock/Queue.antt =====
-- `LockTable` of baseline/ParLock/lib/lock_queue.cc: the queue of one lock, its operations, and the
-- table of the queues. A caller holds the queue's mutex; the size counter of the statistics is left
-- out. PARLOCK_ENQUEUE_HOLDERS is off, as utils/conf.h leaves it. An entry's pointer is freed after
-- its last use, so an entry is a value. The operators are those of `Post`: ParLock's `lock_state`
-- has the same members.
use fisslock_bmv2_java.Base.{
  ℕ, zero, suc, ◌+◌, Bool, true, false, ◌&&◌, List, [], ◌∷◌, ◌++◌, Option, none, some,
  if◌then◌else◌, ◌==◌, length, get_elem?, filter, emplace, ℤ, pos, succ, pred,
}
use fisslock_bmv2_java.Post.{LockState, free, release, lock_shared, lock_excl, is_shared, is_excl}

-- `lock_queue_entry`
pub record LockQueueEntry : Type 0 where
  pub op : LockState
  pub requester : ℕ
  pub host : ℕ

-- `STATE_FREE`, `STATE_SHARED` and `STATE_EXCLUSIVE`
pub data QueueState : Type 0 where
  state_free state_shared state_exclusive : QueueState

abbrev pub is_state_free : QueueState → Bool
is_state_free state_free = true
is_state_free _ = false

abbrev pub is_state_shared : QueueState → Bool
is_state_shared state_shared = true
is_state_shared _ = false

abbrev pub is_state_exclusive : QueueState → Bool
is_state_exclusive state_exclusive = true
is_state_exclusive _ = false

-- `LockQueue`, without its mutex.
pub record LockQueue : Type 0 where
  pub request_queue : List LockQueueEntry
  pub shared_counter : ℤ
  pub exclusive_counter : ℤ
  pub lock_state : QueueState

-- The queue that `init_lock` makes.
abbrev pub new_lock_queue : LockQueue
new_lock_queue = record {
  request_queue = [];
  shared_counter = pos 0;
  exclusive_counter = pos 0;
  lock_state = state_free;
}

-- The number of an operator, for comparisons.
abbrev pub op_code : LockState → ℕ
op_code free = 0
op_code release = 1
op_code lock_shared = 2
op_code lock_excl = 3

unfoldable pub matches : LockQueueEntry → ℕ → ℕ → LockState → Bool
matches e requester host op =
    (e.host == host) && (e.requester == requester) && (op_code e.op == op_code op)

abbrev pub set_lock_state : LockQueue → QueueState → LockQueue
set_lock_state q s = record q { lock_state = s }

abbrev pub add_shared_counter : LockQueue → LockQueue
add_shared_counter q = record q { shared_counter = succ q.shared_counter }

abbrev pub sub_shared_counter : LockQueue → LockQueue
sub_shared_counter q = record q { shared_counter = pred q.shared_counter }

abbrev pub add_exclusive_counter : LockQueue → LockQueue
add_exclusive_counter q = record q { exclusive_counter = succ q.exclusive_counter }

abbrev pub sub_exclusive_counter : LockQueue → LockQueue
sub_exclusive_counter q = record q { exclusive_counter = pred q.exclusive_counter }

unfoldable pub enqueue_request : LockQueue → LockState → ℕ → ℕ → LockQueue
enqueue_request q op machine_id lh_id = record q {
  request_queue = q.request_queue ++ record { op = op; requester = lh_id; host = machine_id } ∷ [];
}

abbrev pub head_of : List LockQueueEntry → Option LockQueueEntry
head_of [] = none
head_of (e ∷ es) = some e

abbrev tail_of : List LockQueueEntry → List LockQueueEntry
tail_of [] = []
tail_of (e ∷ es) = es

-- The queue without its head. (What it returns is the head, which callers have read before.)
unfoldable pub dequeue_request : LockQueue → LockQueue
dequeue_request q = record q { request_queue = tail_of q.request_queue }

unfoldable pub get_head_request : LockQueue → Option LockQueueEntry
get_head_request q = head_of q.request_queue

-- The loop of `is_lock_holder` over a queue that a shared request heads.
unfoldable pub is_shared_holder : List LockQueueEntry → ℕ → ℕ → LockState → Bool
is_shared_holder [] requester host op = false
is_shared_holder (e ∷ es) requester host op =
    let rest = is_shared_holder es requester host op in
    if is_excl e.op then false else if matches e requester host op then true else rest

unfoldable pub is_lock_holder : LockQueue → ℕ → ℕ → LockState → Bool
is_lock_holder q requester host op = elim (get_head_request q) [
  | none ↦ false
  | some head ↦
      if is_excl head.op
      then matches head requester host op
      else is_shared_holder q.request_queue requester host op
]

-- The shared requests before the first other one.
unfoldable pub head_shared : List LockQueueEntry → List LockQueueEntry
head_shared [] = []
head_shared (e ∷ es) = let rest = head_shared es in if is_shared e.op then e ∷ rest else []

unfoldable pub get_head_shared_requests : LockQueue → List LockQueueEntry
get_head_shared_requests q = head_shared q.request_queue

abbrev pub erase_at : ℕ → List LockQueueEntry → List LockQueueEntry
erase_at i [] = []
erase_at zero (e ∷ es) = es
erase_at (suc i) (e ∷ es) = e ∷ erase_at i es

-- The loop of `dequeue_shared_requests` from the place `i`, that is `prev_idx + 1`: an erased
-- entry leaves the place to the next one. The first argument bounds the rounds.
unfoldable pub dequeue_shared_loop :
    ℕ → List LockQueueEntry → ℕ → List LockQueueEntry × List LockQueueEntry
dequeue_shared_loop zero es i = ([], es)
dequeue_shared_loop (suc n) es i = elim (get_elem? es i) [
  | none ↦ ([], es)
  | some e ↦ elim (is_shared e.op) [
    | true ↦ let (result, es') = dequeue_shared_loop n (erase_at i es) i in (e ∷ result, es')
    | false ↦ dequeue_shared_loop n es (i + 1)
  ]
]

-- A round for each entry is enough.
unfoldable pub dequeue_shared_requests : LockQueue → List LockQueueEntry × LockQueue
dequeue_shared_requests q =
    let (result, es) = dequeue_shared_loop (length q.request_queue) q.request_queue 0 in
    (result, record q { request_queue = es })

unfoldable pub get_shared_requests : LockQueue → List LockQueueEntry
get_shared_requests q = filter (λ e. is_shared e.op) q.request_queue

-- The loop of `erase_lock_request`: 1 and the other entries, or 0.
unfoldable pub erase_first : List LockQueueEntry → ℕ → ℕ → LockState → List LockQueueEntry × ℕ
erase_first [] requester host op = ([], 0)
erase_first (e ∷ es) requester host op =
    let (rest, ret) = erase_first es requester host op in
    if matches e requester host op then (es, 1) else (e ∷ rest, ret)

unfoldable pub erase_lock_request : LockQueue → ℕ → ℕ → LockState → LockQueue × ℕ
erase_lock_request q requester host op =
    let (es, ret) = erase_first q.request_queue requester host op in
    (record q { request_queue = es }, ret)

-- `queue_per_lock`
abbrev pub QueuePerLock : Type 0
QueuePerLock = List (ℕ × LockQueue)

unfoldable pub init_lock : QueuePerLock → ℕ → QueuePerLock
init_lock t lock_id = emplace lock_id new_lock_queue t

-- The locks from `lock` on, `n` of them.
unfoldable pub init_locks : QueuePerLock → ℕ → ℕ → QueuePerLock
unfolding init_lock
init_locks t lock zero = t
init_locks t lock (suc n) = init_locks (init_lock t lock) (lock + 1) n
