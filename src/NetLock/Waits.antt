-- ===== src/NetLock/Waits.antt =====
-- baseline/NetLock/lib/coroutine_wait_queue.cc: a flag for each lock and requester, under the busy
-- waiting that utils/conf.h selects. Unlike ParLock's, a flag is reset when its grant is seen. `ERROR`
-- ends the process: the result is then `none`.
use fisslock_bmv2_java.Base.{
  ℕ, ◌/◌, ◌%◌, ◌^◌, Bool, true, false, List, [], Option, none, some, if◌then◌else◌, lookup, assign,
  emplace,
}

-- `lock_wait_table`, with the `wait_flag` of each entry.
abbrev pub LockWaitTable : Type 0
LockWaitTable = List (ℕ × List (ℕ × Bool))

unfoldable pub init_lock_wait_table : LockWaitTable → ℕ → LockWaitTable
init_lock_wait_table t lock_id = emplace lock_id [] t

unfoldable pub add_to_wait_queue : LockWaitTable → ℕ → ℕ → Option LockWaitTable
add_to_wait_queue t lock_id requester = elim (lookup lock_id t) [
  | none ↦ none
  | some wait_flag ↦ some (assign lock_id (emplace requester false wait_flag) t)
]

unfoldable pub coroutine_wait_queue_signal : LockWaitTable → ℕ → ℕ → Option LockWaitTable
coroutine_wait_queue_signal t lock_id requester = elim (lookup lock_id t) [
  | none ↦ none
  | some wait_flag ↦ elim (lookup requester wait_flag) [
    | none ↦ none
    | some old ↦ some (assign lock_id (assign requester true wait_flag) t)
  ]
]

-- The flag, which a true result resets.
unfoldable pub poll_flag : LockWaitTable → ℕ → ℕ → Option (LockWaitTable × Bool)
poll_flag t lock_id requester = elim (lookup lock_id t) [
  | none ↦ none
  | some wait_flag ↦ elim (lookup requester wait_flag) [
    | none ↦ none
    | some result ↦
        some ((if result then assign lock_id (assign requester false wait_flag) t else t), result)
  ]
]

-- The request holds the lock above 32 bits of requester.
unfoldable pub lock_req_granted : LockWaitTable → ℕ → Option (LockWaitTable × Bool)
unfolding poll_flag
lock_req_granted t req = poll_flag t (req / 2 ^ 32 % 2 ^ 32) (req % 2 ^ 32)
