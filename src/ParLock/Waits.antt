-- ===== src/ParLock/Waits.antt =====
-- baseline/ParLock/lib/coroutine_wait_queue.cc: a flag for each lock and requester, under the busy
-- waiting that utils/conf.h selects. `ERROR` ends the process: the result is then `none`.
use fisslock_bmv2_java.Base.{
  ℕ, Bool, true, false, List, [], Option, none, some, lookup, assign, emplace,
}

-- `lock_wait_table`, with the `wait_flag` of each entry.
abbrev pub LockWaitTable : Type 0
LockWaitTable = List (ℕ × List (ℕ × Bool))

unfoldable pub init_lock_wait_table : LockWaitTable → ℕ → LockWaitTable
init_lock_wait_table t lock_id = emplace lock_id [] t

unfoldable pub add_to_wait_queue : LockWaitTable → ℕ → ℕ → Option LockWaitTable
add_to_wait_queue t lock_id requester = elim (lookup lock_id t) [
  | none ↦ none
  | some wait_flag ↦ some (assign lock_id (emplace requester false wait_flag) t)
]

unfoldable pub coroutine_wait_queue_signal : LockWaitTable → ℕ → ℕ → Option LockWaitTable
coroutine_wait_queue_signal t lock_id requester = elim (lookup lock_id t) [
  | none ↦ none
  | some wait_flag ↦ elim (lookup requester wait_flag) [
    | none ↦ none
    | some old ↦ some (assign lock_id (assign requester true wait_flag) t)
  ]
]

unfoldable pub coroutine_wait_queue_wait : LockWaitTable → ℕ → ℕ → Option Bool
coroutine_wait_queue_wait t lock_id requester = elim (lookup lock_id t) [
  | none ↦ none
  | some wait_flag ↦ lookup requester wait_flag
]
