-- ===== src/ParLock/Client.antt =====
-- The local calls of baseline/ParLock/lib/client.cc under PARLOCK_READER_FIRST.
use fisslock_bmv2_java.Base.{ℕ, ◌&&◌, [], ◌∷◌, Option, none, some, if◌then◌else◌, ◌==◌, is_positive}
use fisslock_bmv2_java.Post.{LockState, is_shared, is_excl}
use fisslock_bmv2_java.ParLock.Queue.{
  LockQueueEntry, LockQueue, state_free, state_shared, state_exclusive, is_state_free,
  is_state_shared, is_state_exclusive, set_lock_state, add_shared_counter, sub_shared_counter,
  enqueue_request, get_head_request, erase_lock_request,
}
use fisslock_bmv2_java.ParLock.Server.{signal, Served, served, grant_exclusive, grant_shared}

module _ (localhost : ℕ) where
  abbrev local_entry : ℕ → LockState → LockQueueEntry
  local_entry requester op = record { op = op; requester = requester; host = localhost }

  unfoldable pub acquire_lock_local : LockQueue → ℕ → LockState → Served
  unfolding enqueue_request
  acquire_lock_local q requester op =
      if is_excl op
      then (if is_state_free q.lock_state
          then served (set_lock_state q state_exclusive) (signal (local_entry requester op) ∷ [])
          else served (enqueue_request q op localhost requester) [])
      else if is_shared op
      then (if is_state_exclusive q.lock_state
          then served (enqueue_request q op localhost requester) []
          else served (add_shared_counter (set_lock_state q state_shared))
              (signal (local_entry requester op) ∷ []))
      else served q []

  -- The exclusive holder is gone and the state is free.
  unfoldable pub next_after_exclusive : LockQueue → Option LockQueueEntry → Served
  next_after_exclusive q none = served q []
  next_after_exclusive q (some head) =
      if is_excl head.op
      then grant_exclusive localhost q head
      else if is_shared head.op
      then grant_shared localhost q
      else served q []

  -- The last shared holder is gone and the state is free; `none` is the abnormal condition.
  unfoldable pub next_after_shared : LockQueue → Option LockQueueEntry → Option Served
  next_after_shared q none = some (served q [])
  next_after_shared q (some head) =
      if is_excl head.op
      then some (grant_exclusive localhost q head)
      else if is_shared head.op
      then none
      else some (served q [])

  unfoldable pub release_shared_local : LockQueue → ℕ → Option Served
  unfolding next_after_shared get_head_request
  release_shared_local q ret =
      if is_state_shared q.lock_state && (ret == 0)
      then (let q' = sub_shared_counter q in
          if is_positive q'.shared_counter
          then some (served q' [])
          else next_after_shared (set_lock_state q' state_free)
              (get_head_request (set_lock_state q' state_free)))
      else if is_state_shared q.lock_state
      then none
      else some (served q [])

  unfoldable pub release_exclusive_local : LockQueue → ℕ → Served
  unfolding next_after_exclusive get_head_request
  release_exclusive_local q ret =
      if is_state_exclusive q.lock_state && (ret == 0)
      then next_after_exclusive (set_lock_state q state_free)
          (get_head_request (set_lock_state q state_free))
      else served q []

  unfoldable pub release_lock_local : LockQueue → ℕ → LockState → Option Served
  unfolding release_exclusive_local release_shared_local
  release_lock_local q requester op =
      let (q', ret) = erase_lock_request q requester localhost op in
      if is_excl op
      then some (release_exclusive_local q' ret)
      else if is_shared op
      then release_shared_local q' ret
      else some (served q' [])
