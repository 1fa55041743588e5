-- ===== src/ParLock/Fifo.antt =====
-- The other policy of baseline/ParLock, without PARLOCK_READER_FIRST: the #else branches of the
-- handlers in server.cc and of the local calls in client.cc. Holders stay in the queue, at its front.
-- `none` is a read through the null pointer that an empty queue gives.
pub mod Front
pub mod Grants
pub mod Owners
pub mod Releases
pub mod Order
pub mod Local
pub mod Aborts
pub mod Tests
use fisslock_bmv2_java.Base.{
  ℕ, ◌&&◌, List, [], ◌∷◌, map, Option, none, some, if◌then◌else◌, ◌==◌, is_zero,
}
use fisslock_bmv2_java.Post.{LockState, is_shared, is_excl}
use fisslock_bmv2_java.ParLock.Queue.{
  LockQueueEntry, LockQueue, add_shared_counter, sub_shared_counter, add_exclusive_counter,
  sub_exclusive_counter, enqueue_request, dequeue_request, get_head_request,
  get_head_shared_requests, erase_lock_request,
}
use fisslock_bmv2_java.ParLock.Server.{
  LockRequest, Grant, signal, reply, Served, served, entry_of, grant_to,
}

unfoldable pub fifo_exclusive_lock : LockQueue → LockRequest → Served
fifo_exclusive_lock q hd =
    if is_zero q.shared_counter && is_zero q.exclusive_counter
    then served (enqueue_request (add_exclusive_counter q) hd.op hd.machine_id hd.lh_id)
        (reply (entry_of hd) ∷ [])
    else served (enqueue_request (add_exclusive_counter q) hd.op hd.machine_id hd.lh_id) []

unfoldable pub fifo_shared_lock : LockQueue → LockRequest → Served
fifo_shared_lock q hd =
    if is_zero q.exclusive_counter
    then served (enqueue_request (add_shared_counter q) hd.op hd.machine_id hd.lh_id)
        (reply (entry_of hd) ∷ [])
    else served (enqueue_request (add_shared_counter q) hd.op hd.machine_id hd.lh_id) []

-- `process_lock_req` on the lock's queue.
unfoldable pub fifo_serve_lock : LockRequest → LockQueue → Served
fifo_serve_lock hd q =
    if is_excl hd.op
    then fifo_exclusive_lock q hd
    else if is_shared hd.op
    then fifo_shared_lock q hd
    else served q []

-- A release by somebody else than the head just takes the request out of the queue.
unfoldable pub fifo_exclusive_abort : LockQueue → ℕ → ℕ → LockState → Served
fifo_exclusive_abort q requester host op =
    let (q', ret) = erase_lock_request q requester host op in
    if ret == 1 then served (sub_exclusive_counter q') [] else served q' []

unfoldable pub fifo_shared_abort : LockQueue → ℕ → ℕ → LockState → Served
fifo_shared_abort q requester host op =
    let (q', ret) = erase_lock_request q requester host op in
    if ret == 1 then served (sub_shared_counter q') [] else served q' []

module _ (localhost : ℕ) where
  -- The head that follows an exclusive holder, with the shared requests behind it if it is shared.
  unfoldable pub after_exclusive : LockQueue → Option LockQueueEntry → Served
  after_exclusive q none = served q []
  after_exclusive q (some head) =
      if is_excl head.op
      then served q (grant_to localhost head ∷ [])
      else if is_shared head.op
      then served q (map (grant_to localhost) (get_head_shared_requests q))
      else served q []

  -- The head that follows a shared holder: a shared one has the lock already.
  unfoldable pub after_shared : LockQueue → Option LockQueueEntry → Served
  after_shared q none = served q []
  after_shared q (some head) =
      if is_excl head.op then served q (grant_to localhost head ∷ []) else served q []

  unfoldable pub fifo_exclusive_unlock : LockQueue → LockRequest → Option Served
  unfolding after_exclusive
  fifo_exclusive_unlock q hd = elim (get_head_request q) [
    | none ↦ none
    | some cur_head ↦
        let q' = sub_exclusive_counter (dequeue_request q) in
        if cur_head.requester == hd.lh_id
        then some (after_exclusive q' (get_head_request q'))
        else some (fifo_exclusive_abort q hd.lh_id hd.machine_id hd.op)
  ]

  unfoldable pub fifo_shared_unlock : LockQueue → LockRequest → Option Served
  unfolding after_shared
  fifo_shared_unlock q hd = elim (get_head_request q) [
    | none ↦ none
    | some cur_head ↦
        let q' = sub_shared_counter (dequeue_request q) in
        if cur_head.requester == hd.lh_id
        then some (after_shared q' (get_head_request q'))
        else some (fifo_shared_abort q hd.lh_id hd.machine_id hd.op)
  ]

  -- `process_unlock_req` on the lock's queue.
  unfoldable pub fifo_serve_unlock : LockRequest → LockQueue → Option Served
  fifo_serve_unlock hd q =
      if is_excl hd.op
      then fifo_exclusive_unlock q hd
      else if is_shared hd.op
      then fifo_shared_unlock q hd
      else some (served q [])

  abbrev fifo_entry : ℕ → LockState → LockQueueEntry
  fifo_entry requester op = record { op = op; requester = requester; host = localhost }

  unfoldable pub fifo_acquire_local : LockQueue → ℕ → LockState → Served
  fifo_acquire_local q requester op =
      if is_excl op
      then (if is_zero q.shared_counter && is_zero q.exclusive_counter
          then served (enqueue_request (add_exclusive_counter q) op localhost requester)
              (signal (fifo_entry requester op) ∷ [])
          else served (enqueue_request (add_exclusive_counter q) op localhost requester) [])
      else if is_shared op
      then (if is_zero q.exclusive_counter
          then served (enqueue_request (add_shared_counter q) op localhost requester)
              (signal (fifo_entry requester op) ∷ [])
          else served (enqueue_request (add_shared_counter q) op localhost requester) [])
      else served q []

  unfoldable pub fifo_abort_local : LockQueue → ℕ → LockState → Served
  fifo_abort_local q requester op =
      let (q', ret) = erase_lock_request q requester localhost op in
      if ret == 1
      then (if is_excl op
          then served (sub_exclusive_counter q') []
          else if is_shared op
          then served (sub_shared_counter q') []
          else served q' [])
      else served q' []

  -- The head's operator decides, not the caller's.
  unfoldable pub fifo_release_local : LockQueue → ℕ → LockState → Option Served
  unfolding after_exclusive after_shared
  fifo_release_local q requester op = elim (get_head_request q) [
    | none ↦ none
    | some cur_head ↦
        let q' = dequeue_request q in
        if cur_head.requester == requester
        then (if is_excl cur_head.op
            then some (
                after_exclusive (sub_exclusive_counter q')
                  (get_head_request (sub_exclusive_counter q')))
            else if is_shared cur_head.op
            then some
                (after_shared (sub_shared_counter q') (get_head_request (sub_shared_counter q')))
            else some (served q' []))
        else some (fifo_abort_local q requester op)
  ]
