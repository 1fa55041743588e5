-- ===== src/ParLock/Fifo/Aborts.antt =====
-- An abort under ParLock's first-come policy (baseline/ParLock/lib/server.cc).
use fisslock_bmv2_java.Base.{ℕ, ◌≡◌, ◌≢◌, ◌==◌, [], ◌∷◌, some, arith, refl, true, false}
use fisslock_bmv2_java.Post.{lock_shared, lock_excl}
use fisslock_bmv2_java.ParLock.Queue.{
  LockQueueEntry, LockQueue, matches, erase_first, erase_lock_request, get_head_request,
  dequeue_request, sub_exclusive_counter, sub_shared_counter,
}
use fisslock_bmv2_java.ParLock.Server.{LockRequest, Served, served}
use fisslock_bmv2_java.ParLock.Fifo.{
  fifo_serve_unlock, fifo_exclusive_unlock, fifo_exclusive_abort, fifo_shared_unlock, after_shared,
}

-- The release packet of the client that made a request.
abbrev pub release_of : LockQueueEntry → LockRequest
release_of e = record { op = e.op; lock_id = 0; machine_id = e.host; lh_id = e.requester }

erase_second :
    (first writer second : LockQueueEntry)
    → first.op ≡ lock_shared
    → writer.op ≡ lock_excl
    → erase_first (first ∷ writer ∷ second ∷ []) writer.requester writer.host writer.op
      ≡ (first ∷ second ∷ [], 1)
unfolding erase_first matches
erase_second first writer second a b = ground (arith, a, b)

-- A reader holds the lock, a writer waits, and another reader waits behind it. The writer aborts: the
-- second reader, now next to the first, gets no grant, not then and not when the first one leaves,
-- after which it is alone in the queue.
pub abort_strands_reader :
    (localhost : ℕ) (q : LockQueue) (first writer second : LockQueueEntry)
    → first.op ≡ lock_shared
    → writer.op ≡ lock_excl
    → second.op ≡ lock_shared
    → first.requester ≢ writer.requester
    → q.request_queue ≡ first ∷ writer ∷ second ∷ []
    → (aborted : Served) × (left : Served) × (fifo_serve_unlock localhost (release_of writer) q
        ≡ some aborted)
      × (aborted.grants ≡ [])
      × (aborted.queue.request_queue ≡ first ∷ second ∷ [])
      × (fifo_serve_unlock localhost (release_of first) aborted.queue ≡ some left)
      × (left.grants ≡ [])
      × (left.queue.request_queue ≡ second ∷ [])
unfolding fifo_serve_unlock fifo_exclusive_unlock fifo_exclusive_abort fifo_shared_unlock
    after_shared erase_lock_request get_head_request dequeue_request
abort_strands_reader localhost q first writer second a b c ne e =
    let erased : erase_first q.request_queue writer.requester writer.host writer.op
        ≡ (first ∷ second ∷ [], 1) =
      rw e (erase_second first writer second a b) in
    let other : (first.requester == writer.requester) ≡ false = ground (arith, ne) in
    let same : (first.requester == first.requester) ≡ true = ground arith in
    let q1 = sub_exclusive_counter (record q { request_queue = first ∷ second ∷ [] }) in
    let q2 = sub_shared_counter (record q1 { request_queue = second ∷ [] }) in
    let head : get_head_request q ≡ some first = rw e refl in
    (
      served q1 [],
      served q2 [],
      ground (arith, b, head, other, erased),
      refl,
      refl,
      ground (arith, a, c, same),
      refl,
      refl,
    )
