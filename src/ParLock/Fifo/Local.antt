-- ===== src/ParLock/Fifo/Local.antt =====
-- The local calls under ParLock's first-come policy (baseline/ParLock/lib/client.cc) against the
-- server's handlers.
use fisslock_bmv2_java.Base.{
  ℕ, ◌≡◌, ◌==◌, map, some, Option-cases, Bool-cases, inl, inr, arith, refl,
}
use fisslock_bmv2_java.Post.{LockState, free, release, lock_shared, lock_excl}
use fisslock_bmv2_java.Post.Modes.{IsRequest}
use fisslock_bmv2_java.ParLock.Queue.{LockQueueEntry, LockQueue, get_head_request}
use fisslock_bmv2_java.ParLock.Local.{as_packet, by_signal}
use fisslock_bmv2_java.ParLock.Fifo.{
  fifo_serve_lock, fifo_exclusive_lock, fifo_shared_lock, fifo_serve_unlock, fifo_exclusive_unlock,
  fifo_shared_unlock, fifo_exclusive_abort, fifo_shared_abort, fifo_abort_local, fifo_acquire_local,
  fifo_release_local,
}

fifo_acquire_local-fifo_serve_lock :
    (localhost : ℕ) (q : LockQueue) (requester : ℕ) (op : LockState) (lock_id : ℕ)
    → let a = fifo_acquire_local localhost q requester op in
      let o = fifo_serve_lock (as_packet localhost requester op lock_id) q in
      (a.queue ≡ o.queue) × (a.grants ≡ map by_signal o.grants)
unfolding fifo_acquire_local fifo_serve_lock fifo_exclusive_lock fifo_shared_lock
fifo_acquire_local-fifo_serve_lock localhost q requester free lock_id = (refl, refl)
fifo_acquire_local-fifo_serve_lock localhost q requester release lock_id = (refl, refl)
fifo_acquire_local-fifo_serve_lock localhost q requester lock_excl lock_id =
    (ground arith, ground arith)
fifo_acquire_local-fifo_serve_lock localhost q requester lock_shared lock_id =
    (ground arith, ground arith)

fifo_release_local-fifo_serve_unlock :
    (localhost : ℕ) (q : LockQueue) (requester : ℕ) (op : LockState) (lock_id : ℕ)
    → IsRequest op
    → ((h : LockQueueEntry) → get_head_request q ≡ some h → h.requester ≡ requester → h.op ≡ op)
    → fifo_release_local localhost q requester op
      ≡ fifo_serve_unlock localhost (as_packet localhost requester op lock_id) q
unfolding fifo_release_local fifo_serve_unlock fifo_exclusive_unlock fifo_shared_unlock
    fifo_abort_local fifo_exclusive_abort fifo_shared_abort
fifo_release_local-fifo_serve_unlock localhost q requester op lock_id req own =
    elim (Option-cases (get_head_request q)) [
      | inl n ↦ elim req [ inl x ↦ ground (arith, n, x) | inr x ↦ ground (arith, n, x) ]
      | inr (h, e) ↦ elim (Bool-cases (h.requester == requester)) [
        | inl same ↦
            let y = own h e (ground (arith, same)) in
            elim req [
              | inl x ↦ ground (arith, e, same, x, y)
              | inr x ↦ ground (arith, e, same, x, y)
            ]
        | inr other ↦ elim req [
          | inl x ↦ ground (arith, e, other, x)
          | inr x ↦ ground (arith, e, other, x)
        ]
      ]
    ]

-- A local acquire leaves the queue as a packet of this host would, and grants the same request, by a
-- signal. A local release, of a requester whose number stands at the head of the queue only with the
-- operator that it names, is served as the packet of this host would be.
pub fifo_local_calls-serve :
    (localhost : ℕ) (q : LockQueue) (requester : ℕ) (op : LockState) (lock_id : ℕ)
    → IsRequest op
    → ((h : LockQueueEntry) → get_head_request q ≡ some h → h.requester ≡ requester → h.op ≡ op)
    → let a = fifo_acquire_local localhost q requester op in
      let packet = as_packet localhost requester op lock_id in
      let o = fifo_serve_lock packet q in
      (a.queue ≡ o.queue)
      × (a.grants ≡ map by_signal o.grants)
      × (fifo_release_local localhost q requester op ≡ fifo_serve_unlock localhost packet q)
fifo_local_calls-serve localhost q requester op lock_id req own =
    let (queue, grants) = fifo_acquire_local-fifo_serve_lock localhost q requester op lock_id in
    (queue, grants, fifo_release_local-fifo_serve_unlock localhost q requester op lock_id req own)
