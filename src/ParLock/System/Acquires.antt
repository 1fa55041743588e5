-- ===== src/ParLock/System/Acquires.antt =====
-- Each acquire keeps a ParLock queue's invariant (baseline/ParLock).
use fisslock_bmv2_java.Base.{◌≡◌, List, [], ◌∷◌, inl, inr, refl, All-append}
use fisslock_bmv2_java.Post.{lock_shared, lock_excl}
use fisslock_bmv2_java.ParLock.Queue.{
  LockQueueEntry, LockQueue, QueueState, state_free, state_shared, state_exclusive, enqueue_request,
}
use fisslock_bmv2_java.ParLock.Server.{
  LockRequest, entry_of, server_handle_exclusive_lock, server_handle_shared_lock,
}
use fisslock_bmv2_java.ParLock.System.{after}
use fisslock_bmv2_java.ParLock.System.Invariant.{Phase, Inv}

pub exclusive_lock-Inv :
    (s : QueueState) (q : LockQueue) (os : List LockQueueEntry) (hd : LockRequest)
    → q.lock_state ≡ s
    → hd.op ≡ lock_excl
    → Phase s q os
    → Inv (after os (server_handle_exclusive_lock q hd))
unfolding server_handle_exclusive_lock enqueue_request
exclusive_lock-Inv state_free q os hd e x (no_queue, no_owner, count) =
    rw e (entry_of hd, rw no_owner refl, x, rw no_queue tt, count)
exclusive_lock-Inv state_shared q os hd e x (some_owner, sh, ex, count) =
    rw e (some_owner, sh, All-append _ q.request_queue (_ ∷ []) ex (x, tt), count)
exclusive_lock-Inv state_exclusive q os hd e x (o, one, oex, rs, count) =
    rw e (o, one, oex, All-append _ q.request_queue (_ ∷ []) rs (inr x, tt), count)

pub shared_lock-Inv :
    (s : QueueState) (q : LockQueue) (os : List LockQueueEntry) (hd : LockRequest)
    → q.lock_state ≡ s
    → hd.op ≡ lock_shared
    → Phase s q os
    → Inv (after os (server_handle_shared_lock q hd))
unfolding server_handle_shared_lock enqueue_request
shared_lock-Inv state_free q os hd e x (no_queue, no_owner, count) =
    rw e (λ n. cc, (x, rw no_owner tt), rw no_queue tt, rw (count, no_owner) refl)
shared_lock-Inv state_shared q os hd e x (some_owner, sh, ex, count) =
    rw e (λ n. cc, (x, sh), ex, rw count refl)
shared_lock-Inv state_exclusive q os hd e x (o, one, oex, rs, count) =
    rw e (o, one, oex, All-append _ q.request_queue (_ ∷ []) rs (inl x, tt), count)
