-- ===== src/ParLock/System/Invariant.antt =====
-- What the state of a ParLock queue says of its owners and waiters.
use fisslock_bmv2_java.Base.{◌≡◌, ◌≢◌, List, [], ◌∷◌, All, length, pos}
use fisslock_bmv2_java.Post.{lock_shared, lock_excl}
use fisslock_bmv2_java.Post.Modes.{IsRequest}
use fisslock_bmv2_java.ParLock.Queue.{
  LockQueueEntry, LockQueue, QueueState, state_free, state_shared, state_exclusive,
}
use fisslock_bmv2_java.ParLock.System.{Shared}

abbrev pub AllShared : List LockQueueEntry → Type 0
AllShared = All (λ e. e.op ≡ lock_shared)

abbrev pub AllExclusive : List LockQueueEntry → Type 0
AllExclusive = All (λ e. e.op ≡ lock_excl)

abbrev pub AllRequests : List LockQueueEntry → Type 0
AllRequests = All (λ e. IsRequest e.op)

-- Free: nobody owns it and nobody waits. Shared: it is counted, the owners are shared and only
-- exclusive requests wait. Exclusive: there is one owner.
abbrev pub Phase : QueueState → LockQueue → List LockQueueEntry → Type 0
Phase state_free q os = (q.request_queue ≡ []) × (os ≡ []) × (q.shared_counter ≡ pos 0)
Phase state_shared q os =
    (os ≢ []) × AllShared os × AllExclusive q.request_queue × (q.shared_counter ≡ pos (length os))
Phase state_exclusive q os =
    (e : LockQueueEntry) × (os ≡ e ∷ [])
    × (e.op ≡ lock_excl)
    × AllRequests q.request_queue
    × (q.shared_counter ≡ pos 0)

abbrev pub Inv : Shared → Type 0
Inv s = Phase s.queue.lock_state s.queue s.owners
