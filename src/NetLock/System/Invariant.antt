-- ===== src/NetLock/System/Invariant.antt =====
-- What the state of a NetLock queue says of its owners and waiters.
use fisslock_bmv2_java.Base.{◌≡◌, ◌≢◌, List, [], ◌∷◌, All, filter, length, pos}
use fisslock_bmv2_java.ParLock.Queue.{QueueState, state_free, state_shared, state_exclusive}
use fisslock_bmv2_java.NetLock.Queue.{exclusive, LockQueueNode, is_shared_node, NodeQueue}
use fisslock_bmv2_java.NetLock.System.{IsMode, Shared}

abbrev pub AllModes : List LockQueueNode → Type 0
AllModes = All (λ n. IsMode n.mode)

-- Free: nobody owns it and nobody waits. Shared: the owners are the shared entries of the queue, and
-- they are counted. Exclusive: the one owner heads the queue.
abbrev pub Phase : QueueState → NodeQueue → List LockQueueNode → Type 0
Phase state_free q os = (q.node_queue ≡ []) × (os ≡ []) × (q.shared_counter ≡ pos 0)
Phase state_shared q os =
    (os ≢ [])
    × (os ≡ filter is_shared_node q.node_queue)
    × AllModes q.node_queue
    × (q.shared_counter ≡ pos (length os))
Phase state_exclusive q os =
    (h : LockQueueNode) × (rest : List LockQueueNode) × (q.node_queue ≡ h ∷ rest)
    × (os ≡ h ∷ [])
    × (h.mode ≡ exclusive)
    × AllModes rest
    × (q.shared_counter ≡ pos 0)

abbrev pub Inv : Shared → Type 0
Inv s = Phase s.queue.lock_state s.queue s.owners
