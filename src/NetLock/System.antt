-- ===== src/NetLock/System.antt =====
-- One lock of a NetLock server in the primary role (baseline/NetLock/lib/lock_server.cc) with its
-- clients: they acquire, release what they own, and give up while they wait. Who owns the lock is
-- read off the grants.
pub mod Erasing
pub mod Invariant
pub mod Acquires
pub mod Moves
pub mod GiveUp
pub mod Safety
use fisslock_bmv2_java.Base.{
  ◌≡◌, ◌≢◌, ◌⊎◌, Bool, List, [], ◌∷◌, ◌++◌, map, filter, Option, none, some, if◌then◌else◌, ℕ,
}
use fisslock_bmv2_java.ParLock.Queue.{QueueState, state_free, state_shared, state_exclusive}
use fisslock_bmv2_java.NetLock.Queue.{
  shared, exclusive, LockQueueNode, is_shared_node, NodeQueue, new_node_queue, matches,
}
use fisslock_bmv2_java.NetLock.Server.{
  ServerPost, Served, process_primary_acquire, process_primary_release,
}

abbrev pub IsMode : ℕ → Type 0
IsMode m = (m ≡ shared) ⊎ (m ≡ exclusive)

-- Whether the message `node` names the entry `n`.
abbrev pub names : LockQueueNode → LockQueueNode → Bool
names node n = matches n node.lock_id node.txn_id node.client_id node.mode

-- The list without the first entry that the message names; `none` if it names none.
unfoldable pub remove_first : LockQueueNode → List LockQueueNode → Option (List LockQueueNode)
remove_first node [] = none
remove_first node (n ∷ ns) =
    if names node n
    then some ns
    else (elim (remove_first node ns) [ none ↦ none | some rest ↦ some (n ∷ rest) ])

-- Who holds the lock, as the queue and its state tell it.
unfoldable pub holders : QueueState → List LockQueueNode → List LockQueueNode
holders state_free ns = []
holders state_shared ns = filter is_shared_node ns
holders state_exclusive [] = []
holders state_exclusive (n ∷ ns) = n ∷ []

pub record Shared : Type 0 where
  pub queue : NodeQueue
  pub owners : List LockQueueNode

abbrev pub after : List LockQueueNode → Served → Shared
after os s = record { queue = s.queue; owners = os ++ map (λ p. p.node) s.posts }

pub data Step (s : Shared) : Shared → Type 0 where
  acquire :
      (node : LockQueueNode)
      → IsMode node.mode
      → Step s (after s.owners (process_primary_acquire s.queue node))
  release :
      (node : LockQueueNode) (rest : List LockQueueNode)
      → remove_first node s.owners ≡ some rest
      → Step s (after rest (process_primary_release s.queue node))
  give_up :
      (node : LockQueueNode)
      → remove_first node s.owners ≡ none
      → remove_first node s.queue.node_queue ≢ none
      → Step s (after s.owners (process_primary_release s.queue node))

pub data Reach : Shared → Type 0 where
  start : Reach (record { queue = new_node_queue; owners = [] })
  later : {s t : Shared} → Reach s → Step s t → Reach t
