-- ===== src/ParLock/System.antt =====
-- A ParLock lock server (baseline/ParLock) with the clients that call it: remote ones by packets,
-- those of its host by the local calls. Who owns the lock is read off the grants.
pub mod Invariant
pub mod Acquires
pub mod Releases
pub mod Reachable
pub mod Safety
use fisslock_bmv2_java.Base.{
  ℕ, ◌≡◌, ◌&&◌, ◌==◌, Bool, List, [], ◌∷◌, ◌++◌, map, Option, none, some, if◌then◌else◌,
}
use fisslock_bmv2_java.Post.{LockState}
use fisslock_bmv2_java.Post.Modes.{IsRequest}
use fisslock_bmv2_java.ParLock.Queue.{
  LockQueueEntry, LockQueue, new_lock_queue, op_code, matches, erase_first,
}
use fisslock_bmv2_java.ParLock.Server.{LockRequest, Grant, signal, reply, Served, entry_of}
use fisslock_bmv2_java.ParLock.Client.{acquire_lock_local, release_lock_local}
use fisslock_bmv2_java.ParLock.Api.{serve_lock, serve_unlock}

-- The request that a grant answers.
abbrev pub granted_entry : Grant → LockQueueEntry
granted_entry (signal e) = e
granted_entry (reply e) = e

-- The owners without the first that made the request `e`; `none` if nobody did.
unfoldable pub remove_owner : LockQueueEntry → List LockQueueEntry → Option (List LockQueueEntry)
remove_owner e [] = none
remove_owner e (o ∷ os) =
    if matches o e.requester e.host e.op
    then some os
    else (elim (remove_owner e os) [ none ↦ none | some rest ↦ some (o ∷ rest) ])

-- The lock's queue and its owners by the grants so far, each with the operator it asked for.
pub record Shared : Type 0 where
  pub queue : LockQueue
  pub owners : List LockQueueEntry

abbrev pub after : List LockQueueEntry → Served → Shared
after os s = record { queue = s.queue; owners = map granted_entry s.grants ++ os }

-- A client releases what it owns, and does not wait for the same lock at that time.
pub record MayRelease (s : Shared) (e : LockQueueEntry) (rest : List LockQueueEntry) : Type 0 where
  pub request : IsRequest e.op
  pub owns : remove_owner e s.owners ≡ some rest
  pub not_waiting :
      erase_first s.queue.request_queue e.requester e.host e.op ≡ (s.queue.request_queue, 0)

module _ (localhost : ℕ) where
  abbrev pub local_request : ℕ → LockState → LockQueueEntry
  local_request requester op = record { op = op; requester = requester; host = localhost }

  pub data Step (s : Shared) : Shared → Type 0 where
    remote_acquire :
        (hd : LockRequest) (o : Served) → serve_lock hd s.queue ≡ some o → Step s (after s.owners o)
    remote_release :
        (hd : LockRequest) (rest : List LockQueueEntry) (o : Served)
        → MayRelease s (entry_of hd) rest
        → serve_unlock localhost hd s.queue ≡ some o
        → Step s (after rest o)
    local_acquire :
        (requester : ℕ) (op : LockState)
        → Step s (after s.owners (acquire_lock_local localhost s.queue requester op))
    local_release :
        (requester : ℕ) (op : LockState) (rest : List LockQueueEntry) (o : Served)
        → MayRelease s (local_request requester op) rest
        → release_lock_local localhost s.queue requester op ≡ some o
        → Step s (after rest o)

  pub data Reach : Shared → Type 0 where
    start : Reach (record { queue = new_lock_queue; owners = [] })
    later : {s t : Shared} → Reach s → Step s t → Reach t
