-- ===== src/NetLock/Stray.antt =====
-- Releases that name no entry of the queue (baseline/NetLock/lib/lock_server.cc): what
-- `erase_lock_request` returns then is what it returns for the head.
use fisslock_bmv2_java.Base.{◌≡◌, ◌==◌, true, false, List, [], ◌∷◌, none, arith, refl}
use fisslock_bmv2_java.ParLock.Queue.{state_exclusive, is_state_exclusive}
use fisslock_bmv2_java.NetLock.Queue.{
  shared, exclusive, grant_lock_from_server, LockQueueNode, NodeQueue, get_head_request,
}
use fisslock_bmv2_java.NetLock.Server.{
  grant_head, schedule_exclusive, release_exclusive, process_primary_release,
}
use fisslock_bmv2_java.NetLock.System.{remove_first}
use fisslock_bmv2_java.NetLock.System.Erasing
use fisslock_bmv2_java.NetLock.System.Moves.{release_from}

-- While the head of the queue holds the lock exclusively, an exclusive release that names no entry,
-- such as a second release of the same transaction, is taken for the holder's: the holder, which
-- stays in the queue, is granted the lock again, and with the payload of the stray message.
pub stray_release_grants_again :
    (q : NodeQueue) (node holder : LockQueueNode) (rest : List LockQueueNode)
    → q.lock_state ≡ state_exclusive
    → q.node_queue ≡ holder ∷ rest
    → holder.mode ≡ exclusive
    → node.mode ≡ exclusive
    → remove_first node q.node_queue ≡ none
    → let o = process_primary_release q node in
      (o.posts
        ≡ record {
          node = record holder { payload = node.payload };
          action_type = grant_lock_from_server;
          transferred = 1;
          ncnt = q.seqnum;
        }
          ∷ [])
      × (o.queue.node_queue ≡ record holder { payload = node.payload } ∷ rest)
      × (o.queue.lock_state ≡ state_exclusive)
unfolding release_exclusive schedule_exclusive grant_head get_head_request
stray_release_grants_again q node holder rest f heads x y unnamed =
    let moved =
      release_from q node q.node_queue 0 (Erasing.erase_none node 0 q.node_queue unnamed) in
    let t : (node.mode == shared) ≡ false = ground arith in
    let u : (node.mode == exclusive) ≡ true = ground arith in
    let v : (holder.mode == exclusive) ≡ true = ground arith in
    let s : is_state_exclusive q.lock_state ≡ true = rw f refl in
    rw (moved, t, u, s, heads, v) (refl, refl, refl)
