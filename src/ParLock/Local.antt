-- ===== src/ParLock/Local.antt =====
-- The local calls of baseline/ParLock/lib/client.cc and the handlers of server.cc do the same.
use fisslock_bmv2_java.Base.{ℕ, ◌≡◌, [], map, Option, none, some, arith, inl, inr, refl, ap, ◌⊎◌}
use fisslock_bmv2_java.Post.{LockState, free, release, lock_shared, lock_excl}
use fisslock_bmv2_java.ParLock.Queue.{
  LockQueueEntry, LockQueue, state_free, set_lock_state, sub_shared_counter, erase_lock_request,
  get_head_request,
}
use fisslock_bmv2_java.ParLock.Server.{
  LockRequest, Grant, signal, reply, Served, served, server_handle_exclusive_lock,
  server_handle_shared_lock, server_handle_exclusive_unlock, server_handle_shared_unlock,
  exclusive_unlock, shared_unlock, schedule_exclusive, schedule_shared,
}
use fisslock_bmv2_java.ParLock.Client.{
  acquire_lock_local, release_lock_local, release_exclusive_local, release_shared_local,
  next_after_exclusive, next_after_shared,
}
use fisslock_bmv2_java.ParLock.Api.{serve_lock, serve_unlock}

-- The packet that a remote client would have sent.
abbrev pub as_packet : ℕ → ℕ → LockState → ℕ → LockRequest
as_packet localhost requester op lock_id = record {
  op = op;
  lock_id = lock_id;
  machine_id = localhost;
  lh_id = requester;
}

-- A grant by a reply, made to a local waiter instead.
abbrev pub by_signal : Grant → Grant
by_signal (signal e) = signal e
by_signal (reply e) = signal e

pub acquire_lock_local-serve_lock :
    (localhost : ℕ) (q : LockQueue) (requester : ℕ) (op : LockState) (lock_id : ℕ)
    → let a = acquire_lock_local localhost q requester op in
      (o : Served) × (serve_lock (as_packet localhost requester op lock_id) q ≡ some o)
      × (a.queue ≡ o.queue)
      × (a.grants ≡ map by_signal o.grants)
unfolding acquire_lock_local serve_lock server_handle_exclusive_lock server_handle_shared_lock
acquire_lock_local-serve_lock localhost q requester free lock_id = (served q [], refl, refl, refl)
acquire_lock_local-serve_lock localhost q requester release lock_id =
    (served q [], refl, refl, refl)
acquire_lock_local-serve_lock localhost q requester lock_excl lock_id = (
  server_handle_exclusive_lock q (as_packet localhost requester lock_excl lock_id),
  refl,
  ground arith,
  ground arith,
)
acquire_lock_local-serve_lock localhost q requester lock_shared lock_id = (
  server_handle_shared_lock q (as_packet localhost requester lock_shared lock_id),
  refl,
  ground arith,
  ground arith,
)

schedule_exclusive-next :
    (localhost : ℕ) (q : LockQueue) (h : Option LockQueueEntry)
    → next_after_exclusive localhost q h ≡ schedule_exclusive localhost q h
unfolding next_after_exclusive schedule_exclusive
schedule_exclusive-next localhost q none = refl
schedule_exclusive-next localhost q (some e) = refl

schedule_shared-next :
    (localhost : ℕ) (q : LockQueue) (h : Option LockQueueEntry)
    → next_after_shared localhost q h ≡ schedule_shared localhost q h
unfolding next_after_shared schedule_shared
schedule_shared-next localhost q none = refl
schedule_shared-next localhost q (some e) = refl

exclusive_unlock-local :
    (localhost : ℕ) (q : LockQueue) (ret : ℕ)
    → release_exclusive_local localhost q ret ≡ exclusive_unlock localhost q ret
unfolding release_exclusive_local exclusive_unlock
exclusive_unlock-local localhost q ret =
    let q' = set_lock_state q state_free in
    rw (schedule_exclusive-next localhost q' (get_head_request q')) refl

shared_unlock-local :
    (localhost : ℕ) (q : LockQueue) (ret : ℕ)
    → release_shared_local localhost q ret ≡ shared_unlock localhost q ret
unfolding release_shared_local shared_unlock
shared_unlock-local localhost q ret =
    let q' = set_lock_state (sub_shared_counter q) state_free in
    ground (arith, schedule_shared-next localhost q' (get_head_request q'))

pub release_lock_local-serve_unlock :
    (localhost : ℕ) (q : LockQueue) (requester : ℕ) (op : LockState) (lock_id : ℕ)
    → (op ≡ lock_excl) ⊎ (op ≡ lock_shared)
    → release_lock_local localhost q requester op
      ≡ serve_unlock localhost (as_packet localhost requester op lock_id) q
unfolding release_lock_local serve_unlock server_handle_exclusive_unlock server_handle_shared_unlock
release_lock_local-serve_unlock localhost q requester op lock_id (inl x) =
    let (q', ret) = erase_lock_request q requester localhost lock_excl in
    rw x (ap some (exclusive_unlock-local localhost q' ret))
release_lock_local-serve_unlock localhost q requester op lock_id (inr x) =
    let (q', ret) = erase_lock_request q requester localhost lock_shared in
    rw x (shared_unlock-local localhost q' ret)

-- A local acquire leaves the queue as a packet from this host would, and grants the same request, by a
-- signal where the packet is answered by a reply. A local release of a shared or exclusive lock is
-- served as the packet of this host would be: the same queue, the same grants in the same order, the
-- same abnormal end.
pub local_calls-serve :
    (localhost : ℕ) (q : LockQueue) (requester : ℕ) (op : LockState) (lock_id : ℕ)
    → (op ≡ lock_excl) ⊎ (op ≡ lock_shared)
    → let a = acquire_lock_local localhost q requester op in
      let packet = as_packet localhost requester op lock_id in
      (o : Served) × (serve_lock packet q ≡ some o)
      × (a.queue ≡ o.queue)
      × (a.grants ≡ map by_signal o.grants)
      × (release_lock_local localhost q requester op ≡ serve_unlock localhost packet q)
local_calls-serve localhost q requester op lock_id request =
    let (o, e, queue, grants) = acquire_lock_local-serve_lock localhost q requester op lock_id in
    (o, e, queue, grants, release_lock_local-serve_unlock localhost q requester op lock_id request)
