-- ===== src/ParLock/Tests.antt =====
-- The theorems about baseline/ParLock at concrete queues.
use fisslock_bmv2_java.Base.{
  ℕ, ◌+◌, ◌≡◌, true, [], ◌∷◌, map, some, inl, inr, refl, arith, filter, lookup, pos,
}
use fisslock_bmv2_java.Post.{lock_shared, lock_excl}
use fisslock_bmv2_java.ParLock.Queue.{
  LockQueueEntry, LockQueue, new_lock_queue, state_free, state_exclusive, get_shared_requests,
  dequeue_shared_requests, erase_first, erase_lock_request, enqueue_request, matches,
}
use fisslock_bmv2_java.ParLock.Server.{Served}
use fisslock_bmv2_java.ParLock.Client.{acquire_lock_local, release_lock_local}
use fisslock_bmv2_java.ParLock.Waits.{coroutine_wait_queue_wait}
use fisslock_bmv2_java.ParLock.Api.{
  Setup, ParHost, serve_lock, serve_unlock, get_lock_server, lock_acquire_async, lock_req_granted,
}
use fisslock_bmv2_java.ParLock.Dequeue.{not_shared, dequeue_shared_requests_lem}
use fisslock_bmv2_java.ParLock.Local.{as_packet, by_signal, local_calls-serve}
use fisslock_bmv2_java.ParLock.Flags.{stale_flag_grants}
use fisslock_bmv2_java.ParLock.System.{
  Shared, remove_owner, MayRelease, local_acquire, local_release, Reach, start, later,
}
use fisslock_bmv2_java.ParLock.System.Safety.{
  exclusive_owner_alone, nobody_waits_for_free, release_is_served,
}

-- Requester 5 of host 1 owns the lock exclusively, requester 8 of host 2 waits for a shared one.
abbrev owner : LockQueueEntry
owner = record { op = lock_excl; requester = 5; host = 1 }

abbrev reader : LockQueueEntry
reader = record { op = lock_shared; requester = 8; host = 2 }

abbrev taken : LockQueue
taken = record {
  request_queue = [];
  shared_counter = pos 0;
  exclusive_counter = pos 0;
  lock_state = state_exclusive;
}

abbrev taken_by_owner : Shared
taken_by_owner = record { queue = taken; owners = owner ∷ [] }

taken-Reach : Reach 1 taken_by_owner
unfolding acquire_lock_local
taken-Reach = later start (local_acquire 5 lock_excl)

owner-MayRelease : MayRelease taken_by_owner owner []
unfolding remove_owner erase_first matches
owner-MayRelease = record { request = inr refl; owns = refl; not_waiting = refl }

abbrev given_back : Shared
given_back = record { queue = new_lock_queue; owners = [] }

given_back-Reach : Reach 1 given_back
unfolding release_lock_local erase_lock_request erase_first remove_owner
given_back-Reach = later taken-Reach (
    local_release 5 lock_excl [] (record { queue = new_lock_queue; grants = [] }) owner-MayRelease
      refl)

exclusive_owner_alone_example : taken_by_owner.owners ≡ owner ∷ []
exclusive_owner_alone_example = exclusive_owner_alone 1 taken-Reach owner [] [] refl refl

nobody_waits_for_free_example :
    (given_back.queue.lock_state ≡ state_free) × (given_back.queue.request_queue ≡ [])
nobody_waits_for_free_example = nobody_waits_for_free 1 given_back-Reach refl

release_is_served_example :
    (o : Served) × (serve_unlock 1
        (record { op = lock_excl; lock_id = 3; machine_id = 1; lh_id = 5 })
        taken
      ≡ some o)
release_is_served_example =
    release_is_served 1 taken-Reach
      (record { op = lock_excl; lock_id = 3; machine_id = 1; lh_id = 5 }) [] owner-MayRelease

-- Two shared requests around an exclusive one.
abbrev mixed : LockQueue
mixed = record {
  request_queue = reader ∷ owner ∷ reader ∷ [];
  shared_counter = pos 0;
  exclusive_counter = pos 0;
  lock_state = state_exclusive;
}

dequeue_shared_requests_lem_example : dequeue_shared_requests mixed ≡ (
  get_shared_requests mixed,
  record mixed { request_queue = filter not_shared (reader ∷ owner ∷ reader ∷ []) },
)
dequeue_shared_requests_lem_example = dequeue_shared_requests_lem mixed

local_calls-serve_example :
    let a = acquire_lock_local 1 mixed 5 lock_excl in
    let packet = as_packet 1 5 lock_excl 3 in
    (o : Served) × (serve_lock packet mixed ≡ some o)
    × (a.queue ≡ o.queue)
    × (a.grants ≡ map by_signal o.grants)
    × (release_lock_local 1 mixed 5 lock_excl ≡ serve_unlock 1 packet mixed)
local_calls-serve_example = local_calls-serve 1 mixed 5 lock_excl 3 (inl refl)

-- Lock 3 of 80 at host 1. Requester 6 had it once, so its flag is set.
abbrev setup : Setup
setup = record { localhost_id = 1; max_lock_num = 80; host_list = λ i. i + 1 }

abbrev busy_host : ParHost
busy_host = record { queues = (3, taken) ∷ []; waits = (3, (6, true) ∷ []) ∷ [] }

flag_set : coroutine_wait_queue_wait busy_host.waits 3 6 ≡ some true
unfolding coroutine_wait_queue_wait lookup
flag_set = refl

three_is_here : get_lock_server setup 3 ≡ some 1
unfolding get_lock_server
three_is_here = refl

three_is_taken : lookup 3 busy_host.queues ≡ some taken
unfolding lookup
three_is_taken = refl

stale_flag_grants_example :
    (h' : ParHost) × (req : ℕ) × (lock_acquire_async setup busy_host 3 6 lock_excl
      ≡ some (h', [], req))
    × (lookup 3 h'.queues ≡ some (enqueue_request taken lock_excl 1 6))
    × (lock_req_granted h' req ≡ some true)
stale_flag_grants_example =
    stale_flag_grants setup busy_host 3 6 lock_excl taken (inr refl) (omega arith) (omega arith)
      three_is_here three_is_taken refl flag_set
