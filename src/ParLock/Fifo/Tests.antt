-- ===== src/ParLock/Fifo/Tests.antt =====
-- The theorems about ParLock's first-come policy at concrete queues.
use fisslock_bmv2_java.Base.{◌≡◌, [], ◌∷◌, map, some, inl, refl, arith, pos}
use fisslock_bmv2_java.Post.{lock_shared, lock_excl}
use fisslock_bmv2_java.ParLock.Queue.{
  LockQueueEntry, LockQueue, state_free, enqueue_request, get_head_request,
}
use fisslock_bmv2_java.ParLock.Server.{Served}
use fisslock_bmv2_java.ParLock.Local.{as_packet, by_signal}
use fisslock_bmv2_java.ParLock.System.{Shared}
use fisslock_bmv2_java.ParLock.Fifo.{
  fifo_serve_lock, fifo_exclusive_lock, fifo_shared_lock, fifo_serve_unlock, fifo_acquire_local,
  fifo_release_local,
}
use fisslock_bmv2_java.ParLock.Fifo.Front.{front, count_shared, count_exclusive}
use fisslock_bmv2_java.ParLock.Fifo.Order.{
  FifoReach, fifo_start, fifo_later, fifo_acquire, owners_come_first, fifo_exclusive_alone,
}
use fisslock_bmv2_java.ParLock.Fifo.Aborts.{release_of, abort_strands_reader}
use fisslock_bmv2_java.ParLock.Fifo.Local.{fifo_local_calls-serve}

abbrev writer : LockQueueEntry
writer = record { op = lock_excl; requester = 5; host = 1 }

abbrev reader : LockQueueEntry
reader = record { op = lock_shared; requester = 8; host = 2 }

abbrev late_reader : LockQueueEntry
late_reader = record { op = lock_shared; requester = 9; host = 2 }

-- The writer owns the lock, and a reader has come behind it.
abbrev two_came : Shared
two_came = record {
  queue = record {
    request_queue = writer ∷ reader ∷ [];
    shared_counter = pos 1;
    exclusive_counter = pos 1;
    lock_state = state_free;
  };
  owners = writer ∷ [];
}

two_came-FifoReach : FifoReach 1 two_came
unfolding fifo_serve_lock fifo_exclusive_lock fifo_shared_lock enqueue_request
two_came-FifoReach =
    fifo_later (fifo_later fifo_start (fifo_acquire (release_of writer)))
      (fifo_acquire (release_of reader))

owners_come_first_example :
    (writer ∷ [] ≡ front (writer ∷ reader ∷ []))
    × (pos 1 ≡ pos (count_shared (writer ∷ reader ∷ [])))
    × (pos 1 ≡ pos (count_exclusive (writer ∷ reader ∷ [])))
owners_come_first_example = owners_come_first 1 two_came-FifoReach

fifo_exclusive_alone_example : two_came.owners ≡ writer ∷ []
fifo_exclusive_alone_example = fifo_exclusive_alone 1 two_came-FifoReach writer [] [] refl refl

abbrev writer_between : LockQueue
writer_between = record {
  request_queue = reader ∷ writer ∷ late_reader ∷ [];
  shared_counter = pos 2;
  exclusive_counter = pos 1;
  lock_state = state_free;
}

abort_strands_reader_example :
    (aborted : Served) × (left : Served) × (fifo_serve_unlock 1 (release_of writer) writer_between
      ≡ some aborted)
    × (aborted.grants ≡ [])
    × (aborted.queue.request_queue ≡ reader ∷ late_reader ∷ [])
    × (fifo_serve_unlock 1 (release_of reader) aborted.queue ≡ some left)
    × (left.grants ≡ [])
    × (left.queue.request_queue ≡ late_reader ∷ [])
abort_strands_reader_example =
    abort_strands_reader 1 writer_between reader writer late_reader refl refl refl
      (λ e. omega (arith, e)) refl

head_is_reader :
    (h : LockQueueEntry)
    → get_head_request writer_between ≡ some h
    → h.requester ≡ 8
    → h.op ≡ lock_shared
unfolding get_head_request
head_is_reader h e n = cc

fifo_local_calls-serve_example :
    let a = fifo_acquire_local 2 writer_between 8 lock_shared in
    let packet = as_packet 2 8 lock_shared 3 in
    let o = fifo_serve_lock packet writer_between in
    (a.queue ≡ o.queue)
    × (a.grants ≡ map by_signal o.grants)
    × (fifo_release_local 2 writer_between 8 lock_shared
        ≡ fifo_serve_unlock 2 packet writer_between)
fifo_local_calls-serve_example =
    fifo_local_calls-serve 2 writer_between 8 lock_shared 3 (inl refl) head_is_reader
