-- ===== src/Lock/Tests/Managing.antt =====
-- The lock manager of lib/lock.cc at a concrete lock.
use fisslock_bmv2_java.Base.{
  ℕ, ◌≡◌, [], ◌∷◌, refl, arith, inr, contains, insert, erase, true, false,
}
use fisslock_bmv2_java.Post.{LockState, free, lock_excl, post_lock_release, Packet}
use fisslock_bmv2_java.Lock.State.{InnetLock, new_lock, lock_holder, lock_out_of_range, lock_to_lm}
use fisslock_bmv2_java.Lock.Lm.{handle_acquire_lm, handle_release_lm}
use fisslock_bmv2_java.Lock.Digest.{insert_all}
use fisslock_bmv2_java.Lock.Outcome.{goes_on}
use fisslock_bmv2_java.Lock.Release.{process_release, release_out_of_range, grant_head}
use fisslock_bmv2_java.Lock.Client.{lock_acquire_async, acquire_as_lm}
use fisslock_bmv2_java.Lock.Unlock.{lock_release, release_beyond_switch, release_as_lm}
use fisslock_bmv2_java.Lock.Manager.{
  Managed, IsIdle, local_acquire, local_release, IsManagerOf, Reach, start, later, granted_by_call,
  grantees, granted_by_packet, update,
}
use fisslock_bmv2_java.Lock.Manager.Steps.{IsPlain}
use fisslock_bmv2_java.Lock.Manager.Safety.{mutual_exclusion, no_lost_grant}
use fisslock_bmv2_java.Lock.Tests.Data.{host_one, far_lock, packet_of}

host_one-IsPlain : IsPlain host_one
host_one-IsPlain = record { no_tpcc = refl; no_modifier = refl; no_bmv2 = refl }

far_lock-IsManagerOf : IsManagerOf host_one far_lock
unfolding new_lock lock_out_of_range lock_to_lm
far_lock-IsManagerOf = record { beyond = refl; mine = refl; untouched = refl }

abbrev no_wish : ℕ → LockState
no_wish a = free

abbrev at_start : Managed
at_start = record { lock = far_lock; owners = []; wanted = no_wish }

at_start-IsIdle : IsIdle at_start (lock_holder 1 5)
unfolding contains
at_start-IsIdle = record { no_owner = refl; no_waiter = tt }

-- Task 5 of host 1 has got the lock exclusively.
abbrev taken : Managed
taken = record {
  lock = (lock_acquire_async host_one far_lock 5 lock_excl).lock;
  owners =
      insert_all
        (granted_by_call (lock_holder 1 5) (lock_acquire_async host_one far_lock 5 lock_excl).req)
        [];
  wanted = update no_wish (lock_holder 1 5) lock_excl;
}

taken-Reach : Reach host_one far_lock taken
taken-Reach = later (start no_wish) (
    local_acquire 5 lock_excl (record { host_fits = omega arith; task_fits = omega arith })
      (inr refl) at_start-IsIdle)

-- It has given it back.
abbrev freed : Managed
freed = record {
  lock = (lock_release host_one taken.lock 5).lock;
  owners =
      insert_all (grantees (lock_release host_one taken.lock 5).sent)
        (erase (lock_holder 1 5) taken.owners);
  wanted = taken.wanted;
}

taken-owner : contains (lock_holder 1 5) taken.owners ≡ true
unfolding lock_acquire_async acquire_as_lm lock_out_of_range lock_to_lm handle_acquire_lm
    granted_by_call insert_all insert contains lock_holder
taken-owner = refl

freed-Reach : Reach host_one far_lock freed
freed-Reach = later taken-Reach (local_release 5 taken-owner)

freed-owners : freed.owners ≡ []
unfolding lock_release release_beyond_switch release_as_lm lock_acquire_async acquire_as_lm
    lock_out_of_range lock_to_lm handle_acquire_lm handle_release_lm granted_by_call grantees
    insert_all insert erase contains lock_holder
freed-owners = refl

freed-fits : freed.lock.overrun ≡ false
unfolding lock_release release_beyond_switch release_as_lm lock_acquire_async acquire_as_lm
    lock_out_of_range lock_to_lm handle_acquire_lm handle_release_lm insert erase lock_holder
    contains
freed-fits = refl

mutual_exclusion_example : taken.owners ≡ lock_holder 1 5 ∷ []
unfolding lock_acquire_async acquire_as_lm lock_out_of_range lock_to_lm handle_acquire_lm
    granted_by_call insert_all insert contains lock_holder
mutual_exclusion_example =
    mutual_exclusion host_one host_one-IsPlain far_lock far_lock-IsManagerOf taken-Reach refl
      (lock_holder 1 5) refl refl

no_lost_grant_example :
    (freed.lock.mode ≡ free) × (freed.lock.wqueue ≡ []) × (freed.lock.holders ≡ [])
no_lost_grant_example =
    no_lost_grant host_one host_one-IsPlain far_lock far_lock-IsManagerOf freed-Reach freed-fits
      freed-owners

-- Task 8 of host 2 owns the lock exclusively, and its tasks 9 and 10 wait for it.
abbrev crowded : InnetLock
crowded = record far_lock {
  mode = lock_excl;
  holders = lock_holder 2 8 ∷ [];
  wqueue =
      record { op = lock_excl; task = 9; host = 2 }
      ∷ record { op = lock_excl; task = 10; host = 2 }
      ∷ [];
}

abbrev release_by : ℕ → Packet
release_by task = packet_of post_lock_release 0 task

-- Outside the discipline: when task 8 releases, task 9 is granted; when task 10 then gives up its
-- wait, by a release, task 10 is granted too, beside task 9.
two_exclusive_grants :
    let o = process_release 1 crowded (release_by 8) in
    (granted_by_packet false o ≡ lock_holder 2 9 ∷ [])
    × (granted_by_packet false (process_release 1 o.lock (release_by 10)) ≡ lock_holder 2 10 ∷ [])
unfolding process_release release_out_of_range grant_head handle_release_lm lock_out_of_range
    granted_by_packet grantees goes_on erase lock_holder
two_exclusive_grants = (refl, refl)
