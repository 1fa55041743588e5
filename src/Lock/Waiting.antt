-- ===== src/Lock/Waiting.antt =====
-- How a client learns of its grant (lib/lock.cc): by `lock_req_granted`, and not by `lock_acquire`.
use fisslock_bmv2_java.Base.{
  ℕ, ◌≡◌, ◌≢◌, ◌≤◌, ◌%◌, ◌^◌, inl, inr, [], ◌∷◌, arith, false, true, some, lookup, assign, get_or,
  lookup-assign,
}
use fisslock_bmv2_java.Post.{LockState, Packet, send_post_acquire}
use fisslock_bmv2_java.Post.Modes.{IsRequest}
use fisslock_bmv2_java.Lock.State.{InnetLock, flag, uninitialised, lock_out_of_range}
use fisslock_bmv2_java.Lock.Grant.{process_grant_wo_agent}
use fisslock_bmv2_java.Lock.Client.{
  Conf, lock_acquire_async, lock_acquire, lock_req_granted, lock_wait_local, lock_req_value,
}

-- After a grant packet the waiting task is told once: the next question is answered by no again,
-- and other tasks' flags stay as they are.
pub grant_is_told_once :
    (l : InnetLock) (p : Packet) (t : ℕ)
    → t ≢ p.task_id
    → let granted_lock = (process_grant_wo_agent l p).lock in
      (l' : InnetLock) × (lock_req_granted (flag p.task_id) granted_lock ≡ some (l', 1))
      × (lock_req_granted (flag p.task_id) l' ≡ some (l', 0))
      × (lookup t l'.task_granted ≡ lookup t l.task_granted)
unfolding process_grant_wo_agent lock_req_granted
grant_is_told_once l p t ne =
    let g = (process_grant_wo_agent l p).lock in
    (
      record g { task_granted = assign p.task_id false g.task_granted },
      ground (arith, lookup-assign p.task_id p.task_id true l.task_granted),
      ground (arith, lookup-assign p.task_id p.task_id false g.task_granted),
      ground (
        arith,
        lookup-assign p.task_id t true l.task_granted,
        lookup-assign p.task_id t false g.task_granted,
      ),
    )

-- With local grants off, on a host that is not built for TPCC, a request for a lock of the switch goes
-- out, no flag is prepared, and the caller gets the value of a variable that was never written.
async_uninitialised :
    (c : Conf) (l : InnetLock) (task : ℕ) (op : LockState)
    → c.tpcc_enb_local ≡ false
    → c.enb_local_grants ≡ false
    → lock_out_of_range l ≡ false
    → IsRequest op
    → lock_acquire_async c l task op ≡ record {
      lock = l;
      sent = send_post_acquire c.packet_modify c.localhost_id op l.id c.localhost_id task ∷ [];
      req = uninitialised;
    }
unfolding lock_acquire_async
async_uninitialised c l task op t off near (inl r) = ground arith
async_uninitialised c l task op t off near (inr r) = ground arith

-- `lock_acquire` returns 0 at once for every request that is still to be granted, wherever its flag
-- lies, unless the low 32 bits of that address are below 4; a wait for the flag would fail then.
lock_acquire_does_not_wait :
    (address : ℕ → ℕ) (junk : ℕ) (c : Conf) (l : InnetLock) (task : ℕ) (op : LockState)
    → let a = lock_acquire_async c l task op in
      a.req ≡ flag task
      → get_or false (lookup task a.lock.task_granted) ≡ false
      → 4 ≤ address task % 2 ^ 32
      → (lock_acquire address junk c l task op ≡ (a, 0)) × (lock_wait_local a.lock task ≡ 1)
unfolding lock_acquire lock_wait_local lock_req_value
lock_acquire_does_not_wait address junk c l task op pending unset high =
    (rw (pending, lock_req_value) (ground arith), rw unset)
