-- ===== src/Lock/Client.antt =====
-- The calls of an application on a lock, in lib/lock.cc: acquire, wait and release. The compile-time
-- switches FISSLOCK_BMV2 and TPCC_ENB_LOCAL are fields of the configuration, and
-- FISSLOCK_FAILURE_RECOVERY is off, as utils/conf.h leaves it.
use fisslock_bmv2_java.Base.{
  ℕ, ◌-◌, ◌%◌, ◌^◌, Bool, false, ◌&&◌, ◌||◌, not, List, [], ◌∷◌, Option, none, some, if◌then◌else◌,
  ◌==◌, ltb, leb, lookup, assign, get_or,
}
use fisslock_bmv2_java.Post.{
  LockState, is_shared, is_excl, Sent, Modifier, send_post_acquire, send_post_acquire_lm,
}
use fisslock_bmv2_java.Lock.State.{
  InnetLock, LockReq, granted_at_once, flag, invalid_op, uninitialised, lock_holder, lock_to_lm,
  lock_out_of_range, lock_has_holder, lock_no_holders, lock_prepare_wait, handle_granted_acquire,
  handle_suspend_acquire,
}
use fisslock_bmv2_java.Lock.Lm.{handle_acquire_lm}

pub record Conf : Type 0 where
  pub localhost_id : ℕ
  pub bmv2 : Bool  -- FISSLOCK_BMV2
  pub tpcc_enb_local : Bool  -- TPCC_ENB_LOCAL
  pub enb_local_grants : Bool
  pub packet_modify : Option Modifier

abbrev pub tpcc_warehouse_lock_num : ℕ
tpcc_warehouse_lock_num = 121

-- The test of the TPCC branch: neither a customer nor an item lock.
unfoldable pub is_tpcc_local : InnetLock → Bool
is_tpcc_local l = not ((leb 11 lid && ltb lid 41) || (leb 111 lid && ltb lid 121))
  where
    lid : ℕ
    lid = l.id % tpcc_warehouse_lock_num

pub record Acquired : Type 0 where
  pub lock : InnetLock
  pub sent : List Sent
  pub req : LockReq

-- `req = lock_prepare_wait(lock, task)`, what goes out, and the return.
unfoldable pub wait_for : InnetLock → ℕ → List Sent → Acquired
unfolding lock_prepare_wait
wait_for l task out =
    let (l', r) = lock_prepare_wait l task in record { lock = l'; sent = out; req = r }

unfoldable pub acquire_as_lm : Conf → InnetLock → ℕ → LockState → Acquired
unfolding wait_for
acquire_as_lm c l task op =
    let (l', grant) = handle_acquire_lm l c.localhost_id task op in
    if grant then record { lock = l'; sent = []; req = granted_at_once } else wait_for l' task []

-- The branch for the agent's host.
unfoldable pub acquire_as_agent : Conf → InnetLock → ℕ → LockState → Acquired
unfolding wait_for handle_granted_acquire handle_suspend_acquire
acquire_as_agent c l task op =
    if is_shared l.mode && is_shared op
    then record {
      lock = handle_granted_acquire l c.localhost_id task;
      sent = [];
      req = granted_at_once;
    }
    else wait_for (handle_suspend_acquire l c.localhost_id task op) task []

-- The FISSLOCK_BMV2 test: another exclusive holder of this host's view is there.
unfoldable pub is_held_here : Conf → InnetLock → ℕ → LockState → Bool
unfolding lock_no_holders lock_has_holder
is_held_here c l task op =
    c.bmv2
    && is_excl op
    && is_excl l.mode
    && not (lock_no_holders l)
    && not (lock_has_holder l (lock_holder c.localhost_id task))

unfoldable pub acquire_in_switch : Conf → InnetLock → ℕ → LockState → Acquired
unfolding wait_for is_held_here acquire_as_agent handle_suspend_acquire
acquire_in_switch c l task op =
    if c.enb_local_grants
    then (if is_held_here c l task op
        then wait_for (handle_suspend_acquire l c.localhost_id task op) task []
        else if l.is_agent
        then acquire_as_agent c l task op
        else wait_for l task request)
    else record { lock = l; sent = request; req = uninitialised }
  where
    request : List Sent
    request = send_post_acquire c.packet_modify c.localhost_id op l.id c.localhost_id task ∷ []

unfoldable pub acquire_checked : Conf → InnetLock → ℕ → LockState → Acquired
unfolding wait_for acquire_as_lm acquire_in_switch
acquire_checked c l task op =
    if c.tpcc_enb_local && is_tpcc_local l
    then acquire_as_lm c l task op
    else if lock_out_of_range l
    then (if lock_to_lm l == c.localhost_id
        then acquire_as_lm c l task op
        else wait_for l task
            (send_post_acquire_lm c.packet_modify c.localhost_id op l.id (lock_to_lm l) task ∷ []))
    else acquire_in_switch c l task op

unfoldable pub lock_acquire_async : Conf → InnetLock → ℕ → LockState → Acquired
unfolding acquire_checked
lock_acquire_async c l task op =
    if is_excl op || is_shared op
    then acquire_checked c l task op
    else record { lock = l; sent = []; req = invalid_op }

-- Busy waiting reads the flag once: 0 if it is set.
unfoldable pub lock_wait_local : InnetLock → ℕ → ℕ
lock_wait_local l task = if get_or false (lookup task l.task_granted) then 0 else 1

-- `none` is a read through something that is no address of a flag.
unfoldable pub lock_req_granted : LockReq → InnetLock → Option (InnetLock × ℕ)
lock_req_granted granted_at_once l = some (l, 1)
lock_req_granted (flag tid) l =
    if get_or false (lookup tid l.task_granted)
    then some (record l { task_granted = assign tid false l.task_granted }, 1)
    else some (l, 0)
lock_req_granted invalid_op l = none
lock_req_granted uninitialised l = none

-- The 64-bit number that stands for a request, by the addresses of the flags and the content of the
-- uninitialised variable. `-ERR_INVALID_OP` is -3.
unfoldable pub lock_req_value : (ℕ → ℕ) → ℕ → LockReq → ℕ
lock_req_value address junk granted_at_once = 0
lock_req_value address junk (flag tid) = address tid
lock_req_value address junk invalid_op = 2 ^ 64 - 3
lock_req_value address junk uninitialised = junk

-- `switch (ret)` of `lock_acquire`, where `int ret` keeps the low 32 bits.
unfoldable pub acquire_result : InnetLock → ℕ → ℕ → ℕ
unfolding lock_wait_local
acquire_result l task value =
    if ret == 0
    then 0
    else if (ret == 1) || (ret == 2)
    then lock_wait_local l task
    else if ret == 3
    then 1
    else 0
  where
    ret : ℕ
    ret = value % 2 ^ 32

unfoldable pub lock_acquire : (ℕ → ℕ) → ℕ → Conf → InnetLock → ℕ → LockState → Acquired × ℕ
unfolding lock_req_value acquire_result
lock_acquire address junk c l task op =
    let a = lock_acquire_async c l task op in
    (a, acquire_result a.lock task (lock_req_value address junk a.req))
