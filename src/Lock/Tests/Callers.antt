-- ===== src/Lock/Tests/Callers.antt =====
-- What callers of lib/lock.cc see, at concrete locks.
use fisslock_bmv2_java.Base.{◌≡◌, refl, arith, false, some, none, lookup}
use fisslock_bmv2_java.Post.{post_lock_grant_wo_agent, Packet}
use fisslock_bmv2_java.Lock.State.{InnetLock, flag, lock_out_of_range}
use fisslock_bmv2_java.Lock.Grant.{process_grant_wo_agent}
use fisslock_bmv2_java.Lock.Client.{lock_req_granted}
use fisslock_bmv2_java.Lock.Waiting.{grant_is_told_once}
use fisslock_bmv2_java.Lock.Tests.Data.{near_lock, packet_of}

abbrev grant : Packet
grant = packet_of post_lock_grant_wo_agent 0 8

near : lock_out_of_range near_lock ≡ false
unfolding lock_out_of_range
near = refl

grant_is_told_once_example :
    let g = (process_grant_wo_agent near_lock grant).lock in
    (l' : InnetLock) × (lock_req_granted (flag 8) g ≡ some (l', 1))
    × (lock_req_granted (flag 8) l' ≡ some (l', 0))
    × (lookup 3 l'.task_granted ≡ none)
unfolding lookup
grant_is_told_once_example = grant_is_told_once near_lock grant 3 (λ e. omega (arith, e))
