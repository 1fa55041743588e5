-- ===== src/Lock/Packets.antt =====
-- `lock_packet_process` of lib/lock.cc: the cases of a refused free or transfer, and the switch over
-- the type of the packet.
use fisslock_bmv2_java.Base.{
  ℕ, ◌+◌, ◌%◌, ◌^◌, true, false, ◌&&◌, ◌∷◌, ◌++◌, Option, none, some, if◌then◌else◌, take,
}
use fisslock_bmv2_java.Post.{
  make_wqe, PostType, post_lock_acquire, post_lock_grant_with_agent, post_lock_grant_wo_agent,
  post_lock_release, post_lock_transfer, post_lock_free, LockPostHeader, Packet, mode, old_mode,
}
use fisslock_bmv2_java.Lock.State.{InnetLock, lock_no_holders}
use fisslock_bmv2_java.Lock.Outcome.{Outcome, drop_packet, return_packet}
use fisslock_bmv2_java.Lock.Acquire.{process_acquire}
use fisslock_bmv2_java.Lock.Grant.{process_grant_with_agent, process_grant_wo_agent}
use fisslock_bmv2_java.Lock.Release.{process_release}

-- A refused transfer also gives its target and its entries back to the wait queue.
unfoldable pub restore_wqueue : InnetLock → Packet → PostType → InnetLock
restore_wqueue l p post_lock_transfer = record l {
  wqueue = l.wqueue ++ make_wqe (mode p.mode_old_mode) p.task_id p.machine_id ∷ take p.wq_size p.wq;
}
restore_wqueue l p _ = l

-- case POST_LOCK_TRANSFER, case POST_LOCK_FREE: the switch refused what the agent sent.
unfoldable pub process_push_back : InnetLock → Packet → Outcome
unfolding lock_no_holders
process_push_back l p =
    if l.delayed_free && lock_no_holders l
    then return_packet (record l { ncnt = 0; delayed_free = false })
        (record p { hdr = record p.hdr { ncnt = (p.ncnt + l.ncnt) % 2 ^ 8 } })
    else drop_packet
        (restore_wqueue
          (record l {
            mode = old_mode p.mode_old_mode;
            is_agent = true;
            ncnt = (l.ncnt + p.ncnt) % 2 ^ 32;
          })
          p p.type)
        p

-- The preprocessor of `register_packet_preprocessor`: what it makes of the lock header.
abbrev pub Preprocessor : Type 0
Preprocessor = PostType → LockPostHeader → LockPostHeader

abbrev pub preprocess : Option Preprocessor → Packet → Packet
preprocess none p = p
preprocess (some f) p = record p { hdr = f p.type p.hdr }

module _ (localhost : ℕ) where
  -- The `switch` over the packet's type.
  unfoldable pub process_by_type : PostType → InnetLock → Packet → Outcome
  process_by_type post_lock_acquire l p = process_acquire l p
  process_by_type post_lock_grant_with_agent l p = process_grant_with_agent localhost l p
  process_by_type post_lock_grant_wo_agent l p = process_grant_wo_agent l p
  process_by_type post_lock_release l p = process_release localhost l p
  process_by_type post_lock_transfer l p = process_push_back l p
  process_by_type post_lock_free l p = process_push_back l p
  process_by_type _ l p = drop_packet l p

  unfoldable pub lock_packet_process : Option Preprocessor → InnetLock → Packet → Outcome
  unfolding process_by_type
  lock_packet_process packet_preprocess l p =
      let p' = preprocess packet_preprocess p in process_by_type p'.type l p'
