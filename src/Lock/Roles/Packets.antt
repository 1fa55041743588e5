-- ===== src/Lock/Roles/Packets.antt =====
-- Every lock packet keeps a lock well formed.
use fisslock_bmv2_java.Base.{
  ℕ, ◌≡◌, ◌+◌, ◌%◌, ◌^◌, arith, refl, All-append, All-take, false, true, Option, none, some,
}
use fisslock_bmv2_java.Post.{
  PostType, Packet, old_mode, post_lock_acquire, post_lock_grant_with_agent,
  post_lock_grant_wo_agent, post_lock_release, post_lock_transfer, post_lock_free, make_wqe,
}
use fisslock_bmv2_java.Post.Modes.{mode-IsRequest, old_mode-IsRequest}
use fisslock_bmv2_java.Lock.State.{InnetLock, lock_out_of_range}
use fisslock_bmv2_java.Lock.Grant.{process_grant_wo_agent}
use fisslock_bmv2_java.Lock.Release.{process_release}
use fisslock_bmv2_java.Lock.Packets.{
  process_push_back, restore_wqueue, process_by_type, lock_packet_process, Preprocessor, preprocess,
}
use fisslock_bmv2_java.Lock.Roles.{Role, AllRequests, IsWellFormed}
use fisslock_bmv2_java.Lock.Roles.Acquire.{process_acquire-IsWellFormed}
use fisslock_bmv2_java.Lock.Roles.Grant.{process_grant_with_agent-IsWellFormed}
use fisslock_bmv2_java.Lock.Roles.Release.{release_in_range-IsWellFormed}

restore_wqueue-requests :
    (l : InnetLock) (p : Packet)
    → AllRequests p.wq
    → AllRequests l.wqueue
    → (t : PostType) → AllRequests (restore_wqueue l p t).wqueue
unfolding restore_wqueue make_wqe
restore_wqueue-requests l p h q post_lock_transfer =
    All-append _ l.wqueue _ q (mode-IsRequest p.mode_old_mode, All-take _ p.wq_size p.wq h)
restore_wqueue-requests l p h q _ = q

restore_wqueue-Role :
    (l : InnetLock) (p : Packet)
    → Role l.is_agent l.mode
    → (t : PostType) → Role (restore_wqueue l p t).is_agent (restore_wqueue l p t).mode
unfolding restore_wqueue
restore_wqueue-Role l p r post_lock_transfer = r
restore_wqueue-Role l p r _ = r

process_push_back-IsWellFormed :
    (l : InnetLock) (p : Packet)
    → AllRequests p.wq
    → IsWellFormed l
    → IsWellFormed (process_push_back l p).lock
unfolding process_push_back
process_push_back-IsWellFormed l p h v = ground (
  arith,
  old_mode-IsRequest p.mode_old_mode,
  restore_wqueue-requests
      (record l {
        mode = old_mode p.mode_old_mode;
        is_agent = true;
        ncnt = (l.ncnt + p.ncnt) % 2 ^ 32;
      })
      p h v.requests p.type,
  restore_wqueue-Role
      (record l {
        mode = old_mode p.mode_old_mode;
        is_agent = true;
        ncnt = (l.ncnt + p.ncnt) % 2 ^ 32;
      })
      p (old_mode-IsRequest p.mode_old_mode) p.type,
)

process_by_type-IsWellFormed :
    (host : ℕ) (t : PostType) (l : InnetLock) (p : Packet)
    → lock_out_of_range l ≡ false
    → AllRequests p.wq
    → IsWellFormed l
    → IsWellFormed (process_by_type host t l p).lock
unfolding process_by_type process_release process_grant_wo_agent
process_by_type-IsWellFormed host post_lock_acquire l p near h v =
    process_acquire-IsWellFormed l p near v
process_by_type-IsWellFormed host post_lock_grant_with_agent l p near h v =
    process_grant_with_agent-IsWellFormed host l p h v
process_by_type-IsWellFormed host post_lock_grant_wo_agent l p near h v = record {
  role = v.role;
  requests = v.requests;
}
process_by_type-IsWellFormed host post_lock_release l p near h v =
    rw near (release_in_range-IsWellFormed host l p v)
process_by_type-IsWellFormed host post_lock_transfer l p near h v =
    process_push_back-IsWellFormed l p h v
process_by_type-IsWellFormed host post_lock_free l p near h v =
    process_push_back-IsWellFormed l p h v
process_by_type-IsWellFormed host _ l p near h v = v

preprocess-wq : (f : Option Preprocessor) (p : Packet) → (preprocess f p).wq ≡ p.wq
preprocess-wq none p = refl
preprocess-wq (some f) p = refl

-- Whatever packet comes for a lock of the switch, its entries being acquires, and whatever the
-- application makes of its header, the lock stays well formed: an agent holds it in a shared or
-- exclusive mode, any other host sees it free, and only acquires wait.
pub lock_packet_process-IsWellFormed :
    (host : ℕ) (f : Option Preprocessor) (l : InnetLock) (p : Packet)
    → lock_out_of_range l ≡ false
    → AllRequests p.wq
    → IsWellFormed l
    → IsWellFormed (lock_packet_process host f l p).lock
unfolding lock_packet_process
lock_packet_process-IsWellFormed host f l p near h v =
    process_by_type-IsWellFormed host (preprocess f p).type l (preprocess f p) near
      (rw (preprocess-wq f p) h) v
