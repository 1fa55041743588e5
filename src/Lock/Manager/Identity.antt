-- ===== src/Lock/Manager/Identity.antt =====
-- No step changes the lock's number, so its manager stays its manager.
use fisslock_bmv2_java.Base.{
  ℕ, ◌≡◌, ◌∙◌, List, [], ◌∷◌, arith, refl, true, false, Bool, if◌then◌else◌, Bool-cases, inl, inr,
  erase,
}
use fisslock_bmv2_java.Post.{LockState, Packet, Sent, Wqe, mode, is_shared}
use fisslock_bmv2_java.Lock.State.{InnetLock, lock_holder, lock_out_of_range}
use fisslock_bmv2_java.Lock.Lm.{schedule_lm, handle_acquire_lm, handle_release_lm}
use fisslock_bmv2_java.Lock.Digest.{lock_digest_wq-marked}
use fisslock_bmv2_java.Lock.Acquire.{process_acquire, acquire_out_of_range}
use fisslock_bmv2_java.Lock.Release.{process_release, release_out_of_range, grant_head}
use fisslock_bmv2_java.Lock.Client.{Conf, acquire_as_lm}
use fisslock_bmv2_java.Lock.Unlock.{release_as_lm, grant_head_lm}

schedule_lm-id : (l : InnetLock) (ws : List Wqe) → (schedule_lm l ws).0.id ≡ l.id
unfolding schedule_lm
schedule_lm-id l [] = refl
schedule_lm-id l (w ∷ ws) = elim (Bool-cases (is_shared w.op)) [
  | inl e ↦ rw (e, lock_digest_wq-marked)
  | inr e ↦ rw e
]

handle_release_lm-id : (l : InnetLock) (hid tid : ℕ) → (handle_release_lm l hid tid).0.id ≡ l.id
unfolding handle_release_lm
handle_release_lm-id l hid tid =
    ground (
      arith,
      schedule_lm-id (record l { holders = erase (lock_holder hid tid) l.holders }) l.wqueue,
    )

handle_acquire_lm-id :
    (l : InnetLock) (hid tid : ℕ) (op : LockState) → (handle_acquire_lm l hid tid op).0.id ≡ l.id
unfolding handle_acquire_lm
handle_acquire_lm-id l hid tid op = ground arith

grant_head-id :
    (l : InnetLock) (p : Packet) (grants : List Sent) (ws : List Wqe)
    → (grant_head l p grants ws).lock.id ≡ l.id
unfolding grant_head
grant_head-id l p grants [] = refl
grant_head-id l p grants (w ∷ ws) = refl

grant_head_lm-id :
    (c : Conf) (l : InnetLock) (ws : List Wqe) (out : List Sent)
    → (grant_head_lm c l ws out).lock.id ≡ l.id
unfolding grant_head_lm
grant_head_lm-id c l [] out = refl
grant_head_lm-id c l (w ∷ ws) out = refl

serve_packet-id :
    (l : InnetLock) (p : Packet) (grants : List Sent) (b : Bool)
    → (if b
        then grant_head l p grants l.wqueue
        else record { lock = l; packet = p; sent = grants; ret = 0 }).lock.id
      ≡ l.id
serve_packet-id l p grants true = grant_head-id l p grants l.wqueue
serve_packet-id l p grants false = refl

serve_call-id :
    (c : Conf) (l : InnetLock) (out : List Sent) (b : Bool)
    → (if b
        then grant_head_lm c l l.wqueue out
        else record { lock = l; sent = out; ret = 0 }).lock.id
      ≡ l.id
serve_call-id c l out true = grant_head_lm-id c l l.wqueue out
serve_call-id c l out false = refl

pub process_acquire-id :
    (l : InnetLock) (p : Packet) → lock_out_of_range l ≡ true → (process_acquire l p).lock.id ≡ l.id
unfolding process_acquire acquire_out_of_range
process_acquire-id l p far =
    ground (arith, handle_acquire_lm-id l p.machine_id p.task_id (mode p.mode_old_mode))

pub process_release-id :
    (localhost : ℕ) (l : InnetLock) (p : Packet)
    → lock_out_of_range l ≡ true
    → (process_release localhost l p).lock.id ≡ l.id
unfolding process_release release_out_of_range
process_release-id localhost l p far =
    let r = handle_release_lm l p.machine_id p.task_id in
    rw far (serve_packet-id r.0 p r.1 r.2 ∙ handle_release_lm-id l p.machine_id p.task_id)

pub acquire_as_lm-id :
    (c : Conf) (l : InnetLock) (task : ℕ) (op : LockState)
    → (acquire_as_lm c l task op).lock.id ≡ l.id
unfolding acquire_as_lm
acquire_as_lm-id c l task op = ground (arith, handle_acquire_lm-id l c.localhost_id task op)

pub release_as_lm-id :
    (c : Conf) (l : InnetLock) (task : ℕ) → (release_as_lm c l task).lock.id ≡ l.id
unfolding release_as_lm
release_as_lm-id c l task =
    let r = handle_release_lm l c.localhost_id task in
    serve_call-id c r.0 r.1 r.2 ∙ handle_release_lm-id l c.localhost_id task
