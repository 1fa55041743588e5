-- ===== src/Lock/Manager/Steps.antt =====
-- Each call and each packet that reaches the manager (lib/lock.cc) keeps its invariant.
use fisslock_bmv2_java.Base.{
  ℕ, ◌≡◌, ◌≢◌, inl, inr, List, [], ◌∷◌, arith, refl, ◌∙◌, sym, All, contains, erase, insert, false,
  true, if◌then◌else◌, Bool, Bool-cases, none,
}
use mathlib.Core.Path.{subst}
use fisslock_bmv2_java.Post.{
  LockState, free, release, lock_shared, lock_excl, Sent, Packet, mode, send_post_grant,
}
use fisslock_bmv2_java.Post.Modes.{IsRequest, mode-IsRequest}
use fisslock_bmv2_java.Lock.State.{InnetLock, lock_holder, lock_out_of_range, lock_to_lm}
use fisslock_bmv2_java.Lock.Lm.{handle_acquire_lm}
use fisslock_bmv2_java.Lock.Digest.{holder_of, insert_all}
use fisslock_bmv2_java.Lock.Outcome.{goes_on}
use fisslock_bmv2_java.Lock.Acquire.{process_acquire, acquire_out_of_range}
use fisslock_bmv2_java.Lock.Release.{process_release, release_out_of_range, grant_head}
use fisslock_bmv2_java.Lock.Client.{Conf, lock_acquire_async, acquire_as_lm}
use fisslock_bmv2_java.Lock.Unlock.{
  lock_release, release_beyond_switch, release_as_lm, grant_head_lm,
}
use fisslock_bmv2_java.Lock.Manager.{
  grantees, grantee, granted_by_packet, granted_by_call, update, Fits,
}
use fisslock_bmv2_java.Lock.Manager.Invariant.{Phase, Inv}
use fisslock_bmv2_java.Lock.Manager.Handlers.{handle_acquire_lm-Inv}
use fisslock_bmv2_java.Lock.Manager.Scheduling.{AfterRelease, handle_release_lm-AfterRelease}

-- A host without the TPCC shortcut and without a packet modifier, on the DPDK layer: that of BMv2
-- drops the packets that the handlers return.
pub record IsPlain (c : Conf) : Type 0 where
  pub no_tpcc : c.tpcc_enb_local ≡ false
  pub no_modifier : c.packet_modify ≡ none
  pub no_bmv2 : c.bmv2 ≡ false

pub process_acquire-beyond :
    (l : InnetLock) (p : Packet)
    → lock_out_of_range l ≡ true
    → ((process_acquire l p).lock
        ≡ (handle_acquire_lm l p.machine_id p.task_id (mode p.mode_old_mode)).0)
      × (granted_by_packet false (process_acquire l p) ≡ (
          if (handle_acquire_lm l p.machine_id p.task_id (mode p.mode_old_mode)).1
          then grantee p ∷ []
          else []))
unfolding process_acquire acquire_out_of_range granted_by_packet goes_on
process_acquire-beyond l p e = ground arith

grant_head-Inv :
    (os : List ℕ) (f : ℕ → LockState) (l : InnetLock) (p : Packet) (grants : List Sent) (b : Bool)
    → AfterRelease os f l grants b
    → let o =
        if b
        then grant_head l p grants l.wqueue
        else record { lock = l; packet = p; sent = grants; ret = 0 } in
      Inv o.lock (insert_all (granted_by_packet false o) os) f
unfolding grant_head granted_by_packet goes_on insert_all insert contains
grant_head-Inv os f l p grants false v = v
grant_head-Inv os f l p grants true (w, ws, e, g, o, v) = rw (e, g, o) v

grant_head_lm-Inv :
    (c : Conf) (os : List ℕ) (f : ℕ → LockState) (l : InnetLock) (grants : List Sent) (b : Bool)
    → c.packet_modify ≡ none
    → AfterRelease os f l grants b
    → let o =
        if b
        then grant_head_lm c l l.wqueue grants
        else record { lock = l; sent = grants; ret = 0 } in
      Inv o.lock (insert_all (grantees o.sent) os) f
unfolding grant_head_lm grantees send_post_grant insert_all insert contains
grant_head_lm-Inv c os f l grants false m v = v
grant_head_lm-Inv c os f l grants true m (w, ws, e, g, o, v) = rw (e, g, o, m) v

Phase-record :
    (m : LockState) (l : InnetLock) (os : List ℕ) (f : ℕ → LockState) (l' : InnetLock)
    → l'.holders ≡ l.holders
    → l'.wqueue ≡ l.wqueue
    → Phase m l os f
    → Phase m l' os f
Phase-record free l os f l' h w (a, b, d) = (h ∙ a, w ∙ b, d)
Phase-record release l os f l' h w ph = ph
Phase-record lock_shared l os f l' h w (a, b, d, e) = (h ∙ a, b, d, rw w e)
Phase-record lock_excl l os f l' h w (a, b, d, e) = (a, b, d, rw h e)

-- The invariant reads the mode, the holders and the wait queue.
Inv-record :
    (l : InnetLock) (os : List ℕ) (f : ℕ → LockState) (l' : InnetLock)
    → l'.mode ≡ l.mode
    → l'.holders ≡ l.holders
    → l'.wqueue ≡ l.wqueue
    → Inv l os f
    → Inv l' os f
Inv-record l os f l' m h w v = record {
  phase = subst (λ k. Phase k l' os f) (sym m) (Phase-record l.mode l os f l' h w v.phase);
  queued = rw w v.queued;
}

pub lock_acquire_async-beyond :
    (c : Conf) (l : InnetLock) (task : ℕ) (op : LockState)
    → c.tpcc_enb_local ≡ false
    → lock_out_of_range l ≡ true
    → lock_to_lm l ≡ c.localhost_id
    → IsRequest op
    → lock_acquire_async c l task op ≡ acquire_as_lm c l task op
unfolding lock_acquire_async
lock_acquire_async-beyond c l task op t far mine (inl r) = ground arith
lock_acquire_async-beyond c l task op t far mine (inr r) = ground arith

abbrev pub without_local : InnetLock → ℕ → InnetLock
without_local l task = record l { local_holders = erase task l.local_holders }

pub lock_release-beyond :
    (c : Conf) (l : InnetLock) (task : ℕ)
    → c.tpcc_enb_local ≡ false
    → lock_out_of_range l ≡ true
    → lock_to_lm l ≡ c.localhost_id
    → lock_release c l task ≡ release_as_lm c (without_local l task) task
unfolding lock_release release_beyond_switch lock_out_of_range lock_to_lm
lock_release-beyond c l task t far mine = ground arith

module _ (c : Conf) (plain : IsPlain c) (l : InnetLock) (os : List ℕ) (f : ℕ → LockState) where
  pub remote_acquire-Inv :
      (p : Packet)
      → lock_out_of_range l ≡ true
      → Fits p.machine_id p.task_id
      → contains (grantee p) os ≡ false
      → All (λ w. holder_of w ≢ grantee p) l.wqueue
      → Inv l os f
      → let o = process_acquire l p in
        Inv o.lock
          (insert_all (granted_by_packet c.bmv2 o) os)
          (update f (grantee p) (mode p.mode_old_mode))
  remote_acquire-Inv p far fits fresh away v =
      let (e, g) = process_acquire-beyond l p far in
      rw (plain.no_bmv2, g, e)
        (handle_acquire_lm-Inv l os f p.machine_id p.task_id (mode p.mode_old_mode) fits
          (mode-IsRequest p.mode_old_mode) fresh away v)

  pub remote_release-Inv :
      (p : Packet)
      → lock_out_of_range l ≡ true
      → contains (grantee p) os ≡ true
      → Inv l os f
      → let o = process_release c.localhost_id l p in
        Inv o.lock (insert_all (granted_by_packet c.bmv2 o) (erase (grantee p) os)) f
  unfolding process_release release_out_of_range
  remote_release-Inv p far own v =
      rw (plain.no_bmv2, far)
        (grant_head-Inv _ f _ p _ _
          (handle_release_lm-AfterRelease l os f p.machine_id p.task_id own v))

  acquire_as_lm-Inv :
      (task : ℕ) (op : LockState)
      → Fits c.localhost_id task
      → IsRequest op
      → contains (lock_holder c.localhost_id task) os ≡ false
      → All (λ w. holder_of w ≢ lock_holder c.localhost_id task) l.wqueue
      → Inv l os f
      → let a = acquire_as_lm c l task op in
        Inv a.lock
          (insert_all (granted_by_call (lock_holder c.localhost_id task) a.req) os)
          (update f (lock_holder c.localhost_id task) op)
  unfolding acquire_as_lm granted_by_call
  acquire_as_lm-Inv task op fits r fresh away v =
      let kept = handle_acquire_lm-Inv l os f c.localhost_id task op fits r fresh away v in
      elim (Bool-cases (handle_acquire_lm l c.localhost_id task op).1) [
        | inl e ↦ rw e (rw e at kept)
        | inr e ↦ rw e (Inv-record _ _ _ _ refl refl refl (rw e at kept))
      ]

  pub local_acquire-Inv :
      (task : ℕ) (op : LockState)
      → lock_out_of_range l ≡ true
      → lock_to_lm l ≡ c.localhost_id
      → Fits c.localhost_id task
      → IsRequest op
      → contains (lock_holder c.localhost_id task) os ≡ false
      → All (λ w. holder_of w ≢ lock_holder c.localhost_id task) l.wqueue
      → Inv l os f
      → let a = lock_acquire_async c l task op in
        Inv a.lock
          (insert_all (granted_by_call (lock_holder c.localhost_id task) a.req) os)
          (update f (lock_holder c.localhost_id task) op)
  unfolding lock_acquire_async
  local_acquire-Inv task op far mine fits r fresh away v =
      rw (lock_acquire_async-beyond c l task op plain.no_tpcc far mine r)
        (acquire_as_lm-Inv task op fits r fresh away v)

  pub local_release-Inv :
      (task : ℕ)
      → lock_out_of_range l ≡ true
      → lock_to_lm l ≡ c.localhost_id
      → contains (lock_holder c.localhost_id task) os ≡ true
      → Inv l os f
      → let r = lock_release c l task in
        Inv r.lock (insert_all (grantees r.sent) (erase (lock_holder c.localhost_id task) os)) f
  unfolding release_as_lm
  local_release-Inv task far mine own v = rw (lock_release-beyond c l task plain.no_tpcc far mine) (
      grant_head_lm-Inv c _ f _ _ _ plain.no_modifier (
        handle_release_lm-AfterRelease (without_local l task) os f c.localhost_id task own
          (Inv-record l os f _ refl refl refl v)))
