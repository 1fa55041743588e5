-- ===== src/Lock/Manager/Handlers.antt =====
-- `handle_acquire_lm` and `handle_release_lm` of lib/lock.cc keep the manager's invariant.
use fisslock_bmv2_java.Base.{
  ℕ, ◌≡◌, ◌≢◌, inl, inr, List, [], ◌∷◌, ◌++◌, arith, refl, All, contains, insert, false,
  if◌then◌else◌, All-append,
}
use fisslock_bmv2_java.Post.{LockState, free, release, lock_shared, lock_excl, Wqe, make_wqe}
use fisslock_bmv2_java.Post.Modes.{IsRequest}
use fisslock_bmv2_java.Lock.State.{InnetLock, lock_holder, lock_add_holder, lock_append_to_wq}
use fisslock_bmv2_java.Lock.Lm.{acquire_by_mode, handle_acquire_lm}
use fisslock_bmv2_java.Lock.Digest.{holder_of, insert_all}
use fisslock_bmv2_java.Lock.Manager.{update, Fits}
use fisslock_bmv2_java.Lock.Manager.Invariant.{
  Phase, IsQueued, Inv, All-IsQueued-update, All-wanted-update, not-append_one-nil, erase-single,
}

module _ (l : InnetLock) (os : List ℕ) (f : ℕ → LockState) (hid tid : ℕ) (op : LockState) where
  abbrev lh : ℕ
  lh = lock_holder hid tid

  acquire_free-Inv :
      IsRequest op
      → l.mode ≡ free
      → Phase free l os f
      → Inv (acquire_by_mode free l hid tid op).0 (insert_all (lh ∷ []) os) (update f lh op)
  unfolding lock_add_holder insert insert_all contains
  acquire_free-Inv (inl s) e (h, q, o) = record {
    phase = rw (s, o, h, q) (refl, λ e. cc, (ground arith, tt), tt);
    queued = rw q tt;
  }
  acquire_free-Inv (inr s) e (h, q, o) = record {
    phase = rw (s, o, h) (lh, refl, ground arith, erase-single lh);
    queued = rw q tt;
  }

  abbrev entry : Wqe
  entry = make_wqe op tid hid

  entry-IsQueued : Fits hid tid → IsRequest op → IsQueued (update f lh op) entry
  unfolding make_wqe
  entry-IsQueued fits r = (ground arith, r)

  queued-append :
      Fits hid tid
      → IsRequest op
      → All (λ w. holder_of w ≢ lh) l.wqueue
      → All (IsQueued f) l.wqueue
      → All (IsQueued (update f lh op)) (l.wqueue ++ entry ∷ [])
  queued-append fits r away q =
      All-append _ l.wqueue (entry ∷ []) (All-IsQueued-update f lh op l.wqueue away q)
        (entry-IsQueued fits r, tt)

  acquire_shared-Inv :
      Fits hid tid
      → IsRequest op
      → contains lh os ≡ false
      → All (λ w. holder_of w ≢ lh) l.wqueue
      → l.mode ≡ lock_shared
      → Phase lock_shared l os f
      → All (IsQueued f) l.wqueue
      → Inv
          (acquire_by_mode lock_shared l hid tid op).0
          (insert_all (if (acquire_by_mode lock_shared l hid tid op).1 then lh ∷ [] else []) os)
          (update f lh op)
  unfolding lock_add_holder lock_append_to_wq insert insert_all make_wqe
  acquire_shared-Inv fits (inl s) fresh away e (h, o, sh, ex) q = record {
    phase =
        rw (s, e, h, fresh)
          (
            refl,
            not-append_one-nil os lh,
            All-append _ os (lh ∷ []) (All-wanted-update f lh lock_shared os fresh sh)
                (ground arith, tt),
            ex,
          );
    queued = rw s (rw s at (All-IsQueued-update f lh op l.wqueue away q));
  }
  acquire_shared-Inv fits (inr s) fresh away e (h, o, sh, ex) q = record {
    phase =
        rw (s, e)
          (
            h,
            o,
            All-wanted-update f lh lock_excl os fresh sh,
            All-append _ l.wqueue (_ ∷ []) ex (refl, tt),
          );
    queued = rw s (rw s at (queued-append fits (inr s) away q));
  }

  acquire_excl-Inv :
      Fits hid tid
      → IsRequest op
      → All (λ w. holder_of w ≢ lh) l.wqueue
      → contains lh os ≡ false
      → l.mode ≡ lock_excl
      → Phase lock_excl l os f
      → All (IsQueued f) l.wqueue
      → Inv (acquire_by_mode lock_excl l hid tid op).0 os (update f lh op)
  unfolding lock_append_to_wq contains
  acquire_excl-Inv fits r away fresh e (a, o, x, h) q = record {
    phase = rw e (a, o, ground arith, h);
    queued = queued-append fits r away q;
  }

  acquire_by_mode-Inv :
      (m : LockState)
      → Fits hid tid
      → IsRequest op
      → contains lh os ≡ false
      → All (λ w. holder_of w ≢ lh) l.wqueue
      → l.mode ≡ m
      → Phase m l os f
      → All (IsQueued f) l.wqueue
      → Inv
          (acquire_by_mode m l hid tid op).0
          (insert_all (if (acquire_by_mode m l hid tid op).1 then lh ∷ [] else []) os)
          (update f lh op)
  unfolding insert_all
  acquire_by_mode-Inv free fits r fresh away e ph q = acquire_free-Inv r e ph
  acquire_by_mode-Inv release fits r fresh away e ph q = absurd ph
  acquire_by_mode-Inv lock_shared fits r fresh away e ph q =
      acquire_shared-Inv fits r fresh away e ph q
  acquire_by_mode-Inv lock_excl fits r fresh away e ph q = acquire_excl-Inv fits r away fresh e ph q

  pub handle_acquire_lm-Inv :
      Fits hid tid
      → IsRequest op
      → contains lh os ≡ false
      → All (λ w. holder_of w ≢ lh) l.wqueue
      → Inv l os f
      → Inv
          (handle_acquire_lm l hid tid op).0
          (insert_all (if (handle_acquire_lm l hid tid op).1 then lh ∷ [] else []) os)
          (update f lh op)
  unfolding handle_acquire_lm
  handle_acquire_lm-Inv fits r fresh away v =
      acquire_by_mode-Inv l.mode fits r fresh away refl v.phase v.queued
