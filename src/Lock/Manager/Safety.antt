-- ===== src/Lock/Manager/Safety.antt =====
-- A lock that a host manages by itself is a reader-writer lock: every reachable state is safe.
use fisslock_bmv2_java.Base.{
  ℕ, ◌≡◌, ◌∙◌, List, [], ◌∷◌, ap, arith, refl, All, contains, true, false,
}
use fisslock_bmv2_java.Post.{LockState, free, release, lock_shared, lock_excl}
use fisslock_bmv2_java.Lock.State.{InnetLock, lock_out_of_range, lock_to_lm, new_lock}
use fisslock_bmv2_java.Lock.Client.{Conf}
use fisslock_bmv2_java.Lock.Manager.{
  Managed, Step, remote_acquire, remote_release, local_acquire, local_release, IsManagerOf, Reach,
  start, later,
}
use fisslock_bmv2_java.Lock.Manager.Invariant.{Phase, Inv}
use fisslock_bmv2_java.Lock.Manager.Steps.{
  IsPlain, remote_acquire-Inv, remote_release-Inv, local_acquire-Inv, local_release-Inv,
  lock_acquire_async-beyond, lock_release-beyond, without_local,
}
use fisslock_bmv2_java.Lock.Manager.Identity.{
  process_acquire-id, process_release-id, acquire_as_lm-id, release_as_lm-id,
}

record IsSound (k : ℕ) (s : Managed) : Type 0 where
  inv : Inv s.lock s.owners s.wanted
  same_id : s.lock.id ≡ k

excl_of_shared :
    (os : List ℕ) (f : ℕ → LockState) (a : ℕ)
    → contains a os ≡ true
    → All (λ b. f b ≡ lock_shared) os
    → f a ≡ lock_shared
unfolding contains
excl_of_shared [] f a own q = cc
excl_of_shared (b ∷ os) f a own q = ground (arith, excl_of_shared os f a)

excl_owner :
    (m : LockState) (l : InnetLock) (os : List ℕ) (f : ℕ → LockState) (a : ℕ)
    → contains a os ≡ true
    → f a ≡ lock_excl
    → Phase m l os f
    → os ≡ a ∷ []
unfolding contains
excl_owner free l os f a own want ph = ground arith
excl_owner release l os f a own want ph = absurd ph
excl_owner lock_shared l os f a own want (h, o, sh, ex) = cc (excl_of_shared os f a own sh)
excl_owner lock_excl l os f a own want ph = ground arith

unowned :
    (m : LockState) (l : InnetLock) (os : List ℕ) (f : ℕ → LockState)
    → l.mode ≡ m
    → os ≡ []
    → Phase m l os f
    → (l.mode ≡ free) × (l.wqueue ≡ []) × (l.holders ≡ [])
unowned free l os f m e ph = (m, ph.1, ph.0)
unowned release l os f m e ph = absurd ph
unowned lock_shared l os f m e ph = absurd (ph.1 e)
unowned lock_excl l os f m e ph = ground arith

module _ (c : Conf) (plain : IsPlain c) (l : InnetLock) (is_mine : IsManagerOf c l) where
  far_of : (s : Managed) → IsSound l.id s → lock_out_of_range s.lock ≡ true
  unfolding lock_out_of_range
  far_of s v = rw v.same_id is_mine.beyond

  mine_of : (s : Managed) → IsSound l.id s → lock_to_lm s.lock ≡ c.localhost_id
  unfolding lock_to_lm
  mine_of s v = rw v.same_id is_mine.mine

  Step-IsSound : {s t : Managed} → Step c s t → IsSound l.id s → IsSound l.id t
  Step-IsSound {s} (remote_acquire p fits idle) v = record {
    inv =
        remote_acquire-Inv c plain s.lock s.owners s.wanted p (far_of s v) fits idle.no_owner
          idle.no_waiter v.inv;
    same_id = process_acquire-id s.lock p (far_of s v) ∙ v.same_id;
  }
  Step-IsSound {s} (remote_release p own) v = record {
    inv = remote_release-Inv c plain s.lock s.owners s.wanted p (far_of s v) own v.inv;
    same_id = process_release-id c.localhost_id s.lock p (far_of s v) ∙ v.same_id;
  }
  Step-IsSound {s} (local_acquire task op fits r idle) v = record {
    inv =
        local_acquire-Inv c plain s.lock s.owners s.wanted task op (far_of s v) (mine_of s v) fits r
          idle.no_owner idle.no_waiter v.inv;
    same_id =
        ap (λ a. a.lock.id)
          (lock_acquire_async-beyond c s.lock task op plain.no_tpcc (far_of s v) (mine_of s v) r)
        ∙ acquire_as_lm-id c s.lock task op
        ∙ v.same_id;
  }
  Step-IsSound {s} (local_release task own) v = record {
    inv =
        local_release-Inv c plain s.lock s.owners s.wanted task (far_of s v) (mine_of s v) own
          v.inv;
    same_id =
        ap (λ a. a.lock.id)
          (lock_release-beyond c s.lock task plain.no_tpcc (far_of s v) (mine_of s v))
        ∙ release_as_lm-id c (without_local s.lock task) task
        ∙ v.same_id;
  }

  start-IsSound : (f : ℕ → LockState) → IsSound l.id (record { lock = l; owners = []; wanted = f })
  unfolding new_lock
  start-IsSound f = record {
    inv = rw is_mine.untouched (record { phase = (refl, refl, refl); queued = tt });
    same_id = refl;
  }

  Reach-IsSound : {s : Managed} → Reach c l s → IsSound l.id s
  Reach-IsSound (start f) = start-IsSound f
  Reach-IsSound (later r st) = Step-IsSound st (Reach-IsSound r)

  -- Clients, of 8 bits of host and 30 of task, keep to a discipline: they ask for the lock only while
  -- they neither own it nor wait for it, and release it only while they own it; a client that waits
  -- does not give up. The host manages the lock, which is beyond the switch's range and starts
  -- untouched; it is built neither for TPCC nor for BMv2 and has no packet modifier, and no release
  -- has digested a wait queue of more than 1024 entries. Then in every reachable state a client that
  -- owns the lock, by the grants sent, and asked for it exclusively is its only owner.
  pub mutual_exclusion :
      {s : Managed}
      → Reach c l s
      → s.lock.overrun ≡ false
      → (a : ℕ) → contains a s.owners ≡ true
      → s.wanted a ≡ lock_excl
      → s.owners ≡ a ∷ []
  mutual_exclusion {s} r fits a own want =
      excl_owner s.lock.mode s.lock s.owners s.wanted a own want (Reach-IsSound r).inv.phase

  -- Clients, of 8 bits of host and 30 of task, ask for the lock only while they neither own it nor
  -- wait for it, and release it only while they own it. The host manages the lock, which is beyond the
  -- switch's range and starts untouched; it is built neither for TPCC nor for BMv2 and has no packet
  -- modifier, and no release has digested a wait queue of more than 1024 entries. Then in every
  -- reachable state a lock that nobody owns, by the grants sent, is free, nobody waits for it, and the
  -- manager has no holder on record.
  pub no_lost_grant :
      {s : Managed}
      → Reach c l s
      → s.lock.overrun ≡ false
      → s.owners ≡ []
      → (s.lock.mode ≡ free) × (s.lock.wqueue ≡ []) × (s.lock.holders ≡ [])
  no_lost_grant {s} r fits e =
      unowned s.lock.mode s.lock s.owners s.wanted refl e (Reach-IsSound r).inv.phase
