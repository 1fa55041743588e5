-- ===== src/ParLock/System/Safety.antt =====
-- Mutual exclusion of ParLock's lock server (baseline/ParLock), and no lost grant.
use fisslock_bmv2_java.Base.{ℕ, ◌≡◌, ◌∙◌, sym, List, [], ◌∷◌, ◌++◌, some, refl}
use mathlib.Core.Path.{subst}
use fisslock_bmv2_java.Post.{lock_excl}
use fisslock_bmv2_java.ParLock.Queue.{
  LockQueueEntry, LockQueue, QueueState, state_free, state_shared, state_exclusive,
}
use fisslock_bmv2_java.ParLock.Server.{LockRequest, entry_of, Served}
use fisslock_bmv2_java.ParLock.Api.{serve_unlock}
use fisslock_bmv2_java.ParLock.System.{Shared, MayRelease, Reach}
use fisslock_bmv2_java.ParLock.System.Invariant.{AllShared, Phase}
use fisslock_bmv2_java.ParLock.System.Reachable.{serve_unlock-Inv, Reach-Inv}

pub in_empty :
    (before behind : List LockQueueEntry) (e : LockQueueEntry) → ¬ ([] ≡ before ++ e ∷ behind)
in_empty [] behind e h = cc
in_empty (b ∷ before) behind e h = cc

pub in_shared :
    (before behind : List LockQueueEntry) (e : LockQueueEntry)
    → e.op ≡ lock_excl
    → ¬ AllShared (before ++ e ∷ behind)
in_shared [] behind e x (y, _) = cc
in_shared (b ∷ before) behind e x (_, h) = in_shared before behind e x h

in_single :
    (before behind : List LockQueueEntry) (e o : LockQueueEntry)
    → o ∷ [] ≡ before ++ e ∷ behind
    → o ∷ [] ≡ e ∷ []
in_single [] behind e o h = cc
in_single (b ∷ before) behind e o h = absurd (in_empty before behind e (cc))

alone :
    (k : QueueState) (q : LockQueue) (os : List LockQueueEntry) (e : LockQueueEntry)
    (before behind : List LockQueueEntry)
    → os ≡ before ++ e ∷ behind
    → e.op ≡ lock_excl
    → Phase k q os
    → os ≡ e ∷ []
alone state_free q os e before behind own x (_, none_own, _) =
    absurd (in_empty before behind e (sym none_own ∙ own))
alone state_shared q os e before behind own x (_, sh, _, _) =
    absurd (in_shared before behind e x (subst AllShared own sh))
alone state_exclusive q os e before behind own x (o, one, _, _, _) =
    one ∙ in_single before behind e o (sym one ∙ own)

unowned :
    (k : QueueState) (q : LockQueue) (os : List LockQueueEntry)
    → q.lock_state ≡ k
    → os ≡ []
    → Phase k q os
    → (q.lock_state ≡ state_free) × (q.request_queue ≡ [])
unowned state_free q os f e (a, _, _) = (f, a)
unowned state_shared q os f e (a, _, _, _) = absurd (a e)
unowned state_exclusive q os f e (o, one, _, _, _) = cc

module _ (localhost : ℕ) where
  -- In every reachable state of a lock server, whose clients release what they own and do not wait for
  -- the same lock then, an owner that asked for the lock exclusively is the only owner.
  pub exclusive_owner_alone :
      {s : Shared}
      → Reach localhost s
      → (e : LockQueueEntry) (before behind : List LockQueueEntry) → s.owners ≡ before ++ e ∷ behind
      → e.op ≡ lock_excl
      → s.owners ≡ e ∷ []
  exclusive_owner_alone {s} r e before behind own x =
      alone s.queue.lock_state s.queue s.owners e before behind own x (Reach-Inv localhost r)

  -- In every reachable state of a lock server, whose clients release what they own and do not wait
  -- for the same lock then, a lock that nobody owns is free, and nobody waits for it.
  pub nobody_waits_for_free :
      {s : Shared}
      → Reach localhost s
      → s.owners ≡ []
      → (s.queue.lock_state ≡ state_free) × (s.queue.request_queue ≡ [])
  nobody_waits_for_free {s} r e =
      unowned s.queue.lock_state s.queue s.owners refl e (Reach-Inv localhost r)

  -- In a reachable state the release of an owner that does not wait for the lock is served: it never
  -- meets the abnormal conditions, on which the server exits.
  pub release_is_served :
      {s : Shared}
      → Reach localhost s
      → (hd : LockRequest) (rest : List LockQueueEntry) → MayRelease s (entry_of hd) rest
      → (o : Served) × (serve_unlock localhost hd s.queue ≡ some o)
  release_is_served {s} r hd rest m =
      let (o, e, _) = serve_unlock-Inv localhost s hd rest m (Reach-Inv localhost r) in (o, e)
