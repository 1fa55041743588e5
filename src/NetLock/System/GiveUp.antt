-- ===== src/NetLock/System/GiveUp.antt =====
-- A waiter of a NetLock queue that gives up by a release (baseline/NetLock/lib/lock_server.cc) leaves
-- the owners alone.
use fisslock_bmv2_java.Base.{
  ℕ, suc, ◌-◌, ◌≡◌, ◌≢◌, ◌∙◌, true, false, List, [], ◌∷◌, append-nil, none, some, arith, inl, inr,
  refl, sym, Bool-cases, Option-cases, ◌==◌,
}
use fisslock_bmv2_java.ParLock.Queue.{
  QueueState, state_free, state_shared, state_exclusive, is_state_shared, is_state_exclusive,
}
use fisslock_bmv2_java.NetLock.Queue.{shared, exclusive, LockQueueNode, NodeQueue, erase_loop}
use fisslock_bmv2_java.NetLock.Server.{release_shared, release_exclusive, process_primary_release}
use fisslock_bmv2_java.NetLock.System.{names, remove_first, after}
use fisslock_bmv2_java.NetLock.System.Invariant.{Phase, Inv}
use fisslock_bmv2_java.NetLock.System.Erasing
use fisslock_bmv2_java.NetLock.System.Moves.{release_from}

-- The owner heads the queue and is not named, so the entry is found behind it.
found_behind :
    (node w : LockQueueNode) (queue ns ns' : List LockQueueNode)
    → queue ≡ w ∷ ns
    → remove_first node (w ∷ []) ≡ none
    → remove_first node queue ≡ some ns'
    → (left : List LockQueueNode) × (ret : ℕ) × (ns' ≡ w ∷ left)
      × (remove_first node ns ≡ some left)
      × (Erasing.erased node 0 queue ≡ (ns', suc ret))
unfolding remove_first erase_loop
found_behind node w queue ns ns' heads not_own h = elim (Bool-cases (names node w)) [
  | inl m ↦ absurd (ground (arith, m))
  | inr m ↦ elim (Option-cases (remove_first node ns)) [
    | inl e ↦ absurd (ground (arith, m, e))
    | inr (left, e) ↦
        let (ret, taken, later) = Erasing.erase_first node 1 ns left e in
        (left, ret - 1, ground (arith, m, e), e, ground (arith, m, e, taken))
  ]
]

module _ (q : NodeQueue) (os : List LockQueueNode) (node : LockQueueNode) where
  waiter_beside_readers :
      (ns' : List LockQueueNode)
      → q.lock_state ≡ state_shared
      → Phase state_shared q os
      → remove_first node os ≡ none
      → remove_first node q.node_queue ≡ some ns'
      → Inv (after os (process_primary_release q node))
  unfolding release_exclusive
  waiter_beside_readers ns' f (some_own, own, modes, count) not_own h =
      elim (Erasing.IsMode-of_waiter node q.node_queue ns' modes h) [
        | inl x ↦
            absurd (Erasing.shared_waiter_is_listed node q.node_queue ns' x h (rw own at not_own))
        | inr x ↦
            let (ret, taken, _) = Erasing.erase_first node 0 q.node_queue ns' h in
            let t : (node.mode == shared) ≡ false = ground arith in
            let u : (node.mode == exclusive) ≡ true = ground arith in
            let s : is_state_exclusive q.lock_state ≡ false = rw f refl in
            rw (release_from q node ns' ret taken, t, u, s, append-nil os, f)
              (
                some_own,
                own ∙ sym (Erasing.filter-remove_first node q.node_queue ns' x h),
                Erasing.AllModes-remove_first node q.node_queue ns' modes h,
                count,
              )
      ]

  waiter_behind_writer :
      (ns' : List LockQueueNode)
      → q.lock_state ≡ state_exclusive
      → Phase state_exclusive q os
      → remove_first node os ≡ none
      → remove_first node q.node_queue ≡ some ns'
      → Inv (after os (process_primary_release q node))
  unfolding release_shared release_exclusive
  waiter_behind_writer ns' f (w, ns, heads, own, x, modes, count) not_own h =
      let (left, ret, shape, e, taken) =
        found_behind node w q.node_queue ns ns' heads (rw own at not_own) h in
      let left_modes = Erasing.AllModes-remove_first node ns left modes e in
      let s : is_state_exclusive q.lock_state ≡ true = rw f refl in
      let s' : is_state_shared q.lock_state ≡ false = rw f refl in
      let moved = release_from q node ns' (suc ret) taken in
      elim (Erasing.IsMode-of_waiter node ns left modes e) [
        | inl y ↦
            let t : (node.mode == shared) ≡ true = ground arith in
            rw (moved, t, s', f, append-nil os) (w, left, shape, own, x, left_modes, count)
        | inr y ↦
            let t : (node.mode == shared) ≡ false = ground arith in
            let u : (node.mode == exclusive) ≡ true = ground arith in
            let z : (suc ret == 0) ≡ false = ground arith in
            rw (moved, t, u, s, z, f, append-nil os) (w, left, shape, own, x, left_modes, count)
      ]

  give_up_from :
      (s : QueueState) (ns' : List LockQueueNode)
      → q.lock_state ≡ s
      → Phase s q os
      → remove_first node os ≡ none
      → remove_first node q.node_queue ≡ some ns'
      → Inv (after os (process_primary_release q node))
  unfolding remove_first
  give_up_from state_free ns' f (none_queued, _, _) not_own h =
      let nobody : none ≡ some ns' = rw none_queued at h in cc
  give_up_from state_shared ns' f v not_own h = waiter_beside_readers ns' f v not_own h
  give_up_from state_exclusive ns' f v not_own h = waiter_behind_writer ns' f v not_own h

  pub give_up-Inv :
      Phase q.lock_state q os
      → remove_first node os ≡ none
      → remove_first node q.node_queue ≢ none
      → Inv (after os (process_primary_release q node))
  give_up-Inv v not_own waits = elim (Option-cases (remove_first node q.node_queue)) [
    | inl e ↦ absurd (waits e)
    | inr (ns', e) ↦ give_up_from q.lock_state ns' refl v not_own e
  ]
