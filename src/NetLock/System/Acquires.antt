-- ===== src/NetLock/System/Acquires.antt =====
-- An acquire keeps a NetLock queue's invariant (baseline/NetLock/lib/lock_server.cc).
use fisslock_bmv2_java.Base.{
  ◌==◌, ◌≡◌, ◌≢◌, ◌∙◌, ap, true, false, List, [], ◌∷◌, ◌++◌, append-nil, arith, inl, inr, refl,
  All-append, filter, length-append, pos,
}
use fisslock_bmv2_java.ParLock.Queue.{QueueState, state_free, state_shared, state_exclusive}
use fisslock_bmv2_java.NetLock.Queue.{
  shared, exclusive, LockQueueNode, is_shared_node, NodeQueue, enqueue_request, block_queue,
}
use fisslock_bmv2_java.NetLock.Server.{process_primary_acquire, acquire_shared, acquire_exclusive}
use fisslock_bmv2_java.NetLock.System.{IsMode, after}
use fisslock_bmv2_java.NetLock.System.Invariant.{Phase, Inv}

filter-append_shared :
    (ns : List LockQueueNode) (node : LockQueueNode)
    → node.mode ≡ shared
    → filter is_shared_node (ns ++ node ∷ []) ≡ filter is_shared_node ns ++ node ∷ []
unfolding filter
filter-append_shared [] node x = ground arith
filter-append_shared (n ∷ ns) node x = ground (arith, filter-append_shared ns node x)

filter-append_exclusive :
    (ns : List LockQueueNode) (node : LockQueueNode)
    → node.mode ≡ exclusive
    → filter is_shared_node (ns ++ node ∷ []) ≡ filter is_shared_node ns
unfolding filter
filter-append_exclusive [] node x = ground arith
filter-append_exclusive (n ∷ ns) node x = ground (arith, filter-append_exclusive ns node x)

not_nil : (ns : List LockQueueNode) (n : LockQueueNode) → ns ++ n ∷ [] ≢ []
not_nil [] n e = cc
not_nil (m ∷ ns) n e = cc

module _ (q : NodeQueue) (os : List LockQueueNode) (node : LockQueueNode) where
  abbrev queued : NodeQueue
  queued = enqueue_request (block_queue q) node

  shared-Inv :
      (s : QueueState)
      → q.lock_state ≡ s
      → node.mode ≡ shared
      → Phase s q os
      → Inv (after os (acquire_shared queued node))
  unfolding acquire_shared enqueue_request filter
  shared-Inv state_free f x (none_queued, none_own, count) =
      rw (f, none_queued, none_own, count) ((λ e. cc), ground arith, (inl x, tt), refl)
  shared-Inv state_shared f x (some_own, own, modes, count) =
      rw (f, count)
        (
          not_nil os node,
          ap (λ l. l ++ node ∷ []) own ∙ ground (arith, filter-append_shared q.node_queue node x),
          All-append _ q.node_queue (node ∷ []) modes (inl x, tt),
          ap pos (omega (arith, length-append os (node ∷ []))),
        )
  shared-Inv state_exclusive f x (h, rest, heads, own, ex, modes, count) = rw f (
    h,
    rest ++ node ∷ [],
    rw heads refl,
    append-nil os ∙ own,
    ex,
    All-append _ rest (node ∷ []) modes (inl x, tt),
    count,
  )

  exclusive-Inv :
      (s : QueueState)
      → q.lock_state ≡ s
      → node.mode ≡ exclusive
      → Phase s q os
      → Inv (after os (acquire_exclusive queued node))
  unfolding acquire_exclusive enqueue_request
  exclusive-Inv state_free f x (none_queued, none_own, count) =
      rw (f, none_queued, none_own) (node, [], refl, refl, x, tt, count)
  exclusive-Inv state_shared f x (some_own, own, modes, count) =
      rw (f, append-nil os)
        (
          some_own,
          ground (arith, own, filter-append_exclusive q.node_queue node x),
          All-append _ q.node_queue (node ∷ []) modes (inr x, tt),
          count,
        )
  exclusive-Inv state_exclusive f x (h, rest, heads, own, ex, modes, count) = rw f (
    h,
    rest ++ node ∷ [],
    rw heads refl,
    append-nil os ∙ own,
    ex,
    All-append _ rest (node ∷ []) modes (inr x, tt),
    count,
  )

  pub process_primary_acquire-Inv :
      IsMode node.mode → Phase q.lock_state q os → Inv (after os (process_primary_acquire q node))
  unfolding process_primary_acquire
  process_primary_acquire-Inv (inl x) v =
      let t : (node.mode == shared) ≡ true = ground arith in rw t (shared-Inv q.lock_state refl x v)
  process_primary_acquire-Inv (inr x) v =
      let t : (node.mode == shared) ≡ false = ground arith in
      let u : (node.mode == exclusive) ≡ true = ground arith in
      rw (t, u) (exclusive-Inv q.lock_state refl x v)
