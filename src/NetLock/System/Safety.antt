-- ===== src/NetLock/System/Safety.antt =====
-- Mutual exclusion of a NetLock server's lock (baseline/NetLock/lib/lock_server.cc), and no lost
-- request.
use fisslock_bmv2_java.Base.{
  ◌≡◌, ◌≢◌, ◌∙◌, is_empty, false, sym, List, [], ◌∷◌, ◌++◌, refl, filter, All, Bool-cases, inl, inr,
  ==_iff, arith, nil-ne-append, single-eq-append, All-middle,
}
use mathlib.Core.Path.{subst}
use fisslock_bmv2_java.ParLock.Queue.{QueueState, state_free, state_shared, state_exclusive}
use fisslock_bmv2_java.NetLock.Queue.{shared, exclusive, LockQueueNode, is_shared_node, NodeQueue}
use fisslock_bmv2_java.NetLock.System.{
  holders, Shared, Step, acquire, release, give_up, Reach, start, later,
}
use fisslock_bmv2_java.NetLock.System.Invariant.{Phase, Inv}
use fisslock_bmv2_java.NetLock.System.Acquires.{process_primary_acquire-Inv}
use fisslock_bmv2_java.NetLock.System.Moves.{release-Inv}
use fisslock_bmv2_java.NetLock.System.GiveUp.{give_up-Inv}

Step-Inv : {s t : Shared} → Step s t → Inv s → Inv t
Step-Inv {s} (acquire node m) v = process_primary_acquire-Inv s.queue s.owners node m v
Step-Inv {s} (release node rest h) v =
    release-Inv s.queue node s.queue.lock_state s.owners rest refl v h
Step-Inv {s} (give_up node h w) v = give_up-Inv s.queue s.owners node v h w

Reach-Inv : {s : Shared} → Reach s → Inv s
Reach-Inv start = (refl, refl, refl)
Reach-Inv (later r st) = Step-Inv st (Reach-Inv r)

held :
    (k : QueueState) (q : NodeQueue) (os : List LockQueueNode)
    → Phase k q os
    → os ≡ holders k q.node_queue
unfolding holders
held state_free q os (_, own, _) = own
held state_shared q os (_, own, _, _) = own
held state_exclusive q os (h, rest, heads, own, _, _, _) = rw heads own

shared_queue : (ns : List LockQueueNode) → filter is_shared_node ns ≢ [] → is_empty ns ≡ false
unfolding filter
shared_queue [] some_shared = absurd (some_shared refl)
shared_queue (n ∷ ns) some_shared = refl

not_empty : (ns : List LockQueueNode) → ns ≢ [] → is_empty ns ≡ false
not_empty [] some_own = absurd (some_own refl)
not_empty (n ∷ ns) some_own = refl

waits_for_owner :
    (k : QueueState) (q : NodeQueue) (os : List LockQueueNode)
    → Phase k q os
    → is_empty os ≡ is_empty q.node_queue
waits_for_owner state_free q os (none_queued, none_own, _) = rw (none_queued, none_own) refl
waits_for_owner state_shared q os (some_own, own, _, _) =
    not_empty os some_own ∙ sym (shared_queue q.node_queue (rw own at some_own))
waits_for_owner state_exclusive q os (h, rest, heads, own, _, _, _) = rw (heads, own) refl

-- In every reachable state of a lock, whose clients release what they own or give up what they wait
-- for, the owners, to whom the lock was granted and who have not released it, are exactly those that
-- the queue tells by its state: none if it is free, all its shared entries if it is shared, its head
-- alone if it is exclusive. And nobody owns the lock exactly if the queue is empty.
pub owners-holders :
    {s : Shared}
    → Reach s
    → (s.owners ≡ holders s.queue.lock_state s.queue.node_queue)
      × (is_empty s.owners ≡ is_empty s.queue.node_queue)
owners-holders {s} r =
    let v = Reach-Inv r in
    (
      held s.queue.lock_state s.queue s.owners v,
      waits_for_owner s.queue.lock_state s.queue s.owners v,
    )

filter-shared : (ns : List LockQueueNode) → All (λ n. n.mode ≡ shared) (filter is_shared_node ns)
unfolding filter
filter-shared [] = tt
filter-shared (n ∷ ns) = elim (Bool-cases (is_shared_node n)) [
  | inl s ↦ rw s ((==_iff n.mode shared).0 s, filter-shared ns)
  | inr s ↦ rw s (filter-shared ns)
]

alone :
    (k : QueueState) (q : NodeQueue) (os : List LockQueueNode) (n : LockQueueNode)
    (before behind : List LockQueueNode)
    → os ≡ before ++ n ∷ behind
    → n.mode ≡ exclusive
    → Phase k q os
    → os ≡ n ∷ []
alone state_free q os n before behind own x (_, none_own, _) =
    absurd (nil-ne-append before behind n (sym none_own ∙ own))
alone state_shared q os n before behind own x (_, sh, _, _) =
    let all = subst (All (λ n. n.mode ≡ shared)) (sym sh ∙ own) (filter-shared q.node_queue) in
    absurd (ground (arith, All-middle (λ (n : LockQueueNode). n.mode ≡ shared) before behind n all))
alone state_exclusive q os n before behind own x (h, rest, heads, one, _, _, _) =
    one ∙ single-eq-append before behind n h (sym one ∙ own)

-- In every reachable state of a lock, whose clients release what they own or give up what they wait
-- for, an owner that asked for the lock exclusively is the only owner.
pub exclusive_grant_alone :
    {s : Shared}
    → Reach s
    → (n : LockQueueNode) (before behind : List LockQueueNode) → s.owners ≡ before ++ n ∷ behind
    → n.mode ≡ exclusive
    → s.owners ≡ n ∷ []
exclusive_grant_alone {s} r n before behind own x =
    alone s.queue.lock_state s.queue s.owners n before behind own x (Reach-Inv r)
