-- ===== src/ParLock/System/Releases.antt =====
-- Each release of an owner keeps a ParLock queue's invariant (baseline/ParLock).
use fisslock_bmv2_java.Base.{
  ℕ, suc, ◌+◌, ◌≡◌, ◌≢◌, ap, true, false, List, [], ◌∷◌, map, append-nil, some, arith, inl, inr,
  refl, All-map, filter, length, Bool-cases, Option-cases, pos, pred, is_positive,
}
use fisslock_bmv2_java.Post.{lock_shared, lock_excl, is_shared, is_excl}
use fisslock_bmv2_java.Post.Modes.{IsRequest}
use fisslock_bmv2_java.ParLock.Queue.{
  head_of, LockQueueEntry, LockQueue, QueueState, state_free, state_shared, state_exclusive,
  is_state_shared, set_lock_state, add_shared_counter, sub_shared_counter, matches,
  get_shared_requests, dequeue_request, get_head_request,
}
use fisslock_bmv2_java.ParLock.Dequeue.{shared, not_shared, dequeue_shared_requests_lem}
use fisslock_bmv2_java.ParLock.Server.{
  Served, served, grant_to, grant_exclusive, grant_loop, grant_shared, schedule_exclusive,
  exclusive_unlock, schedule_shared, shared_unlock,
}
use fisslock_bmv2_java.ParLock.System.{granted_entry, remove_owner, after}
use fisslock_bmv2_java.ParLock.System.Invariant.{AllShared, AllExclusive, AllRequests, Phase, Inv}

-- An owner of a shared lock asked for it so.
pub remove_owner-AllShared :
    (e : LockQueueEntry) (os rest : List LockQueueEntry)
    → IsRequest e.op
    → AllShared os
    → remove_owner e os ≡ some rest
    → (e.op ≡ lock_shared) × AllShared rest × (length os ≡ suc (length rest))
unfolding remove_owner matches
remove_owner-AllShared e [] rest r sh h = cc
remove_owner-AllShared e (o ∷ os) rest r sh h =
    elim (Bool-cases (matches o e.requester e.host e.op)) [
      | inl m ↦ elim r [
        | inl x ↦ ground (arith, m, x, sh.0)
        | inr x ↦ absurd (ground (arith, m, x, sh.0))
      ]
      | inr m ↦ elim (Option-cases (remove_owner e os)) [
        | inl n ↦ absurd (ground (arith, m, n))
        | inr (left, k) ↦
            let (x, all, n) = remove_owner-AllShared e os left r sh.1 k in
            let same : rest ≡ o ∷ left = ground (arith, m, k) in
            (x, rw same (sh.0, all), rw same (omega (arith, n)))
      ]
    ]

granted_entry-grant_to :
    (localhost : ℕ) (e : LockQueueEntry) → granted_entry (grant_to localhost e) ≡ e
granted_entry-grant_to localhost e = ground arith

grant_loop_lem :
    (localhost n : ℕ) (q : LockQueue) (es : List LockQueueEntry)
    → q.shared_counter ≡ pos n
    → let r = grant_loop localhost q es in
      (r.0 ≡ record q { shared_counter = pos (length es + n) }) × (map granted_entry r.1 ≡ es)
unfolding grant_loop
grant_loop_lem localhost n q [] c = ground arith
grant_loop_lem localhost n q (e ∷ es) c =
    let (a, b) = grant_loop_lem localhost (suc n) (add_shared_counter q) es (rw c) in
    (
      rw a (ap (λ k. record q { shared_counter = pos k }) (omega arith)),
      rw (b, granted_entry-grant_to localhost e),
    )

filter-shared :
    (es : List LockQueueEntry)
    → AllRequests es
    → AllShared (filter shared es) × AllExclusive (filter not_shared es)
unfolding filter
filter-shared [] r = (tt, tt)
filter-shared (e ∷ es) (inl r, rs) = ground (arith, r, filter-shared es rs)
filter-shared (e ∷ es) (inr r, rs) = ground (arith, r, filter-shared es rs)

grant_exclusive-Inv :
    (localhost : ℕ) (q : LockQueue) (w : LockQueueEntry) (ws : List LockQueueEntry)
    → q.request_queue ≡ w ∷ ws
    → w.op ≡ lock_excl
    → AllRequests ws
    → q.shared_counter ≡ pos 0
    → Inv (after [] (grant_exclusive localhost q w))
unfolding grant_exclusive dequeue_request
grant_exclusive-Inv localhost q w ws e x rs count =
    (w, rw (granted_entry-grant_to localhost w) refl, x, rw e rs, count)

grant_shared-Inv :
    (localhost : ℕ) (q : LockQueue) (w : LockQueueEntry) (ws : List LockQueueEntry)
    → q.request_queue ≡ w ∷ ws
    → w.op ≡ lock_shared
    → AllRequests (w ∷ ws)
    → q.shared_counter ≡ pos 0
    → Inv (after [] (grant_shared localhost q))
unfolding grant_shared get_shared_requests filter
grant_shared-Inv localhost q w ws e x rs count =
    let taken = filter shared q.request_queue in
    let left = record (set_lock_state q state_shared) {
      request_queue = filter not_shared q.request_queue;
    } in
    let (counted, all) = grant_loop_lem localhost 0 left taken count in
    let (sh, ex) = filter-shared q.request_queue (rw e rs) in
    let some_taken : taken ≢ [] = rw (e, x) (λ n. cc) in
    rw (dequeue_shared_requests_lem (set_lock_state q state_shared))
      (rw (counted, all, append-nil taken) (some_taken, sh, ex, ap pos (omega arith)))

schedule_exclusive-Inv :
    (localhost : ℕ) (q : LockQueue) (ws : List LockQueueEntry)
    → q.request_queue ≡ ws
    → AllRequests ws
    → q.shared_counter ≡ pos 0
    → q.lock_state ≡ state_free
    → Inv (after [] (schedule_exclusive localhost q (head_of ws)))
unfolding schedule_exclusive
schedule_exclusive-Inv localhost q [] e rs count f = rw f (e, refl, count)
schedule_exclusive-Inv localhost q (w ∷ ws) e (inr x, rs) count f =
    let s : is_excl w.op ≡ true = rw x refl in
    rw s (grant_exclusive-Inv localhost q w ws e x rs count)
schedule_exclusive-Inv localhost q (w ∷ ws) e (inl x, rs) count f =
    let s : is_excl w.op ≡ false = rw x refl in
    let t : is_shared w.op ≡ true = rw x refl in
    rw (s, t) (grant_shared-Inv localhost q w ws e x (inl x, rs) count)

no_owner_leaves :
    (e : LockQueueEntry) (rest : List LockQueueEntry) → ¬ (remove_owner e [] ≡ some rest)
unfolding remove_owner
no_owner_leaves e rest h = cc

only_owner_leaves :
    (e o : LockQueueEntry) (rest : List LockQueueEntry)
    → remove_owner e (o ∷ []) ≡ some rest
    → rest ≡ []
unfolding remove_owner
only_owner_leaves e o rest h = elim (Bool-cases (matches o e.requester e.host e.op)) [
  | inl m ↦ ground (arith, m)
  | inr m ↦ absurd (ground (arith, m))
]

wrong_owner :
    (e o : LockQueueEntry) (rest : List LockQueueEntry)
    → e.op ≡ lock_shared
    → o.op ≡ lock_excl
    → ¬ (remove_owner e (o ∷ []) ≡ some rest)
unfolding remove_owner matches
wrong_owner e o rest x y h = ground (arith, x, y)

schedule_shared-Inv :
    (localhost : ℕ) (q : LockQueue) (ws : List LockQueueEntry)
    → q.request_queue ≡ ws
    → AllExclusive ws
    → q.shared_counter ≡ pos 0
    → q.lock_state ≡ state_free
    → (o : Served) × (schedule_shared localhost q (head_of ws) ≡ some o) × Inv (after [] o)
unfolding schedule_shared
schedule_shared-Inv localhost q [] e ex count f = (served q [], refl, rw f (e, refl, count))
schedule_shared-Inv localhost q (w ∷ ws) e (x, ex) count f = (
  grant_exclusive localhost q w,
  ground (arith, x),
  grant_exclusive-Inv localhost q w ws e x (All-map _ _ (λ a y. inr y) ws ex) count,
)

last_reader :
    (localhost : ℕ) (q : LockQueue) (rest : List LockQueueEntry)
    → q.lock_state ≡ state_shared
    → AllShared rest
    → AllExclusive q.request_queue
    → q.shared_counter ≡ pos (suc (length rest))
    → (o : Served) × (shared_unlock localhost q 0 ≡ some o) × Inv (after rest o)
unfolding shared_unlock get_head_request
last_reader localhost q [] f all ex count =
    let (o, e, v) =
      schedule_shared-Inv localhost (set_lock_state (sub_shared_counter q) state_free)
        q.request_queue refl ex (rw count refl) refl in
    let is_shared : is_state_shared q.lock_state ≡ true = rw f refl in
    let no_more : is_positive (pred q.shared_counter) ≡ false = rw count refl in
    (o, rw (is_shared, no_more) e, v)
last_reader localhost q (r ∷ rest) f all ex count = (
  served (sub_shared_counter q) [],
  ground (arith, f, count),
  rw f ((λ n. cc), all, ex, rw count refl),
)

-- An exclusive owner leaves.
pub exclusive_unlock-Inv :
    (localhost : ℕ) (s : QueueState) (q : LockQueue) (os rest : List LockQueueEntry)
    (e : LockQueueEntry)
    → q.lock_state ≡ s
    → e.op ≡ lock_excl
    → remove_owner e os ≡ some rest
    → Phase s q os
    → Inv (after rest (exclusive_unlock localhost q 0))
unfolding exclusive_unlock get_head_request
exclusive_unlock-Inv localhost state_free q os rest e f x h (no_queue, no_owner, count) =
    absurd (no_owner_leaves e rest (rw no_owner at h))
exclusive_unlock-Inv localhost state_shared q os rest e f x h (some_owner, sh, ex, count) =
    let (y, _, _) = remove_owner-AllShared e os rest (inr x) sh h in absurd (ground (arith, x, y))
exclusive_unlock-Inv localhost state_exclusive q os rest e f x h (o, one, oex, rs, count) =
    let gone : rest ≡ [] = only_owner_leaves e o rest (rw one at h) in
    rw (f, gone)
      (schedule_exclusive-Inv localhost (set_lock_state q state_free) q.request_queue refl rs count
        refl)

-- A shared owner leaves, and the abnormal condition does not occur.
pub shared_unlock-Inv :
    (localhost : ℕ) (s : QueueState) (q : LockQueue) (os rest : List LockQueueEntry)
    (e : LockQueueEntry)
    → q.lock_state ≡ s
    → e.op ≡ lock_shared
    → remove_owner e os ≡ some rest
    → Phase s q os
    → (o : Served) × (shared_unlock localhost q 0 ≡ some o) × Inv (after rest o)
unfolding shared_unlock
shared_unlock-Inv localhost state_free q os rest e f x h (no_queue, no_owner, count) =
    absurd (no_owner_leaves e rest (rw no_owner at h))
shared_unlock-Inv localhost state_exclusive q os rest e f x h (o, one, oex, rs, count) =
    absurd (wrong_owner e o rest x oex (rw one at h))
shared_unlock-Inv localhost state_shared q os rest e f x h (some_owner, sh, ex, count) =
    let (_, all, n) = remove_owner-AllShared e os rest (inl x) sh h in
    last_reader localhost q rest f all ex (rw n at count)
