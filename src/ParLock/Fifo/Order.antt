-- ===== src/ParLock/Fifo/Order.antt =====
-- ParLock's first-come policy (baseline/ParLock/lib/server.cc) over any sequence of packets: owners
-- are served in the order of arrival.
use fisslock_bmv2_java.Base.{
  ℕ, ◌≡◌, ◌∙◌, sym, List, [], ◌∷◌, ◌++◌, some, inl, inr, refl, arith, All, pos,
}
use mathlib.Core.Path.{subst}
use fisslock_bmv2_java.Post.{lock_excl}
use fisslock_bmv2_java.Post.Modes.{IsRequest}
use fisslock_bmv2_java.ParLock.Queue.{LockQueueEntry, new_lock_queue, head_shared}
use fisslock_bmv2_java.ParLock.Server.{LockRequest, Served, entry_of}
use fisslock_bmv2_java.ParLock.System.{Shared, remove_owner}
use fisslock_bmv2_java.ParLock.System.Invariant.{AllShared}
use fisslock_bmv2_java.ParLock.System.Safety.{in_empty, in_shared}
use fisslock_bmv2_java.ParLock.Fifo.{fifo_serve_lock, fifo_serve_unlock}
use fisslock_bmv2_java.ParLock.Fifo.Front.{
  front, front-exclusive, front-shared, count_shared, count_exclusive, IsFifo,
}
use fisslock_bmv2_java.ParLock.Fifo.Grants.{behind, fifo_serve_lock-IsFifo}
use fisslock_bmv2_java.ParLock.Fifo.Releases.{IsSole, fifo_serve_unlock-IsFifo}

some_injective : {o o' : Served} → some o ≡ some o' → o ≡ o'
some_injective e = cc

start-IsFifo : IsFifo (record { queue = new_lock_queue; owners = [] })
unfolding front count_shared count_exclusive
start-IsFifo = record {
  requests = tt;
  shared_count = refl;
  exclusive_count = refl;
  owners_in_front = refl;
}

head_shared-AllShared :
    (es : List LockQueueEntry) → All (λ e. IsRequest e.op) es → AllShared (head_shared es)
unfolding head_shared
head_shared-AllShared [] r = tt
head_shared-AllShared (e ∷ es) (inl x, r) = ground (arith, x, head_shared-AllShared es r)
head_shared-AllShared (e ∷ es) (inr x, r) = ground (arith, x)

single_in :
    (before after : List LockQueueEntry) (e o : LockQueueEntry)
    → o ∷ [] ≡ before ++ e ∷ after
    → o ∷ [] ≡ e ∷ []
single_in [] after e o h = cc
single_in (b ∷ before) after e o h = absurd (in_empty before after e cc)

front_alone :
    (es before after : List LockQueueEntry) (e : LockQueueEntry)
    → All (λ w. IsRequest w.op) es
    → front es ≡ before ++ e ∷ after
    → e.op ≡ lock_excl
    → front es ≡ e ∷ []
unfolding front
front_alone [] before after e r own x = absurd (in_empty before after e own)
front_alone (h ∷ es) before after e (inr y, r) own x =
    let f = front-exclusive h es y in f ∙ single_in before after e h (sym f ∙ own)
front_alone (h ∷ es) before after e (inl y, r) own x =
    let f = front-shared h es y in
    absurd
      (in_shared before after e x (subst AllShared (sym f ∙ own) (y, head_shared-AllShared es r)))

module _ (localhost : ℕ) where
  -- Anybody asks; an owner releases, whose number nobody else in the queue has.
  pub data FifoStep (s : Shared) : Shared → Type 0 where
    fifo_acquire : (hd : LockRequest) → FifoStep s (behind s.owners (fifo_serve_lock hd s.queue))
    fifo_release :
        (hd : LockRequest) (rest : List LockQueueEntry) (o : Served)
        → IsRequest hd.op
        → remove_owner (entry_of hd) s.owners ≡ some rest
        → All (IsSole (entry_of hd)) s.queue.request_queue
        → fifo_serve_unlock localhost hd s.queue ≡ some o
        → FifoStep s (behind rest o)

  pub data FifoReach : Shared → Type 0 where
    fifo_start : FifoReach (record { queue = new_lock_queue; owners = [] })
    fifo_later : {s t : Shared} → FifoReach s → FifoStep s t → FifoReach t

  FifoStep-IsFifo : {s t : Shared} → FifoStep s t → IsFifo s → IsFifo t
  FifoStep-IsFifo {s} (fifo_acquire hd) v = fifo_serve_lock-IsFifo hd.op s hd refl v
  FifoStep-IsFifo {s} (fifo_release hd rest o req own sole e) v =
      let (o', e', k) = fifo_serve_unlock-IsFifo localhost s hd rest req own sole v in
      subst (λ r. IsFifo (behind rest r)) (some_injective (sym e' ∙ e)) k

  FifoReach-IsFifo : {s : Shared} → FifoReach s → IsFifo s
  FifoReach-IsFifo fifo_start = start-IsFifo
  FifoReach-IsFifo (fifo_later r st) = FifoStep-IsFifo st (FifoReach-IsFifo r)

  -- Under the first-come policy, if only owners release, and then no other request in the queue has
  -- their number, the owners are in every reachable state the front of the queue, in the order of
  -- arrival, and the counters count the requests in the queue.
  pub owners_come_first :
      {s : Shared}
      → FifoReach s
      → (s.owners ≡ front s.queue.request_queue)
        × (s.queue.shared_counter ≡ pos (count_shared s.queue.request_queue))
        × (s.queue.exclusive_counter ≡ pos (count_exclusive s.queue.request_queue))
  owners_come_first r =
      let v = FifoReach-IsFifo r in (v.owners_in_front, v.shared_count, v.exclusive_count)

  -- In every state that is so reached under the first-come policy an exclusive owner is the only owner.
  pub fifo_exclusive_alone :
      {s : Shared}
      → FifoReach s
      → (e : LockQueueEntry) (before after : List LockQueueEntry) → s.owners ≡ before ++ e ∷ after
      → e.op ≡ lock_excl
      → s.owners ≡ e ∷ []
  fifo_exclusive_alone {s} r e before after own x =
      let v = FifoReach-IsFifo r in
      v.owners_in_front
      ∙ front_alone s.queue.request_queue before after e v.requests (sym v.owners_in_front ∙ own) x
