-- ===== src/ParLock/Fifo/Releases.antt =====
-- Releases under ParLock's first-come policy (baseline/ParLock/lib/server.cc) pass a lock on to the
-- new front of its queue.
use fisslock_bmv2_java.Base.{
  ℕ, ◌≡◌, ◌∙◌, sym, ap, ◌==◌, true, false, List, [], ◌∷◌, ◌++◌, map, append-nil, some, Bool-cases,
  inl, inr, arith, refl, All, pos,
}
use fisslock_bmv2_java.Post.{lock_shared, lock_excl, is_shared, is_excl}
use fisslock_bmv2_java.Post.Modes.{IsRequest}
use fisslock_bmv2_java.ParLock.Queue.{
  LockQueueEntry, LockQueue, matches, head_of, head_shared, get_head_shared_requests,
  get_head_request, dequeue_request, erase_first, erase_lock_request, sub_shared_counter,
  sub_exclusive_counter,
}
use fisslock_bmv2_java.ParLock.Server.{LockRequest, Grant, Served, served, entry_of, grant_to}
use fisslock_bmv2_java.ParLock.System.{Shared, granted_entry, remove_owner}
use fisslock_bmv2_java.ParLock.Fifo.{
  fifo_serve_unlock, fifo_exclusive_unlock, fifo_shared_unlock, fifo_shared_abort, after_exclusive,
  after_shared,
}
use fisslock_bmv2_java.ParLock.Fifo.Owners.{
  erase_in_front, sole_owner, count_shared-other, count_exclusive-head, count_shared-head,
  count_exclusive-other, same_number, behind_head, head_leaves, none_leaves, erase_behind,
  shared_owner,
}
use fisslock_bmv2_java.ParLock.Fifo.Grants.{behind, granted_entry-grant_to, granted_entries}
use fisslock_bmv2_java.ParLock.Fifo.Front.{
  front-exclusive, front-shared, front, count_shared, count_exclusive, IsFifo,
}

after_exclusive-front :
    (localhost : ℕ) (q : LockQueue) (es : List LockQueueEntry)
    → q.request_queue ≡ es
    → All (λ w. IsRequest w.op) es
    → after_exclusive localhost q (head_of es) ≡ served q (map (grant_to localhost) (front es))
unfolding after_exclusive front get_head_shared_requests head_shared
after_exclusive-front localhost q [] e r = refl
after_exclusive-front localhost q (x ∷ es) e (inr y, r) = ground (arith, y)
after_exclusive-front localhost q (x ∷ es) e (inl y, r) =
    let s : is_excl x.op ≡ false = rw y refl in
    let t : is_shared x.op ≡ true = rw y refl in ground (arith, s, t, e)

after_shared-front :
    (localhost : ℕ) (q : LockQueue) (es : List LockQueueEntry)
    → All (λ w. IsRequest w.op) es
    → (gs : List Grant) × (after_shared localhost q (head_of es) ≡ served q gs)
      × (head_shared es ++ map granted_entry gs ≡ front es)
unfolding after_shared front head_shared
after_shared-front localhost q [] r = ([], refl, refl)
after_shared-front localhost q (x ∷ es) (inr y, r) = (
  grant_to localhost x ∷ [],
  ground (arith, y),
  ground (arith, y, granted_entry-grant_to localhost x),
)
after_shared-front localhost q (x ∷ es) (inl y, r) =
    ([], ground (arith, y), ground (arith, y, append-nil (x ∷ head_shared es)))

-- Nobody else in the queue has the requester's number.
abbrev pub IsSole : LockQueueEntry → LockQueueEntry → Type 0
IsSole e w = w.requester ≡ e.requester → matches w e.requester e.host e.op ≡ true

module _ (localhost : ℕ) (q : LockQueue) (hd : LockRequest) (h : LockQueueEntry)
    (es rest : List LockQueueEntry) (e : q.request_queue ≡ h ∷ es)
    (r : All (λ w. IsRequest w.op) es) (sc : q.shared_counter ≡ pos (count_shared (h ∷ es)))
    (ec : q.exclusive_counter ≡ pos (count_exclusive (h ∷ es))) where
  serve_exclusive :
      hd.op ≡ lock_excl
      → (h.requester == hd.lh_id) ≡ true
      → fifo_serve_unlock localhost hd q
        ≡ some (
            after_exclusive localhost
              (sub_exclusive_counter (dequeue_request q))
              (get_head_request (sub_exclusive_counter (dequeue_request q))))
  unfolding fifo_serve_unlock fifo_exclusive_unlock get_head_request
  serve_exclusive x same =
      let a : get_head_request q ≡ some h = rw e refl in ground (arith, x, a, same)

  serve_shared :
      hd.op ≡ lock_shared
      → (h.requester == hd.lh_id) ≡ true
      → fifo_serve_unlock localhost hd q
        ≡ some (
            after_shared localhost
              (sub_shared_counter (dequeue_request q))
              (get_head_request (sub_shared_counter (dequeue_request q))))
  unfolding fifo_serve_unlock fifo_shared_unlock get_head_request
  serve_shared x same =
      let a : get_head_request q ≡ some h = rw e refl in ground (arith, x, a, same)

  serve_behind :
      hd.op ≡ lock_shared
      → (h.requester == hd.lh_id) ≡ false
      → fifo_serve_unlock localhost hd q ≡ some (fifo_shared_abort q hd.lh_id hd.machine_id hd.op)
  unfolding fifo_serve_unlock fifo_shared_unlock get_head_request
  serve_behind x other =
      let a : get_head_request q ≡ some h = rw e refl in ground (arith, x, a, other)

  abbrev dequeued : List LockQueueEntry
  dequeued = (dequeue_request q).request_queue

  release_exclusive_head :
      h.op ≡ lock_excl
      → remove_owner (entry_of hd) (h ∷ []) ≡ some rest
      → IsRequest hd.op
      → (o : Served) × (fifo_serve_unlock localhost hd q ≡ some o) × IsFifo (behind rest o)
  unfolding dequeue_request get_head_request
  release_exclusive_head x own req =
      let (n, m, y) = sole_owner h (entry_of hd) rest x req own in
      let o =
        after_exclusive localhost (sub_exclusive_counter (dequeue_request q))
          (get_head_request (sub_exclusive_counter (dequeue_request q))) in
      let d : dequeued ≡ es = rw e refl in
      let f =
        after_exclusive-front localhost (sub_exclusive_counter (dequeue_request q)) dequeued refl
          (rw d r) in
      (
        o,
        serve_exclusive y m,
        rw (n, f)
            (record {
              requests = rw d r;
              shared_count = rw d (sc ∙ ap pos (count_shared-other h es x));
              exclusive_count = rw (d, ec, count_exclusive-head h es x) refl;
              owners_in_front = granted_entries localhost (front dequeued);
            }),
      )

  release_shared_head :
      h.op ≡ lock_shared
      → (h.requester == hd.lh_id) ≡ true
      → remove_owner (entry_of hd) (h ∷ head_shared es) ≡ some rest
      → rest ≡ head_shared es
      → hd.op ≡ lock_shared
      → (o : Served) × (fifo_serve_unlock localhost hd q ≡ some o) × IsFifo (behind rest o)
  unfolding dequeue_request get_head_request
  release_shared_head x same own n y =
      let o =
        after_shared localhost (sub_shared_counter (dequeue_request q))
          (get_head_request (sub_shared_counter (dequeue_request q))) in
      let d : dequeued ≡ es = rw e refl in
      let (gs, f, g) =
        after_shared-front localhost (sub_shared_counter (dequeue_request q)) dequeued (rw d r) in
      let n' : rest ≡ head_shared dequeued = n ∙ ap head_shared (sym d) in
      (
        o,
        serve_shared y same,
        rw (n', f)
            (record {
              requests = rw d r;
              shared_count = rw (d, sc, count_shared-head h es x) refl;
              exclusive_count = rw d (ec ∙ ap pos (count_exclusive-other h es x));
              owners_in_front = g;
            }),
      )

  release_behind_head :
      h.op ≡ lock_shared
      → (h.requester == hd.lh_id) ≡ false
      → remove_owner (entry_of hd) (h ∷ head_shared es) ≡ some rest
      → hd.op ≡ lock_shared
      → (o : Served) × (fifo_serve_unlock localhost hd q ≡ some o) × IsFifo (behind rest o)
  unfolding fifo_shared_abort erase_lock_request
  release_behind_head x other own y =
      let (left, k, n) = behind_head h (entry_of hd) (head_shared es) rest other own in
      let (es', a, b, c, d, q') = erase_in_front (entry_of hd) es left y r k in
      let erased : erase_first q.request_queue hd.lh_id hd.machine_id hd.op ≡ (h ∷ es', 1) =
        rw e (erase_behind h (entry_of hd) es es' other a) in
      let o = served (sub_shared_counter (record q { request_queue = h ∷ es' })) [] in
      (
        o,
        serve_behind y other ∙ rw erased refl,
        record {
          requests = (inl x, q');
          shared_count = rw (sc, count_shared-head h es x, c, count_shared-head h es' x) refl;
          exclusive_count =
              ec ∙ ap pos (count_exclusive-other h es x ∙ d ∙ sym (count_exclusive-other h es' x));
          owners_in_front = rw (n, append-nil left, front-shared h es' x, b) refl;
        },
      )

go :
    (localhost : ℕ) (q : LockQueue) (hd : LockRequest) (ws rest : List LockQueueEntry)
    → q.request_queue ≡ ws
    → All (λ w. IsRequest w.op) ws
    → q.shared_counter ≡ pos (count_shared ws)
    → q.exclusive_counter ≡ pos (count_exclusive ws)
    → remove_owner (entry_of hd) (front ws) ≡ some rest
    → IsRequest hd.op
    → All (IsSole (entry_of hd)) ws
    → (o : Served) × (fifo_serve_unlock localhost hd q ≡ some o) × IsFifo (behind rest o)
go localhost q hd [] rest e r sc ec own req sole = absurd (none_leaves (entry_of hd) rest own)
go localhost q hd (h ∷ es) rest e (inr x, r) sc ec own req sole =
    release_exclusive_head localhost q hd h es rest e r sc ec x (rw (front-exclusive h es x) at own)
      req
go localhost q hd (h ∷ es) rest e (inl x, r) sc ec own req sole =
    let own' = rw (front-shared h es x) at own in
    let y = shared_owner (entry_of hd) h es rest x req own' in
    elim (Bool-cases (h.requester == hd.lh_id)) [
      | inl same ↦
          release_shared_head localhost q hd h es rest e r sc ec x same own'
            (head_leaves h (entry_of hd) (head_shared es) rest
              (sole.0 (same_number h.requester hd.lh_id same)) own')
            y
      | inr other ↦ release_behind_head localhost q hd h es rest e r sc ec x other own' y
    ]

-- An owner of the lock leaves, and nobody else in the queue has its number: the handlers serve it,
-- and the owners are the front of the queue again.
pub fifo_serve_unlock-IsFifo :
    (localhost : ℕ) (s : Shared) (hd : LockRequest) (rest : List LockQueueEntry)
    → IsRequest hd.op
    → remove_owner (entry_of hd) s.owners ≡ some rest
    → All (IsSole (entry_of hd)) s.queue.request_queue
    → IsFifo s
    → (o : Served) × (fifo_serve_unlock localhost hd s.queue ≡ some o) × IsFifo (behind rest o)
fifo_serve_unlock-IsFifo localhost s hd rest req own sole v =
    go localhost s.queue hd s.queue.request_queue rest refl v.requests v.shared_count
      v.exclusive_count (rw v.owners_in_front at own) req sole
