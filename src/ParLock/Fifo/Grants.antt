-- ===== src/ParLock/Fifo/Grants.antt =====
-- The server's handlers under ParLock's first-come policy (baseline/ParLock/lib/server.cc) grant a
-- lock to the front of its queue.
use fisslock_bmv2_java.Base.{
  ℕ, zero, suc, ◌≡◌, ◌∙◌, ap, true, false, List, [], ◌∷◌, ◌++◌, map, append-nil, Bool-cases, inl,
  inr, arith, refl, All, All-append, if◌then◌else◌, pos, is_zero, ◌&&◌, ◌⊎◌,
}
use fisslock_bmv2_java.Post.{LockState, free, release, lock_shared, lock_excl, is_shared, is_excl}
use fisslock_bmv2_java.Post.Modes.{IsRequest}
use fisslock_bmv2_java.ParLock.Queue.{LockQueueEntry, enqueue_request}
use fisslock_bmv2_java.ParLock.Server.{LockRequest, Served, entry_of, grant_to}
use fisslock_bmv2_java.ParLock.System.{Shared, granted_entry}
use fisslock_bmv2_java.ParLock.Fifo.{fifo_exclusive_lock, fifo_shared_lock, fifo_serve_lock}
use fisslock_bmv2_java.ParLock.Fifo.Front.{
  front, count_shared, count_exclusive, IsFifo, count_shared-append_one, count_exclusive-append_one,
  front-all, front-append, front-append_exclusive,
}

pub granted_entry-grant_to :
    (localhost : ℕ) (e : LockQueueEntry) → granted_entry (grant_to localhost e) ≡ e
granted_entry-grant_to localhost e = ground arith

Nat-cases : (n : ℕ) → (n ≡ 0) ⊎ ((k : ℕ) × (n ≡ suc k))
Nat-cases zero = inl refl
Nat-cases (suc k) = inr (k, refl)

pub granted_entries :
    (localhost : ℕ) (es : List LockQueueEntry)
    → map granted_entry (map (grant_to localhost) es) ≡ es
granted_entries localhost [] = refl
granted_entries localhost (e ∷ es) =
    rw (granted_entry-grant_to localhost e, granted_entries localhost es) refl

no_requests :
    (es : List LockQueueEntry)
    → All (λ e. IsRequest e.op) es
    → count_shared es ≡ 0
    → count_exclusive es ≡ 0
    → es ≡ []
unfolding count_shared count_exclusive
no_requests [] r a b = refl
no_requests (e ∷ es) (inl s, r) a b = absurd (ground (arith, s))
no_requests (e ∷ es) (inr s, r) a b = absurd (ground (arith, s))

-- The grants of a handler go behind the owners.
abbrev pub behind : List LockQueueEntry → Served → Shared
behind os r = record { queue = r.queue; owners = os ++ map granted_entry r.grants }

single : (e : LockQueueEntry) → e.op ≡ lock_excl → front (e ∷ []) ≡ e ∷ []
unfolding front
single e x = ground (arith, x)

front_none : front [] ≡ []
unfolding front
front_none = refl

front_after_exclusive :
    (es : List LockQueueEntry) (e : LockQueueEntry)
    → All (λ w. IsRequest w.op) es
    → e.op ≡ lock_excl
    → front (es ++ e ∷ []) ≡ (
        if is_zero (pos (count_shared es)) && is_zero (pos (count_exclusive es))
        then front es ++ e ∷ []
        else front es)
unfolding count_shared count_exclusive
front_after_exclusive [] e r x = rw (single e x, front_none) refl
front_after_exclusive (h ∷ es) e (inl y, r) x =
    rw (front-append_exclusive h es e x) (ground (arith, y))
front_after_exclusive (h ∷ es) e (inr y, r) x =
    rw (front-append_exclusive h es e x) (ground (arith, y))

front_after_shared :
    (es : List LockQueueEntry) (e : LockQueueEntry)
    → All (λ w. IsRequest w.op) es
    → e.op ≡ lock_shared
    → front (es ++ e ∷ [])
      ≡ (if is_zero (pos (count_exclusive es)) then front es ++ e ∷ [] else front es)
front_after_shared es e r x = elim (Nat-cases (count_exclusive es)) [
  | inl z ↦
      let more : count_exclusive (es ++ e ∷ []) ≡ 0 =
        ground (arith, z, x, count_exclusive-append_one es e) in
      rw
        (
          z,
          front-all (es ++ e ∷ []) (All-append _ es (e ∷ []) r (inl x, tt)) more,
          front-all es r z,
        )
        refl
  | inr (n, z) ↦ rw (front-append es e r (λ o. omega (arith, z, o)), z) refl
]

fifo_exclusive_lock-IsFifo :
    (s : Shared) (hd : LockRequest)
    → hd.op ≡ lock_excl
    → IsFifo s
    → IsFifo (behind s.owners (fifo_exclusive_lock s.queue hd))
unfolding fifo_exclusive_lock enqueue_request
fifo_exclusive_lock-IsFifo s hd x v =
    let es = s.queue.request_queue in
    let r = All-append _ es (entry_of hd ∷ []) v.requests (inr x, tt) in
    let sc = count_shared-append_one es (entry_of hd) in
    let ec = count_exclusive-append_one es (entry_of hd) in
    let f = front_after_exclusive es (entry_of hd) v.requests x in
    elim (Bool-cases (is_zero (pos (count_shared es)) && is_zero (pos (count_exclusive es)))) [
      | inl z ↦
          rw (v.shared_count, v.exclusive_count, z)
            (record {
              requests = r;
              shared_count = ap pos (ground (arith, sc, x));
              exclusive_count = ap pos (ground (arith, ec, x));
              owners_in_front = rw (f, z, v.owners_in_front) refl;
            })
      | inr z ↦
          rw (v.shared_count, v.exclusive_count, z)
            (record {
              requests = r;
              shared_count = ap pos (ground (arith, sc, x));
              exclusive_count = ap pos (ground (arith, ec, x));
              owners_in_front = rw (f, z, v.owners_in_front, append-nil (front es)) refl;
            })
    ]

fifo_shared_lock-IsFifo :
    (s : Shared) (hd : LockRequest)
    → hd.op ≡ lock_shared
    → IsFifo s
    → IsFifo (behind s.owners (fifo_shared_lock s.queue hd))
unfolding fifo_shared_lock enqueue_request
fifo_shared_lock-IsFifo s hd x v =
    let es = s.queue.request_queue in
    let r = All-append _ es (entry_of hd ∷ []) v.requests (inl x, tt) in
    let sc = count_shared-append_one es (entry_of hd) in
    let ec = count_exclusive-append_one es (entry_of hd) in
    let f = front_after_shared es (entry_of hd) v.requests x in
    elim (Bool-cases (is_zero (pos (count_exclusive es)))) [
      | inl z ↦
          rw (v.shared_count, v.exclusive_count, z)
            (record {
              requests = r;
              shared_count = ap pos (ground (arith, sc, x));
              exclusive_count = ap pos (ground (arith, ec, x));
              owners_in_front = rw (f, z, v.owners_in_front) refl;
            })
      | inr z ↦
          rw (v.shared_count, v.exclusive_count, z)
            (record {
              requests = r;
              shared_count = ap pos (ground (arith, sc, x));
              exclusive_count = ap pos (ground (arith, ec, x));
              owners_in_front = rw (f, z, v.owners_in_front, append-nil (front es)) refl;
            })
    ]

unserved : (s : Shared) → IsFifo s → IsFifo (record { queue = s.queue; owners = s.owners ++ [] })
unserved s v = record {
  requests = v.requests;
  shared_count = v.shared_count;
  exclusive_count = v.exclusive_count;
  owners_in_front = append-nil s.owners ∙ v.owners_in_front;
}

-- An acquire keeps the owners in front; one with another operator changes nothing.
pub fifo_serve_lock-IsFifo :
    (op : LockState) (s : Shared) (hd : LockRequest)
    → hd.op ≡ op
    → IsFifo s
    → IsFifo (behind s.owners (fifo_serve_lock hd s.queue))
unfolding fifo_serve_lock
fifo_serve_lock-IsFifo lock_excl s hd x v =
    let t : is_excl hd.op ≡ true = rw x refl in rw t (fifo_exclusive_lock-IsFifo s hd x v)
fifo_serve_lock-IsFifo lock_shared s hd x v =
    let t : is_excl hd.op ≡ false = rw x refl in
    let u : is_shared hd.op ≡ true = rw x refl in rw (t, u) (fifo_shared_lock-IsFifo s hd x v)
fifo_serve_lock-IsFifo free s hd x v =
    let t : is_excl hd.op ≡ false = rw x refl in
    let u : is_shared hd.op ≡ false = rw x refl in rw (t, u) (unserved s v)
fifo_serve_lock-IsFifo release s hd x v =
    let t : is_excl hd.op ≡ false = rw x refl in
    let u : is_shared hd.op ≡ false = rw x refl in rw (t, u) (unserved s v)
