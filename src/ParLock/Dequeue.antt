-- ===== src/ParLock/Dequeue.antt =====
-- `dequeue_shared_requests` and `erase_lock_request` of baseline/ParLock/lib/lock_queue.cc against
-- descriptions without an index.
use fisslock_bmv2_java.Base.{
  ℕ, zero, suc, ◌≡◌, ◌≤◌, Bool, true, not, List, [], ◌∷◌, ◌++◌, append-nil, append_assoc, none,
  some, arith, inl, inr, refl, Bool-cases, length, length-append, filter, get_elem?, ◌⊎◌,
}
use fisslock_bmv2_java.Post.{LockState, is_shared}
use fisslock_bmv2_java.ParLock.Queue.{
  LockQueueEntry, LockQueue, erase_at, dequeue_shared_loop, dequeue_shared_requests,
  get_shared_requests, matches, erase_first, erase_lock_request,
}

abbrev pub shared : LockQueueEntry → Bool
shared e = is_shared e.op

abbrev pub not_shared : LockQueueEntry → Bool
not_shared e = not (is_shared e.op)

get_elem?-middle :
    (pre : List LockQueueEntry) (e : LockQueueEntry) (es : List LockQueueEntry)
    → get_elem? (pre ++ e ∷ es) (length pre) ≡ some e
get_elem?-middle [] e es = refl
get_elem?-middle (p ∷ pre) e es = get_elem?-middle pre e es

get_elem?-end : (pre : List LockQueueEntry) → get_elem? pre (length pre) ≡ none
get_elem?-end [] = refl
get_elem?-end (p ∷ pre) = get_elem?-end pre

erase_at-middle :
    (pre : List LockQueueEntry) (e : LockQueueEntry) (es : List LockQueueEntry)
    → erase_at (length pre) (pre ++ e ∷ es) ≡ pre ++ es
erase_at-middle [] e es = refl
erase_at-middle (p ∷ pre) e es = rw (erase_at-middle pre e es)

-- With the entries before the place already passed over.
dequeue_shared_loop_lem :
    (n : ℕ) (pre es : List LockQueueEntry)
    → length es ≤ n
    → dequeue_shared_loop n (pre ++ es) (length pre)
      ≡ (filter shared es, pre ++ filter not_shared es)
unfolding dequeue_shared_loop filter
dequeue_shared_loop_lem zero pre [] h = refl
dequeue_shared_loop_lem zero pre (e ∷ es) h = absurd (omega (arith))
dequeue_shared_loop_lem (suc n) pre [] h = ground (arith, get_elem?-end pre, append-nil pre)
dequeue_shared_loop_lem (suc n) pre (e ∷ es) h =
    let here = get_elem?-middle pre e es in
    elim (Bool-cases (is_shared e.op)) [
      | inl s ↦
          ground (
            arith,
            s,
            here,
            erase_at-middle pre e es,
            dequeue_shared_loop_lem n pre es (omega arith),
          )
      | inr s ↦
          let passed = dequeue_shared_loop_lem n (pre ++ e ∷ []) es (omega arith) in
          ground (
            arith,
            s,
            here,
            rw
                (
                  append_assoc pre (e ∷ []) es,
                  append_assoc pre (e ∷ []) (filter not_shared es),
                  length-append pre (e ∷ []),
                )
                at passed,
          )
    ]

-- The loop with an index takes exactly the shared requests out of the queue, in order, and leaves
-- the others in order; so it returns what `get_shared_requests` would have.
pub dequeue_shared_requests_lem :
    (q : LockQueue)
    → dequeue_shared_requests q
      ≡ (get_shared_requests q, record q { request_queue = filter not_shared q.request_queue })
unfolding dequeue_shared_requests get_shared_requests
dequeue_shared_requests_lem q =
    rw (dequeue_shared_loop_lem (length q.request_queue) [] q.request_queue (omega arith))

erase_first_lem :
    (es : List LockQueueEntry) (requester host : ℕ) (op : LockState)
    → ((erase_first es requester host op ≡ (es, 0))
        × (filter (λ e. matches e requester host op) es ≡ []))
      ⊎ ((pre : List LockQueueEntry) × (e : LockQueueEntry) × (post : List LockQueueEntry) × (es
            ≡ pre ++ e ∷ post)
          × (matches e requester host op ≡ true)
          × (filter (λ e. matches e requester host op) pre ≡ [])
          × (erase_first es requester host op ≡ (pre ++ post, 1)))
unfolding erase_first filter
erase_first_lem [] requester host op = inl (refl, refl)
erase_first_lem (x ∷ es) requester host op = elim (Bool-cases (matches x requester host op)) [
  | inl m ↦ inr ([], x, es, refl, m, refl, ground (arith, m))
  | inr m ↦ elim (erase_first_lem es requester host op) [
    | inl (e, f) ↦ inl (ground (arith, m, e), ground (arith, m, f))
    | inr (pre, e, post, s, k, f, r) ↦
        inr (x ∷ pre, e, post, rw s, k, ground (arith, m, f), ground (arith, m, r))
  ]
]

-- An erased request is one entry of the queue, the first that matches; nothing is erased where none
-- matches.
pub erase_lock_request_lem :
    (q : LockQueue) (requester host : ℕ) (op : LockState)
    → ((erase_lock_request q requester host op ≡ (q, 0))
        × (filter (λ e. matches e requester host op) q.request_queue ≡ []))
      ⊎ ((pre : List LockQueueEntry) × (e : LockQueueEntry) × (post : List LockQueueEntry)
          × (q.request_queue ≡ pre ++ e ∷ post)
          × (matches e requester host op ≡ true)
          × (filter (λ e. matches e requester host op) pre ≡ [])
          × (erase_lock_request q requester host op
              ≡ (record q { request_queue = pre ++ post }, 1)))
unfolding erase_lock_request
erase_lock_request_lem q requester host op =
    elim (erase_first_lem q.request_queue requester host op) [
      | inl (e, f) ↦ inl (rw e, f)
      | inr (pre, e, post, s, m, f, r) ↦ inr (pre, e, post, s, m, f, rw r)
    ]
