-- ===== src/NetLock/Backup.antt =====
-- The server as the secondary of a lock (baseline/NetLock/lib/lock_server.cc): it keeps what the
-- switch has no slot for, and gives it back when the switch has emptied its queue.
use fisslock_bmv2_java.Base.{
  ℕ, zero, suc, ◌+◌, ◌≤◌, ◌≡◌, ◌⊎◌, ◌∙◌, ap, sym, inl, inr, List, [], ◌∷◌, ◌++◌, map, some, arith,
  refl, All, length, take, drop, take-append-drop, drop-length, get_elem?, get_elem?-append,
  length-append, append_assoc, pos, negsuc, Bool-cases, ltb, ℤ,
}
use fisslock_bmv2_java.NetLock.Queue.{
  push_back_lock, LockQueueNode, NodeQueue, dequeue_request, get_request, block_queue,
}
use fisslock_bmv2_java.NetLock.Server.{ServerPost, Served, served}
use fisslock_bmv2_java.NetLock.Dispatch.{
  dequeue_length, push_back_loop, dequeue_loop, process_secondary_release,
}

abbrev PushesBack : List ServerPost → Type 0
PushesBack = All (λ p. p.action_type ≡ push_back_lock)

pushes_one :
    (q : NodeQueue) (before ns : List LockQueueNode) (n : LockQueueNode) (rounds : ℕ)
    (ps : List ServerPost)
    → q.node_queue ≡ before ++ n ∷ ns
    → push_back_loop q (length before + 1) rounds ≡ some ps
    → push_back_loop q (length before) (suc rounds)
      ≡ some
          (record { node = n; action_type = push_back_lock; transferred = 0; ncnt = q.seqnum } ∷ ps)
unfolding push_back_loop get_request
pushes_one q before ns n rounds ps e later =
    let here : get_elem? q.node_queue (length before) ≡ some n =
      ap (λ l. get_elem? l (length before)) e ∙ get_elem?-append before n ns in
    ground (arith, here, later)

-- From a place on, the loop sends as many nodes as it makes rounds.
push_back_loop_lem :
    (q : NodeQueue) (before ns : List LockQueueNode) (rounds : ℕ)
    → q.node_queue ≡ before ++ ns
    → rounds ≤ length ns
    → (ps : List ServerPost) × (push_back_loop q (length before) rounds ≡ some ps)
      × (map (λ p. p.node) ps ≡ take rounds ns)
      × PushesBack ps
      × (length ps ≡ rounds)
unfolding push_back_loop
push_back_loop_lem q before ns zero e h = ([], refl, refl, tt, refl)
push_back_loop_lem q before [] (suc rounds) e h = absurd (omega arith)
push_back_loop_lem q before (n ∷ ns) (suc rounds) e h =
    let (ps, a, b, c, d) =
      push_back_loop_lem q (before ++ n ∷ []) ns rounds (e ∙ sym (append_assoc before (n ∷ []) ns))
        (omega arith) in
    let place : length (before ++ n ∷ []) ≡ length before + 1 =
      omega (arith, length-append before (n ∷ [])) in
    let later : push_back_loop q (length before + 1) rounds ≡ some ps = rw place at a in
    (
      record { node = n; action_type = push_back_lock; transferred = 0; ncnt = q.seqnum } ∷ ps,
      pushes_one q before ns n rounds ps e later,
      ap (λ l. n ∷ l) b,
      (refl, c),
      ap suc d,
    )

dequeue_loop_lem :
    (q : NodeQueue) (ns : List LockQueueNode) (rounds : ℕ)
    → q.node_queue ≡ ns
    → rounds ≤ length ns
    → dequeue_loop q rounds ≡ some (record q { node_queue = drop rounds ns })
unfolding dequeue_loop dequeue_request
dequeue_loop_lem q ns zero e h = rw (← e) refl
dequeue_loop_lem q [] (suc rounds) e h = absurd (omega arith)
dequeue_loop_lem q (n ∷ ns) (suc rounds) e h =
    rw e (dequeue_loop_lem (record q { node_queue = ns }) ns rounds refl (omega arith))

release_rounds :
    (q : NodeQueue) (rounds : ℕ)
    → rounds ≤ length q.node_queue
    → let q' = block_queue q in
      (ps : List ServerPost) × (push_back_loop q' 0 rounds ≡ some ps)
      × (dequeue_loop q' rounds ≡ some (record q' { node_queue = drop rounds q.node_queue }))
      × (map (λ p. p.node) ps ++ drop rounds q.node_queue ≡ q.node_queue)
      × PushesBack ps
      × (length ps ≡ rounds)
release_rounds q rounds h =
    let (ps, a, b, c, d) = push_back_loop_lem (block_queue q) [] q.node_queue rounds refl h in
    (
      ps,
      a,
      dequeue_loop_lem (block_queue q) q.node_queue rounds refl h,
      ap (λ l. l ++ drop rounds q.node_queue) b ∙ take-append-drop rounds q.node_queue,
      c,
      d,
    )

release_at :
    (q q' : NodeQueue) (slots : ℤ) (rounds : ℕ) (ps : List ServerPost)
    → dequeue_length (length q.node_queue) slots ≡ rounds
    → push_back_loop (block_queue q) 0 rounds ≡ some ps
    → dequeue_loop (block_queue q) rounds ≡ some q'
    → process_secondary_release q slots ≡ some (served q' ps)
unfolding process_secondary_release
release_at q q' slots rounds ps e a b = ground (arith, e, a, b)

-- The release of a secondary never fails. It pushes back the first entries of the queue, in their
-- order, and keeps the others: no more than the switch has slots, and fewer only if none is left; for
-- a negative number of slots none.
pub process_secondary_release-splits :
    (q : NodeQueue) (slots : ℕ)
    → (o : Served) × (process_secondary_release q (pos slots) ≡ some o)
      × (map (λ p. p.node) o.posts ++ o.queue.node_queue ≡ q.node_queue)
      × All (λ p. p.action_type ≡ push_back_lock) o.posts
      × (length o.posts ≤ slots)
      × ((length o.posts ≡ slots) ⊎ (o.queue.node_queue ≡ []))
      × (process_secondary_release q (negsuc slots) ≡ some (served (block_queue q) []))
unfolding dequeue_length push_back_loop dequeue_loop
process_secondary_release-splits q slots = elim (Bool-cases (ltb (length q.node_queue) slots)) [
  | inl few ↦
      let n = length q.node_queue in
      let (ps, a, b, c, d, e) = release_rounds q n (omega arith) in
      let q' = record (block_queue q) { node_queue = drop n q.node_queue } in
      (
        served q' ps,
        release_at q q' (pos slots) n ps (ground (arith, few)) a b,
        c,
        d,
        ground (arith, few, e),
        inr (drop-length q.node_queue),
        release_at q (block_queue q) (negsuc slots) 0 [] refl refl refl,
      )
  | inr many ↦
      let (ps, a, b, c, d, e) = release_rounds q slots (ground (arith, many)) in
      let q' = record (block_queue q) { node_queue = drop slots q.node_queue } in
      (
        served q' ps,
        release_at q q' (pos slots) slots ps (ground (arith, many)) a b,
        c,
        d,
        omega (arith, e),
        inl e,
        release_at q (block_queue q) (negsuc slots) 0 [] refl refl refl,
      )
]
