-- ===== src/NetLock/System/Moves.antt =====
-- A release of an owner keeps a NetLock queue's invariant (baseline/NetLock/lib/lock_server.cc), and
-- so does that of a waiter, which gives up.
use fisslock_bmv2_java.Base.{
  ℕ, suc, ◌+◌, ◌≡◌, ◌≢◌, ◌∙◌, ap, true, false, List, [], ◌∷◌, map, append-nil, none, some, arith,
  inl, inr, refl, sym, filter, length, Bool-cases, pos, pred, ◌==◌, is_positive, if◌then◌else◌,
}
use fisslock_bmv2_java.ParLock.Queue.{
  QueueState, state_free, state_shared, state_exclusive, is_state_shared, is_state_exclusive,
}
use fisslock_bmv2_java.NetLock.Queue.{
  shared, exclusive, LockQueueNode, is_shared_node, NodeQueue, pop_front, get_head_request,
  get_shared_requests, set_lock_state, add_shared_counter, sub_shared_counter, block_queue,
  erase_lock_request, erase_loop,
}
use fisslock_bmv2_java.NetLock.Server.{
  served, with_payload, write_shared, grant_head, schedule_shared, release_shared, grant_loop,
  grant_all_shared, schedule_exclusive, release_exclusive, process_primary_release,
}
use fisslock_bmv2_java.NetLock.System.{names, remove_first, after}
use fisslock_bmv2_java.NetLock.System.Invariant.{AllModes, Phase, Inv}
use fisslock_bmv2_java.NetLock.System.Erasing

grant_loop_lem :
    (node : LockQueueNode) (n : ℕ) (q : NodeQueue) (ns : List LockQueueNode)
    → q.shared_counter ≡ pos n
    → let r = grant_loop q node ns in
      (r.0 ≡ record q { shared_counter = pos (length ns + n) })
      × (map (λ p. p.node) r.1 ≡ map (with_payload node.payload) ns)
unfolding grant_loop
grant_loop_lem node n q [] c = (ground arith, refl)
grant_loop_lem node n q (e ∷ es) c =
    let (a, b) = grant_loop_lem node (suc n) (add_shared_counter q) es (rw c) in
    (rw a (ap (λ k. record q { shared_counter = pos k }) (omega arith)), rw b refl)

filter-write_shared :
    (p : List ℕ) (ns : List LockQueueNode)
    → filter is_shared_node (map (write_shared p) ns)
      ≡ map (with_payload p) (filter is_shared_node ns)
unfolding filter
filter-write_shared p [] = refl
filter-write_shared p (n ∷ ns) = ground (arith, filter-write_shared p ns)

AllModes-write_shared :
    (p : List ℕ) (ns : List LockQueueNode) → AllModes ns → AllModes (map (write_shared p) ns)
AllModes-write_shared p [] a = tt
AllModes-write_shared p (n ∷ ns) (m, a) = elim (Bool-cases (is_shared_node n)) [
  | inl s ↦ rw s (m, AllModes-write_shared p ns a)
  | inr s ↦ rw s (m, AllModes-write_shared p ns a)
]

length-map {ℓ κ} :
    {A : Type ℓ} {B : Type κ} (f : A → B) (xs : List A) → length (map f xs) ≡ length xs
length-map f [] = refl
length-map f (x ∷ xs) = rw (length-map f xs)

module _ (q : NodeQueue) (node : LockQueueNode) (count : q.shared_counter ≡ pos 0) where
  grant_head-Inv :
      (h : LockQueueNode) (rest : List LockQueueNode)
      → q.node_queue ≡ h ∷ rest
      → h.mode ≡ exclusive
      → AllModes rest
      → Inv (after [] (grant_head q node h))
  unfolding grant_head
  grant_head-Inv h rest e x a = (with_payload node.payload h, rest, rw e refl, refl, x, a, count)

  grant_all_shared-Inv :
      (h : LockQueueNode) (rest : List LockQueueNode)
      → q.node_queue ≡ h ∷ rest
      → h.mode ≡ shared
      → AllModes (h ∷ rest)
      → Inv (after [] (grant_all_shared q node))
  unfolding grant_all_shared get_shared_requests filter
  grant_all_shared-Inv h rest e x a =
      let p = node.payload in
      let taken = filter is_shared_node q.node_queue in
      let left = record q {
        lock_state = state_shared;
        node_queue = map (write_shared p) q.node_queue;
      } in
      let (counted, all) = grant_loop_lem node 0 left taken count in
      let s : is_shared_node h ≡ true = ground arith in
      let some_taken : map (with_payload p) taken ≢ [] = rw (e, s) (λ n. cc) in
      rw (counted, all)
        (
          some_taken,
          sym (filter-write_shared p q.node_queue),
          AllModes-write_shared p q.node_queue (rw e a),
          ap pos (ground (arith, length-map (with_payload p) taken)),
        )

  schedule_exclusive-Inv :
      (ns : List LockQueueNode)
      → q.node_queue ≡ ns
      → AllModes ns
      → q.lock_state ≡ state_free
      → Inv (after [] (schedule_exclusive q node (pop_front ns).0))
  unfolding schedule_exclusive
  schedule_exclusive-Inv [] e a f = rw f (e, refl, count)
  schedule_exclusive-Inv (h ∷ rest) e (inr x, a) f =
      let t : (h.mode == exclusive) ≡ true = ground arith in rw t (grant_head-Inv h rest e x a)
  schedule_exclusive-Inv (h ∷ rest) e (inl x, a) f =
      let t : (h.mode == exclusive) ≡ false = ground arith in
      let u : (h.mode == shared) ≡ true = ground arith in
      rw (t, u) (grant_all_shared-Inv h rest e x (inl x, a))

  -- Nobody shares the lock any more, so the head waits for it exclusively.
  schedule_shared-Inv :
      (ns : List LockQueueNode)
      → q.node_queue ≡ ns
      → AllModes ns
      → filter is_shared_node ns ≡ []
      → q.lock_state ≡ state_free
      → Inv (after [] (schedule_shared q node (pop_front ns).0))
  unfolding schedule_shared filter
  schedule_shared-Inv [] e a none_shared f = rw f (e, refl, count)
  schedule_shared-Inv (h ∷ rest) e (inr x, a) none_shared f =
      let t : (h.mode == exclusive) ≡ true = ground arith in rw t (grant_head-Inv h rest e x a)
  schedule_shared-Inv (h ∷ rest) e (inl x, a) none_shared f = absurd (ground arith)

last_reader :
    (q : NodeQueue) (node : LockQueueNode) (rest : List LockQueueNode)
    → q.lock_state ≡ state_shared
    → filter is_shared_node q.node_queue ≡ rest
    → AllModes q.node_queue
    → q.shared_counter ≡ pos (suc (length rest))
    → Inv (after rest (release_shared q node))
unfolding release_shared get_head_request
last_reader q node [] f own a count =
    let s : is_state_shared q.lock_state ≡ true = rw f refl in
    let no_more : is_positive (pred q.shared_counter) ≡ false = rw count refl in
    rw (s, no_more)
      (schedule_shared-Inv (set_lock_state (sub_shared_counter q) state_free) node (rw count refl)
        q.node_queue refl a own refl)
last_reader q node (r ∷ rest) f own a count =
    let s : is_state_shared q.lock_state ≡ true = rw f refl in
    let more : is_positive (pred q.shared_counter) ≡ true = rw count refl in
    rw (s, more, f, count, append-nil rest) ((λ n. cc), sym own, a, refl)

module _ (q : NodeQueue) (node : LockQueueNode) where
  -- What `process_primary_release` does once it has taken out the entry number `ret`.
  pub release_from :
      (ns' : List LockQueueNode) (ret : ℕ)
      → Erasing.erased node 0 q.node_queue ≡ (ns', ret)
      → let q' = record (block_queue q) { node_queue = ns' } in
        process_primary_release q node ≡ (
          if node.mode == shared
          then release_shared q' node
          else if node.mode == exclusive
          then release_exclusive q' node ret
          else served q' [])
  unfolding process_primary_release erase_lock_request
  release_from ns' ret e = rw e refl

  reader_leaves :
      (os rest : List LockQueueNode)
      → q.lock_state ≡ state_shared
      → Phase state_shared q os
      → remove_first node os ≡ some rest
      → Inv (after rest (process_primary_release q node))
  reader_leaves os rest f (some_own, own, modes, count) h =
      let named : remove_first node (filter is_shared_node q.node_queue) ≡ some rest =
        rw own at h in
      let x = Erasing.mode_of_named_shared node q.node_queue rest named in
      let (ns', e, own') = Erasing.remove_first-filter node q.node_queue rest x named in
      let (ret, taken, _) = Erasing.erase_first node 0 q.node_queue ns' e in
      let t : (node.mode == shared) ≡ true = ground arith in
      let q' = record (block_queue q) { node_queue = ns' } in
      rw (release_from ns' ret taken, t)
        (last_reader q' node rest f own'
          (Erasing.AllModes-remove_first node q.node_queue ns' modes e)
          (count ∙ ap pos (Erasing.length-remove_first node os rest h)))

  writer_leaves :
      (os rest : List LockQueueNode)
      → q.lock_state ≡ state_exclusive
      → Phase state_exclusive q os
      → remove_first node os ≡ some rest
      → Inv (after rest (process_primary_release q node))
  unfolding remove_first erase_loop release_exclusive get_head_request
  writer_leaves os rest f (w, ns, heads, own, x, modes, count) h =
      elim (Bool-cases (names node w)) [
        | inr m ↦ absurd (ground (arith, m, own))
        | inl m ↦
            let gone : rest ≡ [] = ground (arith, m, own) in
            let y = Erasing.mode_of_named node w m ∙ x in
            let t : (node.mode == shared) ≡ false = ground arith in
            let u : (node.mode == exclusive) ≡ true = ground arith in
            let taken : Erasing.erased node 0 q.node_queue ≡ (ns, 0) = ground (arith, heads, m) in
            let q' = record (block_queue q) { node_queue = ns } in
            let s : is_state_exclusive q.lock_state ≡ true = rw f refl in
            rw (release_from ns 0 taken, t, u, s, gone)
              (schedule_exclusive-Inv (set_lock_state q' state_free) node count ns refl modes refl)
      ]

  pub release-Inv :
      (s : QueueState) (os rest : List LockQueueNode)
      → q.lock_state ≡ s
      → Phase s q os
      → remove_first node os ≡ some rest
      → Inv (after rest (process_primary_release q node))
  unfolding remove_first
  release-Inv state_free os rest f (_, none_own, _) h =
      let nobody : none ≡ some rest = rw none_own at h in cc
  release-Inv state_shared os rest f v h = reader_leaves os rest f v h
  release-Inv state_exclusive os rest f v h = writer_leaves os rest f v h
