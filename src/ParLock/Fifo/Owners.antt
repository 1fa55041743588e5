-- ===== src/ParLock/Fifo/Owners.antt =====
-- The owners that are the front of a queue, when one of them leaves (ParLock's first-come policy).
use fisslock_bmv2_java.Base.{
  ℕ, suc, ◌≡◌, ◌==◌, true, false, List, [], ◌∷◌, some, Option-cases, Bool-cases, inl, inr, arith,
  refl, All,
}
use fisslock_bmv2_java.Post.{LockState, free, release, lock_shared, lock_excl, is_shared}
use fisslock_bmv2_java.Post.Modes.{IsRequest}
use fisslock_bmv2_java.ParLock.Queue.{LockQueueEntry, matches, head_shared, erase_first}
use fisslock_bmv2_java.ParLock.System.{remove_owner}
use fisslock_bmv2_java.ParLock.Fifo.Front.{front, count_shared, count_exclusive}

-- An owner among the shared ones in front is erased from the front.
pub erase_in_front :
    (e : LockQueueEntry) (es rest : List LockQueueEntry)
    → e.op ≡ lock_shared
    → All (λ w. IsRequest w.op) es
    → remove_owner e (head_shared es) ≡ some rest
    → (es' : List LockQueueEntry) × (erase_first es e.requester e.host e.op ≡ (es', 1))
      × (head_shared es' ≡ rest)
      × (count_shared es ≡ suc (count_shared es'))
      × (count_exclusive es ≡ count_exclusive es')
      × All (λ w. IsRequest w.op) es'
unfolding remove_owner head_shared erase_first count_shared count_exclusive
erase_in_front e [] rest x r h = cc
erase_in_front e (w ∷ es) rest x (inr y, r) h = absurd (ground (arith, y))
erase_in_front e (w ∷ es) rest x (inl y, r) h =
    elim (Bool-cases (matches w e.requester e.host e.op)) [
      | inl m ↦
          (es, ground (arith, m), ground (arith, m, y), ground (arith, y), ground (arith, y), r)
      | inr m ↦ elim (Option-cases (remove_owner e (head_shared es))) [
        | inl n ↦ absurd (ground (arith, m, n, y))
        | inr (left, k) ↦
            let (es', a, b, c, d, q) = erase_in_front e es left x r k in
            (
              w ∷ es',
              ground (arith, m, a),
              ground (arith, m, k, y, b),
              ground (arith, y, c),
              ground (arith, y, d),
              (inl y, q),
            )
      ]
    ]

pub sole_owner :
    (h e : LockQueueEntry) (rest : List LockQueueEntry)
    → h.op ≡ lock_excl
    → IsRequest e.op
    → remove_owner e (h ∷ []) ≡ some rest
    → (rest ≡ []) × ((h.requester == e.requester) ≡ true) × (e.op ≡ lock_excl)
unfolding remove_owner front matches
sole_owner h e rest x (inl y) own = absurd (ground (arith, x, y))
sole_owner h e rest x (inr y) own = ground (arith, x, y)

pub count_shared-other :
    (h : LockQueueEntry) (es : List LockQueueEntry)
    → h.op ≡ lock_excl
    → count_shared (h ∷ es) ≡ count_shared es
unfolding count_shared
count_shared-other h es x = ground (arith, x)

pub count_exclusive-head :
    (h : LockQueueEntry) (es : List LockQueueEntry)
    → h.op ≡ lock_excl
    → count_exclusive (h ∷ es) ≡ suc (count_exclusive es)
unfolding count_exclusive
count_exclusive-head h es x = ground (arith, x)

pub count_shared-head :
    (h : LockQueueEntry) (es : List LockQueueEntry)
    → h.op ≡ lock_shared
    → count_shared (h ∷ es) ≡ suc (count_shared es)
unfolding count_shared
count_shared-head h es x = ground (arith, x)

pub count_exclusive-other :
    (h : LockQueueEntry) (es : List LockQueueEntry)
    → h.op ≡ lock_shared
    → count_exclusive (h ∷ es) ≡ count_exclusive es
unfolding count_exclusive
count_exclusive-other h es x = ground (arith, x)

pub same_number : (a b : ℕ) → (a == b) ≡ true → a ≡ b
same_number a b e = ground arith

pub behind_head :
    (h e : LockQueueEntry) (os rest : List LockQueueEntry)
    → (h.requester == e.requester) ≡ false
    → remove_owner e (h ∷ os) ≡ some rest
    → (left : List LockQueueEntry) × (remove_owner e os ≡ some left) × (rest ≡ h ∷ left)
unfolding remove_owner matches
behind_head h e os rest other own = elim (Option-cases (remove_owner e os)) [
  | inl n ↦ absurd (ground (arith, n, other))
  | inr (left, k) ↦ (left, k, ground (arith, k, other))
]

pub head_leaves :
    (h e : LockQueueEntry) (os rest : List LockQueueEntry)
    → matches h e.requester e.host e.op ≡ true
    → remove_owner e (h ∷ os) ≡ some rest
    → rest ≡ os
unfolding remove_owner
head_leaves h e os rest m own = ground (arith, m)

pub none_leaves :
    (e : LockQueueEntry) (rest : List LockQueueEntry) → ¬ (remove_owner e (front []) ≡ some rest)
unfolding remove_owner front
none_leaves e rest own = cc

pub erase_behind :
    (h e : LockQueueEntry) (es es' : List LockQueueEntry)
    → (h.requester == e.requester) ≡ false
    → erase_first es e.requester e.host e.op ≡ (es', 1)
    → erase_first (h ∷ es) e.requester e.host e.op ≡ (h ∷ es', 1)
unfolding erase_first matches
erase_behind h e es es' other a = ground (arith, other, a)

is_shared-op : (op : LockState) → is_shared op ≡ true → op ≡ lock_shared
is_shared-op lock_shared s = refl
is_shared-op free s = cc
is_shared-op release s = cc
is_shared-op lock_excl s = cc

behind_other :
    (h e : LockQueueEntry) (os rest : List LockQueueEntry)
    → matches h e.requester e.host e.op ≡ false
    → remove_owner e (h ∷ os) ≡ some rest
    → (left : List LockQueueEntry) × (remove_owner e os ≡ some left) × (rest ≡ h ∷ left)
unfolding remove_owner
behind_other h e os rest other own = elim (Option-cases (remove_owner e os)) [
  | inl n ↦ absurd (ground (arith, n, other))
  | inr (left, k) ↦ (left, k, ground (arith, k, other))
]

-- An owner among shared ones asked for the lock so.
pub shared_owner :
    (e h : LockQueueEntry) (es rest : List LockQueueEntry)
    → h.op ≡ lock_shared
    → IsRequest e.op
    → remove_owner e (h ∷ head_shared es) ≡ some rest
    → e.op ≡ lock_shared
unfolding remove_owner head_shared matches
shared_owner e h es rest z (inl x) own = x
shared_owner e h [] rest z (inr x) own = absurd (ground (arith, x, z))
shared_owner e h (w ∷ es) rest z (inr x) own = elim (Bool-cases (is_shared w.op)) [
  | inl s ↦
      let w_shared : w.op ≡ lock_shared = is_shared-op w.op s in
      let (left, k, _) = behind_other h e (head_shared (w ∷ es)) rest (ground (arith, x, z)) own in
      shared_owner e w es left w_shared (inr x) (ground (arith, s, k))
  | inr s ↦ absurd (ground (arith, x, z, s))
]
