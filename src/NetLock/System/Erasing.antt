-- ===== src/NetLock/System/Erasing.antt =====
-- `erase_lock_request` of baseline/NetLock/lib/request.cc takes out the first entry that a message
-- names, and what that does to the shared entries of the queue.
use fisslock_bmv2_java.Base.{
  ℕ, suc, ◌+◌, ◌≤◌, ◌≡◌, ◌≢◌, true, List, [], ◌∷◌, none, some, arith, inl, inr, refl, filter,
  length, Bool-cases, Option-cases,
}
use fisslock_bmv2_java.NetLock.Queue.{
  shared, exclusive, LockQueueNode, is_shared_node, matches, erase_loop,
}
use fisslock_bmv2_java.NetLock.System.{IsMode, names, remove_first}
use fisslock_bmv2_java.NetLock.System.Invariant.{AllModes}

-- What `erase_lock_request` makes of the queue for a release.
abbrev pub erased : LockQueueNode → ℕ → List LockQueueNode → List LockQueueNode × ℕ
erased node = erase_loop node.lock_id node.txn_id node.client_id node.mode

pub erase_first :
    (node : LockQueueNode) (k : ℕ) (ns rest : List LockQueueNode)
    → remove_first node ns ≡ some rest
    → (ret : ℕ) × (erased node k ns ≡ (rest, ret)) × (k ≤ ret)
unfolding remove_first erase_loop
erase_first node k [] rest h = cc
erase_first node k (n ∷ ns) rest h = elim (Bool-cases (names node n)) [
  | inl m ↦ (k, ground (arith, m), omega arith)
  | inr m ↦ elim (Option-cases (remove_first node ns)) [
    | inl e ↦ absurd (ground (arith, m, e))
    | inr (left, e) ↦
        let (ret, a, b) = erase_first node (k + 1) ns left e in
        (ret, ground (arith, m, e, a), omega (arith, b))
  ]
]

pub erase_none :
    (node : LockQueueNode) (k : ℕ) (ns : List LockQueueNode)
    → remove_first node ns ≡ none
    → erased node k ns ≡ (ns, 0)
unfolding remove_first erase_loop
erase_none node k [] h = refl
erase_none node k (n ∷ ns) h = elim (Bool-cases (names node n)) [
  | inl m ↦ absurd (ground (arith, m))
  | inr m ↦ elim (Option-cases (remove_first node ns)) [
    | inl e ↦ ground (arith, m, erase_none node (k + 1) ns e)
    | inr (left, e) ↦ absurd (ground (arith, m, e))
  ]
]

named_shared :
    (node n : LockQueueNode) → node.mode ≡ shared → names node n ≡ true → is_shared_node n ≡ true
unfolding matches
named_shared node n x m = ground arith

-- A shared entry that is named among the shared ones is the one that is named in the queue.
pub remove_first-filter :
    (node : LockQueueNode) (ns rest : List LockQueueNode)
    → node.mode ≡ shared
    → remove_first node (filter is_shared_node ns) ≡ some rest
    → (ns' : List LockQueueNode) × (remove_first node ns ≡ some ns')
      × (filter is_shared_node ns' ≡ rest)
unfolding remove_first filter
remove_first-filter node [] rest x h = cc
remove_first-filter node (n ∷ ns) rest x h = elim (Bool-cases (names node n)) [
  | inl m ↦ (ns, ground (arith, m), ground (arith, m, named_shared node n x m))
  | inr m ↦ elim (Bool-cases (is_shared_node n)) [
    | inr s ↦
        let (ns', e, f) = remove_first-filter node ns rest x (rw s at h) in
        (n ∷ ns', ground (arith, m, e), ground (arith, s, f))
    | inl s ↦ elim (Option-cases (remove_first node (filter is_shared_node ns))) [
      | inl e ↦ absurd (ground (arith, m, s, e))
      | inr (left, e) ↦
          let (ns', e', f) = remove_first-filter node ns left x e in
          (n ∷ ns', ground (arith, m, e'), ground (arith, m, s, e, f))
    ]
  ]
]

-- A message of a waiter for the exclusive lock leaves the shared entries alone.
pub filter-remove_first :
    (node : LockQueueNode) (ns ns' : List LockQueueNode)
    → node.mode ≡ exclusive
    → remove_first node ns ≡ some ns'
    → filter is_shared_node ns' ≡ filter is_shared_node ns
unfolding remove_first filter matches
filter-remove_first node [] ns' x h = cc
filter-remove_first node (n ∷ ns) ns' x h = elim (Bool-cases (names node n)) [
  | inl m ↦ ground (arith, m)
  | inr m ↦ elim (Option-cases (remove_first node ns)) [
    | inl e ↦ absurd (ground (arith, m, e))
    | inr (left, e) ↦ ground (arith, m, e, filter-remove_first node ns left x e)
  ]
]

pub AllModes-remove_first :
    (node : LockQueueNode) (ns ns' : List LockQueueNode)
    → AllModes ns
    → remove_first node ns ≡ some ns'
    → AllModes ns'
unfolding remove_first
AllModes-remove_first node [] ns' a h = cc
AllModes-remove_first node (n ∷ ns) ns' a h = elim (Bool-cases (names node n)) [
  | inl m ↦ let e : ns ≡ ns' = ground (arith, m) in rw (← e) a.1
  | inr m ↦ elim (Option-cases (remove_first node ns)) [
    | inl e ↦ absurd (ground (arith, m, e))
    | inr (left, e) ↦
        let same : ns' ≡ n ∷ left = ground (arith, m, e) in
        rw same (a.0, AllModes-remove_first node ns left a.1 e)
  ]
]

pub length-remove_first :
    (node : LockQueueNode) (ns ns' : List LockQueueNode)
    → remove_first node ns ≡ some ns'
    → length ns ≡ suc (length ns')
unfolding remove_first
length-remove_first node [] ns' h = cc
length-remove_first node (n ∷ ns) ns' h = elim (Bool-cases (names node n)) [
  | inl m ↦ ground (arith, m)
  | inr m ↦ elim (Option-cases (remove_first node ns)) [
    | inl e ↦ absurd (ground (arith, m, e))
    | inr (left, e) ↦ ground (arith, m, e, length-remove_first node ns left e)
  ]
]

-- A message of mode exclusive names no shared entry.
pub exclusive_names_no_shared :
    (node : LockQueueNode) (ns : List LockQueueNode)
    → node.mode ≡ exclusive
    → remove_first node (filter is_shared_node ns) ≡ none
unfolding remove_first filter matches
exclusive_names_no_shared node [] x = refl
exclusive_names_no_shared node (n ∷ ns) x = elim (Bool-cases (is_shared_node n)) [
  | inl s ↦ ground (arith, s, exclusive_names_no_shared node ns x)
  | inr s ↦ ground (arith, s, exclusive_names_no_shared node ns x)
]

-- The mode of a message that names an entry is that entry's.
pub mode_of_named : (node n : LockQueueNode) → names node n ≡ true → node.mode ≡ n.mode
unfolding matches
mode_of_named node n m = ground arith

-- A message that names a shared entry has its mode.
pub mode_of_named_shared :
    (node : LockQueueNode) (ns rest : List LockQueueNode)
    → remove_first node (filter is_shared_node ns) ≡ some rest
    → node.mode ≡ shared
unfolding remove_first filter
mode_of_named_shared node [] rest h = cc
mode_of_named_shared node (n ∷ ns) rest h = elim (Bool-cases (is_shared_node n)) [
  | inr s ↦ mode_of_named_shared node ns rest (rw s at h)
  | inl s ↦ elim (Bool-cases (names node n)) [
    | inl m ↦ ground (arith, s, mode_of_named node n m)
    | inr m ↦ elim (Option-cases (remove_first node (filter is_shared_node ns))) [
      | inl e ↦ absurd (ground (arith, m, s, e))
      | inr (left, e) ↦ mode_of_named_shared node ns left e
    ]
  ]
]

-- A message that names an entry of the queue, whose modes are known, has such a mode.
pub IsMode-of_waiter :
    (node : LockQueueNode) (ns ns' : List LockQueueNode)
    → AllModes ns
    → remove_first node ns ≡ some ns'
    → IsMode node.mode
unfolding remove_first
IsMode-of_waiter node [] ns' a h = cc
IsMode-of_waiter node (n ∷ ns) ns' a h = elim (Bool-cases (names node n)) [
  | inl m ↦ rw (mode_of_named node n m) a.0
  | inr m ↦ elim (Option-cases (remove_first node ns)) [
    | inl e ↦ absurd (ground (arith, m, e))
    | inr (left, e) ↦ IsMode-of_waiter node ns left a.1 e
  ]
]

-- A shared entry of the queue is among the shared ones.
pub shared_waiter_is_listed :
    (node : LockQueueNode) (ns ns' : List LockQueueNode)
    → node.mode ≡ shared
    → remove_first node ns ≡ some ns'
    → remove_first node (filter is_shared_node ns) ≢ none
unfolding remove_first filter
shared_waiter_is_listed node [] ns' x h e = cc
shared_waiter_is_listed node (n ∷ ns) ns' x h e = elim (Bool-cases (names node n)) [
  | inl m ↦ absurd (ground (arith, m, named_shared node n x m))
  | inr m ↦ elim (Option-cases (remove_first node ns)) [
    | inl f ↦ absurd (ground (arith, m, f))
    | inr (left, f) ↦
        let later = shared_waiter_is_listed node ns left x f in
        elim (Bool-cases (is_shared_node n)) [
          | inr s ↦ later (rw s at e)
          | inl s ↦ elim (Option-cases (remove_first node (filter is_shared_node ns))) [
            | inl g ↦ later g
            | inr (l, g) ↦ absurd (ground (arith, m, s, g))
          ]
        ]
  ]
]
