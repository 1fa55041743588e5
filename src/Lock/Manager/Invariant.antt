-- ===== src/Lock/Manager/Invariant.antt =====
-- What the manager's state says of the owners.
use fisslock_bmv2_java.Base.{ℕ, ◌≡◌, ◌≢◌, List, [], ◌∷◌, ◌++◌, arith, All, contains, erase, false}
use fisslock_bmv2_java.Post.{LockState, free, release, lock_shared, lock_excl, Wqe}
use fisslock_bmv2_java.Post.Modes.{IsRequest}
use fisslock_bmv2_java.Lock.State.{InnetLock}
use fisslock_bmv2_java.Lock.Digest.{holder_of}
use fisslock_bmv2_java.Lock.Manager.{update}

-- The owners and the recorded holders, by the lock's mode.
abbrev pub Phase : LockState → InnetLock → List ℕ → (ℕ → LockState) → Type 0
Phase free l os f = (l.holders ≡ []) × (l.wqueue ≡ []) × (os ≡ [])
Phase release l os f = ⊥
Phase lock_shared l os f =
    (l.holders ≡ os)
    × (os ≢ [])
    × All (λ a. f a ≡ lock_shared) os
    × All (λ w. w.op ≡ lock_excl) l.wqueue
Phase lock_excl l os f = (a : ℕ) × (os ≡ a ∷ []) × (f a ≡ lock_excl) × (erase a l.holders ≡ [])

-- A waiter waits for what its client asked for.
abbrev pub IsQueued : (ℕ → LockState) → Wqe → Type 0
IsQueued f w = (f (holder_of w) ≡ w.op) × IsRequest w.op

pub record Inv (l : InnetLock) (os : List ℕ) (f : ℕ → LockState) : Type 0 where
  pub phase : Phase l.mode l os f
  pub queued : All (IsQueued f) l.wqueue

module _ (f : ℕ → LockState) (lh : ℕ) (op : LockState) where
  pub All-IsQueued-update :
      (ws : List Wqe)
      → All (λ w. holder_of w ≢ lh) ws
      → All (IsQueued f) ws
      → All (IsQueued (update f lh op)) ws
  All-IsQueued-update [] h q = tt
  All-IsQueued-update (w ∷ ws) h q = ground (arith, All-IsQueued-update ws h.1 q.1)

  pub All-wanted-update :
      (os : List ℕ)
      → contains lh os ≡ false
      → All (λ a. f a ≡ lock_shared) os
      → All (λ a. update f lh op a ≡ lock_shared) os
  unfolding contains
  All-wanted-update [] h q = tt
  All-wanted-update (a ∷ os) h q = ground (arith, All-wanted-update os)

pub not-append_one-nil {ℓ} : {A : Type ℓ} (xs : List A) (a : A) → xs ++ a ∷ [] ≢ []
not-append_one-nil [] a e = cc
not-append_one-nil (x ∷ xs) a e = cc

pub erase-single : (a : ℕ) → erase a (a ∷ []) ≡ []
unfolding erase
erase-single a = ground arith
