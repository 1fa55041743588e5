-- ===== src/ParLock/Fifo/Front.antt =====
-- Who may hold a lock under ParLock's first-come policy: the front of the queue.
use fisslock_bmv2_java.Base.{
  ℕ, suc, ◌+◌, ◌≡◌, ◌≢◌, inl, inr, List, [], ◌∷◌, ◌++◌, arith, refl, All, if◌then◌else◌, pos,
}
use fisslock_bmv2_java.Post.{lock_shared, lock_excl, is_shared, is_excl}
use fisslock_bmv2_java.Post.Modes.{IsRequest}
use fisslock_bmv2_java.ParLock.Queue.{LockQueueEntry, head_shared}
use fisslock_bmv2_java.ParLock.System.{Shared}

-- An exclusive request at the head, or the shared ones before the first other one.
unfoldable pub front : List LockQueueEntry → List LockQueueEntry
unfolding head_shared
front [] = []
front (e ∷ es) = if is_excl e.op then e ∷ [] else head_shared (e ∷ es)

unfoldable pub count_shared : List LockQueueEntry → ℕ
count_shared [] = 0
count_shared (e ∷ es) = let n = count_shared es in if is_shared e.op then suc n else n

unfoldable pub count_exclusive : List LockQueueEntry → ℕ
count_exclusive [] = 0
count_exclusive (e ∷ es) = let n = count_exclusive es in if is_excl e.op then suc n else n

-- The counters count the queue, and the owners are its front.
pub record IsFifo (s : Shared) : Type 0 where
  pub requests : All (λ e. IsRequest e.op) s.queue.request_queue
  pub shared_count : s.queue.shared_counter ≡ pos (count_shared s.queue.request_queue)
  pub exclusive_count : s.queue.exclusive_counter ≡ pos (count_exclusive s.queue.request_queue)
  pub owners_in_front : s.owners ≡ front s.queue.request_queue

pub count_shared-append_one :
    (es : List LockQueueEntry) (e : LockQueueEntry)
    → count_shared (es ++ e ∷ []) ≡ count_shared es + (if is_shared e.op then 1 else 0)
unfolding count_shared
count_shared-append_one [] e = ground arith
count_shared-append_one (x ∷ es) e = ground (arith, count_shared-append_one es e)

pub count_exclusive-append_one :
    (es : List LockQueueEntry) (e : LockQueueEntry)
    → count_exclusive (es ++ e ∷ []) ≡ count_exclusive es + (if is_excl e.op then 1 else 0)
unfolding count_exclusive
count_exclusive-append_one [] e = ground arith
count_exclusive-append_one (x ∷ es) e = ground (arith, count_exclusive-append_one es e)

-- Without exclusive requests the whole queue is its front, also with one more shared request.
pub head_shared-all :
    (es : List LockQueueEntry)
    → All (λ e. IsRequest e.op) es
    → count_exclusive es ≡ 0
    → head_shared es ≡ es
unfolding head_shared count_exclusive
head_shared-all [] r n = refl
head_shared-all (x ∷ es) (inl s, r) n = ground (arith, s, head_shared-all es r)
head_shared-all (x ∷ es) (inr s, r) n = absurd (ground (arith, s))

-- A request behind an exclusive one is not in front.
pub head_shared-append :
    (es : List LockQueueEntry) (e : LockQueueEntry)
    → All (λ e. IsRequest e.op) es
    → count_exclusive es ≢ 0
    → head_shared (es ++ e ∷ []) ≡ head_shared es
unfolding head_shared count_exclusive
head_shared-append [] e r n = absurd (n refl)
head_shared-append (x ∷ es) e (inl s, r) n = ground (arith, s, head_shared-append es e r)
head_shared-append (x ∷ es) e (inr s, r) n = ground (arith, s)

pub front-all :
    (es : List LockQueueEntry)
    → All (λ e. IsRequest e.op) es
    → count_exclusive es ≡ 0
    → front es ≡ es
unfolding front count_exclusive
front-all [] r n = refl
front-all (x ∷ es) (inl s, r) n = ground (arith, s, head_shared-all (x ∷ es) (inl s, r) n)
front-all (x ∷ es) (inr s, r) n = absurd (ground (arith, s))

pub front-append :
    (es : List LockQueueEntry) (e : LockQueueEntry)
    → All (λ e. IsRequest e.op) es
    → count_exclusive es ≢ 0
    → front (es ++ e ∷ []) ≡ front es
unfolding front count_exclusive
front-append [] e r n = absurd (n refl)
front-append (x ∷ es) e (inl s, r) n = ground (arith, s, head_shared-append (x ∷ es) e (inl s, r) n)
front-append (x ∷ es) e (inr s, r) n = ground (arith, s)

-- An exclusive request at the end is in front of an empty queue only.
head_shared-append_exclusive :
    (es : List LockQueueEntry) (e : LockQueueEntry)
    → e.op ≡ lock_excl
    → head_shared (es ++ e ∷ []) ≡ head_shared es
unfolding head_shared
head_shared-append_exclusive [] e x = ground (arith, x)
head_shared-append_exclusive (h ∷ es) e x = ground (arith, head_shared-append_exclusive es e x)

pub front-append_exclusive :
    (h : LockQueueEntry) (es : List LockQueueEntry) (e : LockQueueEntry)
    → e.op ≡ lock_excl
    → front (h ∷ es ++ e ∷ []) ≡ front (h ∷ es)
unfolding front
front-append_exclusive h es e x = rw (head_shared-append_exclusive (h ∷ es) e x) refl

pub front-exclusive :
    (h : LockQueueEntry) (es : List LockQueueEntry) → h.op ≡ lock_excl → front (h ∷ es) ≡ h ∷ []
unfolding front
front-exclusive h es x = ground (arith, x)

pub front-shared :
    (h : LockQueueEntry) (es : List LockQueueEntry)
    → h.op ≡ lock_shared
    → front (h ∷ es) ≡ h ∷ head_shared es
unfolding front head_shared
front-shared h es x = ground (arith, x)
