-- ===== src/Lock/Manager/Scheduling.antt =====
-- `handle_release_lm` of lib/lock.cc keeps the manager's invariant, its grants counted.
use fisslock_bmv2_java.Base.{
  ℕ, ◌≡◌, ◌≢◌, inl, inr, List, [], ◌∷◌, map, arith, refl, All, contains, erase, insert, false, true,
  filter, Bool, take-length, All-filter, All-append, is_empty, Bool-cases,
}
use fisslock_bmv2_java.Post.{LockState, free, release, lock_shared, lock_excl, Wqe, is_shared, Sent}
use fisslock_bmv2_java.Lock.State.{InnetLock, lock_holder, digest_grant}
use fisslock_bmv2_java.Lock.Lm.{schedule_lm, handle_release_lm}
use fisslock_bmv2_java.Lock.Digest.{
  holder_of, insert_all, wants_shared, wants_other, digested, lock_digest_wq-marked,
}
use fisslock_bmv2_java.Lock.Manager.{grantees}
use fisslock_bmv2_java.Lock.Manager.Invariant.{Phase, IsQueued, Inv, erase-single}

pub grantees-digest :
    (l : InnetLock) (ws : List Wqe) → grantees (map (digest_grant l) ws) ≡ map holder_of ws
unfolding grantees digest_grant
grantees-digest l [] = refl
grantees-digest l (w ∷ ws) = ground (arith, grantees-digest l ws)

insert-ne-nil : (a : ℕ) (s : List ℕ) → insert a s ≢ []
unfolding insert contains
insert-ne-nil a [] e = cc
insert-ne-nil a (x ∷ s) e = ground arith

insert_all-ne-nil : (xs s : List ℕ) → s ≢ [] → insert_all xs s ≢ []
unfolding insert_all
insert_all-ne-nil [] s h = h
insert_all-ne-nil (a ∷ xs) s h = insert_all-ne-nil xs (insert a s) (insert-ne-nil a s)

module _ (f : ℕ → LockState) where
  All-insert :
      (a : ℕ) (s : List ℕ)
      → f a ≡ lock_shared
      → All (λ a. f a ≡ lock_shared) s
      → All (λ a. f a ≡ lock_shared) (insert a s)
  unfolding insert
  All-insert a s h q = elim (Bool-cases (contains a s)) [
    | inl e ↦ rw e q
    | inr e ↦ rw e (All-append _ s (a ∷ []) q (h, tt))
  ]

  All-insert_all :
      (ws : List Wqe) (s : List ℕ)
      → All (IsQueued f) ws
      → All (λ a. f a ≡ lock_shared) s
      → All (λ a. f a ≡ lock_shared) (insert_all (map holder_of (filter wants_shared ws)) s)
  unfolding insert_all filter
  All-insert_all [] s q h = h
  All-insert_all (w ∷ ws) s q h = elim (Bool-cases (is_shared w.op)) [
    | inl e ↦
        rw (e, insert_all)
          (All-insert_all ws (insert (holder_of w) s) q.1
            (All-insert (holder_of w) s (ground arith) h))
    | inr e ↦ rw e (All-insert_all ws s q.1 h)
  ]

  All-excl :
      (ws : List Wqe) → All (IsQueued f) ws → All (λ w. w.op ≡ lock_excl) (filter wants_other ws)
  unfolding filter
  All-excl [] q = tt
  All-excl (w ∷ ws) q = ground (arith, All-excl ws q.1)

  All-erase :
      (a : ℕ) (s : List ℕ)
      → All (λ a. f a ≡ lock_shared) s
      → All (λ a. f a ≡ lock_shared) (erase a s)
  unfolding erase
  All-erase a [] q = tt
  All-erase a (x ∷ s) q = ground (arith, All-erase a s q.1)

-- What holds of a release's result: with `true`, once the head of the wait queue has got the lock.
abbrev pub AfterRelease : List ℕ → (ℕ → LockState) → InnetLock → List Sent → Bool → Type 0
AfterRelease os f l grants false = Inv l (insert_all (grantees grants) os) f
AfterRelease os f l grants true =
    (w : Wqe) × (ws : List Wqe) × (l.wqueue ≡ w ∷ ws)
    × (grants ≡ [])
    × (os ≡ [])
    × Inv (record l { wqueue = ws }) (holder_of w ∷ []) f

digested-Inv :
    (l : InnetLock) (f : ℕ → LockState) (w : Wqe) (ws : List Wqe)
    → l.holders ≡ []
    → l.wqueue ≡ []
    → l.mode ≡ lock_shared
    → w.op ≡ lock_shared
    → All (IsQueued f) (w ∷ ws)
    → Inv (digested l (w ∷ ws)) (insert_all (map holder_of (filter wants_shared (w ∷ ws))) []) f
unfolding filter insert_all
digested-Inv l f w ws h e m s q = record {
  phase =
      rw (m, h)
        (
          refl,
          rw (s, insert_all)
              (insert_all-ne-nil (map holder_of (filter wants_shared ws)) (insert (holder_of w) [])
                (insert-ne-nil _ [])),
          All-insert_all f (w ∷ ws) [] q tt,
          rw e (All-excl f (w ∷ ws) q),
        );
  queued = rw e (All-filter _ wants_other (w ∷ ws) q);
}

module _ (l : InnetLock) (f : ℕ → LockState) where
  schedule_lm-AfterRelease :
      (ws : List Wqe)
      → l.holders ≡ []
      → l.wqueue ≡ ws
      → All (IsQueued f) ws
      → let r = schedule_lm l ws in AfterRelease [] f r.0 r.1 r.2
  unfolding schedule_lm insert_all grantees erase
  schedule_lm-AfterRelease [] h e q = record { phase = (h, e, refl); queued = rw e tt }
  schedule_lm-AfterRelease (w ∷ ws) h e q =
      elim q.0.1
        as (λ _.
          AfterRelease [] f (schedule_lm l (w ∷ ws)).0 (schedule_lm l (w ∷ ws)).1
            (schedule_lm l (w ∷ ws)).2) [
              | inl s ↦
                  let b : is_shared w.op ≡ true = ground arith in
                  rw (b, lock_digest_wq-marked, take-length, grantees-digest)
                    (digested-Inv _ f w ws h refl s s q)
              | inr s ↦
                  let b : is_shared w.op ≡ false = ground arith in
                  rw b (
                    w,
                    ws,
                    e,
                    refl,
                    refl,
                    record {
                      phase = rw s (holder_of w, refl, ground arith, rw h refl);
                      queued = q.1;
                    },
                  )
            ]

-- Once the holder is removed: schedule if nobody is left.
module _ (l : InnetLock) (os : List ℕ) (f : ℕ → LockState) (lh : ℕ) where
  abbrev left : InnetLock
  left = record l { holders = erase lh l.holders }

  abbrev settle : Bool → InnetLock × List Sent × Bool
  settle true = schedule_lm left l.wqueue
  settle false = (left, [], false)

  settle_last :
      erase lh l.holders ≡ []
      → erase lh os ≡ []
      → All (IsQueued f) l.wqueue
      → let r = settle (is_empty (erase lh l.holders)) in AfterRelease (erase lh os) f r.0 r.1 r.2
  settle_last h o q = rw (h, o) (schedule_lm-AfterRelease left f l.wqueue h refl q)

  settle_shared :
      (rest : List ℕ)
      → erase lh l.holders ≡ rest
      → Phase lock_shared l os f
      → l.mode ≡ lock_shared
      → All (IsQueued f) l.wqueue
      → let r = settle (is_empty (erase lh l.holders)) in AfterRelease (erase lh os) f r.0 r.1 r.2
  unfolding insert_all grantees
  settle_shared [] e (h, o, sh, ex) m q = settle_last e (rw h at e) q
  settle_shared (a ∷ rest) e (h, o, sh, ex) m q =
      let e' : erase lh os ≡ a ∷ rest = rw h at e in
      rw (e, e')
        (record { phase = rw m (e, λ z. cc, rw e' at (All-erase f lh os sh), ex); queued = q })

  settle-AfterRelease :
      (m : LockState)
      → contains lh os ≡ true
      → l.mode ≡ m
      → Phase m l os f
      → All (IsQueued f) l.wqueue
      → let r = settle (is_empty (erase lh l.holders)) in AfterRelease (erase lh os) f r.0 r.1 r.2
  unfolding contains
  settle-AfterRelease free c e (h, w, o) q = absurd (ground arith)
  settle-AfterRelease release c e ph q = absurd ph
  settle-AfterRelease lock_shared c e ph q = settle_shared (erase lh l.holders) refl ph e q
  settle-AfterRelease lock_excl c e (a, o, x, h) q =
      let same : a ≡ lh = ground arith in
      settle_last (rw same at h) (rw (o, same) (erase-single lh)) q

  handle_release_lm-settle :
      (hid tid : ℕ)
      → lh ≡ lock_holder hid tid
      → handle_release_lm l hid tid ≡ settle (is_empty (erase lh l.holders))
  unfolding handle_release_lm
  handle_release_lm-settle hid tid e = ground arith

pub handle_release_lm-AfterRelease :
    (l : InnetLock) (os : List ℕ) (f : ℕ → LockState) (hid tid : ℕ)
    → contains (lock_holder hid tid) os ≡ true
    → Inv l os f
    → let r = handle_release_lm l hid tid in
      AfterRelease (erase (lock_holder hid tid) os) f r.0 r.1 r.2
handle_release_lm-AfterRelease l os f hid tid c v =
    rw (handle_release_lm-settle l os f (lock_holder hid tid) hid tid refl)
      (settle-AfterRelease l os f (lock_holder hid tid) l.mode c refl v.phase v.queued)
