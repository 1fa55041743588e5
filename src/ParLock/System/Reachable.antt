-- ===== src/ParLock/System/Reachable.antt =====
-- The invariant of a ParLock queue (baseline/ParLock) in every reachable state.
use fisslock_bmv2_java.Base.{ℕ, ◌≡◌, ◌∙◌, sym, List, [], ◌∷◌, some, arith, inl, inr, refl, ◌⊎◌, map}
use mathlib.Core.Path.{subst}
use fisslock_bmv2_java.Post.{LockState, lock_shared, lock_excl}
use fisslock_bmv2_java.Post.Modes.{IsRequest}
use fisslock_bmv2_java.ParLock.Queue.{LockQueueEntry, erase_lock_request}
use fisslock_bmv2_java.ParLock.Server.{
  Grant, signal, reply, LockRequest, Served, served, entry_of, exclusive_unlock,
  server_handle_exclusive_lock, server_handle_shared_lock, server_handle_exclusive_unlock,
  server_handle_shared_unlock,
}
use fisslock_bmv2_java.ParLock.Client.{acquire_lock_local, release_lock_local}
use fisslock_bmv2_java.ParLock.Api.{serve_lock, serve_unlock}
use fisslock_bmv2_java.ParLock.Local.{
  as_packet, by_signal, acquire_lock_local-serve_lock, release_lock_local-serve_unlock,
}
use fisslock_bmv2_java.ParLock.System.{
  granted_entry, Shared, after, MayRelease, local_request, Step, remote_acquire, remote_release,
  local_acquire, local_release, Reach, start, later,
}
use fisslock_bmv2_java.ParLock.System.Invariant.{Inv}
use fisslock_bmv2_java.ParLock.System.Acquires.{exclusive_lock-Inv, shared_lock-Inv}
use fisslock_bmv2_java.ParLock.System.Releases.{exclusive_unlock-Inv, shared_unlock-Inv}

-- An acquire is always served; one with another operator changes nothing.
pub serve_lock-Inv :
    (op : LockState) (s : Shared) (hd : LockRequest)
    → hd.op ≡ op
    → Inv s
    → (o : Served) × (serve_lock hd s.queue ≡ some o) × Inv (after s.owners o)
unfolding serve_lock
serve_lock-Inv lock_excl s hd x v = (
  server_handle_exclusive_lock s.queue hd,
  ground (arith, x),
  exclusive_lock-Inv s.queue.lock_state s.queue s.owners hd refl x v,
)
serve_lock-Inv lock_shared s hd x v = (
  server_handle_shared_lock s.queue hd,
  ground (arith, x),
  shared_lock-Inv s.queue.lock_state s.queue s.owners hd refl x v,
)
serve_lock-Inv _ s hd x v = (served s.queue [], ground (arith, x), v)

-- A release of an owner is served, whatever its operator.
pub serve_unlock-Inv :
    (localhost : ℕ) (s : Shared) (hd : LockRequest) (rest : List LockQueueEntry)
    → MayRelease s (entry_of hd) rest
    → Inv s
    → (o : Served) × (serve_unlock localhost hd s.queue ≡ some o) × Inv (after rest o)
unfolding serve_unlock server_handle_exclusive_unlock server_handle_shared_unlock erase_lock_request
serve_unlock-Inv localhost s hd rest m v = elim m.request [
  | inr x ↦ (
    exclusive_unlock localhost s.queue 0,
    ground (arith, x, m.not_waiting),
    exclusive_unlock-Inv localhost s.queue.lock_state s.queue s.owners rest (entry_of hd) refl x
        m.owns v,
  )
  | inl x ↦
      let (o, e, k) =
        shared_unlock-Inv localhost s.queue.lock_state s.queue s.owners rest (entry_of hd) refl x
          m.owns v in
      (o, ground (arith, x, m.not_waiting, e), k)
]

some_injective : {o o' : Served} → some o ≡ some o' → o ≡ o'
some_injective e = cc

swap_cases : {op : LockState} → IsRequest op → (op ≡ lock_excl) ⊎ (op ≡ lock_shared)
swap_cases (inl x) = inr x
swap_cases (inr x) = inl x

granted_by_signal : (gs : List Grant) → map granted_entry (map by_signal gs) ≡ map granted_entry gs
granted_by_signal [] = refl
granted_by_signal (signal e ∷ gs) = rw (granted_by_signal gs) refl
granted_by_signal (reply e ∷ gs) = rw (granted_by_signal gs) refl

module _ (localhost : ℕ) where
  acquire_lock_local-Inv :
      (s : Shared) (requester : ℕ) (op : LockState)
      → Inv s
      → Inv (after s.owners (acquire_lock_local localhost s.queue requester op))
  acquire_lock_local-Inv s requester op v =
      let hd = as_packet localhost requester op 0 in
      let (o, e, q, g) = acquire_lock_local-serve_lock localhost s.queue requester op 0 in
      let (o', e', v') = serve_lock-Inv op s hd refl v in
      let same : o' ≡ o = some_injective (sym e' ∙ e) in
      rw (q, g, granted_by_signal o.grants) (subst (λ r. Inv (after s.owners r)) same v')

  release_lock_local-Inv :
      (s : Shared) (requester : ℕ) (op : LockState) (rest : List LockQueueEntry)
      → MayRelease s (local_request localhost requester op) rest
      → Inv s
      → (o : Served) × (release_lock_local localhost s.queue requester op ≡ some o)
        × Inv (after rest o)
  release_lock_local-Inv s requester op rest m v =
      let (o, e, k) = serve_unlock-Inv localhost s (as_packet localhost requester op 0) rest m v in
      (
        o,
        release_lock_local-serve_unlock localhost s.queue requester op 0 (swap_cases m.request) ∙ e,
        k,
      )

  Step-Inv : {s t : Shared} → Step localhost s t → Inv s → Inv t
  Step-Inv {s} (remote_acquire hd o e) v =
      let (o', e', k) = serve_lock-Inv hd.op s hd refl v in
      subst (λ r. Inv (after s.owners r)) (some_injective (sym e' ∙ e)) k
  Step-Inv {s} (remote_release hd rest o m e) v =
      let (o', e', k) = serve_unlock-Inv localhost s hd rest m v in
      subst (λ r. Inv (after rest r)) (some_injective (sym e' ∙ e)) k
  Step-Inv {s} (local_acquire requester op) v = acquire_lock_local-Inv s requester op v
  Step-Inv {s} (local_release requester op rest o m e) v =
      let (o', e', k) = release_lock_local-Inv s requester op rest m v in
      subst (λ r. Inv (after rest r)) (some_injective (sym e' ∙ e)) k

  pub Reach-Inv : {s : Shared} → Reach localhost s → Inv s
  Reach-Inv start = (refl, refl, refl)
  Reach-Inv (later r st) = Step-Inv st (Reach-Inv r)
