-- ===== src/Lock/Roles/Release.antt =====
-- Release packets keep a lock well formed.
use mathlib.Core.Path.{subst}
use fisslock_bmv2_java.Base.{
  ℕ, ◌≡◌, ◌&&◌, ◌==◌, inl, inr, List, [], ◌∷◌, arith, refl, Bool-cases, some, Option-cases,
}
use fisslock_bmv2_java.Post.{Wqe, Packet}
use fisslock_bmv2_java.Lock.State.{InnetLock, handle_release}
use fisslock_bmv2_java.Lock.Release.{
  pass_on, pass_on_if_free, release_missing, release_in_range, remove_waiter,
}
use fisslock_bmv2_java.Lock.Roles.{AllRequests, IsWellFormed}

pass_on-IsWellFormed :
    (host : ℕ) (l : InnetLock) (p : Packet) (ws : List Wqe)
    → l.wqueue ≡ ws
    → IsWellFormed l
    → IsWellFormed (pass_on host l p ws).lock
unfolding pass_on
pass_on-IsWellFormed host l p [] e v = ground arith
pass_on-IsWellFormed host l p (w ∷ ws) e v = ground arith

pass_on_if_free-IsWellFormed :
    (host : ℕ) (l : InnetLock) (p : Packet)
    → IsWellFormed l
    → IsWellFormed (pass_on_if_free host l p).lock
unfolding pass_on_if_free
pass_on_if_free-IsWellFormed host l p v =
    ground (arith, pass_on-IsWellFormed host l p l.wqueue refl v)

remove_waiter-requests :
    (host task : ℕ) (ws : List Wqe) {rest : List Wqe}
    → remove_waiter host task ws ≡ some rest
    → AllRequests ws
    → AllRequests rest
unfolding remove_waiter
remove_waiter-requests host task [] e q = cc
remove_waiter-requests host task (w ∷ ws) {rest} e q =
    elim (Bool-cases ((w.host == host) && (w.task == task))) [
      | inl hit ↦ let same : ws ≡ rest = cc (rw hit at e) in subst AllRequests same q.1
      | inr miss ↦ elim (Option-cases (remove_waiter host task ws)) [
        | inl gone ↦ cc (rw (miss, gone) at e)
        | inr (r, found) ↦
            let same : w ∷ r ≡ rest = cc (rw (miss, found) at e) in
            let kept : AllRequests (w ∷ r) = (q.0, remove_waiter-requests host task ws found q.1) in
            subst AllRequests same kept
      ]
    ]

release_missing-IsWellFormed :
    (host : ℕ) (l : InnetLock) (p : Packet)
    → IsWellFormed l
    → IsWellFormed (release_missing host l p).lock
unfolding release_missing
release_missing-IsWellFormed host l p v =
    elim (Option-cases (remove_waiter p.machine_id p.task_id l.wqueue)) [
      | inl e ↦
          rw (e, release_missing)
            (pass_on_if_free-IsWellFormed host _ p
              (record { role = v.role; requests = v.requests }))
      | inr (rest, e) ↦
          rw (e, release_missing)
            (record {
              role = v.role;
              requests = remove_waiter-requests p.machine_id p.task_id l.wqueue e v.requests;
            })
    ]

pub release_in_range-IsWellFormed :
    (host : ℕ) (l : InnetLock) (p : Packet)
    → IsWellFormed l
    → IsWellFormed (release_in_range host l p).lock
unfolding release_in_range
release_in_range-IsWellFormed host l p v = ground (
  arith,
  release_missing-IsWellFormed host l p v,
  pass_on_if_free-IsWellFormed host (handle_release l p.machine_id p.task_id) p,
)
