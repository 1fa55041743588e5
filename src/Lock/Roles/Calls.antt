-- ===== src/Lock/Roles/Calls.antt =====
-- The application's calls keep a lock well formed.
use fisslock_bmv2_java.Base.{
  ◌&&◌, ◌==◌, ◌∙◌, Bool-cases, is_empty, ℕ, ◌≡◌, inl, inr, List, [], ◌∷◌, arith, refl, false, true,
  erase,
}
use fisslock_bmv2_java.Post.{LockState, Wqe, lock_shared, lock_excl}
use fisslock_bmv2_java.Post.Modes.{IsRequest}
use fisslock_bmv2_java.Lock.State.{InnetLock, lock_out_of_range}
use fisslock_bmv2_java.Lock.Client.{Conf, lock_acquire_async, acquire_in_switch}
use fisslock_bmv2_java.Lock.Unlock.{lock_release, release_as_agent, give_up, drop_holder}
use fisslock_bmv2_java.Lock.Roles.{AllRequests, IsWellFormed, suspend-AllRequests}

acquire_in_switch-IsWellFormed :
    (c : Conf) (l : InnetLock) (task : ℕ) (op : LockState)
    → IsRequest op
    → IsWellFormed l
    → IsWellFormed (acquire_in_switch c l task op).lock
unfolding acquire_in_switch
acquire_in_switch-IsWellFormed c l task op r v =
    ground (arith, suspend-AllRequests l c.localhost_id task op r v.requests)

lock_acquire_async-IsWellFormed :
    (c : Conf) (l : InnetLock) (task : ℕ) (op : LockState)
    → c.tpcc_enb_local ≡ false
    → lock_out_of_range l ≡ false
    → IsWellFormed l
    → IsWellFormed (lock_acquire_async c l task op).lock
unfolding lock_acquire_async
lock_acquire_async-IsWellFormed c l task lock_shared t near v =
    rw (t, near) (acquire_in_switch-IsWellFormed c l task lock_shared (inl refl) v)
lock_acquire_async-IsWellFormed c l task lock_excl t near v =
    rw (t, near) (acquire_in_switch-IsWellFormed c l task lock_excl (inr refl) v)
lock_acquire_async-IsWellFormed c l task _ t near v = v

give_up-IsWellFormed :
    (c : Conf) (l : InnetLock) (ws : List Wqe)
    → l.wqueue ≡ ws
    → l.is_agent ≡ true
    → AllRequests ws
    → IsWellFormed (give_up c l ws).lock
unfolding give_up
give_up-IsWellFormed c l [] e r q = ground arith
give_up-IsWellFormed c l (w ∷ ws) e r q = elim (Bool-cases (c.bmv2 && (w.host == c.localhost_id))) [
  | inl b ↦ rw b (record { role = rw r q.0; requests = q.1 })
  | inr b ↦ rw b (record { role = refl; requests = tt })
]

drop_holder-is_agent :
    (c : Conf) (l : InnetLock) (task : ℕ) → (drop_holder c l task).is_agent ≡ l.is_agent
unfolding drop_holder
drop_holder-is_agent c l task = ground arith

drop_holder-IsWellFormed :
    (c : Conf) (l : InnetLock) (task : ℕ) → IsWellFormed l → IsWellFormed (drop_holder c l task)
unfolding drop_holder
drop_holder-IsWellFormed c l task v = ground arith

release_as_agent-IsWellFormed :
    (c : Conf) (l : InnetLock) (task : ℕ)
    → l.is_agent ≡ true
    → IsWellFormed l
    → IsWellFormed (release_as_agent c l task).lock
unfolding release_as_agent
release_as_agent-IsWellFormed c l task e v =
    let l' = drop_holder c l task in
    let v' = drop_holder-IsWellFormed c l task v in
    let e' : l'.is_agent ≡ true = drop_holder-is_agent c l task ∙ e in
    elim (Bool-cases (is_empty l'.holders)) [
      | inl b ↦ rw b (give_up-IsWellFormed c l' l'.wqueue refl e' v'.requests)
      | inr b ↦ rw b v'
    ]

lock_release-IsWellFormed :
    (c : Conf) (l : InnetLock) (task : ℕ)
    → c.tpcc_enb_local ≡ false
    → lock_out_of_range l ≡ false
    → IsWellFormed l
    → IsWellFormed (lock_release c l task).lock
unfolding lock_release lock_out_of_range
lock_release-IsWellFormed c l task t near v =
    let l' = record l { local_holders = erase task l.local_holders } in
    ground (arith, release_as_agent-IsWellFormed c l' task)

-- An acquire call for a lock of the switch, whatever its operator, and a release call keep the lock
-- well formed on a host that is not built for TPCC: an agent holds its lock in a shared or exclusive
-- mode, any other host sees it free, and only acquires wait.
pub calls-IsWellFormed :
    (c : Conf) (l : InnetLock) (task : ℕ) (op : LockState)
    → c.tpcc_enb_local ≡ false
    → lock_out_of_range l ≡ false
    → IsWellFormed l
    → IsWellFormed (lock_acquire_async c l task op).lock × IsWellFormed (lock_release c l task).lock
calls-IsWellFormed c l task op t near v = (
  lock_acquire_async-IsWellFormed c l task op t near v,
  lock_release-IsWellFormed c l task t near v,
)
