-- ===== src/Lock/Roles/Grant.antt =====
-- Grant packets keep a lock well formed.
use fisslock_bmv2_java.Base.{
  ℕ, ◌≡◌, ◌==◌, insert, inl, inr, List, arith, All-append, All-filter, All-take, true, Bool-cases,
  take,
}
use fisslock_bmv2_java.Post.{Wqe, Packet, mode}
use fisslock_bmv2_java.Post.Modes.{mode-IsRequest}
use fisslock_bmv2_java.Lock.State.{InnetLock, lock_digest_wq, lock_unmarshal_wq, lock_holder}
use fisslock_bmv2_java.Lock.Digest.{lock_digest_wq-marked, wants_other}
use fisslock_bmv2_java.Lock.Grant.{
  task_for_restore, process_grant_with_agent, take_grant, take_wqueue,
}
use fisslock_bmv2_java.Lock.Roles.{AllRequests, IsWellFormed}

digest-requests :
    (l : InnetLock) (wq : List Wqe) (n : ℕ)
    → AllRequests wq
    → AllRequests l.wqueue
    → AllRequests (lock_digest_wq l wq n).0.wqueue
digest-requests l wq n h q =
    rw lock_digest_wq-marked
      (All-append _ l.wqueue _ q (All-filter _ wants_other (take n wq) (All-take _ n wq h)))

unmarshal-requests :
    (l : InnetLock) (wq : List Wqe) (n : ℕ)
    → AllRequests wq
    → AllRequests l.wqueue
    → AllRequests (lock_unmarshal_wq l wq n).wqueue
unfolding lock_unmarshal_wq
unmarshal-requests l wq n h q = All-append _ l.wqueue _ q (All-take _ n wq h)

take_wqueue-requests :
    (l : InnetLock) (p : Packet)
    → AllRequests p.wq
    → AllRequests l.wqueue
    → AllRequests (take_wqueue l p).0.wqueue
unfolding take_wqueue
take_wqueue-requests l p h q =
    ground (arith, digest-requests l p.wq p.wq_size h q, unmarshal-requests l p.wq p.wq_size h q)

-- A grant sets the mode that it carries, and keeps the agent's flag.
record Granted (l : InnetLock) (p : Packet) (l' : InnetLock) : Type 0 where
  moded : l'.mode ≡ mode p.mode_old_mode
  agent : l'.is_agent ≡ l.is_agent
  waiting : AllRequests l'.wqueue

take_wqueue-mode : (l : InnetLock) (p : Packet) → (take_wqueue l p).0.mode ≡ l.mode
unfolding take_wqueue lock_unmarshal_wq
take_wqueue-mode l p = ground (arith, lock_digest_wq-marked l p.wq p.wq_size)

take_wqueue-is_agent : (l : InnetLock) (p : Packet) → (take_wqueue l p).0.is_agent ≡ l.is_agent
unfolding take_wqueue lock_unmarshal_wq
take_wqueue-is_agent l p = ground (arith, lock_digest_wq-marked l p.wq p.wq_size)

take_grant-Granted :
    (l : InnetLock) (p : Packet)
    → AllRequests p.wq
    → AllRequests l.wqueue
    → Granted l p (take_grant l p).0
unfolding take_grant
take_grant-Granted l p h q =
    let l' = record l { mode = mode p.mode_old_mode } in
    ground (arith, take_wqueue-mode l' p, take_wqueue-is_agent l' p, take_wqueue-requests l' p h q)

pub process_grant_with_agent-IsWellFormed :
    (host : ℕ) (l : InnetLock) (p : Packet)
    → AllRequests p.wq
    → IsWellFormed l
    → IsWellFormed (process_grant_with_agent host l p).lock
unfolding process_grant_with_agent
process_grant_with_agent-IsWellFormed host l p h v =
    elim (Bool-cases (p.task_id == task_for_restore)) [
      | inl e ↦ rw e v
      | inr e ↦
          let g =
            take_grant-Granted
              (record l {
                is_agent = true;
                holders = insert (lock_holder host p.task_id) l.holders;
              })
              p h v.requests in
          rw e (record {
            role = rw (g.agent, g.moded) (mode-IsRequest p.mode_old_mode);
            requests = g.waiting;
          })
    ]
