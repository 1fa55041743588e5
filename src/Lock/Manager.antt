-- ===== src/Lock/Manager.antt =====
-- A host as the manager of a lock beyond the switch's range (lib/lock.cc), with the clients that
-- call it: remote ones by packets to `lock_packet_process`, local ones by `lock_acquire_async` and
-- `lock_release`. Who owns the lock is read off the grants that go out, not off the manager's state.
pub mod Invariant
pub mod Handlers
pub mod Scheduling
pub mod Steps
pub mod Identity
pub mod Safety
use fisslock_bmv2_java.Base.{
  ℕ, ◌%◌, ◌^◌, ◌<◌, ◌≡◌, ◌≢◌, Bool, true, false, List, [], ◌∷◌, ◌++◌, map, if◌then◌else◌, ◌==◌, All,
  contains, insert, erase,
}
use fisslock_bmv2_java.Post.{
  LockState, Wqe, PostType, post_lock_acquire, post_lock_release, post_lock_grant_wo_agent, Packet,
  Sent, mode,
}
use fisslock_bmv2_java.Post.Modes.{IsRequest}
use fisslock_bmv2_java.Lock.State.{
  InnetLock, LockReq, granted_at_once, lock_holder, lock_out_of_range, lock_to_lm, new_lock,
}
use fisslock_bmv2_java.Lock.Digest.{holder_of, insert_all}
use fisslock_bmv2_java.Lock.Outcome.{Outcome, goes_on}
use fisslock_bmv2_java.Lock.Acquire.{process_acquire}
use fisslock_bmv2_java.Lock.Release.{process_release}
use fisslock_bmv2_java.Lock.Client.{Conf, Acquired, lock_acquire_async}
use fisslock_bmv2_java.Lock.Unlock.{Released, lock_release}

-- The client that a grant names.
abbrev pub grantee : Packet → ℕ
grantee p = lock_holder p.machine_id p.task_id

abbrev pub is_grant : PostType → Bool
is_grant post_lock_grant_wo_agent = true
is_grant _ = false

-- The clients that the packets `out` give the lock to.
unfoldable pub grantees : List Sent → List ℕ
grantees [] = []
grantees (s ∷ out) =
    let rest = grantees out in if is_grant s.packet.type then grantee s.packet ∷ rest else rest

-- By what the handler sends, and by the packet at hand if that goes on in this build.
unfoldable pub granted_by_packet : Bool → Outcome → List ℕ
unfolding grantees goes_on
granted_by_packet bmv2 o =
    if goes_on bmv2 o
    then grantees (o.sent ++ record { packet = o.packet; post_size = 0 } ∷ [])
    else grantees o.sent

unfoldable pub granted_by_call : ℕ → LockReq → List ℕ
granted_by_call lh granted_at_once = lh ∷ []
granted_by_call lh _ = []

-- The manager's lock, the owners by the grants sent so far, and what each client asked for last.
pub record Managed : Type 0 where
  pub lock : InnetLock
  pub owners : List ℕ
  pub wanted : ℕ → LockState

abbrev pub update : (ℕ → LockState) → ℕ → LockState → ℕ → LockState
update f a s b = if a == b then s else f b

-- A client asks when it neither owns the lock nor waits for it.
pub record IsIdle (s : Managed) (lh : ℕ) : Type 0 where
  pub no_owner : contains lh s.owners ≡ false
  pub no_waiter : All (λ w. holder_of w ≢ lh) s.lock.wqueue

-- Hosts have 8 bits, and the tasks of waiters 30.
pub record Fits (host task : ℕ) : Type 0 where
  pub host_fits : host < 2 ^ 8
  pub task_fits : task < 2 ^ 30

module _ (c : Conf) where
  abbrev pub after_acquire : Managed → ℕ → LockState → InnetLock → List ℕ → Managed
  after_acquire s lh op l news = record {
    lock = l;
    owners = insert_all news s.owners;
    wanted = update s.wanted lh op;
  }

  abbrev pub after_release : Managed → ℕ → InnetLock → List ℕ → Managed
  after_release s lh l news = record s { lock = l; owners = insert_all news (erase lh s.owners) }

  -- The discipline of the clients: only an idle one asks, and only an owner releases. A client that
  -- gives up while it waits takes no step here.
  pub data Step (s : Managed) : Managed → Type 0 where
    remote_acquire :
        (p : Packet)
        → Fits p.machine_id p.task_id
        → IsIdle s (grantee p)
        → Step s (
            let o = process_acquire s.lock p in
            after_acquire s (grantee p) (mode p.mode_old_mode) o.lock (granted_by_packet c.bmv2 o))
    remote_release :
        (p : Packet)
        → contains (grantee p) s.owners ≡ true
        → Step s (
            let o = process_release c.localhost_id s.lock p in
            after_release s (grantee p) o.lock (granted_by_packet c.bmv2 o))
    local_acquire :
        (task : ℕ) (op : LockState)
        → Fits c.localhost_id task
        → IsRequest op
        → IsIdle s (lock_holder c.localhost_id task)
        → Step s (
            let a = lock_acquire_async c s.lock task op in
            let lh = lock_holder c.localhost_id task in
            after_acquire s lh op a.lock (granted_by_call lh a.req))
    local_release :
        (task : ℕ)
        → contains (lock_holder c.localhost_id task) s.owners ≡ true
        → Step s (
            let r = lock_release c s.lock task in
            after_release s (lock_holder c.localhost_id task) r.lock (grantees r.sent))

  -- A fresh lock that this host manages: beyond the switch's range, and its own by the hash.
  pub record IsManagerOf (l : InnetLock) : Type 0 where
    pub beyond : lock_out_of_range l ≡ true
    pub mine : lock_to_lm l ≡ c.localhost_id
    pub untouched : l ≡ new_lock l.key l.id

  pub data Reach (l : InnetLock) : Managed → Type 0 where
    start : (f : ℕ → LockState) → Reach l (record { lock = l; owners = []; wanted = f })
    later : {s t : Managed} → Reach l s → Step s t → Reach l t
