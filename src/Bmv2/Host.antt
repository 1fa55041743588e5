-- ===== src/Bmv2/Host.antt =====
-- lib/bmv2/fisslock_host_api.cc and lib/bmv2/bmv2_conf.c: the calls that applications of the BMv2
-- build have, over the calls of lib/lock.cc. The compile-time switch TPCC_ENB_LOCAL is an argument.
use fisslock_bmv2_java.Base.{
  ℕ, zero, suc, Bool, true, false, List, [], ◌∷◌, ◌++◌, Option, none, some, if◌then◌else◌, ltb, ℤ,
  pos, negsuc,
}
use fisslock_bmv2_java.Post.{lock_excl, Sent}
use fisslock_bmv2_java.Lock.State.{InnetLock, LockReq, granted_at_once}
use fisslock_bmv2_java.Lock.Client.{Conf, lock_acquire_async, lock_req_granted}
use fisslock_bmv2_java.Lock.Unlock.{Released, lock_release}
use fisslock_bmv2_java.Lock.Table.{LockTable, lock_local_init}

-- `(host_id > 0 && host_id < 256) ? (host_id) : 1`
unfoldable pub checked_host : ℤ → ℕ
checked_host (pos zero) = 1
checked_host (pos (suc n)) = if ltb (suc n) 256 then suc n else 1
checked_host (negsuc n) = 1

-- What `fl_bmv2_init` sets up: `conf` of `bmv2_env_setup`, and `lock_setup(FLAG_ENB_LOCAL_GRANT)`.
unfoldable pub fl_bmv2_init : Bool → ℤ → Conf
unfolding checked_host
fl_bmv2_init tpcc host_id = record {
  localhost_id = checked_host host_id;
  bmv2 = true;
  tpcc_enb_local = tpcc;
  enb_local_grants = true;
  packet_modify = none;
}

unfoldable pub fl_bmv2_register_lock : LockTable → ℕ → LockTable × ℕ
fl_bmv2_register_lock t lock_id = let (t', _) = lock_local_init t lock_id in (t', 0)

-- The loop until the deadline, with what other threads do to the lock before each question.
unfoldable pub wait_granted :
    LockReq → InnetLock → List (InnetLock → InnetLock) → Option (InnetLock × Bool)
wait_granted req l [] = some (l, false)
wait_granted req l (meanwhile ∷ rest) = elim (lock_req_granted req (meanwhile l)) [
  | none ↦ none
  | some (l', zero) ↦ wait_granted req l' rest
  | some (l', suc n) ↦ some (l', true)
]

pub record Tried : Type 0 where
  pub lock : InnetLock
  pub sent : List Sent
  pub ret : ℕ

-- After the deadline the lock is released.
unfoldable pub try_waiting :
    Conf → ℕ → LockReq → InnetLock → List Sent → List (InnetLock → InnetLock) → Option Tried
try_waiting c task req l out during = elim (wait_granted req l during) [
  | none ↦ none
  | some (l', true) ↦ some (record { lock = l'; sent = out; ret = 1 })
  | some (l', false) ↦
      let r = lock_release c l' task in
      some (record { lock = r.lock; sent = out ++ r.sent; ret = 0 })
]

unfoldable pub try_request :
    Conf → ℕ → LockReq → InnetLock → List Sent → List (InnetLock → InnetLock) → Option Tried
try_request c task granted_at_once l out during = some (record { lock = l; sent = out; ret = 1 })
try_request c task req l out during = try_waiting c task req l out during

unfoldable pub fl_bmv2_try_acquire_excl :
    Conf → InnetLock → ℕ → List (InnetLock → InnetLock) → Option Tried
fl_bmv2_try_acquire_excl c l task during =
    let a = lock_acquire_async c l task lock_excl in try_request c task a.req a.lock a.sent during

unfoldable pub fl_bmv2_release_excl : Conf → InnetLock → ℕ → Released
fl_bmv2_release_excl c l task = lock_release c l task
