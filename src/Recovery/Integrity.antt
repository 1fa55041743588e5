-- ===== src/Recovery/Integrity.antt =====
-- `integrity_check` of lib/lock.cc as a whole, and `check_error` of lib/fault.cc.
use fisslock_bmv2_java.Base.{
  ℕ, ◌-◌, ◌^◌, Bool, false, not, List, [], ◌∷◌, map, Option, none, some, if◌then◌else◌, ◌==◌,
  get_elem?,
}
use fisslock_bmv2_java.Post.{Modifier, Sent, send_post_acquire}
use fisslock_bmv2_java.Lock.State.{InnetLock}
use fisslock_bmv2_java.Lock.Table.{LockTable}
use fisslock_bmv2_java.Recovery.{CheckHolderReply}
use fisslock_bmv2_java.Recovery.Host.{Report, submit_all, await_ready, restore_all}

-- `TASK_FOR_RESTORE`
abbrev pub task_for_restore : ℕ
task_for_restore = 2 ^ 32 - 1

-- The acquires that tell the switch of the agents of this host.
unfoldable pub restore_posts : Option Modifier → ℕ → List InnetLock → List ℕ → Option (List Sent)
restore_posts modify host store [] = some []
restore_posts modify host store (ptr ∷ ptrs) = elim (get_elem? store ptr) [
  | none ↦ none
  | some l ↦ elim (restore_posts modify host store ptrs) [
    | none ↦ none
    | some rest ↦ some (send_post_acquire modify host l.mode l.id host task_for_restore ∷ rest)
  ]
]

-- The daemon's state, the lock table, and what was sent: reports to the daemon, posts to the switch.
pub record Checked (S : Type 0) : Type 0 where
  pub server : S
  pub table : LockTable
  pub reports : List Report
  pub posts : List Sent

abbrev places : LockTable → List ℕ
places t = map (λ e. e.1) t.lock_tbl

module _ {S : Type 0} (rpc_check_holder : S → ℕ → ℕ → Bool → Option (S × CheckHolderReply))
    (modify : Option Modifier) (host : ℕ) where
  -- The second half, once the daemon is ready: `s` is the daemon's state then.
  unfoldable pub restore_table : S → LockTable → List Report → Option (Checked S)
  restore_table s t reports = elim (restore_all rpc_check_holder s (places t) t.store) [
    | none ↦ none
    | some (s', store, agents) ↦ elim (restore_posts modify host store agents) [
      | none ↦ none
      | some posts ↦ some (record {
        server = s';
        table = record t { store = store };
        reports = reports;
        posts = posts;
      })
    ]
  ]

  -- `replies` are the daemon's answers to RPC_RECOVERY_READY; `none` also if it is never ready.
  unfoldable pub integrity_check : ℕ → List Bool → S → LockTable → Option (Checked S)
  unfolding restore_table
  integrity_check fault_code replies s t = elim (submit_all host fault_code (places t) t.store) [
    | none ↦ none
    | some (store, reports) ↦
        if await_ready replies then restore_table s (record t { store = store }) reports else none
  ]

-- `CALLER_WAIT_FOR_GRANT`
abbrev pub caller_wait_for_grant : ℕ
caller_wait_for_grant = 2

-- The loop that asks RPC_CHECK_WAITER until the answer is not 2, and what becomes of the waiter: 1 to
-- abort it. `none` if the answers end before.
unfoldable pub await_waiter : List ℕ → Option ℕ
await_waiter [] = none
await_waiter (exist ∷ replies) =
    let rest = await_waiter replies in
    if exist == 2 then rest else if exist == 1 then some 0 else some 1

-- What `check_error` does: whether it runs `integrity_check`, and then clears the fault signal, and
-- what it returns.
pub record FaultCheck : Type 0 where
  pub runs_check : Bool
  pub ret : ℕ

-- `code` is the signal at the first read and `now` that under the mutex, which another thread may have
-- cleared. `replies` are the daemon's answers about the waiter.
unfoldable pub check_error : ℕ → ℕ → ℕ → List ℕ → Option FaultCheck
unfolding await_waiter
check_error code now caller replies =
    if code == 0
    then some (record { runs_check = false; ret = 0 })
    else if caller == caller_wait_for_grant
    then (elim (await_waiter replies) [
      | none ↦ none
      | some ret ↦ some (record { runs_check = not (now == 0); ret = ret })
    ])
    else some (record { runs_check = not (now == 0); ret = 0 })
