-- ===== src/Lock/Table.antt =====
-- The lock table of lib/lock.cc: two maps of pointers into a store of lock structures, `lock_setup`,
-- `lock_init`, `lock_local_init`, `lock_packet_dispatch`, and the calls by key. A pointer is a place
-- in the store, and a new structure goes to its end.
pub mod Sharing
use fisslock_bmv2_java.Base.{
  ℕ, ◌%◌, ◌^◌, Bool, List, [], ◌∷◌, ◌++◌, Option, none, some, ◌==◌, if◌then◌else◌, length,
  get_elem?, set, lookup, emplace,
}
use fisslock_bmv2_java.Post.{LockState, Packet, Sent, swap32}
use fisslock_bmv2_java.Lock.State.{InnetLock, LockReq, new_lock}
use fisslock_bmv2_java.Lock.Outcome.{Outcome}
use fisslock_bmv2_java.Lock.Packets.{Preprocessor, lock_packet_process}
use fisslock_bmv2_java.Lock.Client.{Conf, Acquired, lock_acquire_async}
use fisslock_bmv2_java.Lock.Unlock.{Released, lock_release}

pub record LockTable : Type 0 where
  pub store : List InnetLock
  pub lock_tbl : List (ℕ × ℕ)
  pub lock_id_map : List (ℕ × ℕ)

-- FLAG_ENB_LOCAL_GRANT is the lowest bit of the flags. The dispatchers are those of `Lock.Packets`.
unfoldable pub lock_setup : Conf → ℕ → Conf × LockTable
lock_setup c flags = (
  record c { enb_local_grants = flags % 2 == 1 },
  record { store = []; lock_tbl = []; lock_id_map = [] },
)

-- A lock number that is not known yet gets a structure of its own.
unfoldable pub lock_id_to_desc : LockTable → ℕ → LockTable × ℕ
lock_id_to_desc t lid = elim (lookup lid t.lock_id_map) [
  | some ptr ↦ (t, ptr)
  | none ↦ (
    record t {
      store = t.store ++ new_lock 0 lid ∷ [];
      lock_id_map = emplace lid (length t.store) t.lock_id_map;
    },
    length t.store,
  )
]

unfoldable pub lock_key_to_desc : LockTable → ℕ → Option ℕ
lock_key_to_desc t lkey = lookup lkey t.lock_tbl

-- Both ways to make a lock known by its key; an entry that is there stays.
unfoldable pub add_lock : LockTable → ℕ → ℕ → LockTable
add_lock t lkey lid = record {
  store = t.store ++ new_lock lkey lid ∷ [];
  lock_tbl = emplace lkey (length t.store) t.lock_tbl;
  lock_id_map = emplace lid (length t.store) t.lock_id_map;
}

-- `lid` is the number that the registry answers (RPC_LOCK_REGISTER).
unfoldable pub lock_init : LockTable → ℕ → ℕ → LockTable × ℕ
unfolding add_lock
lock_init t lkey lid = elim (lookup lkey t.lock_tbl) [
  | some ptr ↦ (t, 0)
  | none ↦ (add_lock t lkey lid, lid)
]

unfoldable pub lock_local_init : LockTable → ℕ → LockTable × ℕ
unfolding add_lock
lock_local_init t lock_id = elim (lookup lock_id t.lock_tbl) [
  | some ptr ↦ (t, 0)
  | none ↦ (add_lock t lock_id lock_id, lock_id % 2 ^ 32)
]

-- A structure is written back to where it stands. A pointer to nothing is a fault.
module _ (host : ℕ) (pre : Option Preprocessor) where
  unfoldable pub process_at : LockTable → ℕ → Packet → Option (LockTable × Outcome)
  process_at t ptr p = elim (get_elem? t.store ptr) [
    | none ↦ none
    | some l ↦
        let o = lock_packet_process host pre l p in
        some (record t { store = set t.store ptr o.lock }, o)
  ]

  unfoldable pub lock_packet_dispatch : LockTable → Packet → Option (LockTable × Outcome)
  unfolding process_at
  lock_packet_dispatch t p =
      let (t', ptr) = lock_id_to_desc t (swap32 p.lock_id) in process_at t' ptr p

module _ (c : Conf) where
  -- A key that is not in the table is a fault: the assertion is compiled out.
  unfoldable pub acquire_key : LockTable → ℕ → ℕ → LockState → Option (LockTable × Acquired)
  acquire_key t lkey task op = elim (lock_key_to_desc t lkey) [
    | none ↦ none
    | some ptr ↦ elim (get_elem? t.store ptr) [
      | none ↦ none
      | some l ↦
          let a = lock_acquire_async c l task op in
          some (record t { store = set t.store ptr a.lock }, a)
    ]
  ]

  unfoldable pub release_key : LockTable → ℕ → ℕ → Option (LockTable × Released)
  release_key t lkey task = elim (lock_key_to_desc t lkey) [
    | none ↦ none
    | some ptr ↦ elim (get_elem? t.store ptr) [
      | none ↦ none
      | some l ↦
          let r = lock_release c l task in some (record t { store = set t.store ptr r.lock }, r)
    ]
  ]
