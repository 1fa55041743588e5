-- ===== src/NetLock/Main.antt =====
-- baseline/NetLock/server/main.cc: the table of the switch's slots, and the loop over the frames that
-- a receive burst gives. The lines of the file with the slots are an argument, as `sscanf` reads them.
use fisslock_bmv2_java.Base.{
  ℕ, zero, suc, List, [], ◌∷◌, ◌++◌, Option, none, some, assign, ltb, if◌then◌else◌, ℤ, pos,
}
use fisslock_bmv2_java.NetLock.Queue.{init_all_locks}
use fisslock_bmv2_java.NetLock.Server.{ServerPost}
use fisslock_bmv2_java.NetLock.Dispatch.{LockServer, process_node}
use fisslock_bmv2_java.NetLock.Wire.{Frame, mbuf_to_node}

-- Without MAP_OBJ every lock below `max_lock_num` has ten slots.
unfoldable pub default_len : ℕ → List (ℕ × ℤ) → List (ℕ × ℤ)
default_len zero t = t
default_len (suc n) t = default_len n (assign n (pos 10) t)

-- With MAP_OBJ each line names a lock and its slots; a lock beyond the array is undefined.
unfoldable pub read_len : ℕ → List (ℕ × ℤ) → List (ℕ × ℤ) → Option (List (ℕ × ℤ))
read_len max_lock_num t [] = some t
read_len max_lock_num t ((lock_id, len) ∷ rest) =
    let later = read_len max_lock_num (assign lock_id len t) rest in
    if ltb lock_id max_lock_num then later else none

unfoldable pub init_len_in_switch : ℕ → Option (List (ℕ × ℤ)) → Option (List (ℕ × ℤ))
unfolding default_len read_len
init_len_in_switch max_lock_num none = some (default_len max_lock_num [])
init_len_in_switch max_lock_num (some file) = read_len max_lock_num [] file

-- The part of `main` that sets up the state.
unfoldable pub server_main : ℕ → Option (List (ℕ × ℤ)) → Option LockServer
unfolding init_len_in_switch
server_main max_lock_num file = elim (init_len_in_switch max_lock_num file) [
  | none ↦ none
  | some slots ↦ some (record { lock_queue = init_all_locks max_lock_num; len_in_switch = slots })
]

-- The inner loop of `rx_loop`, and what it sends.
unfoldable pub rx_burst : LockServer → List Frame → Option (LockServer × List ServerPost)
rx_burst s [] = some (s, [])
rx_burst s (frame ∷ frames) = elim (process_node s (mbuf_to_node frame)) [
  | none ↦ none
  | some (s', ps) ↦ elim (rx_burst s' frames) [
    | none ↦ none
    | some (s'', rest) ↦ some (s'', ps ++ rest)
  ]
]
