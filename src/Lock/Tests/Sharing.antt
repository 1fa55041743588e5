-- ===== src/Lock/Tests/Sharing.antt =====
-- `lock_init` of lib/lock.cc at concrete tables.
use fisslock_bmv2_java.Base.{arith, ◌≡◌, [], ◌∷◌, refl, none, some, lookup, get_elem?}
use fisslock_bmv2_java.Post.{post_lock_acquire, Packet, swap32}
use fisslock_bmv2_java.Lock.State.{new_lock}
use fisslock_bmv2_java.Lock.Packets.{lock_packet_process}
use fisslock_bmv2_java.Lock.Table.{
  LockTable, lock_init, lock_id_to_desc, lock_key_to_desc, lock_packet_dispatch,
}
use fisslock_bmv2_java.Lock.Table.Sharing.{lock_init_shares, lock_init_after_packet}
use fisslock_bmv2_java.Lock.Tests.Data.{near_lock, packet_of}

-- After `lock_setup`.
abbrev empty_table : LockTable
empty_table = record { store = []; lock_tbl = []; lock_id_map = [] }

-- A packet for lock 5 has come.
abbrev table_with_five : LockTable
table_with_five = record { store = near_lock ∷ []; lock_tbl = []; lock_id_map = (5, 0) ∷ [] }

abbrev acq : Packet
acq = packet_of post_lock_acquire 1 8

no_entry : lookup 7 empty_table.lock_tbl ≡ none
unfolding lookup
no_entry = refl

five_known : lookup 5 table_with_five.lock_id_map ≡ some 0
unfolding lookup
five_known = refl

first_is_near : get_elem? table_with_five.store 0 ≡ some near_lock
first_is_near = refl

acq_of_five : swap32 acq.lock_id ≡ 5
unfolding swap32
acq_of_five = refl

lock_init_shares_example :
    let t' = (lock_init empty_table 7 7).0 in
    (lock_key_to_desc t' 7 ≡ some 0)
    × (lock_id_to_desc t' 7 ≡ (t', 0))
    × (get_elem? t'.store 0 ≡ some (new_lock 7 7))
    × (lock_key_to_desc t' 8 ≡ lock_key_to_desc empty_table 8)
    × (lock_init t' 7 7 ≡ (t', 0))
lock_init_shares_example =
    lock_init_shares empty_table 7 7 8 (λ e. omega (arith, e)) no_entry no_entry

lock_init_after_packet_example :
    let t' = (lock_init table_with_five 7 5).0 in
    let o = lock_packet_process 1 none near_lock acq in
    (u : LockTable) × (lock_packet_dispatch 1 none t' acq ≡ some (u, o))
    × (lock_key_to_desc u 7 ≡ some 1)
    × (get_elem? u.store 1 ≡ some (new_lock 7 5))
    × (get_elem? u.store 0 ≡ some o.lock)
lock_init_after_packet_example =
    lock_init_after_packet 1 none acq table_with_five 7 5 0 near_lock no_entry five_known
      first_is_near acq_of_five
