-- ===== src/NetLock/Tests.antt =====
-- The theorems about NetLock at concrete queues, frames and tables, and runs of the server.
use fisslock_bmv2_java.Base.{
  is_empty, ℕ, ◌≡◌, ◌⊎◌, ◌++◌, ◌≤◌, ◌+◌, ◌*◌, ◌^◌, true, false, List, [], ◌∷◌, All, Bool, map, none,
  some, inl, inr, refl, arith, pos, negsuc, filter, length, lookup, emplace,
}
use fisslock_bmv2_java.Post.{lock_excl, swap32}
use fisslock_bmv2_java.ParLock.Queue.{state_shared, state_exclusive}
use fisslock_bmv2_java.NetLock.Queue.{
  LockQueueNode, matches, get_head_request, get_shared_requests, erase_lock_request, erase_loop,
  block_queue, push_back_lock, grant_lock_from_server, init_all_locks, init_locks, init_lock_queue,
}
use fisslock_bmv2_java.NetLock.Server.{
  ServerPost, Served, served, process_primary_acquire, acquire_shared, acquire_exclusive,
  process_primary_release, release_exclusive, schedule_exclusive, grant_all_shared, grant_loop,
}
use fisslock_bmv2_java.NetLock.Dispatch.{
  process_secondary_release, process_node, process_primary_backup, on_queue,
}
use fisslock_bmv2_java.NetLock.System.{
  remove_first, holders, Shared, acquire, release, give_up, Reach, start, later,
}
use fisslock_bmv2_java.NetLock.System.Safety.{owners-holders, exclusive_grant_alone}
use fisslock_bmv2_java.NetLock.Backup.{process_secondary_release-splits}
use fisslock_bmv2_java.NetLock.Wire.{
  LockPostHeader, Frame, init_header_template, generate_header, client_frame,
  generate_header_lock_server, mbuf_to_node, swap16, byte_of, ip_from_eth,
}
use fisslock_bmv2_java.NetLock.Frames.{mbuf_to_node-generate_header}
use fisslock_bmv2_java.NetLock.Waits.{LockWaitTable, lock_req_granted}
use fisslock_bmv2_java.NetLock.Client.{Acquired, preprocess, lock_acquire_async, packet_dispatch}
use fisslock_bmv2_java.NetLock.Grants.{grant_is_consumed}
use fisslock_bmv2_java.NetLock.Stray.{stray_release_grants_again}
use fisslock_bmv2_java.NetLock.Main.{server_main, rx_burst}

abbrev node_of : ℕ → ℕ → ℕ → ℕ → List ℕ → LockQueueNode
node_of op_type mode client_id txn_id payload = record {
  op_type = op_type;
  mode = mode;
  client_id = client_id;
  txn_id = txn_id;
  lock_id = 3;
  ip_src = 0;
  role = 1;
  payload = payload;
}

abbrev writer : LockQueueNode
writer = node_of 0 1 1 5 []

abbrev reader : LockQueueNode
reader = node_of 0 0 2 8 []

abbrev late_reader : LockQueueNode
late_reader = node_of 0 0 2 9 []

abbrev late_writer : LockQueueNode
late_writer = node_of 0 1 4 10 []

-- The writer's release carries the object that it wrote.
abbrev writer_done : LockQueueNode
writer_done = node_of 1 1 1 5 (7 ∷ [])

abbrev granted_reader : LockQueueNode
granted_reader = node_of 0 0 2 8 (7 ∷ [])

abbrev granted_late_reader : LockQueueNode
granted_late_reader = node_of 0 0 2 9 (7 ∷ [])

-- A reader, a writer that gives up, and another reader came while the writer had the lock.
abbrev readers_own : Shared
readers_own = record {
  queue = record {
    node_queue = granted_reader ∷ granted_late_reader ∷ [];
    shared_counter = pos 2;
    exclusive_counter = pos 0;
    lock_state = state_shared;
    seqnum = 0;
    ticket_id = 6;
  };
  owners = granted_reader ∷ granted_late_reader ∷ [];
}

abbrev writer_owns : Shared
writer_owns = record {
  queue = record {
    node_queue = writer ∷ reader ∷ [];
    shared_counter = pos 0;
    exclusive_counter = pos 0;
    lock_state = state_exclusive;
    seqnum = 0;
    ticket_id = 2;
  };
  owners = writer ∷ [];
}

writer_owns-Reach : Reach writer_owns
unfolding process_primary_acquire acquire_shared acquire_exclusive
writer_owns-Reach = later (later start (acquire writer (inr refl))) (acquire reader (inl refl))

readers_own-Reach : Reach readers_own
unfolding process_primary_acquire acquire_shared acquire_exclusive process_primary_release
    erase_lock_request erase_loop matches release_exclusive schedule_exclusive get_head_request
    grant_all_shared grant_loop get_shared_requests filter remove_first
readers_own-Reach =
    later
      (later
        (later (later writer_owns-Reach (acquire late_writer (inr refl)))
          (acquire late_reader (inl refl)))
        (give_up late_writer refl (λ e. cc)))
      (release writer_done [] refl)

owners-holders_example :
    (readers_own.owners ≡ holders state_shared readers_own.queue.node_queue)
    × (is_empty readers_own.owners ≡ is_empty readers_own.queue.node_queue)
owners-holders_example = owners-holders readers_own-Reach

exclusive_grant_alone_example : writer_owns.owners ≡ writer ∷ []
exclusive_grant_alone_example = exclusive_grant_alone writer_owns-Reach writer [] [] refl refl

process_secondary_release-splits_example :
    (o : Served) × (process_secondary_release writer_owns.queue (pos 1) ≡ some o)
    × (map (λ p. p.node) o.posts ++ o.queue.node_queue ≡ writer ∷ reader ∷ [])
    × All (λ p. p.action_type ≡ push_back_lock) o.posts
    × (length o.posts ≤ 1)
    × ((length o.posts ≡ 1) ⊎ (o.queue.node_queue ≡ []))
    × (process_secondary_release writer_owns.queue (negsuc 1)
        ≡ some (served (block_queue writer_owns.queue) []))
process_secondary_release-splits_example = process_secondary_release-splits writer_owns.queue 1

abbrev template : Frame
template = init_header_template 2 1 4

abbrev reply : ServerPost
reply = record { node = granted_reader; action_type = 3; transferred = 1; ncnt = 300 }

mbuf_to_node-generate_header_example :
    let request = generate_header none template 4 8 0 3 1 in
    let answer = generate_header_lock_server template 4 reply 8888 in
    let sender = ip_from_eth template.eth_src_addr in
    (mbuf_to_node request ≡ record {
      op_type = 0;
      mode = 1;
      client_id = template.message_hdr.client_id;
      txn_id = 8;
      lock_id = 3;
      ip_src = sender;
      role = byte_of template.eth_dst_addr 5;
      payload = [];
    })
    × (mbuf_to_node answer ≡ record granted_reader {
      op_type = 3;
      ip_src = sender;
      role = byte_of template.eth_dst_addr 5;
    })
    × (swap16 answer.total_length + 14 ≡ answer.data_len)
    × (swap16 answer.dgram_len + 34 ≡ answer.data_len)
mbuf_to_node-generate_header_example =
    mbuf_to_node-generate_header template 4 8 0 3 1 reply 8888 (omega arith) (omega arith)
      (omega arith) (omega arith) (omega arith)

abbrev table : LockWaitTable
table = (3, []) ∷ []

abbrev grant_of_three : LockPostHeader
grant_of_three = record template.message_hdr {
  op_type = 3;
  lock_id = 3 * 2 ^ 24;
  txn_id = 8 * 2 ^ 24;
}

grant_is_consumed_example :
    (a : Acquired) × (lock_acquire_async table 3 8 lock_excl ≡ some a)
    × (lock_req_granted a.table a.req ≡ some (a.table, false))
    × (t' : LockWaitTable) × (packet_dispatch none a.table grant_of_three ≡ some t')
    × (t'' : LockWaitTable) × (flags' : List (ℕ × Bool)) × (lock_req_granted t' a.req
        ≡ some (t'', true))
    × (lock_req_granted t'' a.req ≡ some (t'', false))
    × (lookup 3 t'' ≡ some flags')
    × (lookup 9 flags' ≡ lookup 9 [])
    × (lookup 4 t'' ≡ lookup 4 table)
unfolding lookup preprocess swap32
grant_is_consumed_example =
    grant_is_consumed none table [] 3 8 9 4 lock_excl grant_of_three (omega arith) (omega arith)
      (λ e. omega (arith, e)) (λ e. omega (arith, e)) refl refl refl refl refl refl

stray_release_grants_again_example :
    let o = process_primary_release writer_owns.queue (node_of 1 1 1 6 (9 ∷ [])) in
    (o.posts
      ≡ record {
        node = record writer { payload = 9 ∷ [] };
        action_type = grant_lock_from_server;
        transferred = 1;
        ncnt = 0;
      }
        ∷ [])
    × (o.queue.node_queue ≡ record writer { payload = 9 ∷ [] } ∷ reader ∷ [])
    × (o.queue.lock_state ≡ state_exclusive)
unfolding remove_first matches
stray_release_grants_again_example =
    stray_release_grants_again writer_owns.queue (node_of 1 1 1 6 (9 ∷ [])) writer (reader ∷ [])
      refl refl refl refl refl

-- A frame for the primary of lock 3 is answered, and one in no role is dropped.
abbrev request_frame : ℕ → Frame
request_frame role = record (generate_header none template 4 8 0 3 1) {
  eth_dst_addr = 0 ∷ 0 ∷ 0 ∷ 0 ∷ 0 ∷ role ∷ [];
}

abbrev sent_for : ℕ → List ServerPost
sent_for role = elim (server_main 4 none) [
  | none ↦ []
  | some s ↦ elim (rx_burst s (request_frame role ∷ [])) [ none ↦ [] | some (s', ps) ↦ ps ]
]

answered : map (λ p. p.action_type) (sent_for 1) ≡ grant_lock_from_server ∷ []
unfolding server_main init_all_locks init_locks init_lock_queue rx_burst process_node
    process_primary_backup on_queue mbuf_to_node generate_header client_frame
    process_primary_acquire acquire_exclusive lookup swap32 emplace
answered = refl

dropped : sent_for 0 ≡ []
unfolding server_main init_all_locks init_locks init_lock_queue rx_burst process_node mbuf_to_node
    generate_header client_frame lookup
dropped = refl
