-- ===== src/NetLock/Client.antt =====
-- The client's calls of baseline/NetLock/lib/lock.cc, and the dispatch of what it receives (lib/net.cc
-- and lock.cc). Timers and counters are left out. The application's preprocessor is a parameter.
use fisslock_bmv2_java.Base.{
  ℕ, ◌+◌, ◌*◌, ◌^◌, ◌||◌, Bool, List, [], ◌∷◌, Option, none, some, if◌then◌else◌, ◌==◌,
}
use fisslock_bmv2_java.Post.{
  LockState, lock_shared, lock_excl, PostType, post_lock_grant_with_agent, swap32,
}
use fisslock_bmv2_java.NetLock.Queue.{
  acquire_lock, release_lock, grant_lock_from_server, direct_grant_from_switch, shared, exclusive,
}
use fisslock_bmv2_java.NetLock.Wire.{LockPostHeader}
use fisslock_bmv2_java.NetLock.Waits.{
  LockWaitTable, init_lock_wait_table, add_to_wait_queue, coroutine_wait_queue_signal,
}

-- A call of `net_send`.
pub record ClientPost : Type 0 where
  pub txn_id : ℕ
  pub action_type : ℕ
  pub lock_id : ℕ
  pub lock_type : ℕ

-- The post for an operator: any other sends nothing.
unfoldable pub client_posts : ℕ → ℕ → ℕ → LockState → List ClientPost
client_posts action lkey requester lock_excl =
    record { txn_id = requester; action_type = action; lock_id = lkey; lock_type = exclusive } ∷ []
client_posts action lkey requester lock_shared =
    record { txn_id = requester; action_type = action; lock_id = lkey; lock_type = shared } ∷ []
client_posts action lkey requester _ = []

pub record Acquired : Type 0 where
  pub table : LockWaitTable
  pub posts : List ClientPost
  pub req : ℕ

unfoldable pub lock_acquire_async : LockWaitTable → ℕ → ℕ → LockState → Option Acquired
unfolding client_posts
lock_acquire_async t lkey requester op = elim (add_to_wait_queue t lkey requester) [
  | none ↦ none
  | some t' ↦ some (record {
    table = t';
    posts = client_posts acquire_lock lkey requester op;
    req = lkey * 2 ^ 32 + requester;
  })
]

unfoldable pub lock_release : ℕ → ℕ → LockState → List ClientPost
unfolding client_posts
lock_release lkey requester op = client_posts release_lock lkey requester op

unfoldable pub lock_local_init : LockWaitTable → ℕ → LockWaitTable
unfolding init_lock_wait_table
lock_local_init t lock_id = init_lock_wait_table t lock_id

-- What the application makes of the header of a packet.
abbrev pub Preprocessor : Type 0
Preprocessor = PostType → LockPostHeader → LockPostHeader

abbrev pub is_grant : ℕ → Bool
is_grant op_type = (op_type == direct_grant_from_switch) || (op_type == grant_lock_from_server)

unfoldable pub preprocess : Option Preprocessor → LockPostHeader → LockPostHeader
preprocess none hdr = hdr
preprocess (some f) hdr = if is_grant hdr.op_type then f post_lock_grant_with_agent hdr else hdr

-- The numbers are read before the preprocessor runs, the operator after it.
unfoldable pub lock_packet_dispatch :
    Option Preprocessor → LockWaitTable → LockPostHeader → Option LockWaitTable
unfolding preprocess
lock_packet_dispatch pre t hdr =
    let lock_id = swap32 hdr.lock_id in
    let txn_id = swap32 hdr.txn_id in
    if is_grant (preprocess pre hdr).op_type
    then coroutine_wait_queue_signal t lock_id txn_id
    else some t

-- `lock_setup` registers the dispatcher. A MEM_DIFF goes to the application's, and any other packet
-- is dropped.
unfoldable pub packet_dispatch :
    Option Preprocessor → LockWaitTable → LockPostHeader → Option LockWaitTable
packet_dispatch pre t hdr = if is_grant hdr.op_type then lock_packet_dispatch pre t hdr else some t
