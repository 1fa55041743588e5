-- ===== src/NetLock/Wire.antt =====
-- The frames of baseline/NetLock/lib/net.cc and lib/post.h, and how request.cc reads them. A frame is
-- a record of the fields that the code writes or reads; multi-byte fields are in network order. The
-- count of the sent packets, from which the UDP source port is taken, is an argument.
use fisslock_bmv2_java.Base.{
  ℕ, ◌+◌, ◌-◌, ◌*◌, ◌/◌, ◌%◌, ◌^◌, List, [], ◌∷◌, ◌++◌, Option, none, some, if◌then◌else◌, ◌==◌,
  ltb, length, take, get_elem?, get_or,
}
use fisslock_bmv2_java.Post.{PostType, post_lock_acquire, post_lock_free, swap32}
use fisslock_bmv2_java.NetLock.Queue.{acquire_lock, release_lock, LockQueueNode}
use fisslock_bmv2_java.NetLock.Server.{ServerPost}

-- `lock_post_header`, packed: 34 bytes.
pub record LockPostHeader : Type 0 where
  pub recirc_flag : ℕ
  pub op_type : ℕ
  pub mode : ℕ
  pub client_id : ℕ
  pub txn_id : ℕ
  pub lock_id : ℕ
  pub timestamp : ℕ
  pub empty_slots : ℕ
  pub head : ℕ
  pub tail : ℕ
  pub ncnt : ℕ
  pub transferred : ℕ

-- A frame: the Ethernet, IPv4 and UDP fields, the lock header, and the bytes that follow it.
-- `data_len` is the length that the buffer's descriptor gives.
pub record Frame : Type 0 where
  pub eth_src_addr : List ℕ
  pub eth_dst_addr : List ℕ
  pub ip_src_addr : ℕ
  pub ip_dst_addr : ℕ
  pub total_length : ℕ
  pub src_port : ℕ
  pub dst_port : ℕ
  pub dgram_len : ℕ
  pub message_hdr : LockPostHeader
  pub payload : List ℕ
  pub data_len : ℕ

-- `htons` and `rte_cpu_to_be_16` of a little-endian host, with the cut to 16 bits.
unfoldable pub swap16 : ℕ → ℕ
swap16 x = x % 2 ^ 8 * 2 ^ 8 + x / 2 ^ 8 % 2 ^ 8

abbrev pub lk_port : ℕ
lk_port = 8888

-- The sizes of the headers: 14, 20, 8 and 34 bytes.
abbrev pub header_size : ℕ
header_size = 76

abbrev pub ip_hdr_total_length : ℕ
ip_hdr_total_length = 62

abbrev pub udp_hdr_dgram_len : ℕ
udp_hdr_dgram_len = 42

abbrev pub mac_src_addr : List ℕ
mac_src_addr = 0xaa ∷ 0xbb ∷ 0xcc ∷ 0xdd ∷ 0xee ∷ 0xff ∷ []

abbrev pub mac_dst_addr : List ℕ
mac_dst_addr = 0x01 ∷ 0x11 ∷ 0x22 ∷ 0x33 ∷ 0x44 ∷ 0x01 ∷ []

-- `header_template`. The two addresses are those of `ip_list` for this host and for the first.
unfoldable pub init_header_template : ℕ → ℕ → ℕ → Frame
unfolding swap16
init_header_template localhost_id ip_src ip_dst = record {
  eth_src_addr = mac_src_addr;
  eth_dst_addr = mac_dst_addr;
  ip_src_addr = ip_src;
  ip_dst_addr = ip_dst;
  total_length = swap16 ip_hdr_total_length;
  src_port = swap16 lk_port;
  dst_port = swap16 lk_port;
  dgram_len = swap16 udp_hdr_dgram_len;
  message_hdr = record {
    recirc_flag = 0;
    op_type = 0;
    mode = 0;
    client_id = localhost_id % 2 ^ 8;
    txn_id = 0;
    lock_id = 0;
    timestamp = 0;
    empty_slots = 0;
    head = 0;
    tail = 0;
    ncnt = 0;
    transferred = 0;
  };
  payload = [];
  data_len = header_size;
}

-- The packet modifier: what it makes of the header, and the bytes that it adds.
abbrev pub Modifier : Type 0
Modifier = PostType → LockPostHeader → LockPostHeader × List ℕ

-- The post type that the modifier is called with; for another action it is not called.
abbrev pub modified_type : ℕ → Option PostType
modified_type action_type =
    if action_type == acquire_lock
    then some post_lock_acquire
    else if action_type == release_lock
    then some post_lock_free
    else none

unfoldable pub apply_modifier : Modifier → PostType → Frame → Frame
unfolding swap16
apply_modifier f t frame =
    let (hdr, added) = f t frame.message_hdr in
    record frame {
      message_hdr = hdr;
      payload = frame.payload ++ added;
      total_length = swap16 (ip_hdr_total_length + length added);
      dgram_len = swap16 (udp_hdr_dgram_len + length added);
      data_len = frame.data_len + length added;
    }

-- A client's frame, before the modifier.
unfoldable pub client_frame : Frame → ℕ → ℕ → ℕ → ℕ → ℕ → Frame
unfolding swap16 swap32
client_frame template tx_count txn_id action_type lock_id lock_type = record template {
  src_port = swap16 (lk_port + tx_count % 128);
  message_hdr = record template.message_hdr {
    lock_id = swap32 lock_id;
    op_type = action_type;
    mode = lock_type;
    txn_id = swap32 txn_id;
  };
  data_len = header_size;
}

unfoldable pub generate_header : Option Modifier → Frame → ℕ → ℕ → ℕ → ℕ → ℕ → Frame
generate_header none template tx_count txn_id action_type lock_id lock_type =
    client_frame template tx_count txn_id action_type lock_id lock_type
generate_header (some f) template tx_count txn_id action_type lock_id lock_type =
    let frame = client_frame template tx_count txn_id action_type lock_id lock_type in
    elim (modified_type action_type) [ none ↦ frame | some t ↦ apply_modifier f t frame ]

-- The server's frame, which goes back to where the request came from.
unfoldable pub generate_header_lock_server : Frame → ℕ → ServerPost → ℕ → Frame
unfolding swap16 swap32
generate_header_lock_server template tx_count p udp_dst_port = record template {
  ip_src_addr = p.node.ip_src;
  ip_dst_addr = p.node.ip_src;
  total_length = swap16 (ip_hdr_total_length + length p.node.payload);
  src_port = swap16 (lk_port + tx_count % 128);
  dst_port = swap16 udp_dst_port;
  dgram_len = swap16 (udp_hdr_dgram_len + length p.node.payload);
  message_hdr = record template.message_hdr {
    client_id = p.node.client_id;
    lock_id = swap32 p.node.lock_id;
    op_type = p.action_type;
    mode = p.node.mode;
    txn_id = swap32 p.node.txn_id;
    transferred = p.transferred;
    ncnt = p.ncnt % 2 ^ 8;
  };
  payload = p.node.payload;
  data_len = header_size + length p.node.payload;
}

abbrev pub byte_of : List ℕ → ℕ → ℕ
byte_of bytes i = get_or 0 (get_elem? bytes i)

-- `ip_from_eth`: the switch writes the sender's address into the last bytes of the source MAC.
unfoldable pub ip_from_eth : List ℕ → ℕ
ip_from_eth addr =
    byte_of addr 2 + byte_of addr 3 * 2 ^ 8 + byte_of addr 4 * 2 ^ 16 + byte_of addr 5 * 2 ^ 24

unfoldable pub mbuf_to_node : Frame → LockQueueNode
unfolding ip_from_eth swap32
mbuf_to_node frame = record {
  client_id = frame.message_hdr.client_id;
  ip_src = ip_from_eth frame.eth_src_addr;
  lock_id = swap32 frame.message_hdr.lock_id;
  mode = frame.message_hdr.mode;
  op_type = frame.message_hdr.op_type;
  role = byte_of frame.eth_dst_addr 5;
  txn_id = swap32 frame.message_hdr.txn_id;
  payload =
      if ltb header_size frame.data_len
      then take (frame.data_len - header_size) frame.payload
      else [];
}
