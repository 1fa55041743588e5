-- ===== src/NetLock/Frames.antt =====
-- What a frame of NetLock carries is what its reader gets (baseline/NetLock/lib/net.cc, request.cc).
use fisslock_bmv2_java.Base.{
  ℕ, ◌+◌, ◌-◌, ◌^◌, ◌<◌, ◌≡◌, List, [], ◌∷◌, none, refl, arith, length, take, take-length, ltb,
  if◌then◌else◌, true,
}
use fisslock_bmv2_java.Post.{swap32}
use fisslock_bmv2_java.NetLock.Server.{ServerPost}
use fisslock_bmv2_java.NetLock.Wire.{
  Frame, swap16, header_size, generate_header, client_frame, generate_header_lock_server, byte_of,
  ip_from_eth, mbuf_to_node,
}

swap32-swap32 : (x : ℕ) → x < 2 ^ 32 → swap32 (swap32 x) ≡ x
unfolding swap32
swap32-swap32 x h = omega arith

swap16-swap16 : (x : ℕ) → x < 2 ^ 16 → swap16 (swap16 x) ≡ x
unfolding swap16
swap16-swap16 x h = omega arith

payload_read :
    (n : ℕ) (bytes : List ℕ)
    → n ≡ header_size + length bytes
    → (if ltb header_size n then take (n - header_size) bytes else []) ≡ bytes
payload_read n [] e = ground arith
payload_read n (b ∷ bytes) e =
    let long : ltb header_size n ≡ true = ground arith in
    let size : n - header_size ≡ length (b ∷ bytes) = omega arith in
    rw (long, size) (take-length (b ∷ bytes))

-- A client's request and a post of the server are read as they were written. A request without a
-- modifier that goes out from a template gives a node with its numbers, the client of the template
-- and no payload. A post gives the node that it is about, payload included, with the action of the
-- post; and the IP and UDP lengths of its frame agree with the length of the buffer. Lock and
-- transaction numbers are below 2^32, and the frame is shorter than 2^16 bytes.
pub mbuf_to_node-generate_header :
    (template : Frame) (tx_count txn_id action_type lock_id lock_type : ℕ) (p : ServerPost)
    (udp_dst_port : ℕ)
    → txn_id < 2 ^ 32
    → lock_id < 2 ^ 32
    → p.node.txn_id < 2 ^ 32
    → p.node.lock_id < 2 ^ 32
    → header_size + length p.node.payload < 2 ^ 16
    → let request = generate_header none template tx_count txn_id action_type lock_id lock_type in
      let reply = generate_header_lock_server template tx_count p udp_dst_port in
      let sender = ip_from_eth template.eth_src_addr in
      let role = byte_of template.eth_dst_addr 5 in
      (mbuf_to_node request ≡ record {
        op_type = action_type;
        mode = lock_type;
        client_id = template.message_hdr.client_id;
        txn_id = txn_id;
        lock_id = lock_id;
        ip_src = sender;
        role = role;
        payload = [];
      })
      × (mbuf_to_node reply
          ≡ record p.node { op_type = p.action_type; ip_src = sender; role = role })
      × (swap16 reply.total_length + 14 ≡ reply.data_len)
      × (swap16 reply.dgram_len + 34 ≡ reply.data_len)
unfolding generate_header client_frame generate_header_lock_server mbuf_to_node
mbuf_to_node-generate_header template tx_count txn_id action_type lock_id lock_type p udp_dst_port t
      l pt pl fits =
    (
      ground (arith, swap32-swap32 txn_id t, swap32-swap32 lock_id l),
      ground (
        arith,
        swap32-swap32 p.node.txn_id pt,
        swap32-swap32 p.node.lock_id pl,
        payload_read (header_size + length p.node.payload) p.node.payload refl,
      ),
      omega (arith, swap16-swap16 (62 + length p.node.payload) (omega arith)),
      omega (arith, swap16-swap16 (42 + length p.node.payload) (omega arith)),
    )
