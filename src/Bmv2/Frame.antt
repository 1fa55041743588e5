-- ===== src/Bmv2/Frame.antt =====
-- lib/bmv2/bmv2_net.cc, the sending half: the frame that is made of a post and injected. A frame is
-- the list of its bytes. The packet library's answers (whether the interface opens and whether the
-- injection succeeds) are arguments.
use fisslock_bmv2_java.Base.{
  ℕ, zero, suc, ◌+◌, ◌-◌, ◌*◌, ◌/◌, ◌%◌, ◌^◌, Bool, true, false, List, [], ◌∷◌, ◌++◌, Option, none,
  some, if◌then◌else◌, ◌==◌, ltb, length, take, drop, replicate,
}

-- The sizes of the Ethernet, IPv4 and UDP headers: 14, 20 and 8 bytes.
abbrev pub headers_size : ℕ
headers_size = 42

abbrev pub server_post_type : ℕ
server_post_type = 20001

abbrev pub client_post_type : ℕ
client_post_type = 20002

-- `memcpy(frame + i, bytes, n)` and assignments of consecutive bytes.
abbrev pub write_at : ℕ → List ℕ → List ℕ → List ℕ
write_at i bytes frame = take i frame ++ bytes ++ drop (i + length bytes) frame

-- The two bytes of a 16-bit number in network order.
abbrev pub be16 : ℕ → List ℕ
be16 x = x / 2 ^ 8 % 2 ^ 8 ∷ x % 2 ^ 8 ∷ []

-- `g_eth_template`, by the writes of the code, in their order.
abbrev pub init_header_template : List ℕ
init_header_template =
    let zeroed = replicate headers_size 0 in
    let with_dst = write_at 0 (0 ∷ 0 ∷ 0 ∷ 0 ∷ 1 ∷ 0 ∷ []) zeroed in
    let with_src = write_at 6 (0 ∷ 0 ∷ 0 ∷ 0 ∷ 0 ∷ 1 ∷ []) with_dst in
    let with_type = write_at 12 (8 ∷ 0 ∷ []) with_src in
    let with_version = write_at 14 (0x45 ∷ []) with_type in
    let with_protocol = write_at 23 (17 ∷ []) with_version in
    let with_src_addr = write_at 26 (10 ∷ 0 ∷ 0 ∷ 1 ∷ []) with_protocol in
    let with_dst_addr = write_at 30 (10 ∷ 0 ∷ 0 ∷ 2 ∷ []) with_src_addr in
    let with_sport = write_at 34 (0x75 ∷ 0x30 ∷ []) with_dst_addr in
    write_at 36 (be16 server_post_type) with_sport

-- The loops over 16-bit words, the last of which may lack its second byte; `sum` has 32 bits.
unfoldable pub add_words : ℕ → List ℕ → ℕ
add_words sum [] = sum
add_words sum (hi ∷ []) = (sum + hi * 2 ^ 8) % 2 ^ 32
add_words sum (hi ∷ lo ∷ bytes) = add_words ((sum + (hi * 2 ^ 8 + lo)) % 2 ^ 32) bytes

-- `checksum_fold`, whose loop runs while the number has more than 16 bits; `none` when the fuel is
-- spent.
unfoldable pub checksum_fold : ℕ → ℕ → Option ℕ
checksum_fold zero sum = none
checksum_fold (suc fuel) sum =
    if sum / 2 ^ 16 == 0
    then some sum
    else checksum_fold fuel ((sum % 2 ^ 16 + sum / 2 ^ 16) % 2 ^ 32)

abbrev pub fold_fuel : ℕ
fold_fuel = 3

-- `static_cast<uint16_t>(~sum)`
abbrev pub complement : ℕ → ℕ
complement sum = 2 ^ 16 - 1 - sum % 2 ^ 16

-- The sum over the IPv4 header.
unfoldable pub ip_sum : List ℕ → ℕ
ip_sum frame = add_words 0 (take 20 (drop 14 frame))

unfoldable pub fix_ip_checksum : List ℕ → Option (List ℕ)
fix_ip_checksum frame =
    let zeroed = write_at 24 (0 ∷ 0 ∷ []) frame in
    elim (checksum_fold fold_fuel (ip_sum zeroed)) [
      | none ↦ none
      | some sum ↦ some (write_at 24 (be16 (complement sum)) zeroed)
    ]

-- The sum of the addresses, the protocol and the length, and then over the datagram.
unfoldable pub udp_sum : List ℕ → ℕ → ℕ
udp_sum frame udp_len =
    let pseudo = (add_words 0 (take 8 (drop 26 frame)) + 17 + udp_len % 2 ^ 32) % 2 ^ 32 in
    add_words pseudo (take udp_len (drop 34 frame))

-- `udp_csum`, which is not 0.
abbrev pub nonzero : ℕ → ℕ
nonzero csum = if csum == 0 then 0xffff else csum

unfoldable pub fix_udp_checksum : List ℕ → ℕ → Option (List ℕ)
fix_udp_checksum frame udp_len =
    let zeroed = write_at 40 (0 ∷ 0 ∷ []) frame in
    elim (checksum_fold fold_fuel (udp_sum zeroed udp_len)) [
      | none ↦ none
      | some sum ↦ some (write_at 40 (be16 (nonzero (complement sum))) zeroed)
    ]

unfoldable pub fix_ipv4_udp_checksums : List ℕ → ℕ → Option (List ℕ)
fix_ipv4_udp_checksums frame post_size = elim (fix_ip_checksum frame) [
  | none ↦ none
  | some fixed ↦ fix_udp_checksum fixed (8 + post_size)
]

-- `post` is what stands in the packet buffer behind the room for the headers.
unfoldable pub build_frame_from_post : List ℕ → List ℕ → ℕ → Option (List ℕ)
build_frame_from_post template post post_size =
    let copied = take headers_size template ++ take post_size post in
    let with_ip_len = write_at 16 (be16 (20 + 8 + post_size)) copied in
    let with_udp_len = write_at 38 (be16 (8 + post_size)) with_ip_len in
    fix_ipv4_udp_checksums with_udp_len post_size

-- What a call of `net_send` returns (-1 is `failed`) and the frame that went out.
pub record SendResult : Type 0 where
  pub failed : Bool
  pub injected : Option (List ℕ)

abbrev pub frame_size : ℕ
frame_size = 512

-- `none`: the frame is written beyond the 512 bytes of the local array, or the checksum's loop did
-- not end.
unfoldable pub net_send : Bool → Bool → List ℕ → List ℕ → ℕ → Option SendResult
net_send opens injects template post size =
    if opens
    then (if ltb frame_size (headers_size + size)
        then none
        else (elim (build_frame_from_post template post size) [
          | none ↦ none
          | some frame ↦ some (
              if injects
              then record { failed = false; injected = some frame }
              else record { failed = true; injected = none })
        ]))
    else some (record { failed = true; injected = none })

-- `net_send_batch` sends one after another, whatever each returns; the frames that went out.
unfoldable pub net_send_batch :
    List (Bool × Bool) → List ℕ → List (List ℕ) → ℕ → Option (List (List ℕ))
net_send_batch answers template [] size = some []
net_send_batch [] template (post ∷ posts) size = none
net_send_batch ((opens, injects) ∷ answers) template (post ∷ posts) size =
    let rest = net_send_batch answers template posts size in
    elim (net_send opens injects template post size) [
      | none ↦ none
      | some sent ↦ elim rest [
        | none ↦ none
        | some frames ↦ some (elim sent.injected [ none ↦ frames | some frame ↦ frame ∷ frames ])
      ]
    ]
