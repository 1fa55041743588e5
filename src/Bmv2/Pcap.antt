-- ===== src/Bmv2/Pcap.antt =====
-- lib/bmv2/bmv2_net.cc, the receiving half: dispatchers, and the packets that BMv2 captures into the
-- files of its interfaces, which grow and are read again. What the packet library reads in a file,
-- up to the first packet that is not complete, is an argument, and so is a file's size.
use fisslock_bmv2_java.Base.{
  ℕ, suc, ◌+◌, ◌*◌, ◌/◌, ◌%◌, ◌^◌, ◌&&◌, not, List, [], ◌∷◌, ◌++◌, Option, none, some,
  if◌then◌else◌, ◌==◌, ltb, leb, length, drop, get_elem?, get_or, lookup, assign,
}
use fisslock_bmv2_java.Bmv2.Frame.{server_post_type, client_post_type}

abbrev pub num_post_types : ℕ
num_post_types = 9

-- A call `packet_dispatch(t, buf, net_lcore_id())`.
pub record Call : Type 0 where
  pub type : ℕ
  pub buf : List ℕ

-- `g_dispatchers`: each changes the state of its module and returns a number.
abbrev pub Dispatchers {ℓ} : Type ℓ → Type ℓ
Dispatchers S = List (ℕ × (S → List ℕ → S × ℕ))

module _ {ℓ} {S : Type ℓ} where
  unfoldable pub register_packet_dispatcher :
      Dispatchers S → ℕ → (S → List ℕ → S × ℕ) → Dispatchers S
  register_packet_dispatcher g t f = if ltb t num_post_types then assign t f g else g

  unfoldable pub packet_dispatch : Dispatchers S → S → ℕ → List ℕ → S × ℕ
  packet_dispatch g s t buf =
      if leb num_post_types t
      then (s, 0)
      else (elim (lookup t g) [ none ↦ (s, 0) | some f ↦ f s buf ])

  -- The calls of one poll, in order; what they return is not used.
  unfoldable pub dispatch_all : Dispatchers S → S → List Call → S
  dispatch_all g s [] = s
  dispatch_all g s (c ∷ calls) =
      let (s', _) = packet_dispatch g s c.type c.buf in dispatch_all g s' calls

abbrev pub byte_of : List ℕ → ℕ → ℕ
byte_of bytes i = get_or 0 (get_elem? bytes i)

-- The call that `dispatch_udp_payload` makes, if any.
unfoldable pub dispatch_udp_payload : List ℕ → List Call
dispatch_udp_payload payload =
    let t = byte_of payload 0 % 2 ^ 8 in
    if length payload == 0
    then []
    else (if (t == 0)
        then []
        else (if leb num_post_types t then [] else record { type = t; buf = payload } ∷ []))

-- The body of the loop of `scan_pcap_file` for one packet.
unfoldable pub scan_packet : List ℕ → List Call
scan_packet pkt =
    let ihl = byte_of pkt 14 % 2 ^ 4 * 4 in
    let dport = byte_of pkt (14 + ihl + 2) * 2 ^ 8 + byte_of pkt (14 + ihl + 3) in
    if ltb (length pkt) (14 + 20 + 8 + 1)
    then []
    else if not (byte_of pkt 14 / 2 ^ 4 == 4)
    then []
    else if ltb (length pkt) (14 + ihl + 8 + 1)
    then []
    else if not (dport == server_post_type) && not (dport == client_post_type)
    then []
    else dispatch_udp_payload (drop (14 + ihl + 8) pkt)

-- The loop of `scan_pcap_file`: the final index and the calls.
unfoldable pub scan_loop : ℕ → ℕ → List (List ℕ) → ℕ × List Call
scan_loop skip index [] = (index, [])
scan_loop skip index (pkt ∷ pkts) =
    let (last, calls) = scan_loop skip (suc index) pkts in
    if ltb index skip then (last, calls) else (last, scan_packet pkt ++ calls)

-- A file: its size, and the packets that the library reads in it, `none` if it does not open it.
pub record PcapFile : Type 0 where
  pub size : ℕ
  pub packets : Option (List (List ℕ))

-- The files of a directory, by their place in `names`.
abbrev pub Files : Type 0
Files = ℕ → Option PcapFile

-- `names`: veth-switch_out.pcap, veth-h1_out.pcap and veth-h2_out.pcap.
abbrev pub names : List ℕ
names = 0 ∷ 1 ∷ 2 ∷ []

abbrev pub size_of : Option PcapFile → ℕ
size_of none = 0
size_of (some f) = f.size

unfoldable pub sum_sizes : Files → List ℕ → ℕ
sum_sizes files [] = 0
sum_sizes files (n ∷ ns) = size_of (files n) + sum_sizes files ns

abbrev pub total_pcap_bytes : Files → ℕ
total_pcap_bytes files = sum_sizes files names

-- `g_pcap_dir` (`none` when empty), `g_pcap_bytes_before` and `g_pcap_packets_done`.
pub record NetState : Type 0 where
  pub pcap_dir : Option ℕ
  pub bytes_before : ℕ
  pub packets_done : List (ℕ × ℕ)

-- The state and the directory argument, `none` when it is null or empty; `disk` has the files of
-- each directory. Without a directory there are no such files under `/`.
unfoldable pub bmv2_net_configure : (ℕ → Files) → NetState → Option ℕ → NetState
bmv2_net_configure disk s dir =
    let now : Option ℕ = elim dir [ none ↦ s.pcap_dir | some d ↦ some d ] in
    record {
      pcap_dir = now;
      packets_done = [];
      bytes_before = elim now [ none ↦ 0 | some d ↦ total_pcap_bytes (disk d) ];
    }

abbrev pub opened : Option PcapFile → Option (List (List ℕ))
opened none = none
opened (some f) = f.packets

abbrev pub done_of : List (ℕ × ℕ) → ℕ → ℕ
done_of done n = get_or 0 (lookup n done)

unfoldable pub scan_pcap_file : Files → List (ℕ × ℕ) → ℕ → List (ℕ × ℕ) × List Call
scan_pcap_file files done n = elim (opened (files n)) [
  | none ↦ (done, [])
  | some pkts ↦
      let (index, calls) = scan_loop (done_of done n) 0 pkts in (assign n index done, calls)
]

unfoldable pub scan_files : Files → List (ℕ × ℕ) → List ℕ → List (ℕ × ℕ) × List Call
scan_files files done [] = (done, [])
scan_files files done (n ∷ ns) =
    let (done', calls) = scan_pcap_file files done n in
    let (last, more) = scan_files files done' ns in (last, calls ++ more)

-- The result of `net_poll_packets` and the calls that it made.
pub record Polled : Type 0 where
  pub state : NetState
  pub calls : List Call
  pub ret : ℕ

unfoldable pub poll_directory : NetState → Files → Polled
poll_directory s files =
    let (done, calls) = scan_files files s.packets_done names in
    if leb (total_pcap_bytes files) s.bytes_before
    then record { state = s; calls = []; ret = 0 }
    else record {
      state = record s { bytes_before = total_pcap_bytes files; packets_done = done };
      calls = calls;
      ret = 1;
    }

unfoldable pub net_poll_packets : NetState → (ℕ → Files) → Polled
net_poll_packets s disk = elim s.pcap_dir [
  | none ↦ record { state = s; calls = []; ret = 0 }
  | some d ↦ poll_directory s (disk d)
]
