-- ===== src/Lock/Outcome.antt =====
-- What a packet handler of lib/lock.cc leaves behind.
use fisslock_bmv2_java.Base.{ℕ, Bool, List, [], not, ◌||◌, ◌==◌}
use fisslock_bmv2_java.Post.{Packet, Sent}
use fisslock_bmv2_java.Lock.State.{InnetLock}

-- The lock and the packet after the handler, what it sent besides, and the value that it returns.
pub record Outcome : Type 0 where
  pub lock : InnetLock
  pub packet : Packet
  pub sent : List Sent
  pub ret : ℕ

abbrev pub drop_packet : InnetLock → Packet → Outcome
drop_packet l p = record { lock = l; packet = p; sent = []; ret = 0 }

-- The handler asks for the packet to be sent back to the switch.
abbrev pub return_packet : InnetLock → Packet → Outcome
return_packet l p = record { lock = l; packet = p; sent = []; ret = 1 }

-- Whether the packet goes out, in a build for BMv2 or not. `net_poll_packets` of lib/net.cc sends it
-- unless the handler returns 0, grown by that many bytes if the value is above 1;
-- `dispatch_udp_payload` of lib/bmv2/bmv2_net.cc drops the value, and the packet with it.
unfoldable pub goes_on : Bool → Outcome → Bool
goes_on bmv2 o = not (bmv2 || (o.ret == 0))
