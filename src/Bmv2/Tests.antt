-- ===== src/Bmv2/Tests.antt =====
-- The theorems about the network layer on BMv2 at concrete posts and files, and runs of it.
use fisslock_bmv2_java.Base.{
  ℕ, zero, suc, ◌+◌, ◌-◌, ◌*◌, ◌%◌, ◌^◌, ◌<◌, ◌≡◌, Bool, true, false, List, [], ◌∷◌, ◌++◌, Option,
  none, some, arith, refl, length, ltb, replicate, All, ◌==◌, lookup, assign, pos,
}
use fisslock_bmv2_java.Post.{lock_shared, lock_excl, post_lock_transfer, send_post_lock_generic}
use fisslock_bmv2_java.Lock.State.{InnetLock, new_lock, lock_holder, lock_out_of_range}
use fisslock_bmv2_java.Lock.Client.{Conf}
use fisslock_bmv2_java.Bmv2.Host.{fl_bmv2_init, fl_bmv2_try_acquire_excl, fl_bmv2_release_excl}
use fisslock_bmv2_java.Bmv2.Abandoned.{nothing_happens, abandoned_attempt_owns}
use fisslock_bmv2_java.Bmv2.Frame.{
  init_header_template, net_send, net_send_batch, build_frame_from_post, add_words, checksum_fold,
  ip_sum, udp_sum, fix_ip_checksum, fix_udp_checksum, fix_ipv4_udp_checksums,
}
use fisslock_bmv2_java.Bmv2.Pcap.{
  Call, Dispatchers, register_packet_dispatcher, packet_dispatch, dispatch_all, byte_of,
  scan_packet, PcapFile, Files, NetState, bmv2_net_configure, net_poll_packets, sum_sizes,
  poll_directory, scan_files, scan_pcap_file, scan_loop, dispatch_udp_payload,
}
use fisslock_bmv2_java.Bmv2.Checksums.{IsByte}
use fisslock_bmv2_java.Bmv2.Building.{received_ip_sum, received_udp_sum}
use fisslock_bmv2_java.Bmv2.Delivery.{net_send_verifies, net_send_fits, is_undefined}
use fisslock_bmv2_java.Bmv2.Scans.{packets_of, count, all_calls}
use fisslock_bmv2_java.Bmv2.Growth.{Grows}
use fisslock_bmv2_java.Bmv2.Polling.{no_more, next, poll_all, polls_dispatch_once}

all_replicate : (n b : ℕ) → b < 2 ^ 8 → All IsByte (replicate n b)
all_replicate zero b h = tt
all_replicate (suc n) b h = (h, all_replicate n b h)

net_send_verifies_example :
    (frame : List ℕ) × (net_send true true init_header_template (1 ∷ replicate 16 3) 17
      ≡ some (record { failed = false; injected = some frame }))
    × (scan_packet frame ≡ record { type = 1; buf = 1 ∷ replicate 16 3 } ∷ [])
    × (received_ip_sum frame % (2 ^ 16 - 1) ≡ 0)
    × (received_udp_sum frame % (2 ^ 16 - 1) ≡ 0)
    × (0 < byte_of frame 40 * 2 ^ 8 + byte_of frame 41)
net_send_verifies_example =
    net_send_verifies 1 (replicate 16 3) (omega arith) (omega arith)
      (all_replicate 16 3 (omega arith)) (omega arith)

net_send_fits_example :
    is_undefined (net_send true true init_header_template (replicate 472 5) 472) ≡ ltb 90 91
unfolding send_post_lock_generic
net_send_fits_example =
    net_send_fits true post_lock_transfer lock_excl lock_shared 1 2 7 91 0 3 [] (replicate 472 5)
      refl (all_replicate 472 5 (omega arith))

-- A captured packet of a post of one byte, its type.
abbrev captured : ℕ → List ℕ
captured t =
    replicate 14 0 ++ 0x45 ∷ replicate 19 0 ++ 0x75 ∷ 0x30 ∷ 0x4e ∷ 0x21 ∷ 0 ∷ 9 ∷ 0 ∷ 0 ∷ t ∷ []

abbrev file : List (List ℕ) → Option PcapFile
file pkts = some (record { size = 24 + 59 * length pkts; packets = some pkts })

-- Two files of a directory; the third is missing.
abbrev two_files : List (List ℕ) → List (List ℕ) → Files
two_files xs ys zero = file xs
two_files xs ys (suc zero) = file ys
two_files xs ys _ = none

abbrev on_disk : List (List ℕ) → List (List ℕ) → ℕ → Files
on_disk xs ys dir = two_files xs ys

abbrev unconfigured : NetState
unconfigured = record { pcap_dir = none; bytes_before = 0; packets_done = [] }

abbrev is_grant : Call → Bool
is_grant c = c.type == 3

abbrev disk0 : ℕ → Files
disk0 = on_disk (captured 3 ∷ []) []

abbrev disk1 : ℕ → Files
disk1 = on_disk (captured 3 ∷ captured 2 ∷ []) []

abbrev disk2 : ℕ → Files
disk2 = on_disk (captured 3 ∷ captured 2 ∷ []) (captured 3 ∷ [])

added_grant : ℕ → List (List ℕ)
added_grant (suc zero) = captured 3 ∷ []
added_grant _ = []

appended_grant :
    (n : ℕ)
    → packets_of (two_files (captured 3 ∷ captured 2 ∷ []) (captured 3 ∷ []) n)
      ≡ packets_of (two_files (captured 3 ∷ captured 2 ∷ []) [] n) ++ added_grant n
unfolding added_grant
appended_grant zero = refl
appended_grant (suc zero) = refl
appended_grant (suc (suc n)) = refl

grows : Grows (disk1 0) (disk2 0)
unfolding sum_sizes
grows = record {
  added = added_grant;
  appended = appended_grant;
  larger = omega arith;
  still = λ e. absurd (omega (arith, e));
}

polls_dispatch_once_example :
    count is_grant
      ((poll_all (bmv2_net_configure disk0 unconfigured (some 0)) (disk1 ∷ disk2 ∷ [])).1)
    ≡ count is_grant (all_calls (disk2 0))
unfolding sum_sizes
polls_dispatch_once_example =
    polls_dispatch_once is_grant unconfigured 0 disk0 disk1 (disk2 ∷ []) (omega arith)
      (next grows no_more)

-- The packet that was there before the configuration is dispatched as well, and a poll of files that
-- have not grown does nothing.
stale_is_dispatched :
    (poll_all (bmv2_net_configure disk0 unconfigured (some 0)) (disk0 ∷ disk1 ∷ disk1 ∷ [])).1
    ≡ record { type = 3; buf = 3 ∷ [] } ∷ record { type = 2; buf = 2 ∷ [] } ∷ []
unfolding poll_all net_poll_packets poll_directory scan_files scan_pcap_file scan_loop scan_packet
    dispatch_udp_payload sum_sizes bmv2_net_configure lookup assign
stale_is_dispatched = refl

-- Frames whose interface does not open are not sent, and the batch goes on.
batch_goes_on :
    net_send_batch
      ((false, true) ∷ (true, false) ∷ [])
      init_header_template
      ((1 ∷ []) ∷ (1 ∷ []) ∷ [])
      1
    ≡ some []
unfolding net_send_batch net_send build_frame_from_post fix_ipv4_udp_checksums fix_ip_checksum
    fix_udp_checksum ip_sum udp_sum add_words checksum_fold
batch_goes_on = refl

-- A dispatcher that collects the first bytes, and one for no post type, which is not registered.
abbrev collects : List ℕ → List ℕ → List ℕ × ℕ
collects seen buf = (byte_of buf 0 ∷ seen, 0)

abbrev registered : Dispatchers (List ℕ)
registered = register_packet_dispatcher (register_packet_dispatcher [] 3 collects) 9 collects

dispatched :
    dispatch_all registered [] (
      record { type = 3; buf = 3 ∷ [] }
      ∷ record { type = 9; buf = 9 ∷ [] }
      ∷ record { type = 2; buf = 2 ∷ [] }
      ∷ [])
    ≡ 3 ∷ []
unfolding register_packet_dispatcher packet_dispatch dispatch_all lookup assign
dispatched = refl

-- Host 1 is the agent of lock 5, which its task 7 holds.
abbrev agent_lock : InnetLock
agent_lock = record (new_lock 5 5) { is_agent = true; mode = lock_excl; holders = 4294967303 ∷ [] }

abbrev host_one : Conf
host_one = record {
  localhost_id = 1;
  bmv2 = true;
  tpcc_enb_local = false;
  enb_local_grants = true;
  packet_modify = none;
}

host_one_is_set_up : fl_bmv2_init false (pos 1) ≡ host_one
unfolding fl_bmv2_init
host_one_is_set_up = refl

abandoned_attempt_owns_example :
    (left : InnetLock) × (fl_bmv2_try_acquire_excl host_one agent_lock 9 (nothing_happens 4)
      ≡ some (record { lock = left; sent = []; ret = 0 }))
    × (let r = fl_bmv2_release_excl host_one left 7 in
        (r.lock.holders ≡ lock_holder 1 9 ∷ [])
        × (r.lock.wqueue ≡ [])
        × (r.lock.mode ≡ lock_excl)
        × (r.lock.is_agent ≡ true)
        × (r.sent ≡ []))
unfolding new_lock lock_holder lock_out_of_range lookup
abandoned_attempt_owns_example =
    abandoned_attempt_owns host_one agent_lock 7 9 4 refl refl refl refl refl refl refl refl refl
      (λ e. omega (arith, e)) (omega arith) (omega arith)
