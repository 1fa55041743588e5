-- ===== src/Bmv2/Polling.antt =====
-- Repeated polls of capture files that grow (lib/bmv2/bmv2_net.cc).
use fisslock_bmv2_java.Base.{
  ℕ, ◌+◌, ◌<◌, ◌≡◌, ◌∙◌, ap, Bool, List, [], ◌∷◌, ◌++◌, some, arith, refl, append-nil, lookup,
}
use fisslock_bmv2_java.Bmv2.Pcap.{
  Call, Files, total_pcap_bytes, NetState, bmv2_net_configure, poll_directory, net_poll_packets,
}
use fisslock_bmv2_java.Bmv2.Scans.{posts, packets_of, count, count-append, all_calls}
use fisslock_bmv2_java.Bmv2.Growth.{Grows, Seen, poll_grown, poll-Seen}

-- Polls one after another, each of what is on the disk then: the state and all calls.
unfoldable pub poll_all : NetState → List (ℕ → Files) → NetState × List Call
poll_all s [] = (s, [])
poll_all s (disk ∷ disks) =
    let o = net_poll_packets s disk in
    let (last, calls) = poll_all o.state disks in (last, o.calls ++ calls)

-- The files of one directory only grow.
pub data Growing (dir : ℕ) : (ℕ → Files) → List (ℕ → Files) → Type 0 where
  no_more : {disk : ℕ → Files} → Growing dir disk []
  next :
      {disk disk' : ℕ → Files} {disks : List (ℕ → Files)}
      → Grows (disk dir) (disk' dir)
      → Growing dir disk' disks
      → Growing dir disk (disk' ∷ disks)

abbrev pub last_disk : (ℕ → Files) → List (ℕ → Files) → ℕ → Files
last_disk disk [] = disk
last_disk disk (disk' ∷ disks) = last_disk disk' disks

net_poll_lem :
    (s : NetState) (dir : ℕ) (disk : ℕ → Files)
    → s.pcap_dir ≡ some dir
    → net_poll_packets s disk ≡ poll_directory s (disk dir)
unfolding net_poll_packets
net_poll_lem s dir disk d = rw d refl

poll_all-Seen :
    (p : Call → Bool) (s : NetState) (dir : ℕ) (disk : ℕ → Files) (disks : List (ℕ → Files))
    → s.pcap_dir ≡ some dir
    → Seen s (disk dir)
    → Growing dir disk disks
    → count p ((poll_all s disks).1) + count p (all_calls (disk dir))
      ≡ count p (all_calls (last_disk disk disks dir))
unfolding poll_all count
poll_all-Seen p s dir disk [] d seen no_more = omega arith
poll_all-Seen p s dir disk (disk' ∷ disks) d seen (next g growing) =
    let o = poll_directory s (disk' dir) in
    let (seen', counted, same_dir) = poll-Seen p s (disk dir) (disk' dir) seen g in
    let later = poll_all-Seen p o.state dir disk' disks (same_dir ∙ d) seen' growing in
    rw (net_poll_lem s dir disk' d)
      (omega (arith, counted, later, count-append p o.calls ((poll_all o.state disks).1)))

-- A host is configured with a directory and then polls again and again, while the files of the
-- directory grow: at first, from the configuration to the first poll, by some bytes; after that,
-- packets are appended to the files, and never without bytes. Then, for every kind of call that one
-- may ask for, the polls have together made as many calls of it as the packets of the three files
-- give at the last poll: each packet is dispatched once, and none is lost. This counts the packets
-- that were in the files before the configuration, which are dispatched too.
pub polls_dispatch_once :
    (p : Call → Bool) (s : NetState) (dir : ℕ) (start first : ℕ → Files) (disks : List (ℕ → Files))
    → total_pcap_bytes (start dir) < total_pcap_bytes (first dir)
    → Growing dir first disks
    → let configured = bmv2_net_configure start s (some dir) in
      count p ((poll_all configured (first ∷ disks)).1)
      ≡ count p (all_calls (last_disk first disks dir))
unfolding bmv2_net_configure poll_all Seen all_calls lookup
polls_dispatch_once p s dir start first disks grown growing =
    let configured = bmv2_net_configure start s (some dir) in
    let (done, e, synced) =
      poll_grown configured (first dir) (omega arith, (omega arith, (omega arith, tt))) grown in
    let o = poll_directory configured (first dir) in
    let later = poll_all-Seen p o.state dir first disks (rw e refl) (rw e (refl, synced)) growing in
    let all_of_first : o.calls ≡ all_calls (first dir) =
      rw (e, append-nil (posts (packets_of (first dir 2)))) refl in
    rw (net_poll_lem configured dir first refl) (
      omega (
        arith,
        later,
        count-append p o.calls ((poll_all o.state disks).1),
        ap (count p) all_of_first,
      ))
