-- ===== src/Bmv2/Growth.antt =====
-- One poll of capture files that have grown (lib/bmv2/bmv2_net.cc).
use fisslock_bmv2_java.Base.{
  ℕ, ◌+◌, ◌≤◌, ◌<◌, ◌≡◌, ◌∙◌, sym, ap, Bool, true, false, List, [], ◌++◌, arith, refl, length, leb,
  Bool-cases, append-nil, drop-append, inl, inr, length-append,
}
use fisslock_bmv2_java.Bmv2.Pcap.{Call, Files, total_pcap_bytes, NetState, done_of, poll_directory}
use fisslock_bmv2_java.Bmv2.Scans.{
  posts, packets_of, count, count-append, posts-append, new_calls, Synced, Behind, scan_files_lem,
  all_calls,
}

-- A poll of files that have grown.
pub poll_grown :
    (s : NetState) (files : Files)
    → Behind s.packets_done files
    → s.bytes_before < total_pcap_bytes files
    → (done : List (ℕ × ℕ)) × (poll_directory s files ≡ record {
      state = record s { bytes_before = total_pcap_bytes files; packets_done = done };
      calls =
          new_calls files s.packets_done 0
          ++ (new_calls files s.packets_done 1 ++ (new_calls files s.packets_done 2 ++ []));
      ret = 1;
    })
      × Synced done files
unfolding poll_directory
poll_grown s files b grown =
    let (done, e, synced) = scan_files_lem files s.packets_done b in
    let more : leb (total_pcap_bytes files) s.bytes_before ≡ false = ground arith in
    (done, rw (more, e) refl, synced)

-- What can happen to the files between two polls: packets are appended, and with them bytes.
pub record Grows (files files' : Files) : Type 0 where
  pub added : ℕ → List (List ℕ)
  pub appended : (n : ℕ) → packets_of (files' n) ≡ packets_of (files n) ++ added n
  pub larger : total_pcap_bytes files ≤ total_pcap_bytes files'
  pub still : total_pcap_bytes files' ≡ total_pcap_bytes files → (n : ℕ) → added n ≡ []

-- The state has seen all of the files.
unfoldable pub Seen : NetState → Files → Type 0
Seen s files = (s.bytes_before ≡ total_pcap_bytes files) × Synced s.packets_done files

new_calls_lem :
    (done : List (ℕ × ℕ)) (files files' : Files) (g : Grows files files') (n : ℕ)
    → done_of done n ≡ length (packets_of (files n))
    → (done_of done n ≤ length (packets_of (files' n)))
      × (new_calls files' done n ≡ posts (g.added n))
new_calls_lem done files files' g n synced = (
  omega (arith, synced, ap length (g.appended n), length-append (packets_of (files n)) (g.added n)),
  rw (synced, g.appended n, drop-append (packets_of (files n)) (g.added n)) refl,
)

count-append3 :
    (p : Call → Bool) (xs ys zs : List Call)
    → count p (xs ++ (ys ++ zs)) ≡ count p xs + count p ys + count p zs
count-append3 p xs ys zs = omega (arith, count-append p xs (ys ++ zs), count-append p ys zs)

count_file :
    (p : Call → Bool) (files files' : Files) (g : Grows files files') (n : ℕ)
    → count p (posts (packets_of (files' n)))
      ≡ count p (posts (packets_of (files n))) + count p (posts (g.added n))
count_file p files files' g n =
    let old = packets_of (files n) in
    rw (g.appended n, posts-append old (g.added n)) (count-append p (posts old) (posts (g.added n)))

count_all :
    (p : Call → Bool) (files : Files)
    → count p (all_calls files)
      ≡ count p (posts (packets_of (files 0)))
        + count p (posts (packets_of (files 1)))
        + count p (posts (packets_of (files 2)))
unfolding all_calls
count_all p files =
    count-append3 p (posts (packets_of (files 0))) (posts (packets_of (files 1)))
      (posts (packets_of (files 2)))

count_added :
    (p : Call → Bool) (files files' : Files) (g : Grows files files')
    → count p (all_calls files')
      ≡ count p (all_calls files)
        + (count p (posts (g.added 0)) + count p (posts (g.added 1)) + count p (posts (g.added 2)))
count_added p files files' g = omega (
  arith,
  count_all p files,
  count_all p files',
  count_file p files files' g 0,
  count_file p files files' g 1,
  count_file p files files' g 2,
)

poll_still :
    (s : NetState) (files : Files)
    → leb (total_pcap_bytes files) s.bytes_before ≡ true
    → poll_directory s files ≡ record { state = s; calls = []; ret = 0 }
unfolding poll_directory
poll_still s files e = rw e refl

-- A poll of files that the state has seen before they grew: it calls for what was added.
pub poll-Seen :
    (p : Call → Bool) (s : NetState) (files files' : Files)
    → Seen s files
    → Grows files files'
    → let o = poll_directory s files' in
      Seen o.state files'
      × (count p o.calls + count p (all_calls files) ≡ count p (all_calls files'))
      × (o.state.pcap_dir ≡ s.pcap_dir)
unfolding Seen count
poll-Seen p s files files' (bytes, synced) g =
    elim (Bool-cases (leb (total_pcap_bytes files') s.bytes_before)) [
      | inl same ↦
          let equal : total_pcap_bytes files' ≡ total_pcap_bytes files = ground (arith, g.larger) in
          let kept : (n : ℕ) → packets_of (files' n) ≡ packets_of (files n) =
            λ n. g.appended n ∙ rw (g.still equal n) (append-nil (packets_of (files n))) in
          rw (poll_still s files' same) (
            (
              bytes ∙ sym equal,
              (
                synced.0 ∙ ap length (sym (kept 0)),
                (
                  synced.1.0 ∙ ap length (sym (kept 1)),
                  (synced.1.1.0 ∙ ap length (sym (kept 2)), tt),
                ),
              ),
            ),
            rw (count, count_all p files, count_all p files', kept 0, kept 1, kept 2) (omega arith),
            refl,
          )
      | inr more ↦
          let n0 = new_calls_lem s.packets_done files files' g 0 synced.0 in
          let n1 = new_calls_lem s.packets_done files files' g 1 synced.1.0 in
          let n2 = new_calls_lem s.packets_done files files' g 2 synced.1.1.0 in
          let (done, e, now) = poll_grown s files' (n0.0, (n1.0, (n2.0, tt))) (ground arith) in
          rw (e, n0.1, n1.1, n2.1, append-nil (posts (g.added 2)))
            (
              (refl, now),
              omega (
                arith,
                count_added p files files' g,
                count-append3 p (posts (g.added 0)) (posts (g.added 1)) (posts (g.added 2)),
              ),
              refl,
            )
    ]
