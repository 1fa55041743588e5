-- ===== src/Bmv2/Scans.antt =====
-- What one scan of the capture files does (lib/bmv2/bmv2_net.cc, scan_pcap_file).
use fisslock_bmv2_java.Base.{
  ℕ, suc, ◌+◌, ◌-◌, ◌≤◌, ◌≡◌, ◌∙◌, sym, ap, Bool, List, [], ◌∷◌, ◌++◌, Option, arith, refl, length,
  All, drop, ltb, ◌==◌, if◌then◌else◌, Bool-cases, Option-cases, append_assoc, assign,
  lookup-assign, get_or, drop-nil, inl, inr, ==_iff,
}
use fisslock_bmv2_java.Bmv2.Pcap.{
  Call, scan_packet, scan_loop, PcapFile, Files, names, opened, done_of, scan_pcap_file, scan_files,
}

-- The calls that the packets give, one after another.
unfoldable pub posts : List (List ℕ) → List Call
posts [] = []
posts (pkt ∷ pkts) = scan_packet pkt ++ posts pkts

-- The packets that can be read in a file.
abbrev pub packets_of : Option PcapFile → List (List ℕ)
packets_of file = get_or [] (opened file)

-- How many calls pass a test.
unfoldable pub count : (Call → Bool) → List Call → ℕ
count p [] = 0
count p (c ∷ calls) = if p c then suc (count p calls) else count p calls

pub count-append :
    (p : Call → Bool) (xs ys : List Call) → count p (xs ++ ys) ≡ count p xs + count p ys
unfolding count
count-append p [] ys = omega arith
count-append p (x ∷ xs) ys = ground (arith, count-append p xs ys)

pub posts-append : (xs ys : List (List ℕ)) → posts (xs ++ ys) ≡ posts xs ++ posts ys
unfolding posts
posts-append [] ys = refl
posts-append (x ∷ xs) ys =
    rw (posts-append xs ys) (sym (append_assoc (scan_packet x) (posts xs) (posts ys)))

-- The loop skips the packets that an earlier scan has counted.
scan_loop_lem :
    (skip index : ℕ) (pkts : List (List ℕ))
    → scan_loop skip index pkts ≡ (index + length pkts, posts (drop (skip - index) pkts))
unfolding scan_loop posts
scan_loop_lem skip index [] = rw (drop-nil (skip - index)) (ground arith)
scan_loop_lem skip index (pkt ∷ pkts) = elim (Bool-cases (ltb index skip)) [
  | inl before ↦
      let one : skip - index ≡ suc (skip - suc index) = ground arith in
      rw (before, one, scan_loop_lem skip (suc index) pkts) (ground arith)
  | inr behind ↦
      let none_left : skip - index ≡ 0 = ground arith in
      let none_later : skip - suc index ≡ 0 = ground arith in
      rw (behind, none_left, scan_loop_lem skip (suc index) pkts, none_later) (ground arith)
]

-- The calls for the packets of a file that are not counted as done.
abbrev pub new_calls : Files → List (ℕ × ℕ) → ℕ → List Call
new_calls files done n = posts (drop (done_of done n) (packets_of (files n)))

-- What a scan of one file does: it calls for the packets that are not done, and counts all as done.
scan_pcap_lem :
    (files : Files) (done : List (ℕ × ℕ)) (n : ℕ)
    → done_of done n ≤ length (packets_of (files n))
    → (done' : List (ℕ × ℕ)) × (scan_pcap_file files done n ≡ (done', new_calls files done n))
      × ((m : ℕ)
          → done_of done' m ≡ (if n == m then length (packets_of (files n)) else done_of done m))
unfolding scan_pcap_file posts
scan_pcap_lem files done n known = elim (Option-cases (opened (files n))) [
  | inl shut ↦
      let empty : packets_of (files n) ≡ [] = rw shut refl in
      let zero_done : done_of done n ≡ 0 = omega (arith, known, ap length empty) in
      (
        done,
        rw (shut, scan_pcap_file, drop-nil (done_of done n)) refl,
        λ m. rw empty (elim (Bool-cases (n == m)) [
          | inl e ↦ rw e (rw (sym ((==_iff n m).0 e)) zero_done)
          | inr e ↦ rw e refl
        ]),
      )
  | inr (pkts, open_) ↦ (
    assign n (length pkts) done,
    rw (open_, scan_pcap_file, scan_loop_lem (done_of done n) 0 pkts) (ground arith),
    λ m. rw (lookup-assign n m (length pkts) done, open_) (ground arith),
  )
]

-- Every file's packets are counted as done.
abbrev pub Synced : List (ℕ × ℕ) → Files → Type 0
Synced done files = All (λ n. done_of done n ≡ length (packets_of (files n))) names

-- No file has more packets counted than it has.
abbrev pub Behind : List (ℕ × ℕ) → Files → Type 0
Behind done files = All (λ n. done_of done n ≤ length (packets_of (files n))) names

pub scan_files_lem :
    (files : Files) (done : List (ℕ × ℕ))
    → Behind done files
    → (done' : List (ℕ × ℕ)) × (scan_files files done names ≡ (
      done',
      new_calls files done 0 ++ (new_calls files done 1 ++ (new_calls files done 2 ++ [])),
    ))
      × Synced done' files
unfolding scan_files
scan_files_lem files done b =
    let (done0, e0, k0) = scan_pcap_lem files done 0 b.0 in
    let (done1, e1, k1) = scan_pcap_lem files done0 1 (rw (k0 1) b.1.0) in
    let (done2, e2, k2) = scan_pcap_lem files done1 2 (rw (k1 2, k0 2) b.1.1.0) in
    (done2, rw (e0, e1, e2, k1 2, k0 2, k0 1) refl, (k2 0 ∙ k1 0 ∙ k0 0, (k2 1 ∙ k1 1, (k2 2, tt))))

-- The calls for all packets of the three files.
unfoldable pub all_calls : Files → List Call
all_calls files =
    posts (packets_of (files 0)) ++ (posts (packets_of (files 1)) ++ posts (packets_of (files 2)))
