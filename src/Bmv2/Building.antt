-- ===== src/Bmv2/Building.antt =====
-- The frame that lib/bmv2/bmv2_net.cc builds of a post, with its two checksums.
use fisslock_bmv2_java.Base.{
  ℕ, zero, suc, ◌+◌, ◌-◌, ◌*◌, ◌%◌, ◌^◌, ◌≤◌, ◌<◌, ◌≡◌, List, [], ◌∷◌, ◌++◌, some, arith, refl,
  length, take, drop, All, take-length,
}
use fisslock_bmv2_java.Bmv2.Frame.{
  be16, init_header_template, add_words, checksum_fold, fold_fuel, complement, nonzero, ip_sum,
  udp_sum, write_at, fix_ip_checksum, fix_udp_checksum, fix_ipv4_udp_checksums,
  build_frame_from_post,
}
use fisslock_bmv2_java.Bmv2.Checksums.{
  IsByte, word_sum, Folded, add_words_lem, checksum_fold_ends, be16_word, word_count-le,
  word_sum_bound,
}

-- A frame with the template's addresses and ports, two lengths and two checksums.
abbrev pub frame_of : ℕ → ℕ → ℕ → ℕ → List ℕ → List ℕ
frame_of ip_len udp_len ip_csum udp_csum post =
    0 ∷ 0 ∷ 0 ∷ 0 ∷ 1 ∷ 0 ∷ 0 ∷ 0 ∷ 0 ∷ 0 ∷ 0 ∷ 1 ∷ 8 ∷ 0 ∷ 0x45 ∷ 0 ∷ be16 ip_len
    ++ 0 ∷ 0 ∷ 0 ∷ 0 ∷ 0 ∷ 17 ∷ be16 ip_csum
    ++ 10 ∷ 0 ∷ 0 ∷ 1 ∷ 10 ∷ 0 ∷ 0 ∷ 2 ∷ 0x75 ∷ 0x30 ∷ 0x4e ∷ 0x21 ∷ be16 udp_len
    ++ be16 udp_csum
    ++ post

-- The sums that a receiver takes, whose remainder by 2^16 - 1 is 0 in a frame that it accepts.
abbrev pub received_ip_sum : List ℕ → ℕ
received_ip_sum frame = word_sum (take 20 (drop 14 frame))

abbrev pub received_udp_sum : List ℕ → ℕ
received_udp_sum frame =
    word_sum (take 8 (drop 26 frame)) + 17 + length (drop 34 frame) + word_sum (drop 34 frame)

fix_ip_lem :
    (frame : List ℕ) (r : ℕ)
    → let zeroed = write_at 24 (0 ∷ 0 ∷ []) frame in
      checksum_fold fold_fuel (ip_sum zeroed) ≡ some r
      → fix_ip_checksum frame ≡ some (write_at 24 (be16 (complement r)) zeroed)
unfolding fix_ip_checksum
fix_ip_lem frame r e = rw (e, fix_ip_checksum) refl

fix_udp_lem :
    (frame : List ℕ) (udp_len r : ℕ)
    → let zeroed = write_at 40 (0 ∷ 0 ∷ []) frame in
      checksum_fold fold_fuel (udp_sum zeroed udp_len) ≡ some r
      → fix_udp_checksum frame udp_len ≡ some (write_at 40 (be16 (nonzero (complement r))) zeroed)
unfolding fix_udp_checksum
fix_udp_lem frame udp_len r e = rw (e, fix_udp_checksum) refl

-- A sum and the complement of what its folding leaves.
complement_lem :
    (total r : ℕ)
    → 0 < r
    → r < 2 ^ 16
    → r % (2 ^ 16 - 1) ≡ total % (2 ^ 16 - 1)
    → (complement r < 2 ^ 16) × ((total + complement r) % (2 ^ 16 - 1) ≡ 0)
complement_lem total r positive fits same = (omega arith, omega arith)

nonzero_lem :
    (total c : ℕ)
    → c < 2 ^ 16
    → (total + c) % (2 ^ 16 - 1) ≡ 0
    → (0 < nonzero c) × (nonzero c < 2 ^ 16) × ((total + nonzero c) % (2 ^ 16 - 1) ≡ 0)
nonzero_lem total zero small h = (omega arith, omega arith, omega arith)
nonzero_lem total (suc c) small h =
    let same : nonzero (suc c) ≡ suc c = ground arith in rw same (omega arith, small, h)

ip_sum_lem :
    (ip_len udp_len c : ℕ) (post : List ℕ)
    → c < 2 ^ 16
    → received_ip_sum (frame_of ip_len udp_len c 0 post)
      ≡ ip_sum (frame_of ip_len udp_len 0 0 post) + c
unfolding ip_sum word_sum
ip_sum_lem ip_len udp_len c post small = omega (
  arith,
  add_words_lem 0 (take 20 (drop 14 (frame_of ip_len udp_len 0 0 post))) (omega arith),
  be16_word c small,
)

ip_fixed :
    (ip_len udp_len : ℕ) (post : List ℕ)
    → (c : ℕ) × (c < 2 ^ 16)
      × (fix_ip_checksum (frame_of ip_len udp_len 0 0 post)
          ≡ some (frame_of ip_len udp_len c 0 post))
      × (received_ip_sum (frame_of ip_len udp_len c 0 post) % (2 ^ 16 - 1) ≡ 0)
unfolding Folded word_sum
ip_fixed ip_len udp_len post =
    let frame = frame_of ip_len udp_len 0 0 post in
    let same_sum = ip_sum_lem ip_len udp_len 0 post (omega arith) in
    let (r, e, positive, fits, same) =
      checksum_fold_ends (ip_sum frame) (omega (arith, same_sum)) (omega (arith, same_sum)) in
    let (small, zero_sum) = complement_lem (ip_sum frame) r positive fits same in
    (
      complement r,
      small,
      fix_ip_lem frame r e,
      rw (ip_sum_lem ip_len udp_len (complement r) post small) zero_sum,
    )

take_all {ℓ} : {A : Type ℓ} (n : ℕ) (xs : List A) → n ≡ length xs → take n xs ≡ xs
take_all n xs e = rw e (take-length xs)

udp_sum_lem :
    (ip_len c d : ℕ) (post : List ℕ)
    → length post ≤ 470
    → All IsByte post
    → d < 2 ^ 16
    → let udp_len = 8 + length post in
      (received_udp_sum (frame_of ip_len udp_len c d post)
        ≡ udp_sum (frame_of ip_len udp_len c 0 post) udp_len + d)
      × (received_udp_sum (frame_of ip_len udp_len c 0 post) < 2 ^ 32)
unfolding udp_sum word_sum
udp_sum_lem ip_len c d post short bytes small =
    let udp_len = 8 + length post in
    let frame = frame_of ip_len udp_len c 0 post in
    let datagram = drop 34 frame in
    let payload : word_sum post ≤ 470 * 2 ^ 16 =
      omega (arith, word_sum_bound post bytes, word_count-le post) in
    let whole : take udp_len datagram ≡ datagram = take_all udp_len datagram (omega arith) in
    let addresses = add_words_lem 0 (take 8 (drop 26 frame)) (omega arith) in
    let sum = add_words_lem (5140 + udp_len) datagram (omega arith) in
    let pseudo : (add_words 0 (take 8 (drop 26 frame)) + 17 + udp_len % 2 ^ 32) % 2 ^ 32
        ≡ 5140 + udp_len =
      omega (arith, addresses) in
    (rw (pseudo, whole, sum) (omega (arith, be16_word d small)), omega arith)

udp_fixed :
    (ip_len c : ℕ) (post : List ℕ)
    → length post ≤ 470
    → All IsByte post
    → let udp_len = 8 + length post in
      (d : ℕ) × (0 < d)
      × (d < 2 ^ 16)
      × (fix_udp_checksum (frame_of ip_len udp_len c 0 post) udp_len
          ≡ some (frame_of ip_len udp_len c d post))
      × (received_udp_sum (frame_of ip_len udp_len c d post) % (2 ^ 16 - 1) ≡ 0)
unfolding Folded
udp_fixed ip_len c post short bytes =
    let udp_len = 8 + length post in
    let frame = frame_of ip_len udp_len c 0 post in
    let total = udp_sum frame udp_len in
    let (same_sum, bounded) = udp_sum_lem ip_len c 0 post short bytes (omega arith) in
    let at_least : 17 ≤ received_udp_sum frame = omega arith in
    let (r, e, positive, fits, same) =
      checksum_fold_ends total (omega (arith, same_sum, at_least))
        (omega (arith, same_sum, bounded)) in
    let (small, zero_sum) = complement_lem total r positive fits same in
    let (d_positive, d_small, d_sum) = nonzero_lem total (complement r) small zero_sum in
    let d = nonzero (complement r) in
    (
      d,
      d_positive,
      d_small,
      fix_udp_lem frame udp_len r e,
      rw ((udp_sum_lem ip_len c d post short bytes d_small).0) d_sum,
    )

fix_both :
    (frame fixed final : List ℕ) (n : ℕ)
    → fix_ip_checksum frame ≡ some fixed
    → fix_udp_checksum fixed (8 + n) ≡ some final
    → fix_ipv4_udp_checksums frame n ≡ some final
unfolding fix_ipv4_udp_checksums
fix_both frame fixed final n ip udp = rw (ip, fix_ipv4_udp_checksums, udp) refl

-- What is built of a post, and the sums that its receiver takes.
pub frame_built :
    (post : List ℕ)
    → length post ≤ 470
    → All IsByte post
    → let n = length post in
      (c : ℕ) × (d : ℕ) × (build_frame_from_post init_header_template post n
        ≡ some (frame_of (20 + 8 + n) (8 + n) c d post))
      × (0 < d)
      × (d < 2 ^ 16)
      × (received_ip_sum (frame_of (20 + 8 + n) (8 + n) c d post) % (2 ^ 16 - 1) ≡ 0)
      × (received_udp_sum (frame_of (20 + 8 + n) (8 + n) c d post) % (2 ^ 16 - 1) ≡ 0)
unfolding build_frame_from_post
frame_built post short bytes =
    let n = length post in
    let (c, c_small, ip, ip_zero) = ip_fixed (20 + 8 + n) (8 + n) post in
    let (d, positive, d_small, udp, udp_zero) = udp_fixed (20 + 8 + n) c post short bytes in
    let whole = frame_of (20 + 8 + n) (8 + n) c d post in
    (
      c,
      d,
      rw (take-length post) (
          fix_both (frame_of (20 + 8 + n) (8 + n) 0 0 post) (frame_of (20 + 8 + n) (8 + n) c 0 post)
            whole n ip udp),
      positive,
      d_small,
      ip_zero,
      udp_zero,
    )
