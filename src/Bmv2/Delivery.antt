-- ===== src/Bmv2/Delivery.antt =====
-- What a host receives of the frames that lib/bmv2/bmv2_net.cc makes of posts.
use fisslock_bmv2_java.Base.{
  ℕ, ◌+◌, ◌-◌, ◌*◌, ◌%◌, ◌^◌, ◌≤◌, ◌<◌, ◌≡◌, List, [], ◌∷◌, some, true, false, arith, refl, Option,
  none, Bool, Bool-cases, inl, inr, if◌then◌else◌, sym, length, All, ltb, leb, ◌==◌,
}
use fisslock_bmv2_java.Bmv2.Frame.{
  init_header_template, headers_size, net_send, build_frame_from_post, frame_size,
}
use fisslock_bmv2_java.Post.{
  LockState, PostType, Wqe, send_post_lock_generic, post_hdr_size, sizeof_wqe,
}
use fisslock_bmv2_java.Bmv2.Pcap.{byte_of, dispatch_udp_payload, scan_packet, num_post_types}
use fisslock_bmv2_java.Bmv2.Checksums.{IsByte}
use fisslock_bmv2_java.Bmv2.Building.{frame_of, received_ip_sum, received_udp_sum, frame_built}

frame_read :
    (ip_len udp_len c d t : ℕ) (body : List ℕ)
    → 0 < t
    → t < num_post_types
    → scan_packet (frame_of ip_len udp_len c d (t ∷ body))
      ≡ record { type = t; buf = t ∷ body } ∷ []
unfolding scan_packet dispatch_udp_payload
frame_read ip_len udp_len c d t body positive valid =
    let long : ltb (length (frame_of ip_len udp_len c d (t ∷ body))) 43 ≡ false = ground arith in
    let cut : t % 2 ^ 8 ≡ t = omega arith in
    let known : leb num_post_types t ≡ false = ground arith in
    let typed : (t == 0) ≡ false = ground arith in
    let filled : (length (t ∷ body) == 0) ≡ false = ground arith in
    rw (long, cut, known, typed, filled) refl

sent_lem :
    (injects : Bool) (post frame : List ℕ) (size : ℕ)
    → size ≤ 470
    → build_frame_from_post init_header_template post size ≡ some frame
    → net_send true injects init_header_template post size
      ≡ some (
          if injects
          then record { failed = false; injected = some frame }
          else record { failed = true; injected = none })
unfolding net_send
sent_lem injects post frame size short e =
    let fits : ltb frame_size (headers_size + size) ≡ false = ground arith in rw (fits, e) refl

unsent_lem :
    (injects : Bool) (post : List ℕ) (size : ℕ)
    → 470 < size
    → net_send true injects init_header_template post size ≡ none
unfolding net_send
unsent_lem injects post size long =
    let too_long : ltb frame_size (headers_size + size) ≡ true = ground arith in rw too_long refl

-- A post of one of the post types, of at most 470 bytes, that is sent while the interface opens and
-- the injection succeeds, goes out as a frame from which the receiving loop makes one call of the
-- dispatcher, with the type and all bytes of the post. The frame's IPv4 and UDP checksums are right:
-- the sum of the words, checksum included, is a multiple of 2^16 - 1. The UDP checksum is not 0,
-- which would say that there is none.
pub net_send_verifies :
    (t : ℕ) (body : List ℕ)
    → 0 < t
    → t < num_post_types
    → All IsByte body
    → length (t ∷ body) ≤ 470
    → let post = t ∷ body in
      (frame : List ℕ) × (net_send true true init_header_template post (length post)
        ≡ some (record { failed = false; injected = some frame }))
      × (scan_packet frame ≡ record { type = t; buf = post } ∷ [])
      × (received_ip_sum frame % (2 ^ 16 - 1) ≡ 0)
      × (received_udp_sum frame % (2 ^ 16 - 1) ≡ 0)
      × (0 < byte_of frame 40 * 2 ^ 8 + byte_of frame 41)
net_send_verifies t body positive valid bytes short =
    let post = t ∷ body in
    let n = length post in
    let (c, d, built, d_positive, d_small, ip, udp) = frame_built post short (omega arith, bytes) in
    let frame = frame_of (20 + 8 + n) (8 + n) c d post in
    (
      frame,
      sent_lem true post frame n short built,
      frame_read (20 + 8 + n) (8 + n) c d t body positive valid,
      ip,
      udp,
      omega arith,
    )

abbrev pub is_undefined {ℓ} : {A : Type ℓ} → Option A → Bool
is_undefined none = true
is_undefined (some a) = false

post_size_lem :
    (t : PostType) (op old_state : LockState) (lid hid tid n ncnt dest : ℕ) (wq : List Wqe)
    → (send_post_lock_generic none t op lid hid tid n wq ncnt old_state dest).post_size
      ≡ post_hdr_size + n * sizeof_wqe
unfolding send_post_lock_generic
post_size_lem t op old_state lid hid tid n ncnt dest wq = ground arith

-- A lock post with a wait queue of n entries, which has as many bytes as the size that it is sent
-- with: the call of `net_send` is undefined, since the frame is written beyond the local array of
-- 512 bytes, exactly if n is more than 90. That holds whether or not the injection succeeds.
pub net_send_fits :
    (injects : Bool) (t : PostType) (op old_state : LockState) (lid hid tid n ncnt dest : ℕ)
    (wq : List Wqe) (post : List ℕ)
    → length post
      ≡ (send_post_lock_generic none t op lid hid tid n wq ncnt old_state dest).post_size
    → All IsByte post
    → let sent = send_post_lock_generic none t op lid hid tid n wq ncnt old_state dest in
      is_undefined (net_send true injects init_header_template post sent.post_size) ≡ ltb 90 n
net_send_fits injects t op old_state lid hid tid n ncnt dest wq post whole bytes =
    let size = (send_post_lock_generic none t op lid hid tid n wq ncnt old_state dest).post_size in
    let sized = post_size_lem t op old_state lid hid tid n ncnt dest wq in
    elim (Bool-cases (ltb 90 n)) [
      | inl many ↦ rw (unsent_lem injects post size (ground (arith, sized)), many) refl
      | inr few ↦
          let short : length post ≤ 470 = ground (arith, whole, sized) in
          let (c, d, built, _, _, _, _) = frame_built post short bytes in
          let frame = frame_of (20 + 8 + length post) (8 + length post) c d post in
          rw (sym whole, sent_lem injects post frame (length post) short built, few) refl
    ]
