-- ===== src/Post.antt =====
-- lib/post.h, lib/post.c and the wire types of lib/lock.h: the lock packets, the macros that pack
-- and read their fields, and the functions that send them. The enums keep their order; a field of w
-- bits is a number that is cut to w bits where the source narrows it.
pub mod Modes
use fisslock_bmv2_java.Base.{
  ℕ, ◌+◌, ◌*◌, ◌/◌, ◌%◌, ◌^◌, Bool, true, false, List, [], Option, none, some, ◌==◌, ltb, take,
  if◌then◌else◌,
}

-- `lock_state` of lib/lock.h: lock states and lock operators, 0 to 3.
pub data LockState : Type 0 where
  free release lock_shared lock_excl : LockState

-- `wqe` of lib/lock.h: a bit field of 2, 30 and 8 bits, 5 bytes when packed.
pub record Wqe : Type 0 where
  pub op : LockState
  pub task : ℕ
  pub host : ℕ

abbrev pub sizeof_wqe : ℕ
sizeof_wqe = 5

-- `wqe e = {.op = op, .task = tid, .host = hid}`: the task is cut to 30 bits.
unfoldable pub make_wqe : LockState → ℕ → ℕ → Wqe
make_wqe op tid hid = record { op = op; task = tid % 2 ^ 30; host = hid % 2 ^ 8 }

abbrev pub is_free : LockState → Bool
is_free free = true
is_free _ = false

abbrev pub is_shared : LockState → Bool
is_shared lock_shared = true
is_shared _ = false

abbrev pub is_excl : LockState → Bool
is_excl lock_excl = true
is_excl _ = false

-- `post_t`, from 1 on.
pub data PostType : Type 0 where
  post_lock_acquire post_lock_grant_with_agent post_lock_grant_wo_agent : PostType
  post_lock_release post_lock_transfer post_lock_free : PostType
  post_mem_diff post_clear_seq : PostType

pub record LockPostHeader : Type 0 where
  pub mode_old_mode : ℕ  -- 8 bits
  pub lock_id : ℕ  -- 32 bits, in network order
  pub machine_id : ℕ  -- 8 bits
  pub task_id : ℕ  -- 32 bits
  pub agent : ℕ  -- 8 bits
  pub wq_size : ℕ  -- 32 bits
  pub ncnt : ℕ  -- 8 bits

-- A lock packet: the post header, the lock header, and the wait queue entries that follow it. `room`
-- is the number of bytes that its buffer has behind the lock header: what a received mbuf leaves, or
-- the bytes of the payload where the BMv2 layer has copied them to a vector. In a packet that the
-- host itself builds it is what the entries take.
pub record Packet : Type 0 where
  pub type : PostType
  pub hdr : LockPostHeader
  pub open hdr use *
  pub wq : List Wqe
  pub room : ℕ

-- The low bit of an operator, `op & 0x1`.
abbrev pub low_bit : LockState → ℕ
low_bit free = 0
low_bit release = 1
low_bit lock_shared = 0
low_bit lock_excl = 1

-- `MODE_OLD_MODE(mode, old_mode)`
unfoldable pub pack_mode : LockState → LockState → ℕ
pack_mode mode old_mode = low_bit old_mode * 2 + low_bit mode

-- `(lock_state)((b & 0x1) | 0x2)`
abbrev pub state_of_bit : ℕ → LockState
state_of_bit b = if b % 2 == 0 then lock_shared else lock_excl

-- `MODE(mode_old_mode)` and `OLD_MODE(mode_old_mode)`
unfoldable pub mode : ℕ → LockState
mode b = state_of_bit b

unfoldable pub old_mode : ℕ → LockState
old_mode b = state_of_bit (b / 2)

-- `GRANTED(hdr)` and `TRANSFERRED(hdr)`, bits 6 and 5.
unfoldable pub granted : LockPostHeader → Bool
granted hdr = hdr.mode_old_mode / 64 % 2 == 1

unfoldable pub transferred : LockPostHeader → Bool
transferred hdr = hdr.mode_old_mode / 32 % 2 == 1

-- `htonl` and `ntohl` of a little-endian host.
unfoldable pub swap32 : ℕ → ℕ
swap32 x =
    x % 2 ^ 8 * 2 ^ 24
    + x / 2 ^ 8 % 2 ^ 8 * 2 ^ 16
    + x / 2 ^ 16 % 2 ^ 8 * 2 ^ 8
    + x / 2 ^ 24 % 2 ^ 8

-- `POST_HDR_SIZE(lock_post_header)`: one byte of post header and sixteen of lock header.
abbrev pub post_hdr_size : ℕ
post_hdr_size = 17

-- The packet modifier of `register_packet_modifier`: what it makes of the packet, and the number of
-- bytes that it adds.
abbrev pub Modifier : Type 0
Modifier = PostType → Packet → Packet × ℕ

-- `net_send`: the packet that goes out and the size that it is sent with.
pub record Sent : Type 0 where
  pub packet : Packet
  pub post_size : ℕ

abbrev pub apply_modifier : Option Modifier → PostType → Packet → ℕ → Sent
apply_modifier none t p size = record { packet = p; post_size = size }
apply_modifier (some f) t p size =
    let (p', added) = f t p in record { packet = p'; post_size = size + added }

module _ (packet_modify : Option Modifier) where
  unfoldable pub send_post_lock_generic :
      PostType → LockState → ℕ → ℕ → ℕ → ℕ → List Wqe → ℕ → LockState → ℕ → Sent
  send_post_lock_generic t op lid hid tid wq_size wq_addr ncnt old_state dest =
      apply_modifier packet_modify t packet size
    where
      packet : Packet
      packet = record {
        type = t;
        hdr = record {
          mode_old_mode = pack_mode op old_state;
          lock_id = swap32 lid;
          machine_id = hid;
          task_id = tid;
          agent = dest;
          wq_size = wq_size % 2 ^ 32;
          ncnt = ncnt % 2 ^ 8;
        };
        wq = take wq_size wq_addr;
        room = wq_size * sizeof_wqe;
      }

      size : ℕ
      size = if ltb 0 wq_size then post_hdr_size + wq_size * sizeof_wqe else post_hdr_size

  module _ (localhost : ℕ) where
    unfoldable pub send_post_acquire : LockState → ℕ → ℕ → ℕ → Sent
    unfolding send_post_lock_generic
    send_post_acquire op lid hid tid =
        send_post_lock_generic post_lock_acquire op lid hid tid 0 [] 0 free localhost

    unfoldable pub send_post_acquire_lm : LockState → ℕ → ℕ → ℕ → Sent
    unfolding send_post_lock_generic
    send_post_acquire_lm op lid hid tid =
        send_post_lock_generic post_lock_acquire op lid localhost tid 0 [] 0 free hid

    unfoldable pub send_post_transfer : LockState → ℕ → ℕ → ℕ → ℕ → List Wqe → ℕ → LockState → Sent
    unfolding send_post_lock_generic
    send_post_transfer next_op lid hid tid wq_size wq_addr ncnt old_state =
        send_post_lock_generic post_lock_transfer next_op lid hid tid wq_size wq_addr ncnt old_state
          localhost

    unfoldable pub send_post_free : ℕ → ℕ → LockState → Sent
    unfolding send_post_lock_generic
    send_post_free lid ncnt old_state =
        send_post_lock_generic post_lock_free free lid localhost 0 0 [] ncnt old_state localhost

    unfoldable pub send_post_release : ℕ → ℕ → ℕ → Sent
    unfolding send_post_lock_generic
    send_post_release lid hid tid =
        send_post_lock_generic post_lock_release free lid hid tid 0 [] 0 free localhost

  unfoldable pub send_post_release_lm : ℕ → ℕ → ℕ → ℕ → Sent
  unfolding send_post_lock_generic
  send_post_release_lm lid hid tid lm =
      send_post_lock_generic post_lock_release free lid hid tid 0 [] 0 free lm

  unfoldable pub send_post_grant : ℕ → ℕ → ℕ → Sent
  unfolding send_post_lock_generic
  send_post_grant lid hid tid =
      send_post_lock_generic post_lock_grant_wo_agent free lid hid tid 0 [] 0 free hid

  unfoldable pub send_post_clear : ℕ → Sent
  unfolding send_post_lock_generic
  send_post_clear lid = send_post_lock_generic post_clear_seq free lid 0 0 0 [] 0 free 0
