-- ===== src/Post/Modes.antt =====
-- The mode byte, the byte order and the wait queue entries of lib/post.h and lib/lock.h.
use fisslock_bmv2_java.Base.{ℕ, ◌^◌, ◌<◌, ◌≡◌, ◌⊎◌, inl, inr, arith, false}
use fisslock_bmv2_java.Post.{
  LockState, lock_shared, lock_excl, pack_mode, mode, old_mode, swap32, LockPostHeader, granted,
  transferred,
}

-- An operator that a request can carry.
abbrev pub IsRequest : LockState → Type 0
IsRequest s = (s ≡ lock_shared) ⊎ (s ≡ lock_excl)

pub mode-pack_mode : (m o : LockState) → IsRequest m → mode (pack_mode m o) ≡ m
unfolding mode pack_mode
mode-pack_mode m o (inl e) = ground arith
mode-pack_mode m o (inr e) = ground arith

pub old_mode-pack_mode : (m o : LockState) → IsRequest o → old_mode (pack_mode m o) ≡ o
unfolding old_mode pack_mode
old_mode-pack_mode m o (inl e) = ground arith
old_mode-pack_mode m o (inr e) = ground arith

pub mode-IsRequest : (b : ℕ) → IsRequest (mode b)
unfolding mode
mode-IsRequest b = ground arith

pub old_mode-IsRequest : (b : ℕ) → IsRequest (old_mode b)
unfolding old_mode
old_mode-IsRequest b = ground arith

pub swap32-swap32 : (x : ℕ) → x < 2 ^ 32 → swap32 (swap32 x) ≡ x
unfolding swap32
swap32-swap32 x h = omega arith

-- The mode byte that a sender packs from two request operators gives both back to the receiver, and
-- says neither granted nor transferred.
modes-pack_mode :
    (m o : LockState) (hdr : LockPostHeader)
    → IsRequest m
    → IsRequest o
    → hdr.mode_old_mode ≡ pack_mode m o
    → (mode hdr.mode_old_mode ≡ m)
      × (old_mode hdr.mode_old_mode ≡ o)
      × (granted hdr ≡ false)
      × (transferred hdr ≡ false)
unfolding granted transferred pack_mode mode old_mode
modes-pack_mode m o hdr (inl r) (inl s) e = ground arith
modes-pack_mode m o hdr (inl r) (inr s) e = ground arith
modes-pack_mode m o hdr (inr r) (inl s) e = ground arith
modes-pack_mode m o hdr (inr r) (inr s) e = ground arith
