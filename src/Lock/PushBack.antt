-- ===== src/Lock/PushBack.antt =====
-- A free or a transfer that the switch refuses (lib/lock.cc): the agent is as it was before.
use mathlib.Core.Path.{subst}
use fisslock_bmv2_java.Base.{
  suc, ℕ, ◌≡◌, ◌<◌, ◌%◌, ◌^◌, List, [], ◌∷◌, arith, refl, false, true, All, length, take,
  take-length, none, if◌then◌else◌, ltb, ◌≤◌, ◌*◌, ◌+◌, Bool,
}
use fisslock_bmv2_java.Post.{
  sizeof_wqe, free, Wqe, Sent, Packet, make_wqe, send_post_transfer, send_post_free,
}
use fisslock_bmv2_java.Post.Modes.{IsRequest, mode-pack_mode, old_mode-pack_mode}
use fisslock_bmv2_java.Lock.State.{InnetLock}
use fisslock_bmv2_java.Lock.Outcome.{goes_on}
use fisslock_bmv2_java.Lock.Release.{pass_on}
use fisslock_bmv2_java.Lock.Packets.{process_push_back, restore_wqueue}
use fisslock_bmv2_java.Lock.Client.{Conf}
use fisslock_bmv2_java.Lock.Unlock.{give_up}
use fisslock_bmv2_java.Lock.Roles.{AllRequests, IsWellFormed}

-- What the bit field of an entry can hold.
pub record IsPacked (w : Wqe) : Type 0 where
  pub task_fits : w.task < 2 ^ 30
  pub host_fits : w.host < 2 ^ 8

make_wqe_self : (w : Wqe) → IsPacked w → make_wqe w.op w.task w.host ≡ w
unfolding make_wqe
make_wqe_self w fits = ground arith

-- An agent that may give up: it can only be refused while no early release is pending. Its wait
-- queue is as short as the assertion of `lock_release` wants it before a transfer.
pub record MayGiveUp (l : InnetLock) : Type 0 where
  pub formed : IsWellFormed l
  pub agent : l.is_agent ≡ true
  pub on_time : l.delayed_free ≡ false
  pub short : length l.wqueue * sizeof_wqe < 2000
  pub packed : All IsPacked l.wqueue

role_of : (l : InnetLock) → MayGiveUp l → IsRequest l.mode
role_of l m = rw m.agent at m.formed.role

take_sent :
    (ws old : List Wqe)
    → length ws < 2 ^ 32
    → take (length ws % 2 ^ 32) (if ltb 0 (length ws) then ws else old) ≡ ws
take_sent [] old h = refl
take_sent (w ∷ ws) old h =
    let whole : suc (length ws) % 2 ^ 32 ≡ suc (length ws) = omega arith in
    let some_sent : ltb 0 (suc (length ws)) ≡ true = ground arith in
    rw (whole, some_sent) (take-length (w ∷ ws))

pass_on-refused :
    (host : ℕ) (l : InnetLock) (p : Packet) (ws : List Wqe)
    → l.wqueue ≡ ws
    → MayGiveUp l
    → length ws * sizeof_wqe ≤ p.room + sizeof_wqe
    → let o = pass_on host l p ws in
      (process_push_back o.lock o.packet).lock ≡ record l { ncnt = l.ncnt % 2 ^ 8 }
unfolding pass_on process_push_back restore_wqueue
pass_on-refused host l p [] e m fit = ground (arith, old_mode-pack_mode free l.mode (role_of l m))
pass_on-refused host l p (w ∷ ws) e m fit =
    let q : AllRequests (w ∷ ws) = subst AllRequests e m.formed.requests in
    let b : All IsPacked (w ∷ ws) = subst (All IsPacked) e m.packed in
    let n : length (w ∷ ws) * sizeof_wqe < 2000 =
      subst (λ xs. length xs * sizeof_wqe < 2000) e m.short in
    let held : ltb p.room (length ws * sizeof_wqe) ≡ false = ground arith in
    rw held (
      ground (
        arith,
        old_mode-pack_mode w.op l.mode (role_of l m),
        mode-pack_mode w.op l.mode q.0,
        make_wqe_self w b.0,
        take_sent ws p.wq (omega arith),
      ))

-- An agent without a delayed free, well formed, with a wait queue of less than 2000 bytes whose
-- entries fit their bit fields, turns the packet at hand into a free or a transfer. The packet's
-- buffer has room for the waiters behind the head, and the packet goes out, which is so in the DPDK
-- build only. If the switch refuses it, the lock is what it was, but for the notification counter,
-- of which the packet carries the low eight bits.
pub process_push_back-pass_on :
    (bmv2 : Bool) (host : ℕ) (l : InnetLock) (p : Packet)
    → MayGiveUp l
    → length l.wqueue * sizeof_wqe ≤ p.room + sizeof_wqe
    → goes_on bmv2 (pass_on host l p l.wqueue) ≡ true
    → let o = pass_on host l p l.wqueue in
      (process_push_back o.lock o.packet).lock ≡ record l { ncnt = l.ncnt % 2 ^ 8 }
process_push_back-pass_on bmv2 host l p m fit out = pass_on-refused host l p l.wqueue refl m fit

-- The waiters of a lock that can be transferred: the head is named in the header, and the entries
-- behind it go into the frame of 512 bytes of `net_send` in lib/bmv2/bmv2_net.cc, or into the 2048
-- bytes of an mbuf, behind 42 bytes of network headers and 17 of the post.
abbrev pub most_waiters : Bool → ℕ
most_waiters bmv2 = if bmv2 then 91 else 398

module _ (c : Conf) (plain : c.packet_modify ≡ none) (l : InnetLock) (m : MayGiveUp l) where
  refused_free :
      (process_push_back
        (record l { mode = free; is_agent = false; ncnt = 0 })
        (send_post_free c.packet_modify c.localhost_id l.id (l.ncnt % 2 ^ 8) l.mode).packet).lock
      ≡ record l { ncnt = l.ncnt % 2 ^ 8 }
  unfolding process_push_back restore_wqueue send_post_free
  refused_free = rw plain (ground (arith, old_mode-pack_mode free l.mode (role_of l m)))

  refused_transfer :
      (w : Wqe) (ws : List Wqe)
      → l.wqueue ≡ w ∷ ws
      → (process_push_back
          (record l { mode = free; is_agent = false; ncnt = 0; wqueue = [] })
          (send_post_transfer c.packet_modify c.localhost_id w.op l.id w.host w.task
            (length ws)
            ws
            (l.ncnt % 2 ^ 8)
            l.mode).packet).lock
        ≡ record l { ncnt = l.ncnt % 2 ^ 8 }
  unfolding process_push_back restore_wqueue send_post_transfer
  refused_transfer w ws e =
      let q : AllRequests (w ∷ ws) = subst AllRequests e m.formed.requests in
      let b : All IsPacked (w ∷ ws) = subst (All IsPacked) e m.packed in
      let n : length (w ∷ ws) * sizeof_wqe < 2000 =
        subst (λ xs. length xs * sizeof_wqe < 2000) e m.short in
      let whole : length ws % 2 ^ 32 ≡ length ws = omega arith in
      rw (plain, take-length ws, whole)
        (ground (
          arith,
          old_mode-pack_mode w.op l.mode (role_of l m),
          mode-pack_mode w.op l.mode q.0,
          make_wqe_self w b.0,
          take-length ws,
        ))

  give_up-refused :
      (ws : List Wqe)
      → l.wqueue ≡ ws
      → (s : Sent) → (give_up c l ws).sent ≡ s ∷ []
      → (process_push_back (give_up c l ws).lock s.packet).lock ≡ record l { ncnt = l.ncnt % 2 ^ 8 }
  unfolding give_up
  give_up-refused [] e s out = ground (arith, refused_free)
  give_up-refused (w ∷ ws) e s out = ground (arith, refused_transfer w ws e)

  -- On a host without a packet modifier, an agent without a delayed free, well formed, with a wait
  -- queue of less than 2000 bytes whose entries fit their bit fields, sends a free or a transfer from
  -- `lock_release`. The queue has no more waiters than a transfer's buffer can carry: 91 in the build
  -- for BMv2, 398 otherwise. If the switch refuses what was sent, the lock is what it was, but for
  -- the notification counter, of which the packet carries the low eight bits.
  pub process_push_back-give_up :
      (s : Sent)
      → length l.wqueue ≤ most_waiters c.bmv2
      → (give_up c l l.wqueue).sent ≡ s ∷ []
      → (process_push_back (give_up c l l.wqueue).lock s.packet).lock
        ≡ record l { ncnt = l.ncnt % 2 ^ 8 }
  process_push_back-give_up s few out = give_up-refused l.wqueue refl s out
