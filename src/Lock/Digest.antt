-- ===== src/Lock/Digest.antt =====
-- `lock_digest_wq` of lib/lock.cc against a description without a loop.
use fisslock_bmv2_java.Base.{
  ℕ, ◌≡◌, ◌≤◌, ltb, ◌||◌, Bool, not, List, [], ◌∷◌, ◌++◌, map, append-nil, append_assoc, arith,
  filter, insert, take, false,
}
use fisslock_bmv2_java.Post.{Wqe, is_shared}
use fisslock_bmv2_java.Lock.State.{
  InnetLock, lock_holder, lock_add_holder, lock_append_to_wq, digest_grant, digest_loop,
  lock_digest_wq, dpdk_tx_burst_size,
}

-- The holder that an entry of the wait queue stands for.
abbrev pub holder_of : Wqe → ℕ
holder_of w = lock_holder w.host w.task

abbrev pub wants_shared : Wqe → Bool
wants_shared w = is_shared w.op

abbrev pub wants_other : Wqe → Bool
wants_other w = not (is_shared w.op)

unfoldable pub insert_all : List ℕ → List ℕ → List ℕ
insert_all [] s = s
insert_all (a ∷ xs) s = insert_all xs (insert a s)

-- The lock once the shared waiters among `ws` hold it and the others wait.
abbrev pub digested : InnetLock → List Wqe → InnetLock
digested l ws = record l {
  holders = insert_all (map holder_of (filter wants_shared ws)) l.holders;
  wqueue = l.wqueue ++ filter wants_other ws;
}

digest_loop_lem :
    (l : InnetLock) (ws : List Wqe)
    → digest_loop l ws ≡ (digested l ws, map (digest_grant l) (filter wants_shared ws))
unfolding digest_loop filter insert_all
digest_loop_lem l [] = ground (arith, append-nil l.wqueue)
digest_loop_lem l (w ∷ ws) = ground (
  arith,
  digest_loop_lem (lock_add_holder l (holder_of w)) ws,
  digest_loop_lem (lock_append_to_wq l w) ws,
  append_assoc l.wqueue (w ∷ []) (filter wants_other ws),
)

abbrev pub marked : InnetLock → ℕ → InnetLock
marked l wq_sz = record l { overrun = ltb dpdk_tx_burst_size wq_sz || l.overrun }

-- Whatever the number of entries, with the mark of a number that the array of handles cannot hold.
pub lock_digest_wq-marked :
    (l : InnetLock) (wq : List Wqe) (wq_sz : ℕ)
    → lock_digest_wq l wq wq_sz ≡ (
      digested (marked l wq_sz) (take wq_sz wq),
      map (digest_grant (marked l wq_sz)) (filter wants_shared (take wq_sz wq)),
    )
unfolding lock_digest_wq
lock_digest_wq-marked l wq wq_sz = digest_loop_lem (marked l wq_sz) (take wq_sz wq)

-- With at most 1024 entries, the number of buffer handles that its array holds, `lock_digest_wq`
-- makes the shared waiters holders and sends each of them one grant, in the order of the queue; the
-- others go to the end of the lock's wait queue, in order too; nothing else changes.
pub lock_digest_wq_lem :
    (l : InnetLock) (wq : List Wqe) (wq_sz : ℕ)
    → wq_sz ≤ dpdk_tx_burst_size
    → lock_digest_wq l wq wq_sz
      ≡ (digested l (take wq_sz wq), map (digest_grant l) (filter wants_shared (take wq_sz wq)))
lock_digest_wq_lem l wq wq_sz few =
    let held : ltb dpdk_tx_burst_size wq_sz ≡ false = ground arith in
    rw held at (lock_digest_wq-marked l wq wq_sz)
