-- ===== src/Lock/Delays.antt =====
-- Packets that come late (lib/lock.cc): an acquire behind its own release, and an exclusive acquire
-- ahead of the grant that makes the host the agent.
use fisslock_bmv2_java.Base.{
  ℕ, zero, suc, ◌≡◌, ◌+◌, List, [], ◌∷◌, ◌++◌, arith, ap, refl, false, true, none, some, Bool,
  if◌then◌else◌, ltb, lookup, assign, replicate, erase_key, get_or, lookup-assign, lookup-erase_key,
}
use fisslock_bmv2_java.Post.{lock_excl, Packet, make_wqe, mode}
use fisslock_bmv2_java.Lock.State.{
  InnetLock, lock_holder, lock_out_of_range, lock_has_holder, lock_no_holders,
}
use fisslock_bmv2_java.Lock.Acquire.{
  process_acquire, acquire_in_range, acquire_not_agent, count_notification,
}
use fisslock_bmv2_java.Lock.Outcome.{drop_packet, return_packet}
use fisslock_bmv2_java.Lock.Release.{
  process_release, release_in_range, release_missing, pass_on_if_free, remove_waiter,
}

abbrev pub holder_in : Packet → ℕ
holder_in p = lock_holder p.machine_id p.task_id

-- A release names a client that neither holds the lock nor waits for it.
pub record IsEarly (l : InnetLock) (p : Packet) : Type 0 where
  pub near : lock_out_of_range l ≡ false
  pub no_holder : lock_has_holder l (holder_in p) ≡ false
  pub no_waiter : remove_waiter p.machine_id p.task_id l.wqueue ≡ none
  pub others : lock_no_holders l ≡ false

abbrev noted : InnetLock → ℕ → Bool → InnetLock
noted l lh b = record l { early_release = assign lh b l.early_release }

early_release_noted :
    (host : ℕ) (l : InnetLock) (p : Packet)
    → IsEarly l p
    → process_release host l p ≡ drop_packet (noted l (holder_in p) true) p
unfolding process_release release_in_range release_missing pass_on_if_free
early_release_noted host l p e =
    rw (e.near, e.no_holder, e.no_waiter, release_missing) (ground arith)

late_acquire_dropped :
    (l : InnetLock) (p : Packet)
    → lock_out_of_range l ≡ false
    → lookup (holder_in p) l.early_release ≡ some true
    → process_acquire l p ≡ drop_packet (noted (count_notification l p) (holder_in p) false) p
unfolding process_acquire acquire_in_range count_notification
late_acquire_dropped l p near e = ground arith

-- A release names a client that neither holds the lock of the switch nor waits for it, while others
-- hold it. The client's acquire that comes behind it is dropped: the holders, the wait queue, the mode
-- and the agent's flag are what they were before the release, and the note of it is cleared.
pub acquire_after_release :
    (host : ℕ) (l : InnetLock) (rel acq : Packet)
    → IsEarly l rel
    → acq.machine_id ≡ rel.machine_id
    → acq.task_id ≡ rel.task_id
    → let o = process_acquire (process_release host l rel).lock acq in
      (o.ret ≡ 0)
      × (o.lock.holders ≡ l.holders)
      × (o.lock.wqueue ≡ l.wqueue)
      × (o.lock.mode ≡ l.mode)
      × (o.lock.is_agent ≡ l.is_agent)
      × (lookup (holder_in rel) o.lock.early_release ≡ some false)
unfolding lock_out_of_range count_notification
acquire_after_release host l rel acq e mid tid =
    let lh = holder_in rel in
    let l' = noted l lh true in
    let same : holder_in acq ≡ lh = ground arith in
    let known : lookup (holder_in acq) l'.early_release ≡ some true =
      rw same (ground (arith, lookup-assign lh lh true l.early_release)) in
    rw (early_release_noted host l rel e, late_acquire_dropped l' acq e.near known, same)
      (ground (arith, lookup-assign lh lh false (count_notification l' acq).early_release))

-- An exclusive acquire, not granted by the switch, that finds no early release.
pub record IsLost (l : InnetLock) (p : Packet) : Type 0 where
  pub near : lock_out_of_range l ≡ false
  pub stranger : l.is_agent ≡ false
  pub exclusive : mode p.mode_old_mode ≡ lock_excl
  pub no_note : get_or false (lookup (holder_in p) l.early_release) ≡ false

abbrev pub forwards : InnetLock → Packet → ℕ
forwards l p = get_or 0 (lookup (holder_in p) l.fwd_back_cnt)

abbrev counted : InnetLock → Packet → InnetLock
counted l p = record l { fwd_back_cnt = assign (holder_in p) (forwards l p + 1) l.fwd_back_cnt }

abbrev queued : InnetLock → Packet → InnetLock
queued l p = record l {
  wqueue = l.wqueue ++ make_wqe lock_excl p.task_id p.machine_id ∷ [];
  fwd_back_cnt = erase_key (holder_in p) l.fwd_back_cnt;
}

lost_acquire :
    (l : InnetLock) (p : Packet)
    → IsLost l p
    → process_acquire l p
      ≡ (if ltb 2 (forwards l p) then drop_packet (queued l p) p else return_packet (counted l p) p)
unfolding process_acquire acquire_in_range acquire_not_agent count_notification
lost_acquire l p e = rw (e.near, e.exclusive, e.no_note, e.stranger) refl

-- The handler's returns and the lock, when the same packet comes `n` times.
pub repeat_acquire : ℕ → InnetLock → Packet → List ℕ × InnetLock
repeat_acquire zero l p = ([], l)
repeat_acquire (suc n) l p =
    let o = process_acquire l p in let (rets, l') = repeat_acquire n o.lock p in (o.ret ∷ rets, l')

module _ (p : Packet) where
  counted-IsLost : (l : InnetLock) → IsLost l p → IsLost (counted l p) p
  unfolding lock_out_of_range
  counted-IsLost l e = record {
    near = e.near;
    stranger = e.stranger;
    exclusive = e.exclusive;
    no_note = e.no_note;
  }

  forwards-counted : (l : InnetLock) → forwards (counted l p) p ≡ forwards l p + 1
  forwards-counted l =
      ground (arith, lookup-assign (holder_in p) (holder_in p) (forwards l p + 1) l.fwd_back_cnt)

  -- A stranded exclusive acquire is sent back `j` times, until its count is 3, and then waits here: it
  -- is at the end of the wait queue and its count is gone.
  pub repeat_acquire_ends :
      (j : ℕ) (l : InnetLock)
      → IsLost l p
      → forwards l p + j ≡ 3
      → let r = repeat_acquire (suc j) l p in
        (r.0 ≡ replicate j 1 ++ 0 ∷ [])
        × (r.1.wqueue ≡ l.wqueue ++ make_wqe lock_excl p.task_id p.machine_id ∷ [])
        × (lookup (holder_in p) r.1.fwd_back_cnt ≡ none)
  unfolding repeat_acquire
  repeat_acquire_ends zero l e n =
      let last : ltb 2 (forwards l p) ≡ true = ground arith in
      rw (lost_acquire l p e, last)
        (ground (arith, lookup-erase_key (holder_in p) (holder_in p) l.fwd_back_cnt))
  repeat_acquire_ends (suc j) l e n =
      let again : ltb 2 (forwards l p) ≡ false = ground arith in
      let (rets, wq, gone) =
        repeat_acquire_ends j (counted l p) (counted-IsLost l e)
          (omega (arith, forwards-counted l)) in
      rw (lost_acquire l p e, again) (ap (λ r. 1 ∷ r) rets, wq, gone)
