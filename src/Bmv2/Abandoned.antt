-- ===== src/Bmv2/Abandoned.antt =====
-- What becomes of an attempt that runs out of time (lib/bmv2/fisslock_host_api.cc, lib/lock.cc).
use fisslock_bmv2_java.Base.{
  ℕ, zero, suc, ◌<◌, ◌^◌, ◌%◌, ◌≡◌, ◌≢◌, true, false, List, [], ◌∷◌, ◌++◌, some, arith, refl,
  lookup, emplace, assign, erase, get_or, replicate, lookup-emplace, insert, contains, ◌==◌,
}
use fisslock_bmv2_java.Post.{lock_excl, make_wqe}
use fisslock_bmv2_java.Lock.State.{InnetLock, flag, lock_holder, lock_out_of_range}
use fisslock_bmv2_java.Lock.Client.{Conf, lock_acquire_async, lock_req_granted}
use fisslock_bmv2_java.Lock.Unlock.{
  drop_holder, give_up, grant_local, release_as_agent, lock_release, released,
}
use fisslock_bmv2_java.Bmv2.Host.{
  wait_granted, try_waiting, try_request, fl_bmv2_try_acquire_excl, fl_bmv2_release_excl,
}

abbrev pub nothing_happens : ℕ → List (InnetLock → InnetLock)
nothing_happens n = replicate n (λ l. l)

module _ (c : Conf) (l : InnetLock) (task : ℕ) where
  -- The attempt in the queue.
  abbrev queued : InnetLock
  queued = record l {
    wqueue = l.wqueue ++ make_wqe lock_excl task c.localhost_id ∷ [];
    task_granted = emplace task false l.task_granted;
  }

  -- The attempt after its release: its entry is still in the queue.
  abbrev left_behind : InnetLock
  left_behind = record queued {
    local_holders = erase task l.local_holders;
    early_release = assign (lock_holder c.localhost_id task) true l.early_release;
  }

module _ (c : Conf) (l : InnetLock) (holder task : ℕ) (bmv2 : c.bmv2 ≡ true)
    (not_tpcc : c.tpcc_enb_local ≡ false) (grants : c.enb_local_grants ≡ true)
    (near : lock_out_of_range l ≡ false) (agent : l.is_agent ≡ true) (mode : l.mode ≡ lock_excl)
    (held : l.holders ≡ lock_holder c.localhost_id holder ∷ []) (other : task ≢ holder) where
  apart : (lock_holder c.localhost_id holder == lock_holder c.localhost_id task) ≡ false
  unfolding lock_holder
  apart = ground arith

  queues :
      lock_acquire_async c l task lock_excl
      ≡ record { lock = (queued c l task); sent = []; req = flag task }
  unfolding lock_acquire_async contains
  queues = rw (not_tpcc, near, grants, bmv2, mode, held, agent, apart) refl

  unanswered :
      (n : ℕ)
      → get_or false (lookup task l.task_granted) ≡ false
      → wait_granted (flag task) (queued c l task) (nothing_happens n)
        ≡ some ((queued c l task), false)
  unfolding wait_granted lock_req_granted
  unanswered zero unset = refl
  unanswered (suc n) unset =
      let still : get_or false (lookup task (queued c l task).task_granted) ≡ false =
        ground (arith, unset, lookup-emplace task task false l.task_granted) in
      rw (still, wait_granted) (unanswered n unset)

  gives_up : lock_release c (queued c l task) task ≡ released (left_behind c l task) []
  unfolding lock_release contains lock_out_of_range release_as_agent drop_holder
  gives_up = rw (not_tpcc, near, agent, held, apart) refl

  -- The holder's release then gives the lock to the task that is gone.
  passed_on :
      c.localhost_id < 2 ^ 8
      → task < 2 ^ 30
      → l.wqueue ≡ []
      → let r = lock_release c (left_behind c l task) holder in
        (r.lock.holders ≡ lock_holder c.localhost_id task ∷ [])
        × (r.lock.wqueue ≡ [])
        × (r.lock.mode ≡ lock_excl)
        × (r.lock.is_agent ≡ true)
        × (r.sent ≡ [])
  unfolding lock_release contains lock_out_of_range release_as_agent drop_holder erase give_up
      grant_local make_wqe insert
  passed_on host_fits task_fits empty =
      let host_cut : c.localhost_id % 2 ^ 8 ≡ c.localhost_id = omega arith in
      let task_cut : task % 2 ^ 30 ≡ task = omega arith in
      let same : (c.localhost_id == c.localhost_id) ≡ true = ground arith in
      let self : (lock_holder c.localhost_id holder == lock_holder c.localhost_id holder) ≡ true =
        ground arith in
      rw (not_tpcc, near, agent, held, empty, bmv2, self, host_cut, task_cut, same)
        (refl, refl, refl, refl, refl)

tried_lem :
    (c : Conf) (l l' : InnetLock) (task n : ℕ)
    → lock_acquire_async c l task lock_excl ≡ record { lock = l'; sent = []; req = flag task }
    → wait_granted (flag task) l' (nothing_happens n) ≡ some (l', false)
    → (left : InnetLock) → lock_release c l' task ≡ released left []
    → fl_bmv2_try_acquire_excl c l task (nothing_happens n)
      ≡ some (record { lock = left; sent = []; ret = 0 })
unfolding fl_bmv2_try_acquire_excl try_request try_waiting
tried_lem c l l' task n q u left g = rw (q, try_request, try_waiting, u, g) refl

-- On a host that is the agent of a lock of the switch, one task holds the lock exclusively, and
-- nobody waits for it. Another task tries to acquire it exclusively and runs out of time, whatever
-- the number of its questions, since nothing happens to the lock meanwhile: the attempt returns 0,
-- with no packet sent. But when the holder then releases the lock, the task that gave up is its only
-- holder, and the host keeps the lock, again without a packet. The host is built for BMv2 and not for
-- TPCC, local grants are on, no flag of the task is set, and the numbers fit their bits.
pub abandoned_attempt_owns :
    (c : Conf) (l : InnetLock) (holder task n : ℕ)
    → c.bmv2 ≡ true
    → c.tpcc_enb_local ≡ false
    → c.enb_local_grants ≡ true
    → lock_out_of_range l ≡ false
    → l.is_agent ≡ true
    → l.mode ≡ lock_excl
    → l.holders ≡ lock_holder c.localhost_id holder ∷ []
    → l.wqueue ≡ []
    → get_or false (lookup task l.task_granted) ≡ false
    → task ≢ holder
    → c.localhost_id < 2 ^ 8
    → task < 2 ^ 30
    → (left : InnetLock) × (fl_bmv2_try_acquire_excl c l task (nothing_happens n)
        ≡ some (record { lock = left; sent = []; ret = 0 }))
      × (let r = fl_bmv2_release_excl c left holder in
          (r.lock.holders ≡ lock_holder c.localhost_id task ∷ [])
          × (r.lock.wqueue ≡ [])
          × (r.lock.mode ≡ lock_excl)
          × (r.lock.is_agent ≡ true)
          × (r.sent ≡ []))
unfolding fl_bmv2_release_excl
abandoned_attempt_owns c l holder task n bmv2 not_tpcc grants near agent mode held empty unset other
      host_fits task_fits =
    (
      left_behind c l task,
      tried_lem c l (queued c l task) task n
          (queues c l holder task bmv2 not_tpcc grants near agent mode held other)
          (unanswered c l holder task bmv2 not_tpcc grants near agent mode held other n unset)
          (left_behind c l task)
          (gives_up c l holder task bmv2 not_tpcc grants near agent mode held other),
      passed_on c l holder task bmv2 not_tpcc grants near agent mode held other host_fits task_fits
          empty,
    )
